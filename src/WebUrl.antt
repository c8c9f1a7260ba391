-- ===== src/WebUrl.antt =====
-- apps/extension/src/lib/web-url.ts. `api_suffix host` is what follows "api." in a host that starts
-- with it.
use Prim.Native.String
use nopass.Prelude.{String, Bool, ◌||◌, Option, none, some, str_eq, if◌then◌else◌, get_or_else}
use nopass.Autofill.{Url}

module _ (parse_url : String → Option Url) (api_suffix : String → Option String) where
  abbrev pub is_local : Url → Bool
  is_local url = str_eq url.hostname "localhost" || str_eq url.hostname "127.0.0.1"

  unfoldable pub web_vault_url : String → String
  web_vault_url api_base = elim (parse_url api_base) [
    | none ↦ "https://nopwd.dev/vault"
    | some url ↦
        if is_local url
        then String.◌++◌ url.protocol (String.◌++◌ "//" (String.◌++◌ url.hostname ":4020/vault"))
        else String.◌++◌ url.protocol (
            String.◌++◌ "//"
              (String.◌++◌ (get_or_else (api_suffix url.hostname) url.hostname) "/vault"))
  ]

  unfoldable pub site_hostname : String → String
  site_hostname tab_url = elim (parse_url tab_url) [
    | none ↦ ""
    | some url ↦
        if str_eq url.protocol "http:" || str_eq url.protocol "https:" then url.hostname else ""
  ]
