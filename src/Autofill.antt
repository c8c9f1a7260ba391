-- ===== src/Autofill.antt =====
-- apps/extension/src/lib/url-match.ts: which saved addresses may be filled into a page. `new URL` and
-- the Public Suffix List (tldts) are parameters; the fields of a URL are the ones the code reads.
use Prim.Native.String
use nopass.Prelude.{
  ℕ, ◌≡◌, String, Bool, true, false, not, ◌&&◌, ◌||◌, List, Option, none, some, any, str_eq,
  if◌then◌else◌,
}
pub mod Laws
pub mod Rules

pub record Url : Type 0 where
  pub protocol : String
  pub hostname : String
  pub port : String

-- `new URL(url)`, nothing if it throws; the registrable domain of a host; `s.endsWith(suffix)`; and
-- `s.toLowerCase().includes(t.toLowerCase())`.
pub record Web : Type 0 where
  pub parse_url : String → Option Url
  pub registrable_domain : String → Option String
  pub ends_with : String → String → Bool
  pub includes_ignoring_case : String → String → Bool

module _ (web : Web) where
  unfoldable pub is_loopback : String → Bool
  is_loopback hostname =
      str_eq hostname "localhost"
      || (str_eq hostname "127.0.0.1"
          || (str_eq hostname "[::1]" || web.ends_with hostname ".localhost"))

  -- `parseUrl(url)?.hostname || null`
  unfoldable pub hostname_of : String → Option String
  hostname_of url = elim (web.parse_url url) [
    | none ↦ none
    | some u ↦ if str_eq u.hostname "" then none else some u.hostname
  ]

  unfoldable pub default_port : String → String
  default_port protocol = if str_eq protocol "https:" then "443" else "80"

  -- `registrableDomain(host) === host`
  abbrev pub is_domain : Option String → String → Bool
  is_domain none host = false
  is_domain (some d) host = str_eq d host

  unfoldable pub host_matches : String → String → Bool
  host_matches item_host page_host =
      if str_eq item_host page_host
      then true
      else if not (web.ends_with page_host (String.◌++◌ "." item_host))
      then false
      else is_domain (web.registrable_domain item_host) item_host

  -- `port || defaultPort(protocol)`
  abbrev pub port_or_default : String → String → String
  port_or_default port protocol = if str_eq port "" then default_port protocol else port

  -- The body of `originMatches` once both addresses are parsed.
  unfoldable pub urls_match : Url → Url → Bool
  urls_match item page =
      if str_eq item.hostname "" || str_eq page.hostname ""
      then false
      else if not (str_eq item.protocol "https:") && not (str_eq item.protocol "http:")
      then false
      else if str_eq page.protocol "http:"
          && (not (str_eq item.protocol "http:") && not (is_loopback page.hostname))
      then false
      else if not (str_eq page.protocol "http:") && not (str_eq page.protocol "https:")
      then false
      else if not (
          str_eq
            (if str_eq item.protocol page.protocol
              then port_or_default item.port page.protocol
              else default_port page.protocol)
            (port_or_default page.port page.protocol))
      then false
      else host_matches item.hostname page.hostname

  unfoldable pub origin_matches : String → String → Bool
  origin_matches item_url page_origin = elim (web.parse_url item_url) [
    | none ↦ false
    | some item ↦ elim (web.parse_url page_origin) [
      | none ↦ false
      | some page ↦ urls_match item page
    ]
  ]

  unfoldable pub url_matches : List String → String → Bool
  url_matches item_urls page_url = any (λ u. origin_matches u page_url) item_urls

  unfoldable pub name_matches : String → String → Bool
  name_matches name query = if str_eq query "" then true else web.includes_ignoring_case name query

  unfoldable pub is_fillable_origin : String → Bool
  is_fillable_origin origin = elim (web.parse_url origin) [
    | none ↦ false
    | some url ↦
        str_eq url.protocol "https:" || (str_eq url.protocol "http:" && is_loopback url.hostname)
  ]
