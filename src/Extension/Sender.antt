-- ===== src/Extension/Sender.antt =====
-- Who sent a message to the service worker. The fields of a sender are set by the browser; one that
-- is absent is nothing.
use Prim.Native.String
use nopass.Prelude.{
  ℕ, ◌≡◌, String, Bool, true, false, not, ◌&&◌, ◌||◌, Option, none, some, str_eq, is_some,
  if◌then◌else◌,
}
pub mod Laws

-- `chrome.runtime.MessageSender`; `tab` is the tab with its id, which may be absent itself.
pub record Sender : Type 0 where
  pub id : Option String
  pub url : Option String
  pub origin : Option String
  pub tab : Option (Option ℕ)
  pub frame_id : Option ℕ
  pub document_id : Option String

-- `chrome.runtime.id`, `chrome.runtime.getURL(path)`, `s.startsWith(prefix)`, `new URL(s).origin`
-- (nothing if it throws), and a number in a template string.
pub record Browser : Type 0 where
  pub runtime_id : String
  pub get_url : String → String
  pub starts_with : String → String → Bool
  pub url_origin : String → Option String
  pub number : ℕ → String

abbrev pub consent_page : String
consent_page = "src/consent/index.html"

-- `s !== undefined && s !== ""`
abbrev pub is_truthy : Option String → Bool
is_truthy none = false
is_truthy (some s) = not (str_eq s "")

module _ (browser : Browser) where
  -- `sender.id === chrome.runtime.id`
  abbrev pub is_ours : Option String → Bool
  is_ours none = false
  is_ours (some id) = str_eq id browser.runtime_id

  -- `url?.startsWith(prefix) ?? false`
  abbrev pub url_starts_with : Option String → String → Bool
  url_starts_with none prefix = false
  url_starts_with (some url) prefix = browser.starts_with url prefix

  unfoldable pub is_extension_page : Sender → Bool
  is_extension_page sender = is_ours sender.id && not (is_some sender.tab)

  unfoldable pub is_extension_context : Sender → Bool
  is_extension_context sender =
      is_ours sender.id
      && url_starts_with sender.url
          (String.◌++◌ "chrome-extension://" (String.◌++◌ browser.runtime_id "/"))

  unfoldable pub is_consent_page : Sender → Bool
  is_consent_page sender =
      is_ours sender.id && url_starts_with sender.url (browser.get_url consent_page)

  -- `new URL(sender.url).origin`
  abbrev pub address_origin : Option String → Option String
  address_origin none = none
  address_origin (some url) = browser.url_origin url

  -- `sender.origin`, else the origin of the address.
  abbrev pub origin_or : Option String → Option String → Option String
  origin_or none url = address_origin url
  origin_or (some origin) url = if str_eq origin "" then address_origin url else some origin

  unfoldable pub sender_origin : Sender → Option String
  sender_origin sender =
      if not (is_ours sender.id) || (not (is_some sender.tab) || not (is_truthy sender.url))
      then none
      else origin_or sender.origin sender.url
