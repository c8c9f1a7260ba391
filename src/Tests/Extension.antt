-- ===== src/Tests/Extension.antt =====
-- The messages of the extension: fills, searches and consents.
use nopass.Prelude.{ℕ, refl, inl, true, false, List, [], ◌∷◌, none, some, str_eq}
use nopass.Prelude.Maps.{lookup, insert}
use nopass.Types.Vault.{
  EncryptedVaultItem, VaultItemType, VaultItemPlaintext, LoginItem, PasskeyCredential,
}
use nopass.Platform.{Platform}
use nopass.Autofill.{Web}
use nopass.Extension.Sender.{Sender, Browser, is_extension_page, is_consent_page}
use nopass.Extension.Session.{Vault}
use nopass.Extension.Reads.{Failure, SearchResult, search_result, search_items, select_logins}
use nopass.Extension.Fill.{Fill, autofill, resolve_fill_target, prepare_fill}
use nopass.Extension.Fill.Laws.{Allowed, autofill-Allowed}
use nopass.Extension.Consent.{ConsentRequest, Kind, Waiting, Consents, consent_result}
use nopass.Extension.Consent.Laws.{Event, asked, answered, Approved, Decided-Approved}
use nopass.Tests.Toy.{toy}
use nopass.Tests.Envelope.{a_store}
use nopass.Tests.Sync.{an_item}

abbrev a_passkey : PasskeyCredential
a_passkey = record {
  credential_id = "cred";
  rp_id = "site.test";
  user_handle = "user";
  user_name = "name";
  private_key_pkcs8 = "b";
  sign_count = 4;
  created_at = "2024";
}

abbrev pub a_login : LoginItem
a_login = record {
  name = "site";
  tags = none;
  username = "name";
  password = "secret";
  urls = "https://site.test" ∷ [];
  totp = none;
  notes = none;
  custom_fields = [];
  passkey = some a_passkey;
}

-- Every item decrypts to that login.
abbrev pub a_platform : Platform ℕ
a_platform = record toy { parse_json = λ s. some (VaultItemPlaintext.login a_login) }

abbrev pub a_web : Web
a_web = record {
  parse_url = λ s. some (record { protocol = "https:"; hostname = "site.test"; port = "" });
  registrable_domain = λ s. some s;
  ends_with = λ s suffix. false;
  includes_ignoring_case = λ s t. true;
}

abbrev pub a_browser : Browser
a_browser = record {
  runtime_id = "ext";
  get_url = λ path. path;
  starts_with = λ s prefix. str_eq s prefix;
  url_origin = λ url. some url;
  number = λ n. "7";
}

abbrev popup : Sender
popup = record {
  id = some "ext";
  url = some "chrome-extension://ext/";
  origin = none;
  tab = none;
  frame_id = none;
  document_id = none;
}

abbrev pub a_page : Sender
a_page = record {
  id = some "ext";
  url = some "https://site.test";
  origin = none;
  tab = some (some 7);
  frame_id = some 0;
  document_id = none;
}

abbrev pub login_item : EncryptedVaultItem
login_item = record an_item { item_type = VaultItemType.login }

abbrev pub a_vault : Vault ℕ
a_vault = record {
  session_token = "token";
  default_vault_id = "vault";
  vault_enc_key = 1;
  vault_mac_key = 1;
  items = login_item ∷ [];
  revisions = a_store;
}

abbrev a_fill : Fill
a_fill = record {
  target = record { frame_id = 0; document_id = none; origin = "https://site.test" };
  username = "name";
  password = "secret";
}

autofill-Allowed_example :
    Allowed a_platform a_web a_browser popup
      (some a_vault)
      (some a_vault)
      login_item.id
      none
      (resolve_fill_target a_browser [] (some "https://site.test") 7)
      a_fill
unfolding autofill prepare_fill is_extension_page nopass.Extension.Reads.read_login
    nopass.Extension.Reads.decrypt_stored nopass.Envelope.Format.decrypt_vault_item
    nopass.Envelope.Format.open_blob nopass.Envelope.Format.open_v1
    nopass.Envelope.Legacy.decrypt_item nopass.Envelope.Aad.binding_for_item
    nopass.Envelope.Format.check_revision nopass.Envelope.Revisions.get lookup resolve_fill_target
    nopass.Autofill.url_matches nopass.Autofill.origin_matches nopass.Autofill.urls_match
    nopass.Autofill.default_port nopass.Autofill.host_matches
autofill-Allowed_example =
    autofill-Allowed a_platform a_web a_browser popup (some a_vault) (some a_vault) login_item.id 7
      none (some "https://site.test") (λ f. true) [] a_fill refl

abbrev consent_window : Sender
consent_window = record popup { url = some "src/consent/index.html" }

abbrev a_history : List Event
a_history =
    answered consent_window "r" true
    ∷ asked "r" (record { kind = Kind.get; rp_id = "site.test"; origin = "https://site.test" })
    ∷ []

Decided-Approved_example : Approved a_browser "r" a_history
unfolding consent_result is_consent_page nopass.Extension.Consent.settle_pending lookup
    nopass.Extension.Consent.request_consent insert nopass.Extension.Consent.settle
Decided-Approved_example = Decided-Approved a_browser "r" a_history (inl refl)
