-- ===== src/Tests/Ceremonies.antt =====
-- The passkey ceremonies of the extension, each to its end.
use nopass.Prelude.{
  ℕ, ◌+◌, ◌≡◌, refl, ◌↔◌, ◌⊎◌, inl, inr, String, Bool, true, false, not, ◌&&◌, ◌||◌, List, [], ◌∷◌,
  ◌++◌, Option, none, some, Result, ok, err, str_eq, is_some, if◌then◌else◌,
}
use nopass.Prelude.Maps.{lookup}
use nopass.Types.Vault.{EncryptedVaultItem, EncryptedBlob}
use nopass.Extension.Sender.{sender_origin}
use nopass.Extension.Session.{Vault}
use nopass.Extension.Reads.{Failure, SearchResult, search_result, search_items, select_logins}
use nopass.Extension.Ceremony.{
  Ceremonies, Generated, Vaults, CreateMessage, GetMessage, Attestation, Assertion,
}
use nopass.Extension.Passkeys.{webauthn_create, webauthn_get, save_created, new_login}
use nopass.Extension.Passkeys.Laws.{
  Asserted, Attested, webauthn_get-Asserted, webauthn_create-Attested,
}
use nopass.Extension.Passkeys.Saved.{Saved}
use nopass.Tests.Extension.{a_platform, a_web, a_browser, a_page, login_item, a_vault}

abbrev a_ceremonies : Ceremonies
a_ceremonies = record {
  bytes_to_b64u = λ bs. "AA";
  b64u_to_bytes = λ s. some (0 ∷ 0 ∷ 0 ∷ 0 ∷ 0 ∷ 0 ∷ 0 ∷ 0 ∷ 0 ∷ 0 ∷ 0 ∷ 0 ∷ 0 ∷ 0 ∷ 0 ∷ 0 ∷ []);
  client_data = λ type challenge origin. origin;
  sha256 = λ bs. [];
  sign = λ key m.
      let sixteen = 1 ∷ 1 ∷ 1 ∷ 1 ∷ 1 ∷ 1 ∷ 1 ∷ 1 ∷ 1 ∷ 1 ∷ 1 ∷ 1 ∷ 1 ∷ 1 ∷ 1 ∷ 1 ∷ [] in
      sixteen ++ (sixteen ++ (sixteen ++ sixteen));
  locale_greater = λ s t. false;
}

abbrev always : Vaults ℕ
always = record {
  first = some a_vault;
  consented = some a_vault;
  encrypting = some a_vault;
  requesting = some a_vault;
  answered = some a_vault;
}

abbrev a_get : GetMessage
a_get = record { rp_id = "site.test"; challenge = "AA"; allow_credential_ids = [] }

abbrev get_or_empty : Result Failure (Assertion × Vault ℕ) → Assertion × Vault ℕ
get_or_empty (ok r) = r
get_or_empty (err e) = (
  record {
    credential_id = "";
    auth_data = [];
    signature = [];
    user_handle = "";
    client_data_json = [];
  },
  a_vault,
)

abbrev got : Assertion × Vault ℕ
got = get_or_empty (
    webauthn_get a_platform a_web a_browser a_ceremonies a_page always a_get true []
      (λ vault id blob version token. some (2, "t1")))

got_ok :
    webauthn_get a_platform a_web a_browser a_ceremonies a_page always a_get true []
      (λ vault id blob version token. some (2, "t1"))
    ≡ ok (got.0, got.1)
unfolding webauthn_get nopass.Extension.Passkeys.prepare_get nopass.Extension.Ceremony.newest
    nopass.Extension.Passkeys.save_used nopass.Extension.Passkeys.sign_with
    nopass.Webauthn.sign_assertion nopass.Webauthn.raw_sig_to_der nopass.Webauthn.encode_int
    nopass.Webauthn.pad_sign nopass.Webauthn.strip_zeros sender_origin
    nopass.Extension.Ceremony.may_use nopass.Webauthn.rp_id_matches_origin
    nopass.Webauthn.rp_id_matches nopass.Extension.Ceremony.is_registrable_rp_id
    nopass.Extension.Passkeys.find_passkey_logins select_logins nopass.Extension.Reads.login_of
    nopass.Extension.Reads.decrypt_stored nopass.Envelope.Format.decrypt_vault_item
    nopass.Envelope.Format.open_blob nopass.Envelope.Format.open_v1
    nopass.Envelope.Legacy.decrypt_item nopass.Envelope.Aad.binding_for_item
    nopass.Envelope.Format.check_revision nopass.Envelope.Aad.item_aad
    nopass.Envelope.Aad.scope_bytes nopass.Envelope.Aad.scope_of nopass.Envelope.Aad.u64be
    nopass.Envelope.Format.encrypt_item_v2 nopass.Envelope.Format.encrypt_vault_item
    nopass.Envelope.Format.next_revision nopass.Envelope.Revisions.get
    nopass.Extension.Ceremony.build_client_data_json nopass.Extension.Ceremony.is_b64u
    nopass.Extension.Ceremony.passkey_candidate lookup nopass.Uuid.uuid_bytes
    nopass.Prelude.Sets.has
got_ok = refl

webauthn_get-Asserted_example :
    Asserted a_platform a_web a_browser a_ceremonies a_page always a_get true got.0
webauthn_get-Asserted_example =
    webauthn_get-Asserted a_platform a_web a_browser a_ceremonies a_page always a_get true []
      (λ vault id blob version token. some (2, "t1")) got.0 got.1 got_ok

abbrev a_create : CreateMessage
a_create = record {
  rp_id = "site.test";
  rp_name = "";
  user_name = "name";
  user_display_name = "";
  user_handle = "user";
  exclude_credential_ids = "other" ∷ [];
  challenge = "AA";
}

abbrev a_credential : Generated
a_credential = record {
  credential_id = 5 ∷ [];
  cose_public_key = [];
  private_key_pkcs8 = [];
  public_key_spki = [];
}

abbrev create_or_empty : Result Failure (Attestation × Vault ℕ) → Attestation × Vault ℕ
create_or_empty (ok r) = r
create_or_empty (err e) = (
  record {
    credential_id = [];
    attestation_object = [];
    auth_data = [];
    public_key_spki = [];
    client_data_json = [];
  },
  a_vault,
)

abbrev a_server : String → String → EncryptedBlob → String → Option EncryptedVaultItem
a_server vault id blob token = some (record login_item { id = id; encrypted = blob })

abbrev made : Attestation × Vault ℕ
made = create_or_empty (
    webauthn_create a_platform a_web a_browser a_ceremonies a_page always a_create true a_credential
      login_item.id [] "t1" a_server)

made_ok :
    webauthn_create a_platform a_web a_browser a_ceremonies a_page always a_create true a_credential
      login_item.id [] "t1" a_server
    ≡ ok (made.0, made.1)
unfolding webauthn_create nopass.Extension.Passkeys.prepare_create save_created new_login
    sender_origin nopass.Extension.Ceremony.may_use nopass.Webauthn.rp_id_matches_origin
    nopass.Webauthn.rp_id_matches nopass.Extension.Ceremony.is_registrable_rp_id
    nopass.Extension.Passkeys.find_passkey_logins select_logins nopass.Extension.Reads.login_of
    nopass.Extension.Reads.decrypt_stored nopass.Envelope.Format.decrypt_vault_item
    nopass.Envelope.Format.open_blob nopass.Envelope.Format.open_v1
    nopass.Envelope.Legacy.decrypt_item nopass.Envelope.Aad.binding_for_item
    nopass.Envelope.Format.check_revision nopass.Envelope.Aad.item_aad
    nopass.Envelope.Aad.scope_bytes nopass.Envelope.Aad.scope_of nopass.Envelope.Aad.u64be
    nopass.Envelope.Format.encrypt_item_v2 nopass.Envelope.Format.encrypt_vault_item
    nopass.Envelope.Format.next_revision nopass.Envelope.Revisions.get
    nopass.Extension.Ceremony.build_client_data_json nopass.Extension.Ceremony.is_b64u
    nopass.Extension.Ceremony.passkey_candidate lookup nopass.Uuid.uuid_bytes
    nopass.Prelude.Sets.has
made_ok = refl

webauthn_create-Attested_example :
    Attested a_platform a_web a_browser a_ceremonies a_page always a_create true a_credential made.0
    × Saved a_platform a_web a_browser a_ceremonies always a_create a_credential login_item.id []
        a_server made.1
webauthn_create-Attested_example =
    webauthn_create-Attested a_platform a_web a_browser a_ceremonies a_page always a_create true
      a_credential login_item.id [] "t1" a_server made.0 made.1 made_ok
