-- ===== src/Extension/Passkeys.antt =====
-- WEBAUTHN_AVAILABLE, WEBAUTHN_HAS_CREDENTIAL, WEBAUTHN_CREATE and WEBAUTHN_GET. A ceremony waits
-- several times, and `vaultState` is read again after each wait: `Vaults` holds what it was.
use Prim.Native.Char.{code}
use Prim.Native.String
use nopass.Prelude.{
  ℕ, ◌+◌, ◌≡◌, String, Bool, true, false, not, ◌&&◌, ◌||◌, List, [], ◌∷◌, ◌++◌, Option, none, some,
  Result, ok, err, ◌>>=◌, ◌>>◌, guard, or_throw, str_eq, ◌==◌, leb, ltb, if◌then◌else◌, is_some,
  length, any,
}
use nopass.Prelude.Sets.{has}
use nopass.Types.Vault.{
  EncryptedVaultItem, EncryptedBlob, VaultItemType, VaultItemPlaintext, LoginItem,
  PasskeyCredential,
}
use nopass.Errors.{Error, request_failed}
use nopass.Platform.{Platform, to_base64, from_base64}
use nopass.Envelope.Revisions.{RevisionStore, record_revision}
use nopass.Envelope.Aad.{ItemBinding, personal, binding_for_item}
use nopass.Envelope.Format.{DecryptedItem, encrypt_vault_item}
use nopass.Autofill.{Web}
use nopass.Webauthn.{
  build_authenticator_data, build_attestation_object, sign_assertion, rp_id_matches_origin,
  Attested,
}
use nopass.Extension.Sender.{Sender, Browser, sender_origin}
use nopass.Extension.Session.{Vault}
use nopass.Extension.Reads.{Failure, refused, null_vault, or_threw, select_logins}
use nopass.Extension.Ceremony.{
  Ceremonies, Generated, Vaults, Candidate, CreateMessage, GetMessage, Attestation, Assertion,
  is_b64u_char, all_b64u, is_b64u, min_challenge_bytes, authenticator_flags, or_text, newest,
  some_candidates, build_client_data_json, is_registrable_rp_id, may_use, passkey_candidate,
}
pub mod ClientData
pub mod Candidates
pub mod Asked
pub mod Saved
pub mod Laws
pub mod Availability

module _ {K : Type 0} (env : Platform K) (web : Web) (browser : Browser)
    (ceremonies : Ceremonies) where
  unfoldable pub find_passkey_logins : Option (Vault K) → String → List String → List Candidate
  find_passkey_logins none rp_id allowed = []
  find_passkey_logins (some state) rp_id allowed =
      select_logins env (passkey_candidate rp_id allowed) state state.items

  -- `!origin`
  abbrev pub origin_of : Sender → Option String
  origin_of sender = elim (sender_origin browser sender) [
    | none ↦ none
    | some origin ↦ if str_eq origin "" then none else some origin
  ]

  unfoldable pub webauthn_available : Sender → Option (Vault K) → String → Bool
  webauthn_available sender vault rp_id = elim (origin_of sender) [
    | none ↦ false
    | some origin ↦
        if not (is_some vault) then false else may_use web browser.starts_with rp_id origin
  ]

  -- `searched` is `vaultState` when the search begins, which is at once.
  unfoldable pub webauthn_has_credential : Sender → Option (Vault K) → String → List String → Bool
  webauthn_has_credential sender vault rp_id allowed = elim (origin_of sender) [
    | none ↦ false
    | some origin ↦
        if not (is_some vault)
        then false
        else if not (may_use web browser.starts_with rp_id origin)
        then false
        else ltb 0 (length (find_passkey_logins vault rp_id allowed))
  ]

  -- The item that CREATE saves.
  unfoldable pub new_login : CreateMessage → Generated → String → LoginItem
  new_login message cred now = record {
    name = or_text message.rp_name message.rp_id;
    tags = none;
    username = or_text message.user_name message.user_display_name;
    password = "";
    urls = String.◌++◌ "https://" message.rp_id ∷ [];
    totp = none;
    notes = none;
    custom_fields = [];
    passkey = some (record {
      credential_id = ceremonies.bytes_to_b64u cred.credential_id;
      rp_id = message.rp_id;
      user_handle = message.user_handle;
      user_name = or_text message.user_name message.user_display_name;
      private_key_pkcs8 = to_base64 env cred.private_key_pkcs8;
      sign_count = 0;
      created_at = now;
    });
  }

  -- The checks of CREATE before the user is asked: the client data.
  unfoldable pub prepare_create :
      Sender → Option (Vault K) → CreateMessage → Result Failure (List ℕ)
  prepare_create sender vault message = do
    origin ← or_throw (origin_of sender) (refused "unauthorized")
    guard (is_some vault) (refused "locked")
    guard (may_use web browser.starts_with message.rp_id origin)
        (refused "rpId does not match origin")
    guard
        (not (
          any (λ c. has c.passkey.credential_id message.exclude_credential_ids)
            (find_passkey_logins vault message.rp_id [])))
        (refused "already registered")
    or_throw
        (build_client_data_json ceremonies env.encode_text "webauthn.create" message.challenge
          origin)
        (refused "invalid challenge")

  -- CREATE from the encryption of the item on: the vault after it. `server` gives the created item to
  -- a request, or nothing.
  unfoldable pub save_created :
      Vaults K
      → LoginItem
      → String
      → List ℕ
      → (String → String → EncryptedBlob → String → Option EncryptedVaultItem)
      → Result Failure (Vault K)
  save_created vaults item item_id iv server = do
    encrypting ← or_throw vaults.encrypting null_vault
    written ← or_threw (
        encrypt_vault_item env (VaultItemPlaintext.login item)
          (record { scope = personal; item_id = item_id; item_type = VaultItemType.login })
          encrypting.vault_enc_key (some encrypting.revisions) none iv)
    requesting ← or_throw vaults.requesting null_vault
    created ← or_threw (
        or_throw (server requesting.default_vault_id item_id written.0 requesting.session_token)
          request_failed)
    answered ← or_throw vaults.answered null_vault
    ok (record answered {
      revisions = record_revision answered.revisions item_id written.1;
      items = answered.items ++ created ∷ [];
    })

  unfoldable pub create_auth_data : String → Generated → List ℕ
  create_auth_data rp_id cred =
      build_authenticator_data env.encode_text ceremonies.sha256 rp_id authenticator_flags 0 (
        some
          (record { credential_id = cred.credential_id; cose_public_key = cred.cose_public_key }))

  -- CREATE, with the vault after it. `approved` is the user's answer; `item_id`, `iv` and `now` are
  -- chosen here.
  unfoldable pub webauthn_create :
      Sender
      → Vaults K
      → CreateMessage
      → Bool
      → Generated
      → String
      → List ℕ
      → String
      → (String → String → EncryptedBlob → String → Option EncryptedVaultItem)
      → Result Failure (Attestation × Vault K)
  webauthn_create sender vaults message approved cred item_id iv now server = do
    client_data_json ← prepare_create sender vaults.first message
    guard approved (refused "declined")
    guard (is_some vaults.consented) (refused "locked")
    after ← save_created vaults (new_login message cred now) item_id iv server
    ok (
      record {
        credential_id = cred.credential_id;
        attestation_object =
            build_attestation_object env.encode_text (create_auth_data message.rp_id cred);
        auth_data = create_auth_data message.rp_id cred;
        public_key_spki = cred.public_key_spki;
        client_data_json = client_data_json;
      },
      after,
    )

  -- The checks of GET before the user is asked: the candidates, the first and the rest, and the client
  -- data.
  unfoldable pub prepare_get :
      Sender → Option (Vault K) → GetMessage → Result Failure (Candidate × List Candidate × List ℕ)
  prepare_get sender vault message = do
    origin ← or_throw (origin_of sender) (refused "unauthorized")
    guard (is_some vault) (refused "locked")
    guard (may_use web browser.starts_with message.rp_id origin)
        (refused "rpId does not match origin")
    candidates ←
        some_candidates (find_passkey_logins vault message.rp_id message.allow_credential_ids)
    client_data_json ←
        or_throw
          (build_client_data_json ceremonies env.encode_text "webauthn.get" message.challenge
            origin)
          (refused "invalid challenge")
    ok (candidates.0, candidates.1, client_data_json)

  -- `Object.assign(item, encrypted, { version, updatedAt })`: the item of that id, which is the object
  -- itself unless the vault was unlocked anew while the ceremony waited.
  unfoldable pub assign_item :
      String → EncryptedBlob → ℕ → String → List EncryptedVaultItem → List EncryptedVaultItem
  assign_item id encrypted version updated_at [] = []
  assign_item id encrypted version updated_at (item ∷ items) =
      let rest = assign_item id encrypted version updated_at items in
      if str_eq item.id id
      then record item { encrypted = encrypted; version = version; updated_at = updated_at } ∷ rest
      else item ∷ rest

  -- The signature over the authenticator data and the hash of the client data.
  unfoldable pub sign_with : PasskeyCredential → List ℕ → List ℕ → Result Failure (List ℕ)
  sign_with passkey auth_data client_data_json = do
    pkcs8 ← or_threw (from_base64 env passkey.private_key_pkcs8)
    or_threw (sign_assertion ceremonies.sign pkcs8 auth_data (ceremonies.sha256 client_data_json))

  -- GET from the encryption of the item on: the vault after it. `server` gives the new version and
  -- time of the item, or nothing.
  unfoldable pub save_used :
      Vaults K
      → Candidate
      → List ℕ
      → (String → String → EncryptedBlob → ℕ → String → Option (ℕ × String))
      → Result Failure (Vault K)
  save_used vaults chosen iv server = do
    encrypting ← or_throw vaults.encrypting null_vault
    written ← or_threw (
        encrypt_vault_item env
          (VaultItemPlaintext.login (record chosen.plain {
            passkey = some (record chosen.passkey { sign_count = chosen.passkey.sign_count + 1 });
          }))
          (binding_for_item chosen.item) encrypting.vault_enc_key (some encrypting.revisions)
          (some chosen.current.revision) iv)
    requesting ← or_throw vaults.requesting null_vault
    updated ← or_threw (
        or_throw
          (server chosen.item.vault_id chosen.item.id written.0 chosen.item.version
            requesting.session_token)
          request_failed)
    answered ← or_throw vaults.answered null_vault
    ok (record answered {
      revisions = record_revision answered.revisions chosen.item.id written.1;
      items = assign_item chosen.item.id written.0 updated.0 updated.1 answered.items;
    })

  -- GET, with the vault after it. The signature is made before the new sign count is saved.
  unfoldable pub webauthn_get :
      Sender
      → Vaults K
      → GetMessage
      → Bool
      → List ℕ
      → (String → String → EncryptedBlob → ℕ → String → Option (ℕ × String))
      → Result Failure (Assertion × Vault K)
  webauthn_get sender vaults message approved iv server = do
    prepared ← prepare_get sender vaults.first message
    guard approved (refused "declined")
    guard (is_some vaults.consented) (refused "locked")
    let chosen = newest ceremonies.locale_greater prepared.0 prepared.1
    let auth_data =
        build_authenticator_data env.encode_text ceremonies.sha256 message.rp_id authenticator_flags
          (chosen.passkey.sign_count + 1) none
    signature ← sign_with chosen.passkey auth_data prepared.2
    after ← save_used vaults chosen iv server
    ok (
      record {
        credential_id = chosen.passkey.credential_id;
        auth_data = auth_data;
        signature = signature;
        user_handle = chosen.passkey.user_handle;
        client_data_json = prepared.2;
      },
      after,
    )
