-- ===== src/Extension/Passkeys/Laws.antt =====
-- When a page may use or save a passkey, and what is signed.
use nopass.Prelude.{
  In, some, inl, inr, ◌∙◌, ◌++◌, Option-cases, Result-cases, ℕ, ◌+◌, ◌≡◌, sym, ap, subst, String,
  Bool, true, not, List, [], Option, none, ok, arith, is_some, any, bind_ok, guard_ok, or_throw,
  or_throw_ok,
}
use nopass.Prelude.Sets.{has}
use nopass.Types.Vault.{EncryptedVaultItem, EncryptedBlob, PasskeyCredential}
use nopass.Platform.{Platform}
use nopass.Autofill.{Web}
use nopass.Webauthn.{
  raw_sig_to_der, sign_assertion, build_authenticator_data, build_attestation_object,
}
use nopass.Extension.Sender.{Sender, Browser}
use nopass.Extension.Session.{Vault}
use nopass.Extension.Reads.{refused}
use nopass.Extension.Ceremony.{
  Ceremonies, Generated, Vaults, Candidate, CreateMessage, GetMessage, Attestation, Assertion,
  authenticator_flags, newest, build_client_data_json, may_use,
}
use nopass.Extension.Passkeys.{
  find_passkey_logins, origin_of, new_login, prepare_create, webauthn_create, prepare_get,
  save_created, create_auth_data, save_used, sign_with, webauthn_get,
}
use nopass.Extension.Passkeys.ClientData.{ClientData, build_client_data_json-ClientData}
use nopass.Extension.Passkeys.Candidates.{In-newest, Usable, find_passkey_logins-Usable}
use nopass.Extension.Passkeys.Asked.{Asks, origin_of-some, prepare_get-Prepared}
use nopass.Extension.Passkeys.Saved.{
  NoneExcluded, Saved, find_passkey_logins-NoneExcluded, save_created-Saved,
}

module _ {K : Type 0} (env : Platform K) (web : Web) (browser : Browser)
    (ceremonies : Ceremonies) where
  -- A signature with the private key of a passkey over authenticator data and the hash of client data,
  -- in DER.
  abbrev pub SignedOver : PasskeyCredential → List ℕ → List ℕ → List ℕ → Type 0
  SignedOver passkey auth_data client_data_json signature =
      (pkcs8 : List ℕ) × (env.atob passkey.private_key_pkcs8 ≡ some pkcs8)
      × (raw_sig_to_der (ceremonies.sign pkcs8 (auth_data ++ ceremonies.sha256 client_data_json))
          ≡ ok signature)

  sign_with-SignedOver :
      (passkey : PasskeyCredential) (auth_data client_data_json signature : List ℕ)
      → sign_with env web browser ceremonies passkey auth_data client_data_json ≡ ok signature
      → SignedOver passkey auth_data client_data_json signature
  unfolding sign_with sign_assertion
  sign_with-SignedOver passkey auth_data client_data_json signature h =
      elim (Option-cases (env.atob passkey.private_key_pkcs8)) [
        | inl unreadable ↦ absurd (ground arith)
        | inr (pkcs8, there) ↦
            elim (Result-cases (
              raw_sig_to_der
                (ceremonies.sign pkcs8 (auth_data ++ ceremonies.sha256 client_data_json)))) [
                  | inr (e, failed) ↦ absurd (ground arith)
                  | inl (der, made) ↦
                      let same : der ≡ signature = ground arith in (pkcs8, there, made ∙ ap ok same)
                ]
      ]

  -- An assertion: who asked, the passkey that was used, and what was signed.
  pub record Asserted (sender : Sender) (vaults : Vaults K) (message : GetMessage) (approved : Bool)
      (assertion : Assertion) : Type 0 where
    pub origin : String
    pub asks : Asks env web browser ceremonies sender vaults.first message.rp_id origin
    pub consent : approved ≡ true
    pub still_unlocked : is_some vaults.consented ≡ true
    pub client_data :
        ClientData ceremonies env.encode_text "webauthn.get" message.challenge origin
          assertion.client_data_json
    pub used : Candidate
    pub usable :
        Usable env web browser ceremonies vaults.first message.rp_id message.allow_credential_ids
          used
    pub credential_id : assertion.credential_id ≡ used.passkey.credential_id
    pub auth_data :
        assertion.auth_data
        ≡ build_authenticator_data env.encode_text ceremonies.sha256 message.rp_id
            authenticator_flags
            (used.passkey.sign_count + 1)
            none
    pub signed :
        SignedOver used.passkey assertion.auth_data assertion.client_data_json assertion.signature

  -- An assertion is given only to a content script whose origin, as the browser sets it, may use the
  -- relying party's passkeys, of a vault that is unlocked before and after the user approved; it is
  -- made with a passkey of that party among those allowed, over client data of that origin with a
  -- challenge of at least 16 bytes, with the next sign count, and signed over both.
  pub webauthn_get-Asserted :
      (sender : Sender) (vaults : Vaults K) (message : GetMessage) (approved : Bool) (iv : List ℕ)
      (server : String → String → EncryptedBlob → ℕ → String → Option (ℕ × String))
      (assertion : Assertion) (after : Vault K)
      → webauthn_get env web browser ceremonies sender vaults message approved iv server
        ≡ ok (assertion, after)
      → Asserted sender vaults message approved assertion
  unfolding webauthn_get
  webauthn_get-Asserted sender vaults message approved iv server assertion after h =
      let ((first, rest, json), e, h1) =
        bind_ok (prepare_get env web browser ceremonies sender vaults.first message) _ _ h in
      let (consent, h2) = guard_ok approved _ _ _ h1 in
      let (still, h3) = guard_ok (is_some vaults.consented) _ _ _ h2 in
      let used = newest ceremonies.locale_greater first rest in
      let auth_data =
        build_authenticator_data env.encode_text ceremonies.sha256 message.rp_id authenticator_flags
          (used.passkey.sign_count + 1) none in
      let (signature, signed, h4) =
        bind_ok (sign_with env web browser ceremonies used.passkey auth_data json) _ _ h3 in
      let prepared =
        prepare_get-Prepared env web browser ceremonies sender vaults.first message first rest json
          e in
      let (saved, e5, h5) =
        bind_ok (save_used env web browser ceremonies vaults used iv server) _ _ h4 in
      let made : record {
        credential_id = used.passkey.credential_id;
        auth_data = auth_data;
        signature = signature;
        user_handle = used.passkey.user_handle;
        client_data_json = json;
      }
          ≡ assertion =
        cc h5 in
      let listed =
        subst (In used) (sym prepared.candidates)
          (In-newest ceremonies.locale_greater first rest) in
      record {
        origin = prepared.origin;
        asks = prepared.asks;
        consent = consent;
        still_unlocked = still;
        client_data =
            subst
              (λ (a : Assertion).
                ClientData ceremonies env.encode_text "webauthn.get" message.challenge
                  prepared.origin a.client_data_json)
              made prepared.client_data;
        used = used;
        usable =
            find_passkey_logins-Usable env web browser ceremonies vaults.first message.rp_id
              message.allow_credential_ids used listed;
        credential_id = ap (λ (a : Assertion). a.credential_id) (sym made);
        auth_data = ap (λ (a : Assertion). a.auth_data) (sym made);
        signed =
            subst
              (λ (a : Assertion).
                SignedOver used.passkey a.auth_data a.client_data_json a.signature)
              made (sign_with-SignedOver used.passkey auth_data json signature signed);
      }

  -- A registration: who asked, that no excluded credential is there, and what was saved.
  pub record Attested (sender : Sender) (vaults : Vaults K) (message : CreateMessage)
      (approved : Bool) (cred : Generated) (attestation : Attestation) : Type 0 where
    pub origin : String
    pub asks : Asks env web browser ceremonies sender vaults.first message.rp_id origin
    pub consent : approved ≡ true
    pub still_unlocked : is_some vaults.consented ≡ true
    pub none_excluded : NoneExcluded env web browser ceremonies vaults.first message
    pub client_data :
        ClientData ceremonies env.encode_text "webauthn.create" message.challenge origin
          attestation.client_data_json
    pub auth_data :
        attestation.auth_data ≡ create_auth_data env web browser ceremonies message.rp_id cred

  -- A registration is answered only to a content script whose origin may use the relying party's
  -- passkeys, of a vault that is unlocked before and after the user approved, when no login of the vault
  -- that can be read holds an excluded passkey of the party, over client data of that origin with a
  -- challenge of at least 16 bytes; and the new credential was saved: sealed in a login under the key of
  -- the vault, sent to the server, and its answer is in the vault.
  pub webauthn_create-Attested :
      (sender : Sender) (vaults : Vaults K) (message : CreateMessage) (approved : Bool)
      (cred : Generated) (item_id : String) (iv : List ℕ) (now : String)
      (server : String → String → EncryptedBlob → String → Option EncryptedVaultItem)
      (attestation : Attestation) (after : Vault K)
      → webauthn_create env web browser ceremonies sender vaults message approved cred item_id iv
          now server
        ≡ ok (attestation, after)
      → Attested sender vaults message approved cred attestation
        × Saved env web browser ceremonies vaults message cred item_id iv server after
  unfolding webauthn_create prepare_create
  webauthn_create-Attested sender vaults message approved cred item_id iv now server attestation
        after h =
      let (json, e, h1) =
        bind_ok (prepare_create env web browser ceremonies sender vaults.first message) _ _ h in
      let (consent, h2) = guard_ok approved _ _ _ h1 in
      let (still, h3) = guard_ok (is_some vaults.consented) _ _ _ h2 in
      let item = new_login env web browser ceremonies message cred now in
      let (saved, e4, h4) =
        bind_ok (save_created env web browser ceremonies vaults item item_id iv server) _ _ h3 in
      let (origin, e0, g1) =
        bind_ok (or_throw (origin_of env web browser ceremonies sender) (refused "unauthorized")) _
          _ e in
      let (unlocked, g2) = guard_ok (is_some vaults.first) _ _ _ g1 in
      let (allowed, g3) =
        guard_ok (may_use web browser.starts_with message.rp_id origin) _ _ _ g2 in
      let excluded =
        any (λ c. has c.passkey.credential_id message.exclude_credential_ids)
          (find_passkey_logins env web browser ceremonies vaults.first message.rp_id []) in
      let (fresh, g4) = guard_ok (not excluded) _ _ _ g3 in
      let built =
        build_client_data_json ceremonies env.encode_text "webauthn.create" message.challenge
          origin in
      let made : record {
        credential_id = cred.credential_id;
        attestation_object =
            build_attestation_object env.encode_text
              (create_auth_data env web browser ceremonies message.rp_id cred);
        auth_data = create_auth_data env web browser ceremonies message.rp_id cred;
        public_key_spki = cred.public_key_spki;
        client_data_json = json;
      }
          ≡ attestation =
        cc h4 in
      let same : saved ≡ after = cc h4 in
      let attested : Attested sender vaults message approved cred attestation = record {
        origin = origin;
        asks = record {
          sent =
              origin_of-some env web browser ceremonies sender origin
                (or_throw_ok (origin_of env web browser ceremonies sender) _ origin e0);
          unlocked = unlocked;
          allowed = allowed;
        };
        consent = consent;
        still_unlocked = still;
        none_excluded =
            find_passkey_logins-NoneExcluded env web browser ceremonies vaults.first message
              (ground arith);
        client_data =
            subst
              (λ (a : Attestation).
                ClientData ceremonies env.encode_text "webauthn.create" message.challenge origin
                  a.client_data_json)
              made
              (build_client_data_json-ClientData ceremonies env.encode_text "webauthn.create"
                message.challenge origin json (or_throw_ok built _ json g4));
        auth_data = ap (λ (a : Attestation). a.auth_data) (sym made);
      } in
      (
        attested,
        save_created-Saved env web browser ceremonies vaults message cred item_id iv now server
            after (cc (e4, same)),
      )
