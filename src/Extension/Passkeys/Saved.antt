-- ===== src/Extension/Passkeys/Saved.antt =====
-- What a registration saves in the vault, and the credentials that keep it from being made.
use nopass.Prelude.{
  In, ℕ, ◌≡◌, refl, sym, ap, ◌∙◌, subst, inl, inr, String, Bool, true, false, List, [], ◌∷◌, ◌++◌,
  Option, none, some, Result, ok, err, arith, any, bind_ok, or_throw, or_throw_ok, eq_iff,
}
use nopass.Prelude.Sets.{has}
use nopass.Types.Vault.{
  EncryptedVaultItem, EncryptedBlob, VaultItemType, VaultItemPlaintext, LoginItem,
  PasskeyCredential,
}
use nopass.Errors.{Error, request_failed}
use nopass.Platform.{Platform, to_base64}
use nopass.Envelope.Revisions.{get, record_revision}
use nopass.Envelope.Revisions.Laws.{Seen, Seen-record_revision_self}
use nopass.Envelope.Aad.{ItemBinding, personal}
use nopass.Envelope.Format.{DecryptedItem, encrypt_vault_item}
use nopass.Envelope.Format.Sealing.{Sealed, encrypt_vault-Sealed}
use nopass.Autofill.{Web}
use nopass.Extension.Sender.{Browser}
use nopass.Extension.Session.{Vault}
use nopass.Extension.Reads.{null_vault, or_threw, is_active_login, login_of}
use nopass.Extension.Reads.Selection.{In-select_logins_iff}
use nopass.Extension.Ceremony.{
  Ceremonies, Generated, Vaults, Candidate, CreateMessage, passkey_candidate,
}
use nopass.Extension.Passkeys.{find_passkey_logins, new_login, save_created}

or_threw_ok : {A : Type 0} (r : Result Error A) (a : A) → or_threw r ≡ ok a → r ≡ ok a
or_threw_ok (ok x) a h = cc h
or_threw_ok (err e) a h = cc h

not-any :
    {A : Type 0} (p : A → Bool) (x : A) (xs : List A) → any p xs ≡ false → In x xs → p x ≡ false
not-any p x [] h i = absurd i
not-any p x (y ∷ ys) h (inl e) = ap p e ∙ ground arith
not-any p x (y ∷ ys) h (inr i) = not-any p x ys (ground arith) i

module _ {K : Type 0} (env : Platform K) (web : Web) (browser : Browser)
    (ceremonies : Ceremonies) where
  -- No login of the vault that can be read holds a passkey of the relying party that is excluded.
  pub NoneExcluded : Option (Vault K) → CreateMessage → Type 0
  NoneExcluded vault message =
      (state : Vault K) (item : EncryptedVaultItem) (opened : DecryptedItem) (login : LoginItem)
      (passkey : PasskeyCredential)
      → vault ≡ some state
      → In item state.items
      → is_active_login item ≡ true
      → login_of env state item ≡ some (opened, login)
      → login.passkey ≡ some passkey
      → passkey.rp_id ≡ message.rp_id
      → has passkey.credential_id message.exclude_credential_ids ≡ false

  pub find_passkey_logins-NoneExcluded :
      (vault : Option (Vault K)) (message : CreateMessage)
      → any
          (λ c. has c.passkey.credential_id message.exclude_credential_ids)
          (find_passkey_logins env web browser ceremonies vault message.rp_id [])
        ≡ false
      → NoneExcluded vault message
  unfolding NoneExcluded find_passkey_logins passkey_candidate
  find_passkey_logins-NoneExcluded vault message h state item opened login passkey there listed
        active read held party =
      let candidate : Candidate = record {
        item = item;
        plain = login;
        passkey = passkey;
        current = opened;
      } in
      let same = (eq_iff passkey.rp_id message.rp_id).1 party in
      let kept : passkey_candidate message.rp_id [] item opened login ≡ some candidate =
        ground (arith, held, same) in
      not-any (λ (c : Candidate). has c.passkey.credential_id message.exclude_credential_ids)
        candidate (find_passkey_logins env web browser ceremonies (some state) message.rp_id [])
        (subst
          (λ v.
            any (λ c. has c.passkey.credential_id message.exclude_credential_ids)
              (find_passkey_logins env web browser ceremonies v message.rp_id [])
            ≡ false)
          there h)
        ((In-select_logins_iff env (passkey_candidate message.rp_id []) state state.items
            candidate).1
          (record {
            item = item;
            listed = listed;
            active = active;
            opened = opened;
            login = login;
            read = read;
            kept = kept;
          }))

  -- The new credential is in the vault: a login with its id, its relying party and its private key was
  -- sealed for its item as a personal login under the vault's key, the server was sent that blob for the
  -- item in the default vault, its answer is the last item of the vault, after all that were there, and
  -- the revision written is recorded.
  pub record Saved (vaults : Vaults K) (message : CreateMessage) (cred : Generated)
      (item_id : String) (iv : List ℕ)
      (server : String → String → EncryptedBlob → String → Option EncryptedVaultItem)
      (after : Vault K) : Type 0 where
    pub encrypting : Vault K
    pub unlocked_encrypting : vaults.encrypting ≡ some encrypting
    pub requesting : Vault K
    pub unlocked_requesting : vaults.requesting ≡ some requesting
    pub answered : Vault K
    pub unlocked_answered : vaults.answered ≡ some answered
    pub login : LoginItem
    pub passkey : PasskeyCredential
    pub held : login.passkey ≡ some passkey
    pub credential_id : passkey.credential_id ≡ ceremonies.bytes_to_b64u cred.credential_id
    pub party : passkey.rp_id ≡ message.rp_id
    pub private_key : passkey.private_key_pkcs8 ≡ to_base64 env cred.private_key_pkcs8
    pub unused : passkey.sign_count ≡ 0
    pub blob : EncryptedBlob
    pub revision : ℕ
    pub sealed :
        Sealed env
          (VaultItemPlaintext.login login)
          (record { scope = personal; item_id = item_id; item_type = VaultItemType.login })
          revision
          encrypting.vault_enc_key
          iv
          blob
    pub created : EncryptedVaultItem
    pub posted :
        server requesting.default_vault_id item_id blob requesting.session_token ≡ some created
    pub pushed : after.items ≡ answered.items ++ created ∷ []
    pub recorded : Seen revision (get after.revisions item_id)

  pub save_created-Saved :
      (vaults : Vaults K) (message : CreateMessage) (cred : Generated) (item_id : String)
      (iv : List ℕ) (now : String)
      (server : String → String → EncryptedBlob → String → Option EncryptedVaultItem)
      (after : Vault K)
      → save_created env web browser ceremonies vaults
          (new_login env web browser ceremonies message cred now)
          item_id
          iv
          server
        ≡ ok after
      → Saved vaults message cred item_id iv server after
  unfolding save_created new_login
  save_created-Saved vaults message cred item_id iv now server after h =
      let login = new_login env web browser ceremonies message cred now in
      let binding : ItemBinding = record {
        scope = personal;
        item_id = item_id;
        item_type = VaultItemType.login;
      } in
      let (encrypting, e1, h1) = bind_ok (or_throw vaults.encrypting null_vault) _ _ h in
      let (written, e2, h2) =
        bind_ok
          (or_threw (
            encrypt_vault_item env (VaultItemPlaintext.login login) binding encrypting.vault_enc_key
              (some encrypting.revisions) none iv))
          _ _ h1 in
      let (requesting, e3, h3) = bind_ok (or_throw vaults.requesting null_vault) _ _ h2 in
      let (created, e4, h4) =
        bind_ok
          (or_threw (
            or_throw (server requesting.default_vault_id item_id written.0 requesting.session_token)
              request_failed))
          _ _ h3 in
      let (answered, e5, h5) = bind_ok (or_throw vaults.answered null_vault) _ _ h4 in
      let stored : record answered {
        revisions = record_revision answered.revisions item_id written.1;
        items = answered.items ++ created ∷ [];
      }
          ≡ after =
        cc h5 in
      record {
        encrypting = encrypting;
        unlocked_encrypting = or_throw_ok vaults.encrypting _ encrypting e1;
        requesting = requesting;
        unlocked_requesting = or_throw_ok vaults.requesting _ requesting e3;
        answered = answered;
        unlocked_answered = or_throw_ok vaults.answered _ answered e5;
        login = login;
        passkey = _;
        held = refl;
        credential_id = refl;
        party = refl;
        private_key = refl;
        unused = refl;
        blob = written.0;
        revision = written.1;
        sealed =
            encrypt_vault-Sealed env (VaultItemPlaintext.login login) binding written.1
              encrypting.vault_enc_key (some encrypting.revisions) none iv written.0
              (or_threw_ok _ written e2);
        created = created;
        posted = or_throw_ok _ _ created (or_threw_ok _ created e4);
        pushed = ap (λ (v : Vault K). v.items) (sym stored);
        recorded =
            subst (λ (v : Vault K). Seen written.1 (get v.revisions item_id)) stored
              (Seen-record_revision_self answered.revisions item_id written.1);
      }
