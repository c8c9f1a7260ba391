-- ===== src/Account/Key/Laws.antt =====
-- The wrap of an account key.
use nopass.Prelude.{
  ℕ, ◌≡◌, refl, ◌∙◌, ap, ap₂, String, List, take, length, take-append, drop-append, take_all, ok,
  All,
}
use nopass.Prelude.Bytes.{IsByte}
use nopass.Platform.{Platform, Base64Laws, CipherLaws}
use nopass.Account.Kdf.{Derivation}
use nopass.Account.Key.{
  AccountKey, key_bytes, account_of, aad, kek, wrap_account_key, open_wrap, unwrap_account_key,
}

-- Both halves are 32 bytes.
pub record IsKey (account : AccountKey) : Type 0 where
  pub enc_length : length account.enc_key ≡ 32
  pub mac_length : length account.mac_key ≡ 32

account_of-key_bytes :
    (account : AccountKey) → IsKey account → account_of (key_bytes account) ≡ account
account_of-key_bytes account key =
    let enc = take-append 32 account.enc_key account.mac_key key.enc_length in
    let mac = drop-append 32 account.enc_key account.mac_key key.enc_length in
    let whole = ap (take 32) mac ∙ take_all 32 account.mac_key key.mac_length in
    ap₂ (λ e m. record { enc_key = e; mac_key = m }) enc whole

module _ {K : Type 0} (env : Platform K) (kdf : Derivation) (import_key : List ℕ → K)
    (base64 : Base64Laws env) (cipher : CipherLaws env) where
  open_wrap-wrap_account_key :
      (account : AccountKey) (master_key : List ℕ) (email : String) (iv : List ℕ)
      → All IsByte iv
      → open_wrap env kdf import_key
          (wrap_account_key env kdf import_key account master_key email iv)
          master_key
          email
        ≡ ok (key_bytes account)
  unfolding wrap_account_key open_wrap
  open_wrap-wrap_account_key account master_key email iv iv_bytes =
      let key = kek env kdf import_key master_key email in
      let additional = aad env kdf import_key email in
      let message = key_bytes account in
      rw
        (
          base64.atob-btoa iv iv_bytes,
          base64.atob-btoa (env.aes_encrypt key iv additional message)
              (cipher.encrypt_bytes key iv additional message),
          cipher.decrypt-encrypt key iv additional message,
        )
        refl

  -- A wrap opens, with the master key and the email that it was made for, to the account key in it.
  pub unwrap-wrap_account_key :
      (account : AccountKey) (master_key : List ℕ) (email : String) (iv : List ℕ)
      → IsKey account
      → All IsByte iv
      → unwrap_account_key env kdf import_key
          (wrap_account_key env kdf import_key account master_key email iv)
          master_key
          email
        ≡ ok account
  unfolding unwrap_account_key
  unwrap-wrap_account_key account master_key email iv key iv_bytes =
      rw (unwrap_account_key, open_wrap-wrap_account_key account master_key email iv iv_bytes)
        (ap ok (account_of-key_bytes account key))
