-- ===== src/Envelope/Format/Sealing.antt =====
-- What a version 2 envelope consists of, and what a read of one has found.

use nopass.Prelude.{
  ℕ, ◌≤◌, ◌<◌, ◌≡◌, ap, ◌∙◌, inl, inr, true, List, [], ◌∷◌, ◌++◌, Option, some, ok, Result-cases,
  Option-cases, Bool-cases, arith, length, take, drop, eq_iff, lt→ltb, le→leb, subst₂,
}
use nopass.Prelude.Bytes.{of_be, be}
use nopass.Types.Vault.{type_of, same_type, EncryptedBlob, VaultItemPlaintext}
use nopass.Platform.{Platform}
use nopass.Envelope.Revisions.{RevisionStore}
use nopass.Envelope.Aad.{ItemBinding, format_v2, header_len, max_safe_integer, u64be, item_aad}
use nopass.Envelope.Aad.Laws.{item_aad-Parts}
use nopass.Envelope.Legacy.{parse_item, decrypt_item}
use nopass.Envelope.Format.{
  v2, DecryptedItem, VaultKeys, is_legacy_item_blob, starts_with_byte, open_v1, open_v2, open_blob,
  next_revision, encrypt_vault_item, encrypt_item_v2,
}

module _ {K : Type 0} (env : Platform K) where
  -- What a version 2 envelope consists of.
  pub record Sealed (p : VaultItemPlaintext) (b : ItemBinding) (r : ℕ) (key : K) (iv : List ℕ)
      (e : EncryptedBlob) : Type 0 where
    pub aad : List ℕ
    pub aad_eq : item_aad env b r ≡ ok aad
    pub type_ok : same_type (type_of p) b.item_type ≡ true
    pub safe : r ≤ max_safe_integer
    pub blob_eq :
        e.blob
        ≡ env.btoa
            (format_v2 ∷ (be 8 r ++ env.aes_encrypt key iv aad (env.encode_text (env.stringify p))))
    pub iv_eq : e.blob_iv ≡ env.btoa iv
    pub mac_eq : e.blob_mac ≡ ""

  pub encrypt-Sealed :
      (p : VaultItemPlaintext) (b : ItemBinding) (r : ℕ) (key : K) (iv : List ℕ) (e : EncryptedBlob)
      → encrypt_item_v2 env p b r key iv ≡ ok e
      → Sealed p b r key iv e
  unfolding encrypt_item_v2 u64be
  encrypt-Sealed p b r key iv e h = elim (Result-cases (item_aad env b r)) [
    | inr (x, failed) ↦ absurd (ground arith)
    | inl (aad, aad_eq) ↦ record {
      aad = aad;
      aad_eq = aad_eq;
      type_ok = ground arith;
      safe = (item_aad-Parts env b r aad_eq).safe;
      blob_eq = ground arith;
      iv_eq = ground arith;
      mac_eq = ground arith;
    }
  ]

  pub encrypt_vault-Sealed :
      (p : VaultItemPlaintext) (b : ItemBinding) (r : ℕ) (key : K) (writer : Option RevisionStore)
      (current : Option ℕ) (iv : List ℕ) (e : EncryptedBlob)
      → encrypt_vault_item env p b key writer current iv ≡ ok (e, r)
      → Sealed p b r key iv e
  unfolding encrypt_vault_item
  encrypt_vault-Sealed p b r key writer current iv e h =
      let n = next_revision writer b.item_id current in
      elim (Result-cases (encrypt_item_v2 env p b n key iv)) [
        | inr (x, failed) ↦ absurd (ground arith)
        | inl (e', written) ↦
            let same : e' ≡ e = ground arith in
            let rev : n ≡ r = ground arith in
            encrypt-Sealed p b r key iv e
              (subst₂ (λ m x. encrypt_item_v2 env p b m key iv ≡ ok x) rev same written)
      ]

  pub open_blob-modern :
      (e : EncryptedBlob) (b : ItemBinding) (keys : VaultKeys K)
      → e.blob_mac ≡ ""
      → open_blob env e b keys ≡ open_v2 env e b keys.vault_enc_key
  unfolding open_blob
  open_blob-modern e b keys m = ground (arith, eq_iff e.blob_mac "")

  -- What a version 2 read has found.
  pub record Opened (e : EncryptedBlob) (b : ItemBinding) (key : K) (d : DecryptedItem)
      : Type 0 where
    pub blob : List ℕ
    pub iv : List ℕ
    pub aad : List ℕ
    pub pt : List ℕ
    pub blob_eq : env.atob e.blob ≡ some blob
    pub revision_eq : d.revision ≡ of_be (take 8 (drop 1 blob))
    pub aad_eq : item_aad env b d.revision ≡ ok aad
    pub opened : env.aes_decrypt key iv aad (drop header_len blob) ≡ some pt
    pub parsed : parse_item env pt ≡ ok d.plaintext

  pub open-Opened :
      (e : EncryptedBlob) (b : ItemBinding) (key : K) (d : DecryptedItem)
      → open_v2 env e b key ≡ ok d
      → Opened e b key d
  unfolding open_v2
  open-Opened e b key d h = elim (Option-cases (env.atob e.blob)) [
    | inl failed ↦ absurd (ground arith)
    | inr (blob, blob_eq) ↦ elim (Option-cases (env.atob e.blob_iv)) [
      | inl failed ↦ absurd (ground arith)
      | inr (iv, iv_eq) ↦ elim (Result-cases (item_aad env b (of_be (take 8 (drop 1 blob))))) [
        | inr (x, failed) ↦ absurd (ground arith)
        | inl (aad, aad_eq) ↦
            elim (Option-cases (env.aes_decrypt key iv aad (drop header_len blob))) [
              | inl failed ↦ absurd (ground arith)
              | inr (pt, pt_eq) ↦ elim (Result-cases (parse_item env pt)) [
                | inr (x, failed) ↦ absurd (ground arith)
                | inl (p, parsed) ↦
                    let rev : d.revision ≡ of_be (take 8 (drop 1 blob)) = ground arith in
                    let same : p ≡ d.plaintext = ground arith in
                    record {
                      blob = blob;
                      iv = iv;
                      aad = aad;
                      pt = pt;
                      blob_eq = blob_eq;
                      revision_eq = rev;
                      aad_eq = rw rev aad_eq;
                      opened = pt_eq;
                      parsed = parsed ∙ ap ok same;
                    }
              ]
            ]
      ]
    ]
  ]

  open_v1-parsed :
      (e : EncryptedBlob) (keys : VaultKeys K) (d : DecryptedItem)
      → open_v1 env e keys ≡ ok d
      → (bytes : List ℕ) × (parse_item env bytes ≡ ok d.plaintext)
  unfolding open_v1 decrypt_item
  open_v1-parsed e keys d h = elim (Option-cases (env.atob e.blob_iv)) [
    | inl failed ↦ absurd (ground arith)
    | inr (iv, iv_eq) ↦ elim (Option-cases (env.atob e.blob)) [
      | inl failed ↦ absurd (ground arith)
      | inr (ct, ct_eq) ↦ elim (Option-cases (env.aes_decrypt keys.vault_enc_key iv [] ct)) [
        | inl failed ↦ absurd (ground arith)
        | inr (pt, pt_eq) ↦ elim (Result-cases (parse_item env pt)) [
          | inr (x, failed) ↦ absurd (ground arith)
          | inl (p, parsed) ↦ let same : p ≡ d.plaintext = ground arith in (pt, parsed ∙ ap ok same)
        ]
      ]
    ]
  ]

  -- What a blob of either version opens to was parsed.
  pub open_blob-parsed :
      (e : EncryptedBlob) (b : ItemBinding) (keys : VaultKeys K) (d : DecryptedItem)
      → open_blob env e b keys ≡ ok d
      → (bytes : List ℕ) × (parse_item env bytes ≡ ok d.plaintext)
  unfolding open_blob
  open_blob-parsed e b keys d h = elim (Bool-cases (is_legacy_item_blob e)) [
    | inl legacy ↦ open_v1-parsed e keys d (rw legacy at h)
    | inr modern ↦ let o = open-Opened e b keys.vault_enc_key d (rw modern at h) in (o.pt, o.parsed)
  ]

  pub open_v2_complete :
      (e : EncryptedBlob) (b : ItemBinding) (key : K) (blob iv aad pt : List ℕ)
      (p : VaultItemPlaintext) (r : ℕ)
      → env.atob e.blob ≡ some blob
      → header_len < length blob
      → starts_with_byte format_v2 blob ≡ true
      → of_be (take 8 (drop 1 blob)) ≡ r
      → r ≤ max_safe_integer
      → env.atob e.blob_iv ≡ some iv
      → item_aad env b r ≡ ok aad
      → env.aes_decrypt key iv aad (drop header_len blob) ≡ some pt
      → parse_item env pt ≡ ok p
      → open_v2 env e b key ≡ ok (record { plaintext = p; revision = r; format = v2 })
  unfolding open_v2
  open_v2_complete e b key blob iv aad pt p r h₁ h₂ h₃ h₄ h₅ h₆ h₇ h₈ h₉ =
      rw (h₁, lt→ltb _ _ h₂, h₃, h₄, le→leb _ _ h₅, h₆, h₇, h₈, h₉)
