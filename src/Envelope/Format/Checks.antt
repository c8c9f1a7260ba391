-- ===== src/Envelope/Format/Checks.antt =====
-- Every check of `decryptVaultItem`, of both versions, without the code's helpers.
use nopass.Prelude.{
  ℕ, ◌≤◌, ◌<◌, ◌≡◌, ◌≢◌, refl, sym, ap, ◌∙◌, subst, ◌↔◌, ◌⊎◌, inl, inr, true, false, List, [], ◌∷◌,
  ◌++◌, Option, none, some, ok, Result-cases, Option-cases, Bool-cases, arith, length, take, drop,
  eq_iff,
}
use nopass.Prelude.Bytes.{of_be}
use nopass.Types.Vault.{type_of, same_type, same_type→eq, same_type_self, EncryptedBlob}
use nopass.Platform.{Platform}
use nopass.Envelope.Revisions.{RevisionStore}
use nopass.Envelope.Aad.{ItemBinding, item_aad}
use nopass.Envelope.Legacy.{decrypt_item}
use nopass.Envelope.Format.{
  v1, v2, DecryptedItem, VaultKeys, is_legacy_item_blob, v2_only, starts_with_byte, open_v1,
  open_v2, open_blob, decrypt_vault_item,
}
use nopass.Envelope.Format.Laws.{Fresh, after_read, decrypt_vault_item-Accepted}
use nopass.Envelope.Format.Sealing.{open_v2_complete}

module _ {K : Type 0} (env : Platform K) where
  -- A version 2 envelope: the byte 2, eight bytes of revision in the safe range, and at least one byte
  -- more, which decrypt, with the additional data of the row at that revision, to JSON of the item.
  pub record ReadsV2 (e : EncryptedBlob) (b : ItemBinding) (key : K) (d : DecryptedItem)
      : Type 0 where
    pub rest : List ℕ
    pub blob_read : env.atob e.blob ≡ some (2 ∷ rest)
    pub long : 8 < length rest
    pub revision_read : d.revision ≡ of_be (take 8 rest)
    pub safe : d.revision ≤ 9007199254740991
    pub iv : List ℕ
    pub iv_read : env.atob e.blob_iv ≡ some iv
    pub aad : List ℕ
    pub aad_eq : item_aad env b d.revision ≡ ok aad
    pub pt : List ℕ
    pub decrypted : env.aes_decrypt key iv aad (drop 8 rest) ≡ some pt
    pub parsed : env.parse_json (env.decode_text pt) ≡ some d.plaintext
    pub version : d.format ≡ v2

  -- A version 1 item: the MAC is that of the iv and the ciphertext, which decrypts without additional
  -- data to JSON of the item; its revision is 0.
  pub record ReadsV1 (e : EncryptedBlob) (keys : VaultKeys K) (d : DecryptedItem) : Type 0 where
    pub iv : List ℕ
    pub iv_read : env.atob e.blob_iv ≡ some iv
    pub ciphertext : List ℕ
    pub blob_read : env.atob e.blob ≡ some ciphertext
    pub mac : List ℕ
    pub mac_read : env.atob e.blob_mac ≡ some mac
    pub authentic : env.hmac_verify keys.vault_mac_key mac (iv ++ ciphertext) ≡ true
    pub pt : List ℕ
    pub decrypted : env.aes_decrypt keys.vault_enc_key iv [] ciphertext ≡ some pt
    pub parsed : env.parse_json (env.decode_text pt) ≡ some d.plaintext
    pub no_revision : d.revision ≡ 0
    pub version : d.format ≡ v1

  abbrev pub Reads : EncryptedBlob → ItemBinding → VaultKeys K → DecryptedItem → Type 0
  Reads e b keys d =
      ((e.blob_mac ≢ "") × ReadsV1 e keys d)
      ⊎ ((e.blob_mac ≡ "") × ReadsV2 e b keys.vault_enc_key d)

  -- What the device knows, for a blob of version 1: the account has not been closed to them.
  abbrev pub StillOpen : Option RevisionStore → Type 0
  StillOpen none = Unit
  StillOpen (some s) = s.v2_only ≡ false

  pub record Checked (e : EncryptedBlob) (b : ItemBinding) (keys : VaultKeys K)
      (revisions : Option RevisionStore) (d : DecryptedItem) (seen : Option RevisionStore)
      : Type 0 where
    pub reads : Reads e b keys d
    pub still_open : (e.blob_mac ≡ "") ⊎ StillOpen revisions
    pub item_type : type_of d.plaintext ≡ b.item_type
    pub fresh : Fresh revisions b.item_id d.revision
    pub recorded : seen ≡ after_read revisions b.item_id d.revision

  starts-cons :
      (bytes : List ℕ) → starts_with_byte 2 bytes ≡ true → (rest : List ℕ) × (bytes ≡ 2 ∷ rest)
  starts-cons [] h = absurd (cc h)
  starts-cons (x ∷ xs) h = let same : x ≡ 2 = ground arith in (xs, ap (λ y. y ∷ xs) same)

  open_v2-ReadsV2 :
      (e : EncryptedBlob) (b : ItemBinding) (key : K) (d : DecryptedItem)
      → open_v2 env e b key ≡ ok d
      → ReadsV2 e b key d
  unfolding open_v2
  open_v2-ReadsV2 e b key d h = elim (Option-cases (env.atob e.blob)) [
    | inl failed ↦ absurd (ground arith)
    | inr (blob, blob_eq) ↦
        let (rest, shape) = starts-cons blob (ground arith) in
        let read = blob_eq ∙ ap some shape in
        elim (Option-cases (env.atob e.blob_iv)) [
          | inl failed ↦ absurd (ground arith)
          | inr (iv, iv_eq) ↦ elim (Result-cases (item_aad env b (of_be (take 8 rest)))) [
            | inr (x, failed) ↦ absurd (ground arith)
            | inl (aad, aad_eq) ↦ elim (Option-cases (env.aes_decrypt key iv aad (drop 8 rest))) [
              | inl failed ↦ absurd (ground arith)
              | inr (pt, pt_eq) ↦ elim (Option-cases (env.parse_json (env.decode_text pt))) [
                | inl failed ↦ absurd (ground arith)
                | inr (p, parsed) ↦
                    let rev : d.revision ≡ of_be (take 8 rest) = ground arith in
                    let same : p ≡ d.plaintext = ground arith in
                    record {
                      rest = rest;
                      blob_read = read;
                      long = ground arith;
                      revision_read = rev;
                      safe = ground arith;
                      iv = iv;
                      iv_read = iv_eq;
                      aad = aad;
                      aad_eq = rw rev aad_eq;
                      pt = pt;
                      decrypted = pt_eq;
                      parsed = parsed ∙ ap some same;
                      version = ground arith;
                    }
              ]
            ]
          ]
        ]
  ]

  ReadsV2-open_v2 :
      (e : EncryptedBlob) (b : ItemBinding) (key : K) (d : DecryptedItem)
      → ReadsV2 e b key d
      → open_v2 env e b key ≡ ok d
  ReadsV2-open_v2 e b key d r =
      open_v2_complete env e b key (2 ∷ r.rest) r.iv r.aad r.pt d.plaintext d.revision r.blob_read
        (omega (arith, r.long)) refl (sym r.revision_read) r.safe r.iv_read r.aad_eq r.decrypted
        (rw r.parsed refl)
      ∙ cc r.version

  open_v1-ReadsV1 :
      (e : EncryptedBlob) (keys : VaultKeys K) (d : DecryptedItem)
      → open_v1 env e keys ≡ ok d
      → ReadsV1 e keys d
  unfolding open_v1 decrypt_item
  open_v1-ReadsV1 e keys d h = elim (Option-cases (env.atob e.blob_iv)) [
    | inl failed ↦ absurd (ground arith)
    | inr (iv, iv_eq) ↦ elim (Option-cases (env.atob e.blob)) [
      | inl failed ↦ absurd (ground arith)
      | inr (ct, ct_eq) ↦ elim (Option-cases (env.atob e.blob_mac)) [
        | inl failed ↦ absurd (ground arith)
        | inr (mac, mac_eq) ↦ elim (Option-cases (env.aes_decrypt keys.vault_enc_key iv [] ct)) [
          | inl failed ↦ absurd (ground arith)
          | inr (pt, pt_eq) ↦ elim (Option-cases (env.parse_json (env.decode_text pt))) [
            | inl failed ↦ absurd (ground arith)
            | inr (p, parsed) ↦
                let same : p ≡ d.plaintext = ground arith in
                record {
                  iv = iv;
                  iv_read = iv_eq;
                  ciphertext = ct;
                  blob_read = ct_eq;
                  mac = mac;
                  mac_read = mac_eq;
                  authentic = ground arith;
                  pt = pt;
                  decrypted = pt_eq;
                  parsed = parsed ∙ ap some same;
                  no_revision = ground arith;
                  version = ground arith;
                }
          ]
        ]
      ]
    ]
  ]

  ReadsV1-open_v1 :
      (e : EncryptedBlob) (keys : VaultKeys K) (d : DecryptedItem)
      → ReadsV1 e keys d
      → open_v1 env e keys ≡ ok d
  unfolding open_v1 decrypt_item
  ReadsV1-open_v1 e keys d r =
      let made : open_v1 env e keys
          ≡ ok (record { plaintext = d.plaintext; revision = 0; format = v1 }) =
        rw (r.iv_read, r.blob_read, r.mac_read, r.authentic, r.decrypted, r.parsed) refl in
      made ∙ cc (r.version, r.no_revision)

  open_blob_iff :
      (e : EncryptedBlob) (b : ItemBinding) (keys : VaultKeys K) (d : DecryptedItem)
      → (open_blob env e b keys ≡ ok d) ↔ Reads e b keys d
  unfolding open_blob
  open_blob_iff e b keys d = elim (Bool-cases (is_legacy_item_blob e)) [
    | inl legacy ↦
        let there : e.blob_mac ≢ "" =
          λ m. let t = (eq_iff e.blob_mac "").1 m in absurd (ground arith) in
        (
          λ h. inl (there, open_v1-ReadsV1 e keys d (rw legacy at h)),
          λ r. elim r [
            | inl (m, r1) ↦ rw legacy (ReadsV1-open_v1 e keys d r1)
            | inr (m, r2) ↦ absurd (there m)
          ],
        )
    | inr modern ↦
        let no_mac : e.blob_mac ≡ "" = (eq_iff e.blob_mac "").0 (ground arith) in
        (
          λ h. inr (no_mac, open_v2-ReadsV2 e b keys.vault_enc_key d (rw modern at h)),
          λ r. elim r [
            | inl (m, r1) ↦ absurd (m no_mac)
            | inr (m, r2) ↦ rw modern (ReadsV2-open_v2 e b keys.vault_enc_key d r2)
          ],
        )
  ]

  v2_only-StillOpen : (o : Option RevisionStore) → (v2_only o ≡ false) ↔ StillOpen o
  v2_only-StillOpen none = (λ h. tt, λ h. refl)
  v2_only-StillOpen (some s) = (λ h. h, λ h. h)

  closed_iff :
      (e : EncryptedBlob) (revisions : Option RevisionStore)
      → ((is_legacy_item_blob e ≡ true) → v2_only revisions ≡ false)
        ↔ ((e.blob_mac ≡ "") ⊎ StillOpen revisions)
  closed_iff e revisions = (
    λ h. elim (Bool-cases (is_legacy_item_blob e)) [
      | inl legacy ↦ inr ((v2_only-StillOpen revisions).0 (h legacy))
      | inr modern ↦ inl ((eq_iff e.blob_mac "").0 (ground arith))
    ],
    λ s legacy. elim s [
      | inl m ↦ let t = (eq_iff e.blob_mac "").1 m in absurd (ground arith)
      | inr o ↦ (v2_only-StillOpen revisions).1 o
    ],
  )

  -- `decryptVaultItem` returns an item exactly when every check passes: a blob with a MAC is a version 1
  -- item, on a device that has not closed the account to them, and one without is a version 2 envelope
  -- for the row, with its header, its range and its additional data; the plaintext has the row's type,
  -- and no higher revision of the item was seen. The store then records the revision read.
  pub decrypt_vault_item_iff :
      (e : EncryptedBlob) (b : ItemBinding) (keys : VaultKeys K) (revisions : Option RevisionStore)
      (d : DecryptedItem) (seen : Option RevisionStore)
      → (decrypt_vault_item env e b keys revisions ≡ ok (d, seen))
        ↔ Checked e b keys revisions d seen
  decrypt_vault_item_iff e b keys revisions d seen =
      let accepted = decrypt_vault_item-Accepted env e b keys revisions d seen in
      (
        λ h.
            let a = accepted.0 h in
            record {
              reads = (open_blob_iff e b keys d).0 a.opened;
              still_open = (closed_iff e revisions).0 a.not_closed;
              item_type = same_type→eq (type_of d.plaintext) b.item_type a.type_ok;
              fresh = a.fresh;
              recorded = a.seen_eq;
            },
        λ c. accepted.1 (record {
          not_closed = (closed_iff e revisions).1 c.still_open;
          opened = (open_blob_iff e b keys d).1 c.reads;
          type_ok =
              subst (λ t. same_type (type_of d.plaintext) t ≡ true) c.item_type
                (same_type_self (type_of d.plaintext));
          fresh = c.fresh;
          seen_eq = c.recorded;
        }),
      )
