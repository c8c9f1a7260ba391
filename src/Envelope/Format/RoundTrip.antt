-- ===== src/Envelope/Format/RoundTrip.antt =====
-- Reading back what was written, and refusing what was moved.

use nopass.Prelude.{
  ℕ, ◌+◌, ◌≤◌, ◌<◌, ◌≡◌, refl, sym, ap, ◌∙◌, inl, inr, String, false, Bool-cases, take, subst,
  Result-cases, true, List, ◌∷◌, ◌++◌, Option, none, some, ok, arith, length-append, take-append,
  drop-append, drop, max, ◌⊎◌, get_or_else, All, eq_iff,
}
use nopass.Prelude.Bytes.{of_be, be, of_be-be, length-be, be_bytes, be_limit, All-append, IsByte}
use nopass.Types.Vault.{EncryptedBlob, VaultItemPlaintext}
use nopass.Platform.{Platform, TextLaws, CipherLaws, AuthenticLaws, Base64Laws}
use nopass.Envelope.Revisions.{RevisionStore}
use nopass.Envelope.Revisions.Laws.{Seen}
use nopass.Envelope.Aad.{ItemBinding, format_v2, header_len, max_safe_integer}
use nopass.Envelope.Aad.Laws.{SameBinding, item_aad-injective}
use nopass.Envelope.Legacy.{parse_item}
use nopass.Envelope.Format.{
  v2, DecryptedItem, VaultKeys, is_legacy_item_blob, open_v2, open_blob, decrypt_vault_item,
  v2_only, seen_revision, next_revision, encrypt_vault_item, encrypt_item_v2,
}
use nopass.Envelope.Format.Laws.{Fresh, after_read, decrypt_vault_item-Accepted}
use nopass.Envelope.Format.Sealing.{
  Sealed, encrypt-Sealed, encrypt_vault-Sealed, open_blob-modern, open-Opened, open_v2_complete,
}

next_revision-lt :
    (revisions : Option RevisionStore) (item : String) (current : Option ℕ) (n : ℕ)
    → Seen n (seen_revision revisions item) ⊎ Seen n current
    → n < next_revision revisions item current
unfolding next_revision
next_revision-lt revisions item current n h = above (seen_revision revisions item) current h
  where
    above : (s c : Option ℕ) → Seen n s ⊎ Seen n c → n < max (get_or_else s 0) (get_or_else c 0) + 1
    above none none (inl h) = absurd h
    above none none (inr h) = absurd h
    above none (some c) (inl h) = absurd h
    above none (some c) (inr h) = omega arith
    above (some s) none (inl h) = omega arith
    above (some s) none (inr h) = absurd h
    above (some s) (some c) (inl h) = omega arith
    above (some s) (some c) (inr h) = omega arith

module _ {K : Type 0} (env : Platform K) where
  -- `JSON.parse` through UTF-8 gives back what `JSON.stringify` was given.
  abbrev pub Serializes : VaultItemPlaintext → Type 0
  Serializes p = parse_item env (env.encode_text (env.stringify p)) ≡ ok p

  encrypt_vault_item-revision :
      (p : VaultItemPlaintext) (b : ItemBinding) (key : K) (writer : Option RevisionStore)
      (current : Option ℕ) (iv : List ℕ) (e : EncryptedBlob) (r : ℕ)
      → encrypt_vault_item env p b key writer current iv ≡ ok (e, r)
      → next_revision writer b.item_id current ≡ r
  unfolding encrypt_vault_item
  encrypt_vault_item-revision p b key writer current iv e r h =
      elim (Result-cases
        (encrypt_item_v2 env p b (next_revision writer b.item_id current) key iv)) [
          | inr (x, failed) ↦ absurd (ground arith)
          | inl (x, written) ↦ ground arith
        ]

  fits : {r : ℕ} → r ≤ max_safe_integer → r < be_limit 8
  fits h = omega arith

  module _ (base64 : Base64Laws env) (cipher : CipherLaws env) where
    blob_bytes :
        (r : ℕ) (key : K) (iv aad m : List ℕ)
        → All IsByte (format_v2 ∷ (be 8 r ++ env.aes_encrypt key iv aad m))
    blob_bytes r key iv aad m = (
      omega arith,
      All-append IsByte (be 8 r) _ (be_bytes 8 r) (cipher.encrypt_bytes key iv aad m),
    )

    drop_header : (r : ℕ) (ct : List ℕ) → drop header_len (format_v2 ∷ (be 8 r ++ ct)) ≡ ct
    drop_header r ct = drop-append 8 (be 8 r) ct (length-be 8 r)

    atob-Sealed :
        {p : VaultItemPlaintext} {b : ItemBinding} {r : ℕ} {key : K} {iv : List ℕ}
        {e : EncryptedBlob} (s : Sealed env p b r key iv e)
        → env.atob e.blob
          ≡ some (
              format_v2
              ∷ (be 8 r ++ env.aes_encrypt key iv s.aad (env.encode_text (env.stringify p))))
    atob-Sealed {r} {key} {iv} s =
        ap env.atob s.blob_eq ∙ base64.atob-btoa _ (blob_bytes r key iv s.aad _)

    open_v2-Sealed :
        (p : VaultItemPlaintext) (b : ItemBinding) (r : ℕ) (key : K) (iv : List ℕ)
        (e : EncryptedBlob)
        → Sealed env p b r key iv e
        → All IsByte iv
        → Serializes p
        → open_v2 env e b key ≡ ok (record { plaintext = p; revision = r; format = v2 })
    open_v2-Sealed p b r key iv e s iv_ok json =
        let m = env.encode_text (env.stringify p) in
        let ct = env.aes_encrypt key iv s.aad m in
        let long = length-append (be 8 r) ct in
        let eight = length-be 8 r in
        let tag = cipher.encrypt_length key iv s.aad m in
        open_v2_complete env e b key (format_v2 ∷ (be 8 r ++ ct)) iv s.aad m p r (atob-Sealed s)
          (omega arith) refl
          (ap of_be (take-append 8 (be 8 r) ct eight) ∙ of_be-be 8 r (fits s.safe)) s.safe
          (ap env.atob s.iv_eq ∙ base64.atob-btoa iv iv_ok) s.aad_eq
          (ap (env.aes_decrypt key iv s.aad) (drop_header r ct)
            ∙ cipher.decrypt-encrypt key iv s.aad m)
          json

    -- Round trip: a written item is read back unchanged, at the revision it was written at, by any
    -- device that holds the key and has not seen a higher revision of it; the device records that
    -- revision. Assumed: `atob` undoes `btoa`, AES-GCM decrypts what it encrypted, and the
    -- plaintext survives JSON.
    pub decrypt-encrypt_vault_item :
        (p : VaultItemPlaintext) (b : ItemBinding) (keys : VaultKeys K)
        (writer reader : Option RevisionStore) (current : Option ℕ) (iv : List ℕ)
        (e : EncryptedBlob) (r : ℕ)
        → encrypt_vault_item env p b keys.vault_enc_key writer current iv ≡ ok (e, r)
        → All IsByte iv
        → Serializes p
        → Fresh reader b.item_id r
        → decrypt_vault_item env e b keys reader
          ≡ ok (record { plaintext = p; revision = r; format = v2 }, after_read reader b.item_id r)
    decrypt-encrypt_vault_item p b keys writer reader current iv e r h iv_ok json fresh =
        let s = sealed in
        (decrypt_vault_item-Accepted env e b keys reader _ _).1 (record {
          not_closed = λ l. absurd (legacy s l);
          opened = modern s ∙ open_v2-Sealed p b r keys.vault_enc_key iv e s iv_ok json;
          type_ok = s.type_ok;
          fresh = fresh;
          seen_eq = refl;
        })
      where
        sealed : Sealed env p b r keys.vault_enc_key iv e
        sealed = encrypt_vault-Sealed env p b r keys.vault_enc_key writer current iv e h

        legacy : Sealed env p b r keys.vault_enc_key iv e → is_legacy_item_blob e ≡ true → ⊥
        legacy s l = let m = s.mac_eq in ground (arith, eq_iff e.blob_mac "")

        modern :
            Sealed env p b r keys.vault_enc_key iv e
            → open_blob env e b keys ≡ open_v2 env e b keys.vault_enc_key
        modern s = open_blob-modern env e b keys s.mac_eq

    -- A write is above every revision that the writer's device has seen of the item and above the
    -- revision of the blob that it replaces, and the header that it puts before the ciphertext reads as
    -- that revision.
    pub encrypt_vault_item-above :
        (p : VaultItemPlaintext) (b : ItemBinding) (key : K) (writer : Option RevisionStore)
        (current : Option ℕ) (iv : List ℕ) (e : EncryptedBlob) (r n : ℕ)
        → encrypt_vault_item env p b key writer current iv ≡ ok (e, r)
        → Seen n (seen_revision writer b.item_id) ⊎ Seen n current
        → (n < r)
          × ((blob : List ℕ) × (env.atob e.blob ≡ some blob) × (of_be (take 8 (drop 1 blob)) ≡ r))
    encrypt_vault_item-above p b key writer current iv e r n h seen =
        let s = encrypt_vault-Sealed env p b r key writer current iv e h in
        let ct = env.aes_encrypt key iv s.aad (env.encode_text (env.stringify p)) in
        (
          subst (λ m. n < m) (encrypt_vault_item-revision p b key writer current iv e r h)
              (next_revision-lt writer b.item_id current n seen),
          (
            format_v2 ∷ (be 8 r ++ ct),
            atob-Sealed s,
            ap of_be (take-append 8 (be 8 r) ct (length-be 8 r)) ∙ of_be-be 8 r (fits s.safe),
          ),
        )

    -- A ciphertext moved to another row is refused. If the server serves, with any iv and header, the
    -- ciphertext of an envelope written for `b` at revision `r`, a read under the same key for `b'`
    -- succeeds only if `b'` has the same scope, item id and type, and only at revision `r`. The blob is
    -- served as version 2, that is without a MAC, or the account is known to be version 2 only. Assumed: `atob` undoes `btoa`, AES-GCM authenticates, `TextEncoder` is injective.
    pub decrypt-moved :
        (authentic : AuthenticLaws env) (text : TextLaws env) (p : VaultItemPlaintext)
        (b b' : ItemBinding) (r : ℕ) (keys : VaultKeys K) (iv : List ℕ) (e e' : EncryptedBlob)
        (blob blob' : List ℕ) (revisions : Option RevisionStore) (d : DecryptedItem)
        (seen : Option RevisionStore)
        → encrypt_item_v2 env p b r keys.vault_enc_key iv ≡ ok e
        → env.atob e.blob ≡ some blob
        → env.atob e'.blob ≡ some blob'
        → drop header_len blob' ≡ drop header_len blob
        → (e'.blob_mac ≡ "") ⊎ (v2_only revisions ≡ true)
        → decrypt_vault_item env e' b' keys revisions ≡ ok (d, seen)
        → SameBinding env b b' r d.revision
    decrypt-moved authentic text p b b' r keys iv e e' blob blob' revisions d seen h at at' same mac
          read =
        let key = keys.vault_enc_key in
        let s = encrypt-Sealed env p b r key iv e h in
        let m = env.encode_text (env.stringify p) in
        let a = (decrypt_vault_item-Accepted env e' b' keys revisions d seen).0 read in
        let modern = no_mac (Bool-cases (is_legacy_item_blob e')) mac a.not_closed in
        let o =
          open-Opened env e' b' key d (sym (open_blob-modern env e' b' keys modern) ∙ a.opened) in
        let mine : blob ≡ format_v2 ∷ (be 8 r ++ env.aes_encrypt key iv s.aad m) =
          cc (atob-Sealed s) in
        let served : o.blob ≡ blob' = cc o.blob_eq in
        let body : drop header_len o.blob ≡ env.aes_encrypt key iv s.aad m =
          ap (drop header_len) served ∙ same ∙ ap (drop header_len) mine ∙ drop_header r _ in
        let aads : o.aad ≡ s.aad =
          authentic.same_aad key iv o.iv s.aad o.aad m
            (sym (ap (env.aes_decrypt key o.iv o.aad) body) ∙ o.opened) in
        item_aad-injective env text b b' r d.revision s.aad s.aad_eq (o.aad_eq ∙ ap ok aads)
      where
        no_mac :
            ((is_legacy_item_blob e' ≡ true) ⊎ (is_legacy_item_blob e' ≡ false))
            → ((e'.blob_mac ≡ "") ⊎ (v2_only revisions ≡ true))
            → ((is_legacy_item_blob e' ≡ true) → v2_only revisions ≡ false)
            → e'.blob_mac ≡ ""
        no_mac legacy (inl none_there) ok_if = none_there
        no_mac (inr modern) (inr closed) ok_if = (eq_iff e'.blob_mac "").0 (ground arith)
        no_mac (inl legacy) (inr closed) ok_if = absurd (cc (closed, ok_if legacy))
