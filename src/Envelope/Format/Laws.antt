-- ===== src/Envelope/Format/Laws.antt =====
-- What a successful read has checked: the envelope, the type, the binding and the revision.
use nopass.Prelude.{
  ℕ, ◌≤◌, ◌≡◌, refl, sym, ap, ◌∙◌, ◌↔◌, inl, inr, String, true, false, subst, Option, none, some,
  ok, Result-cases, Option-cases, arith,
}
use nopass.Types.Vault.{type_of, same_type, EncryptedBlob}
use nopass.Platform.{Platform}
use nopass.Envelope.Revisions.{RevisionStore, get, record_revision}
use nopass.Envelope.Revisions.Laws.{Seen, Extends, Seen-record_revision_self}
use nopass.Envelope.Aad.{ItemBinding}
use nopass.Envelope.Format.{
  DecryptedItem, VaultKeys, is_legacy_item_blob, v2_only, check_revision, open_blob,
  decrypt_vault_item, seen_revision,
}

-- A revision that a store does not refuse.
abbrev pub Fresh : Option RevisionStore → String → ℕ → Type 0
Fresh revisions item r = (n : ℕ) → Seen n (seen_revision revisions item) → n ≤ r

-- The store after an accepted read.
abbrev pub after_read : Option RevisionStore → String → ℕ → Option RevisionStore
after_read none item r = none
after_read (some s) item r = some (record_revision s item r)

check_revision-ok :
    (revisions : Option RevisionStore) (item : String) (r : ℕ) (seen : Option RevisionStore)
    → check_revision revisions item r ≡ ok seen
    → Fresh revisions item r × (seen ≡ after_read revisions item r)
unfolding check_revision
check_revision-ok none item r seen e = (λ n h. absurd h, ground arith)
check_revision-ok (some s) item r seen e = elim (Option-cases (get s item)) [
  | inl new ↦ (λ n h. absurd (subst (Seen n) new h), ground arith)
  | inr (highest, found) ↦ (λ n h. let k = subst (Seen n) found h in ground arith, ground arith)
]

check_revision_complete :
    (revisions : Option RevisionStore) (item : String) (r : ℕ)
    → Fresh revisions item r
    → check_revision revisions item r ≡ ok (after_read revisions item r)
unfolding check_revision
check_revision_complete none item r h = refl
check_revision_complete (some s) item r h = elim (Option-cases (get s item)) [
  | inl new ↦ ground arith
  | inr (highest, found) ↦
      let k = h highest (subst (Seen highest) (sym found) (omega arith)) in ground arith
]

module _ {K : Type 0} (env : Platform K) where
  -- What `decryptVaultItem` has established when it returns.
  pub record Accepted (encrypted : EncryptedBlob) (b : ItemBinding) (keys : VaultKeys K)
      (revisions : Option RevisionStore) (result : DecryptedItem) (seen : Option RevisionStore)
      : Type 0 where
    pub not_closed : (is_legacy_item_blob encrypted ≡ true) → v2_only revisions ≡ false
    pub opened : open_blob env encrypted b keys ≡ ok result
    pub type_ok : same_type (type_of result.plaintext) b.item_type ≡ true
    pub fresh : Fresh revisions b.item_id result.revision
    pub seen_eq : seen ≡ after_read revisions b.item_id result.revision

  decrypt_sound :
      (encrypted : EncryptedBlob) (b : ItemBinding) (keys : VaultKeys K)
      (revisions : Option RevisionStore) (result : DecryptedItem) (seen : Option RevisionStore)
      → decrypt_vault_item env encrypted b keys revisions ≡ ok (result, seen)
      → Accepted encrypted b keys revisions result seen
  unfolding decrypt_vault_item
  decrypt_sound encrypted b keys revisions result seen e =
      elim (Result-cases (open_blob env encrypted b keys)) [
        | inr (x, failed) ↦ absurd (ground arith)
        | inl (opened, oe) ↦
            elim (Result-cases (check_revision revisions b.item_id opened.revision)) [
              | inr (x, failed) ↦ absurd (ground arith)
              | inl (s, se) ↦
                  let same : opened ≡ result = ground arith in
                  let after : s ≡ seen = ground arith in
                  let c = check_revision-ok revisions b.item_id result.revision seen (
                    subst (λ o. check_revision revisions b.item_id o.revision ≡ ok seen) same
                      (se ∙ ap ok after)) in
                  record {
                    not_closed = λ h. ground arith;
                    opened = oe ∙ ap ok same;
                    type_ok = ground arith;
                    fresh = c.0;
                    seen_eq = c.1;
                  }
            ]
      ]

  decrypt_complete :
      (encrypted : EncryptedBlob) (b : ItemBinding) (keys : VaultKeys K)
      (revisions : Option RevisionStore) (result : DecryptedItem) (seen : Option RevisionStore)
      → Accepted encrypted b keys revisions result seen
      → decrypt_vault_item env encrypted b keys revisions ≡ ok (result, seen)
  unfolding decrypt_vault_item
  decrypt_complete encrypted b keys revisions result seen a =
      let c = check_revision_complete revisions b.item_id result.revision a.fresh in
      ground (arith, a.not_closed, a.opened, a.type_ok, a.seen_eq)

  -- `decryptVaultItem` returns an item exactly when: the blob opens, its plaintext has the row's
  -- type, no higher revision of the item was seen, and it is not a version 1 blob after the
  -- account was closed to them; the store then records the revision read.
  pub decrypt_vault_item-Accepted :
      (encrypted : EncryptedBlob) (b : ItemBinding) (keys : VaultKeys K)
      (revisions : Option RevisionStore) (result : DecryptedItem) (seen : Option RevisionStore)
      → (decrypt_vault_item env encrypted b keys revisions ≡ ok (result, seen))
        ↔ Accepted encrypted b keys revisions result seen
  decrypt_vault_item-Accepted encrypted b keys revisions result seen = (
    decrypt_sound encrypted b keys revisions result seen,
    decrypt_complete encrypted b keys revisions result seen,
  )

  -- Rollback: once a device has accepted an item at some revision, it never again accepts the same
  -- item at a lower one, from whatever blob, under whatever key, and whatever its store has
  -- recorded in between.
  pub decrypt-no_rollback :
      (e e' : EncryptedBlob) (b b' : ItemBinding) (keys keys' : VaultKeys K)
      (s s' t : RevisionStore) (first later : DecryptedItem) (seen : Option RevisionStore)
      → b.item_id ≡ b'.item_id
      → decrypt_vault_item env e b keys (some s) ≡ ok (first, some s')
      → Extends s' t
      → decrypt_vault_item env e' b' keys' (some t) ≡ ok (later, seen)
      → first.revision ≤ later.revision
  decrypt-no_rollback e e' b b' keys keys' s s' t first later seen same read ext again =
      let p = decrypt_sound e b keys (some s) first (some s') read in
      let q = decrypt_sound e' b' keys' (some t) later seen again in
      let stored : s' ≡ record_revision s b.item_id first.revision = cc p.seen_eq in
      let known : Seen first.revision (get s' b.item_id) =
        subst (λ u. Seen first.revision (get u b.item_id)) (sym stored)
          (Seen-record_revision_self s b.item_id first.revision) in
      q.fresh first.revision
        (subst (λ i. Seen first.revision (get t i)) same (ext.seen b.item_id first.revision known))
