-- ===== src/Org/Rotation/Items.antt =====
-- The loop of `buildRotation` over the items.
use nopass.Prelude.{
  ℕ, suc, ◌≡◌, refl, ap, subst, ◌∙◌, inl, inr, true, false, not, List, [], ◌∷◌, map, some, ok,
  Result-cases, Bool-cases, arith, filter, get_or_else, Pairwise,
}
use nopass.Prelude.Sets.{has}
use nopass.Types.Vault.{EncryptedVaultItem}
use nopass.Types.Api.{RotatedItem}
use nopass.Platform.{Platform}
use nopass.Envelope.Revisions.{RevisionStore, record_revision}
use nopass.Envelope.Revisions.Laws.{Extends, Extends-refl, Extends-trans, record_revision-Extends}
use nopass.Envelope.Format.{DecryptedItem, VaultKeys, decrypt_vault_item, encrypt_vault_item}
use nopass.Envelope.Format.Laws.{decrypt_vault_item-Accepted}
use nopass.Org.Rotation.{
  RotationInput, Rotated, dropped, unreadable, rotated, items_of, revisions_of, undecryptable_of,
  org_binding, reencrypt, rotate_item, rotate_items,
}

module _ {K : Type 0} (env : Platform K) (new_key : K) (pads ivs : ℕ → List ℕ)
    (input : RotationInput K) where
  -- The key that is being retired, and the new one, as `decryptVaultItem` takes them.
  abbrev pub old_keys : VaultKeys K
  old_keys = record { vault_enc_key = input.old_key; vault_mac_key = input.old_key }

  abbrev pub new_keys : VaultKeys K
  new_keys = record { vault_enc_key = new_key; vault_mac_key = new_key }

  -- An item of the request: read under the old key with a store that had seen no later revision,
  -- and written with the same content under the new key.
  pub record Moved (item : EncryptedVaultItem) (out : RotatedItem) : Type 0 where
    pub same_id : out.id ≡ item.id
    pub current : DecryptedItem
    pub before : RevisionStore
    pub after : RevisionStore
    pub read :
        decrypt_vault_item env item.encrypted (org_binding input.org_id item) old_keys (some before)
        ≡ ok (current, some after)
    pub revision : ℕ
    pub iv : ℕ
    pub written :
        encrypt_vault_item env current.plaintext
          (org_binding input.org_id item)
          new_key
          (some after)
          (some current.revision)
          (ivs iv)
        ≡ ok (out.encrypted, revision)

  -- What the loop has done, if it met no undecryptable item.
  pub record Swept (store : RevisionStore) (items : List EncryptedVaultItem) (rounds : List Rotated)
      (t : RevisionStore) : Type 0 where
    pub moved :
        Pairwise Moved (filter (λ i. not (has i.id input.drop_item_ids)) items) (items_of rounds)
    pub recorded : map (λ p. p.0) (revisions_of rounds) ≡ map (λ r. r.id) (items_of rounds)
    pub extends : Extends store t

  -- A round that neither throws nor meets an undecryptable item.
  data Round (store : RevisionStore) (item : EncryptedVaultItem)
      : Rotated → RevisionStore → Type 0 where
    drop_item : has item.id input.drop_item_ids ≡ true → Round store item dropped store
    move_item :
        (out : RotatedItem) (revision : ℕ) (after : RevisionStore)
        → has item.id input.drop_item_ids ≡ false
        → Moved item out
        → Extends store after
        → Round store item (rotated out revision) after
    skip_item : Round store item (unreadable item.id) store

  reencrypt-rotated :
      (store : RevisionStore) (n : ℕ) (item : EncryptedVaultItem) (current : DecryptedItem)
      (r : Rotated)
      → reencrypt env new_key pads ivs input.org_id store n item current ≡ ok r
      → (out : RotatedItem) × (revision : ℕ) × (rotated out revision ≡ r)
        × (out.id ≡ item.id)
        × (encrypt_vault_item env current.plaintext
              (org_binding input.org_id item)
              new_key
              (some store)
              (some current.revision)
              (ivs n)
            ≡ ok (out.encrypted, revision))
  unfolding reencrypt
  reencrypt-rotated store n item current r h =
      elim (Result-cases (
        encrypt_vault_item env current.plaintext (org_binding input.org_id item) new_key
          (some store) (some current.revision) (ivs n))) [
            | inr (e, failed) ↦ absurd (ground arith)
            | inl ((encrypted, revision), written) ↦ (
              record { id = item.id; encrypted = encrypted },
              revision,
              ground arith,
              refl,
              written,
            )
          ]

  rotate_item-Round :
      (store : RevisionStore) (n : ℕ) (item : EncryptedVaultItem) (r : Rotated)
      (after : RevisionStore)
      → (rotate_item env new_key pads ivs input store n item).0 ≡ ok r
      → (rotate_item env new_key pads ivs input store n item).1 ≡ after
      → Round store item r after
  unfolding rotate_item
  rotate_item-Round store n item r after h k = elim (Bool-cases (has item.id input.drop_item_ids)) [
    | inl drop ↦
        let a : dropped ≡ r = ground arith in
        let b : store ≡ after = ground arith in
        subst (λ x. Round store item x after) a
          (subst (Round store item dropped) b (drop_item drop))
    | inr keep ↦
        elim (Result-cases (
          decrypt_vault_item env item.encrypted (org_binding input.org_id item) old_keys
            (some store))) [
              | inr (e, failed) ↦
                  let a : unreadable item.id ≡ r = ground arith in
                  let b : store ≡ after = ground arith in
                  subst (λ x. Round store item x after) a
                    (subst (Round store item (unreadable item.id)) b skip_item)
              | inl ((current, seen), read) ↦
                  let recorded : seen
                      ≡ some (
                          record_revision store (org_binding input.org_id item).item_id
                            current.revision) =
                    ((decrypt_vault_item-Accepted env item.encrypted (org_binding input.org_id item)
                        old_keys (some store) current seen).0
                      read).seen_eq in
                  let b : get_or_else seen store ≡ after = ground arith in
                  let next : record_revision store (org_binding input.org_id item).item_id
                        current.revision
                      ≡ after =
                    cc in
                  let (out, revision, same, id, written) =
                    reencrypt-rotated after n item current r (
                      subst
                        (λ x. reencrypt env new_key pads ivs input.org_id x n item current ≡ ok r) b
                        (ground arith)) in
                  subst (λ x. Round store item x after) same
                    (move_item out revision after keep
                      (record {
                        same_id = id;
                        current = current;
                        before = store;
                        after = after;
                        read = read ∙ ap (λ x. ok (current, x)) (recorded ∙ ap some next);
                        revision = revision;
                        iv = n;
                        written = written;
                      })
                      (subst (Extends store) next (
                        record_revision-Extends store (org_binding input.org_id item).item_id
                          current.revision)))
            ]
  ]

  Swept-cons :
      (store : RevisionStore) (item : EncryptedVaultItem) (items : List EncryptedVaultItem)
      (r : Rotated) (rs : List Rotated) (after t : RevisionStore)
      → Round store item r after
      → undecryptable_of (r ∷ rs) ≡ []
      → (undecryptable_of rs ≡ [] → Swept after items rs t)
      → Swept store (item ∷ items) (r ∷ rs) t
  Swept-cons store item items _ rs _ t (drop_item gone) e rest =
      let s = rest e in
      record { moved = rw gone s.moved; recorded = s.recorded; extends = s.extends }
  Swept-cons store item items _ rs after t (move_item out revision _ kept m ext) e rest =
      let s = rest e in
      record {
        moved = rw kept (m, s.moved);
        recorded = ap (◌∷◌ out.id) s.recorded;
        extends = Extends-trans ext s.extends;
      }
  Swept-cons store item items _ rs _ t skip_item e rest = cc

  pub rotate_items-Swept :
      (store : RevisionStore) (n : ℕ) (items : List EncryptedVaultItem) (rounds : List Rotated)
      → (rotate_items env new_key pads ivs input store n items).0 ≡ ok rounds
      → undecryptable_of rounds ≡ []
      → Swept store items rounds (rotate_items env new_key pads ivs input store n items).1
  unfolding rotate_items
  rotate_items-Swept store n [] rounds h none_left =
      let same : [] ≡ rounds = ground arith in
      subst (λ x. Swept store [] x store) same
        (record { moved = tt; recorded = refl; extends = Extends-refl store })
  rotate_items-Swept store n (item ∷ items) rounds h none_left =
      let round = rotate_item env new_key pads ivs input store n item in
      elim (Result-cases round.0) [
        | inr (e, failed) ↦ absurd (ground arith)
        | inl (r, first) ↦
            elim (Result-cases (rotate_items env new_key pads ivs input round.1 (suc n) items).0) [
              | inr (e, failed) ↦ absurd (ground arith)
              | inl (rs, later) ↦
                  let same : r ∷ rs ≡ rounds = ground arith in
                  let empty : undecryptable_of (r ∷ rs) ≡ [] =
                    ap undecryptable_of same ∙ none_left in
                  let end = (rotate_items env new_key pads ivs input round.1 (suc n) items).1 in
                  rw (first, rotate_items)
                    (subst (λ x. Swept store (item ∷ items) x end) same
                      (Swept-cons store item items r rs round.1 end
                        (rotate_item-Round store n item r round.1 first refl) empty
                        (λ e. rotate_items-Swept round.1 (suc n) items rs later e)))
            ]
      ]
