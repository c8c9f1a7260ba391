-- ===== src/Envelope/Upgrade/Laws.antt =====
-- What an upgrade run leaves behind.
use nopass.Prelude.{
  ℕ, suc, ◌+◌, ◌≤◌, ◌≡◌, refl, sym, inl, inr, Bool, true, List, [], ◌∷◌, Bool-cases, arith, subst,
  All, if◌then◌else◌,
}
use nopass.Types.Vault.{EncryptedVaultItem, EncryptedBlob}
use nopass.Platform.{Platform}
use nopass.Envelope.Revisions.{RevisionStore}
use nopass.Envelope.Revisions.Laws.{Extends, Extends-refl, Extends-trans}
use nopass.Envelope.Format.{VaultKeys, is_legacy_item_blob}
use nopass.Envelope.Upgrade.{UpgradeState, upgrade_item, upgrade_from, upgrade_legacy_items}
use nopass.Envelope.Upgrade.Outcomes.{
  Outcome, upgrade_item-Outcome, Outcome-counts, Outcome-Extends, Outcome-failed,
}

module _ {K W : Type 0} (env : Platform K) (ivs : ℕ → List ℕ)
    (write : W → EncryptedVaultItem → EncryptedBlob → W × Bool) (keys : VaultKeys K) where
  outcome :
      (s : UpgradeState W) (n : ℕ) (item : EncryptedVaultItem)
      → Outcome env ivs write keys s item (upgrade_item env ivs write keys s n item)
  outcome s n item = upgrade_item-Outcome env ivs write keys s n item

  -- How many of the items are in version 1.
  abbrev pub legacy_count : List EncryptedVaultItem → ℕ
  legacy_count [] = 0
  legacy_count (i ∷ is) =
      if is_legacy_item_blob i.encrypted then suc (legacy_count is) else legacy_count is

  upgrade_from-counts :
      (s : UpgradeState W) (n : ℕ) (items : List EncryptedVaultItem)
      → (upgrade_from env ivs write keys s n items).upgraded
          + (upgrade_from env ivs write keys s n items).failed
        ≡ s.upgraded + s.failed + legacy_count items
  unfolding upgrade_from
  upgrade_from-counts s n [] = omega arith
  upgrade_from-counts s n (i ∷ is) = elim (Bool-cases (is_legacy_item_blob i.encrypted)) [
    | inr modern ↦ rw (modern, upgrade_from) (upgrade_from-counts s (suc n) is)
    | inl legacy ↦
        let t = upgrade_item env ivs write keys s n i in
        rw (legacy, upgrade_from)
          (omega (
            arith,
            upgrade_from-counts t (suc n) is,
            Outcome-counts env ivs write keys (outcome s n i),
          ))
  ]

  upgrade_from-Extends :
      (s : UpgradeState W) (n : ℕ) (items : List EncryptedVaultItem)
      → Extends s.revisions (upgrade_from env ivs write keys s n items).revisions
  unfolding upgrade_from
  upgrade_from-Extends s n [] = Extends-refl s.revisions
  upgrade_from-Extends s n (i ∷ is) = elim (Bool-cases (is_legacy_item_blob i.encrypted)) [
    | inr modern ↦ rw (modern, upgrade_from) (upgrade_from-Extends s (suc n) is)
    | inl legacy ↦
        rw (legacy, upgrade_from)
          (Extends-trans (Outcome-Extends env ivs write keys (outcome s n i))
            (upgrade_from-Extends (upgrade_item env ivs write keys s n i) (suc n) is))
  ]

  upgrade_from-failed :
      (s : UpgradeState W) (n : ℕ) (items : List EncryptedVaultItem)
      → s.failed ≤ (upgrade_from env ivs write keys s n items).failed
  unfolding upgrade_from
  upgrade_from-failed s n [] = omega arith
  upgrade_from-failed s n (i ∷ is) = elim (Bool-cases (is_legacy_item_blob i.encrypted)) [
    | inr modern ↦ rw (modern, upgrade_from) (upgrade_from-failed s (suc n) is)
    | inl legacy ↦
        let t = upgrade_item env ivs write keys s n i in
        rw (legacy, upgrade_from)
          (omega (
            arith,
            upgrade_from-failed t (suc n) is,
            Outcome-failed env ivs write keys (outcome s n i),
          ))
  ]

  -- `Done i w` says that the world holds item `i` in its new form.
  module _ (Done : EncryptedVaultItem → W → Type 0)
      (keeps : (i j : EncryptedVaultItem) (w : W) (e : EncryptedBlob)
        → Done i w
        → Done i (write w j e).0)
      (makes : (i : EncryptedVaultItem) (w : W) (e : EncryptedBlob)
        → (write w i e).1 ≡ true
        → Done i (write w i e).0) where
    Outcome-keeps :
        {s : UpgradeState W} {j : EncryptedVaultItem} {t : UpgradeState W} (i : EncryptedVaultItem)
        → Outcome env ivs write keys s j t
        → Done i s.world
        → Done i t.world
    Outcome-keeps {s} {j} i (inl o) d = elim o.world [
      | inl same ↦ subst (Done i) (sym same) d
      | inr (e, moved) ↦ subst (Done i) (sym moved) (keeps i j s.world e d)
    ]
    Outcome-keeps {s} {j} i (inr o) d =
        subst (Done i) (sym o.world) (keeps i j s.world o.envelope d)

    upgrade_from-keeps :
        (s : UpgradeState W) (n : ℕ) (items : List EncryptedVaultItem) (i : EncryptedVaultItem)
        → Done i s.world
        → Done i (upgrade_from env ivs write keys s n items).world
    unfolding upgrade_from
    upgrade_from-keeps s n [] i d = d
    upgrade_from-keeps s n (j ∷ js) i d = elim (Bool-cases (is_legacy_item_blob j.encrypted)) [
      | inr modern ↦ rw (modern, upgrade_from) (upgrade_from-keeps s (suc n) js i d)
      | inl legacy ↦
          rw (legacy, upgrade_from)
            (upgrade_from-keeps (upgrade_item env ivs write keys s n j) (suc n) js i
              (Outcome-keeps i (outcome s n j) d))
    ]

    Outcome-makes :
        {s : UpgradeState W} {i : EncryptedVaultItem} {t : UpgradeState W}
        → Outcome env ivs write keys s i t
        → t.failed ≡ s.failed
        → Done i t.world
    Outcome-makes (inl o) e = absurd (omega arith)
    Outcome-makes {s} {i} (inr o) e =
        subst (Done i) (sym o.world) (makes i s.world o.envelope o.succeeded)

    upgrade_from_complete :
        (s : UpgradeState W) (n : ℕ) (items : List EncryptedVaultItem) (t : UpgradeState W)
        → upgrade_from env ivs write keys s n items ≡ t
        → t.failed ≡ s.failed
        → All (λ i. is_legacy_item_blob i.encrypted ≡ true → Done i t.world) items
    unfolding upgrade_from
    upgrade_from_complete s n [] t e none_left = tt
    upgrade_from_complete s n (i ∷ is) t e none_left =
        elim (Bool-cases (is_legacy_item_blob i.encrypted)) [
          | inr modern ↦ (
            λ h. cc,
            upgrade_from_complete s (suc n) is t (rw (modern, upgrade_from) at e) none_left,
          )
          | inl legacy ↦
              let u = upgrade_item env ivs write keys s n i in
              let rest : upgrade_from env ivs write keys u (suc n) is ≡ t =
                rw (legacy, upgrade_from) at e in
              let o = outcome s n i in
              let more = subst (λ x. u.failed ≤ x.failed) rest (upgrade_from-failed u (suc n) is) in
              let grows = Outcome-failed env ivs write keys o in
              (
                λ h.
                    subst (λ x. Done i x.world) rest
                      (upgrade_from-keeps u (suc n) is i (Outcome-makes o (omega arith))),
                upgrade_from_complete u (suc n) is t rest (omega arith),
              )
        ]

    -- If the upgrade reports that no version 1 item is left, every version 1 item among those it
    -- was given has been written. `Done i w` is any property of the stored data that a successful
    -- write of `i` brings about and that no write undoes.
    pub upgrade-none_left :
        (revisions : RevisionStore) (w : W) (items : List EncryptedVaultItem)
        → (upgrade_legacy_items env ivs write keys revisions w items).failed ≡ 0
        → All
            (λ i.
              is_legacy_item_blob i.encrypted ≡ true
              → Done i (upgrade_legacy_items env ivs write keys revisions w items).world)
            items
    unfolding upgrade_legacy_items
    upgrade-none_left revisions w items h = upgrade_from_complete _ 0 items _ refl h

  -- Every version 1 item is counted once, as upgraded or as failed, and the run forgets nothing
  -- that the revision store had seen.
  pub upgrade-counts :
      (revisions : RevisionStore) (w : W) (items : List EncryptedVaultItem)
      → let t = upgrade_legacy_items env ivs write keys revisions w items in
        (t.upgraded + t.failed ≡ legacy_count items) × Extends revisions t.revisions
  unfolding upgrade_legacy_items
  upgrade-counts revisions w items =
      (omega (arith, upgrade_from-counts _ 0 items), upgrade_from-Extends _ 0 items)
