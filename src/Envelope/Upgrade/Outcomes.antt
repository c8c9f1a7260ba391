-- ===== src/Envelope/Upgrade/Outcomes.antt =====
-- The two ways that one legacy item of an upgrade can end.
use nopass.Prelude.{
  ℕ, ◌+◌, ◌≤◌, ◌≡◌, refl, sym, inl, inr, Bool, true, false, List, Option, some, Result, ok, err,
  arith, ◌⊎◌, get_or_else, subst,
}
use nopass.Types.Vault.{EncryptedVaultItem, EncryptedBlob}
use nopass.Platform.{Platform}
use nopass.Errors.{Error}
use nopass.Envelope.Format.Laws.{decrypt_vault_item-Accepted}
use nopass.Envelope.Revisions.{RevisionStore}
use nopass.Envelope.Revisions.Laws.{Extends, Extends-refl, Extends-trans, record_revision-Extends}
use nopass.Envelope.Aad.{binding_for_item}
use nopass.Envelope.Format.{VaultKeys, decrypt_vault_item, encrypt_vault_item, DecryptedItem}
use nopass.Envelope.Upgrade.{UpgradeState, after_write, rewrite, upgrade_item}

module _ {K W : Type 0} (env : Platform K) (ivs : ℕ → List ℕ)
    (write : W → EncryptedVaultItem → EncryptedBlob → W × Bool) (keys : VaultKeys K) where
  -- A legacy item that counts as failed: at most one write was tried.
  pub record Failed (s : UpgradeState W) (item : EncryptedVaultItem) (t : UpgradeState W)
      : Type 0 where
    pub failed : t.failed ≡ s.failed + 1
    pub upgraded : t.upgraded ≡ s.upgraded
    pub world : (t.world ≡ s.world) ⊎ ((e : EncryptedBlob) × (t.world ≡ (write s.world item e).0))
    pub store : Extends s.revisions t.revisions

  -- A legacy item that counts as upgraded: a write of it succeeded.
  pub record Written (s : UpgradeState W) (item : EncryptedVaultItem) (t : UpgradeState W)
      : Type 0 where
    pub failed : t.failed ≡ s.failed
    pub upgraded : t.upgraded ≡ s.upgraded + 1
    pub envelope : EncryptedBlob
    pub succeeded : (write s.world item envelope).1 ≡ true
    pub world : t.world ≡ (write s.world item envelope).0
    pub store : Extends s.revisions t.revisions

  abbrev pub Outcome : UpgradeState W → EncryptedVaultItem → UpgradeState W → Type 0
  Outcome s item t = Failed s item t ⊎ Written s item t

  after_write-Outcome :
      (s : UpgradeState W) (item : EncryptedVaultItem) (e : EncryptedBlob) (rs : RevisionStore)
      (rev : ℕ) (r : W × Bool)
      → write s.world item e ≡ r
      → Extends s.revisions rs
      → Outcome s item (after_write env ivs write keys s item rs rev r)
  unfolding after_write
  after_write-Outcome s item e rs rev (w, true) h x = inr (record {
    failed = refl;
    upgraded = refl;
    envelope = e;
    succeeded = ground arith;
    world = ground arith;
    store = Extends-trans x (record_revision-Extends rs item.id rev);
  })
  after_write-Outcome s item e rs rev (w, false) h x =
      inl (record { failed = refl; upgraded = refl; world = inr (e, ground arith); store = x })

  rewrite-Outcome :
      (s : UpgradeState W) (n : ℕ) (item : EncryptedVaultItem) (current : DecryptedItem)
      (rs : RevisionStore)
      → Extends s.revisions rs
      → Outcome s item (rewrite env ivs write keys s n item current rs)
  unfolding rewrite
  rewrite-Outcome s n item current rs x =
      elim (encrypt_vault_item env current.plaintext (binding_for_item item) keys.vault_enc_key
          (some rs) (some current.revision) (ivs n))
        as (λ r. Outcome s item (elim r [
          | err e ↦ record s { revisions = rs; failed = s.failed + 1 }
          | ok (encrypted, revision) ↦
              after_write env ivs write keys s item rs revision (write s.world item encrypted)
        ])) [
          | err e ↦ inl (record { failed = refl; upgraded = refl; world = inl refl; store = x })
          | ok (encrypted, revision) ↦ after_write-Outcome s item encrypted rs revision _ refl x
        ]

  pub upgrade_item-Outcome :
      (s : UpgradeState W) (n : ℕ) (item : EncryptedVaultItem)
      → Outcome s item (upgrade_item env ivs write keys s n item)
  unfolding upgrade_item
  upgrade_item-Outcome s n item =
      by_read
        (decrypt_vault_item env item.encrypted (binding_for_item item) keys (some s.revisions)) refl
    where
      by_read :
          (r : Result Error (DecryptedItem × Option RevisionStore))
          → decrypt_vault_item env item.encrypted (binding_for_item item) keys (some s.revisions)
            ≡ r
          → Outcome s item (elim r [
            | err e ↦ record s { failed = s.failed + 1 }
            | ok (current, seen) ↦
                rewrite env ivs write keys s n item current (get_or_else seen s.revisions)
          ])
      by_read (err e) h = inl (record {
        failed = refl;
        upgraded = refl;
        world = inl refl;
        store = Extends-refl s.revisions;
      })
      by_read (ok (current, seen)) h = rewrite-Outcome s n item current _ (
          subst (λ o. Extends s.revisions (get_or_else o s.revisions))
            (sym
              ((decrypt_vault_item-Accepted env item.encrypted (binding_for_item item) keys
                  (some s.revisions) current seen).0
                h).seen_eq)
            (record_revision-Extends s.revisions (binding_for_item item).item_id current.revision))

  pub Outcome-counts :
      {s : UpgradeState W} {i : EncryptedVaultItem} {t : UpgradeState W}
      → Outcome s i t
      → t.upgraded + t.failed ≡ s.upgraded + s.failed + 1
  Outcome-counts (inl o) = omega arith
  Outcome-counts (inr o) = omega arith

  pub Outcome-Extends :
      {s : UpgradeState W} {i : EncryptedVaultItem} {t : UpgradeState W}
      → Outcome s i t
      → Extends s.revisions t.revisions
  Outcome-Extends (inl o) = o.store
  Outcome-Extends (inr o) = o.store

  pub Outcome-failed :
      {s : UpgradeState W} {i : EncryptedVaultItem} {t : UpgradeState W}
      → Outcome s i t
      → s.failed ≤ t.failed
  Outcome-failed (inl o) = omega arith
  Outcome-failed (inr o) = omega arith
