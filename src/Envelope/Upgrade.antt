-- ===== src/Envelope/Upgrade.antt =====
-- `applyV2OnlyMarker`, `v2OnlyMarker`, `trustStateId` and `upgradeLegacyItems` of
-- packages/crypto/src/item-envelope.ts. The upgrade passes two states on: the revision store, and a
-- world `W` on which `write` persists one item and says whether it succeeded. The random iv of the
-- n-th item is `ivs n`.
use Prim.Native.String
use nopass.Prelude.{
  ℕ, suc, ◌+◌, ◌/◌, ◌%◌, String, Bool, true, false, List, [], ◌∷◌, Option, none, some, Result, ok,
  err, take, if◌then◌else◌, str_eq, get_or_else,
}
use nopass.Prelude.Text.{hex_char}
use nopass.Types.Vault.{EncryptedVaultItem, EncryptedBlob}
use nopass.Platform.{Platform, to_base64}
use nopass.Envelope.Revisions.{RevisionStore, record_revision, mark_v2_only}
use nopass.Envelope.Aad.{binding_for_item}
use nopass.Envelope.Format.{
  DecryptedItem, VaultKeys, is_legacy_item_blob, decrypt_vault_item, encrypt_vault_item,
}
pub mod Outcomes
pub mod Laws

abbrev pub v2_only_label : String
v2_only_label = "nopwd-vault-format-v2-only-v1"

-- `b.toString(16).padStart(2, "0")` for each byte, joined
hex_string : List ℕ → String
unfolding hex_char
hex_string [] = ""
hex_string (b ∷ bs) =
    String.◌++◌ (hex_char (b / 16)) (String.◌++◌ (hex_char (b % 16)) (hex_string bs))

module _ {K : Type 0} (env : Platform K) where
  abbrev pub mac_label : K → String → List ℕ
  mac_label key label = env.hmac_sign key (env.encode_text label)

  -- Thirty-two hexadecimal digits.
  unfoldable pub trust_state_id : K → String
  unfolding hex_string
  trust_state_id key = hex_string (take 16 (mac_label key "nopwd-trust-state-id-v1"))

  unfoldable pub v2_only_marker : K → String
  v2_only_marker key = to_base64 env (mac_label key v2_only_label)

  -- Whether a marker verifies; `atob` failing counts as no.
  marker_ok : String → K → Bool
  marker_ok marker key = elim (env.atob marker) [
    | none ↦ false
    | some mac ↦ env.hmac_verify key mac (env.encode_text v2_only_label)
  ]

  -- The new store; the code returns its `v2Only`.
  unfoldable pub apply_v2_only_marker : Option String → K → RevisionStore → RevisionStore
  unfolding marker_ok
  apply_v2_only_marker none key revisions = revisions
  apply_v2_only_marker (some marker) key revisions =
      if str_eq marker ""
      then revisions
      else if marker_ok marker key
      then mark_v2_only revisions
      else revisions

pub record UpgradeState (W : Type 0) : Type 0 where
  pub revisions : RevisionStore
  pub world : W
  pub upgraded : ℕ
  pub failed : ℕ

module _ {K W : Type 0} (env : Platform K) (ivs : ℕ → List ℕ)
    (write : W → EncryptedVaultItem → EncryptedBlob → W × Bool) (keys : VaultKeys K) where
  -- After the write: the revision is recorded only if it succeeded.
  unfoldable pub after_write :
      UpgradeState W → EncryptedVaultItem → RevisionStore → ℕ → W × Bool → UpgradeState W
  after_write s item revisions revision (w, true) = record s {
    revisions = record_revision revisions item.id revision;
    world = w;
    upgraded = s.upgraded + 1;
  }
  after_write s item revisions revision (w, false) = record s {
    revisions = revisions;
    world = w;
    failed = s.failed + 1;
  }

  -- The item is read: the store has recorded it already.
  unfoldable pub rewrite :
      UpgradeState W → ℕ → EncryptedVaultItem → DecryptedItem → RevisionStore → UpgradeState W
  rewrite s n item current revisions =
      elim (encrypt_vault_item env current.plaintext (binding_for_item item) keys.vault_enc_key
        (some revisions) (some current.revision) (ivs n)) [
          | err e ↦ record s { revisions = revisions; failed = s.failed + 1 }
          | ok (encrypted, revision) ↦
              after_write s item revisions revision (write s.world item encrypted)
        ]

  -- The body of the loop for one legacy item, with its `try` and `catch`.
  unfoldable pub upgrade_item : UpgradeState W → ℕ → EncryptedVaultItem → UpgradeState W
  upgrade_item s n item =
      elim (decrypt_vault_item env item.encrypted (binding_for_item item) keys (some s.revisions)) [
        | err e ↦ record s { failed = s.failed + 1 }
        | ok (current, seen) ↦ rewrite s n item current (get_or_else seen s.revisions)
      ]

  unfoldable pub upgrade_from : UpgradeState W → ℕ → List EncryptedVaultItem → UpgradeState W
  upgrade_from s n [] = s
  upgrade_from s n (item ∷ items) =
      upgrade_from (if is_legacy_item_blob item.encrypted then upgrade_item s n item else s) (suc n)
        items

  -- The store, the world, and the counts; `legacyLeft` is `failed`.
  unfoldable pub upgrade_legacy_items : RevisionStore → W → List EncryptedVaultItem → UpgradeState W
  upgrade_legacy_items revisions w items =
      upgrade_from (record { revisions = revisions; world = w; upgraded = 0; failed = 0 }) 0 items
