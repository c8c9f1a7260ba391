-- ===== src/Tests/Clients.antt =====
-- Autofill, the store of the clients, and what a device remembers.
use nopass.Prelude.{
  ℕ, ◌+◌, ◌≡◌, refl, ◌↔◌, arith, String, Bool, true, false, List, [], ◌∷◌, none, some, All, eq_iff,
}
use nopass.Prelude.Maps.{lookup, insert}
use nopass.Prelude.Sets.{has}
use nopass.Types.Vault.{EncryptedVaultItem, EncryptedBlob}
use nopass.Envelope.Revisions.{get, record_revision}
use nopass.Envelope.Revisions.Laws.{Extends}
use nopass.Envelope.Aad.{binding_for_item, scope_of, item_aad, scope_bytes, u64be}
use nopass.Envelope.Format.{
  is_legacy_item_blob, decrypt_vault_item, open_blob, open_v1, check_revision, encrypt_vault_item,
  encrypt_item_v2, next_revision,
}
use nopass.Envelope.Legacy.{decrypt_item}
use nopass.Envelope.Upgrade.{upgrade_legacy_items, upgrade_from, upgrade_item, rewrite, after_write}
use nopass.Envelope.Upgrade.Laws.{legacy_count, upgrade-none_left, upgrade-counts}
use nopass.Uuid.{uuid_bytes}
use nopass.Autofill.{Url, Web, origin_matches}
use nopass.Autofill.Rules.{Rules, origin_matches_iff}
use nopass.VaultStore.{NopassStore, initial}
use nopass.Tests.Toy.{toy, toy_encrypt, btoa}
use nopass.Tests.Envelope.{a_store, a_keys}
use nopass.Tests.Sync.{an_item}

-- A page and a saved address, both http.
abbrev an_url : Url
an_url = record { protocol = "http:"; hostname = "site.test"; port = "" }

abbrev a_web : Web
a_web = record {
  parse_url = λ s. some an_url;
  registrable_domain = λ s. some s;
  ends_with = λ s suffix. false;
  includes_ignoring_case = λ s t. true;
}

origin_matches_iff_example :
    (origin_matches a_web "http://site.test/a" "http://site.test" ≡ true) ↔ (
      (item : Url) × (page : Url) × (a_web.parse_url "http://site.test/a" ≡ some item)
      × (a_web.parse_url "http://site.test" ≡ some page)
      × Rules a_web item page)
origin_matches_iff_example = origin_matches_iff a_web "http://site.test/a" "http://site.test"

-- A store of the clients after one action.
abbrev a_client : NopassStore ℕ
a_client = initial none

-- One version 1 item, written to a list of the ids that were written.
abbrev a_legacy_item : EncryptedVaultItem
a_legacy_item = record an_item {
  encrypted = record { blob = btoa (toy_encrypt [] []); blob_iv = ""; blob_mac = "b" };
}

abbrev a_write : List String → EncryptedVaultItem → EncryptedBlob → List String × Bool
a_write w i e = (i.id ∷ w, true)

abbrev Stored : EncryptedVaultItem → List String → Type 0
Stored i w = has i.id w ≡ true

abbrev no_iv : ℕ → List ℕ
no_iv n = []

Stored-keeps :
    (i j : EncryptedVaultItem) (w : List String) (e : EncryptedBlob)
    → Stored i w
    → Stored i (a_write w j e).0
unfolding has
Stored-keeps i j w e h = ground arith

Stored-makes :
    (i : EncryptedVaultItem) (w : List String) (e : EncryptedBlob)
    → (a_write w i e).1 ≡ true
    → Stored i (a_write w i e).0
unfolding has
Stored-makes i w e h = ground (arith, eq_iff i.id i.id)

upgrade-none_left_example :
    All
      (λ i.
        is_legacy_item_blob i.encrypted ≡ true
        → Stored i
            (upgrade_legacy_items toy no_iv a_write a_keys a_store [] (a_legacy_item ∷ [])).world)
      (a_legacy_item ∷ [])
unfolding upgrade_legacy_items upgrade_from upgrade_item rewrite after_write decrypt_vault_item
    open_blob open_v1 decrypt_item check_revision get record_revision lookup insert
    encrypt_vault_item encrypt_item_v2 next_revision item_aad scope_bytes u64be uuid_bytes
    binding_for_item scope_of
upgrade-none_left_example =
    upgrade-none_left toy no_iv a_write a_keys Stored Stored-keeps Stored-makes a_store []
      (a_legacy_item ∷ []) refl

upgrade-counts_example :
    let t = upgrade_legacy_items toy no_iv a_write a_keys a_store [] (a_legacy_item ∷ []) in
    (t.upgraded + t.failed ≡ legacy_count toy no_iv a_write a_keys (a_legacy_item ∷ []))
    × Extends a_store t.revisions
upgrade-counts_example = upgrade-counts toy no_iv a_write a_keys a_store [] (a_legacy_item ∷ [])
