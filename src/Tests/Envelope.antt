-- ===== src/Tests/Envelope.antt =====
-- The envelope on one note of one user.
use nopass.Prelude.Bytes.{of_be}
use nopass.Prelude.{
  take, drop, ℕ, ◌≤◌, ◌<◌, arith, ◌≡◌, refl, false, List, [], none, some, Result, ok, err, ◌↔◌, inl,
}
use nopass.Types.Vault.{VaultItemType, EncryptedBlob}
use nopass.Envelope.Revisions.{RevisionStore}
use nopass.Envelope.Aad.{ItemBinding, personal, item_aad, scope_bytes, u64be}
use nopass.Uuid.{uuid_bytes}
use nopass.Envelope.Format.{
  VaultKeys, v2, encrypt_vault_item, encrypt_item_v2, next_revision, decrypt_vault_item,
}
use nopass.Prelude.Maps.{lookup, insert}
use nopass.Errors.{Error}
use nopass.Envelope.Revisions.{get, record_revision}
use nopass.Envelope.Revisions.Laws.{Extends-refl}
use nopass.Envelope.Aad.Laws.{SameBinding, item_aad-injective}
use nopass.Envelope.Format.Checks.{Checked, decrypt_vault_item_iff}
use nopass.Envelope.Format.Laws.{after_read, decrypt-no_rollback}
use nopass.Envelope.Format.RoundTrip.{
  decrypt-encrypt_vault_item, decrypt-moved, encrypt_vault_item-above,
}
use nopass.Tests.Toy.{
  toy, sample, toy-Base64Laws, toy-CipherLaws, toy-TextLaws, toy-AuthenticLaws, bytes_from,
}

abbrev pub a_binding : ItemBinding
a_binding = record {
  scope = personal;
  item_id = "00000000-0000-0000-0000-000000000001";
  item_type = VaultItemType.note;
}

abbrev pub a_keys : VaultKeys ℕ
a_keys = record { vault_enc_key = 1; vault_mac_key = 2 }

abbrev pub a_store : RevisionStore
a_store = record { current = record { revisions = []; v2_only = false }; snapshots = [] }

abbrev written_or_empty : Result Error (EncryptedBlob × ℕ) → EncryptedBlob × ℕ
written_or_empty (ok w) = w
written_or_empty (err e) = (record { blob = ""; blob_iv = ""; blob_mac = "" }, 0)

abbrev pub a_written : EncryptedBlob × ℕ
a_written = written_or_empty (encrypt_vault_item toy sample a_binding 1 none none [])

written_ok : encrypt_vault_item toy sample a_binding 1 none none [] ≡ ok (a_written.0, 1)
unfolding encrypt_vault_item encrypt_item_v2 item_aad scope_bytes uuid_bytes u64be next_revision
written_ok = refl

decrypt-encrypt_vault_item_example :
    decrypt_vault_item toy a_written.0 a_binding a_keys (some a_store)
    ≡ ok (
      record { plaintext = sample; revision = 1; format = v2 },
      after_read (some a_store) a_binding.item_id 1,
    )
unfolding get lookup
decrypt-encrypt_vault_item_example =
    decrypt-encrypt_vault_item toy toy-Base64Laws toy-CipherLaws sample a_binding a_keys none
      (some a_store) none [] a_written.0 1 written_ok tt refl (λ n h. absurd h)

-- The store after that read.
abbrev a_later_store : RevisionStore
a_later_store = record_revision a_store a_binding.item_id 1

read_again :
    decrypt_vault_item toy a_written.0 a_binding a_keys (some a_later_store)
    ≡ ok (
      record { plaintext = sample; revision = 1; format = v2 },
      after_read (some a_later_store) a_binding.item_id 1,
    )
unfolding get record_revision lookup insert
read_again =
    decrypt-encrypt_vault_item toy toy-Base64Laws toy-CipherLaws sample a_binding a_keys none
      (some a_later_store) none [] a_written.0 1 written_ok tt refl (λ n h. h)

decrypt-no_rollback_example : 1 ≤ 1
decrypt-no_rollback_example =
    decrypt-no_rollback toy a_written.0 a_written.0 a_binding a_binding a_keys a_keys a_store
      a_later_store a_later_store (record { plaintext = sample; revision = 1; format = v2 })
      (record { plaintext = sample; revision = 1; format = v2 })
      (after_read (some a_later_store) a_binding.item_id 1) refl decrypt-encrypt_vault_item_example
      (Extends-refl a_later_store) read_again

decrypt_vault_item_iff_example :
    (decrypt_vault_item toy a_written.0 a_binding a_keys (some a_store)
      ≡ ok (record { plaintext = sample; revision = 1; format = v2 }, some a_later_store))
    ↔ Checked toy a_written.0 a_binding a_keys
        (some a_store)
        (record { plaintext = sample; revision = 1; format = v2 })
        (some a_later_store)
decrypt_vault_item_iff_example =
    decrypt_vault_item_iff toy a_written.0 a_binding a_keys (some a_store)
      (record { plaintext = sample; revision = 1; format = v2 }) (some a_later_store)

abbrev pub a_legacy_blob : EncryptedBlob
a_legacy_blob = record { blob = "aab"; blob_iv = "b"; blob_mac = "b" }

abbrev bytes_or_empty : Result Error (List ℕ) → List ℕ
bytes_or_empty (ok bs) = bs
bytes_or_empty (err e) = []

abbrev an_aad : List ℕ
an_aad = bytes_or_empty (item_aad toy a_binding 7)

aad_ok : item_aad toy a_binding 7 ≡ ok an_aad
unfolding item_aad scope_bytes uuid_bytes u64be
aad_ok = refl

item_aad-injective_example : SameBinding toy a_binding a_binding 7 7
item_aad-injective_example =
    item_aad-injective toy toy-TextLaws a_binding a_binding 7 7 an_aad aad_ok aad_ok

abbrev blob_or_empty : Result Error EncryptedBlob → EncryptedBlob
blob_or_empty (ok e) = e
blob_or_empty (err e) = record { blob = ""; blob_iv = ""; blob_mac = "" }

abbrev a_sealed : EncryptedBlob
a_sealed = blob_or_empty (encrypt_item_v2 toy sample a_binding 1 1 [])

sealed_ok : encrypt_item_v2 toy sample a_binding 1 1 [] ≡ ok a_sealed
unfolding encrypt_item_v2 item_aad scope_bytes uuid_bytes u64be
sealed_ok = refl

sealed_modern : a_sealed.blob_mac ≡ ""
unfolding encrypt_item_v2 item_aad scope_bytes uuid_bytes u64be
sealed_modern = refl

sealed_read :
    decrypt_vault_item toy a_sealed a_binding a_keys none
    ≡ ok (record { plaintext = sample; revision = 1; format = v2 }, none)
unfolding encrypt_vault_item next_revision
sealed_read =
    decrypt-encrypt_vault_item toy toy-Base64Laws toy-CipherLaws sample a_binding a_keys none none
      none [] a_sealed 1 (rw sealed_ok refl) tt refl (λ n h. absurd h)

-- The same ciphertext on the same row.
decrypt-moved_example : SameBinding toy a_binding a_binding 1 1
decrypt-moved_example =
    decrypt-moved toy toy-Base64Laws toy-CipherLaws toy-AuthenticLaws toy-TextLaws sample a_binding
      a_binding 1 a_keys [] a_sealed a_sealed (bytes_from 0 a_sealed.blob)
      (bytes_from 0 a_sealed.blob) none (record { plaintext = sample; revision = 1; format = v2 })
      none sealed_ok refl refl refl (inl sealed_modern) sealed_read

-- A device that has seen revision 1 replaces a blob of revision 0.
abbrev a_second : EncryptedBlob × ℕ
a_second =
    written_or_empty (encrypt_vault_item toy sample a_binding 1 (some a_later_store) (some 0) [])

second_ok :
    encrypt_vault_item toy sample a_binding 1 (some a_later_store) (some 0) [] ≡ ok (a_second.0, 2)
unfolding encrypt_vault_item encrypt_item_v2 item_aad scope_bytes uuid_bytes u64be next_revision get
    record_revision lookup insert
second_ok = refl

encrypt_vault_item-above_example :
    (1 < 2)
    × ((blob : List ℕ) × (toy.atob a_second.0.blob ≡ some blob)
        × (of_be (take 8 (drop 1 blob)) ≡ 2))
unfolding get record_revision lookup insert
encrypt_vault_item-above_example =
    encrypt_vault_item-above toy toy-Base64Laws toy-CipherLaws sample a_binding 1
      (some a_later_store) (some 0) [] a_second.0 2 1 second_ok (inl (omega arith))
