-- ===== src/Tests/Passkeys.antt =====
-- One signature, one CBOR head and one page.
use nopass.Prelude.{◌≢◌, ℕ, ◌≡◌, List, [], ◌∷◌, ◌++◌, ◌+◌, ok, err, length, take, drop}
use nopass.Errors.{not_a_p256_signature}
use nopass.Webauthn.{raw_sig_to_der}
use nopass.Webauthn.Laws.{Integer, raw_sig_to_der-Integer}

abbrev eight : ℕ → List ℕ → List ℕ
eight b r = b ∷ b ∷ b ∷ b ∷ b ∷ b ∷ b ∷ b ∷ r

abbrev a_raw : List ℕ
a_raw = eight 0 (eight 200 (eight 1 (eight 2 (eight 255 (eight 0 (eight 3 (eight 4 [])))))))

raw_sig_to_der-Integer_example :
    (length a_raw ≡ 64
      → (r : List ℕ) × (s : List ℕ) × (raw_sig_to_der a_raw
          ≡ ok (
              0x30
              ∷ (length (2 ∷ length r ∷ r) + length (2 ∷ length s ∷ s))
              ∷ ((2 ∷ length r ∷ r) ++ (2 ∷ length s ∷ s))))
        × Integer r (take 32 a_raw)
        × Integer s (drop 32 a_raw))
    × (length a_raw ≢ 64 → raw_sig_to_der a_raw ≡ err not_a_p256_signature)
raw_sig_to_der-Integer_example = raw_sig_to_der-Integer a_raw
