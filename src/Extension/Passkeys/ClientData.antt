-- ===== src/Extension/Passkeys/ClientData.antt =====
-- The client data of a ceremony.
use nopass.Prelude.{ℕ, ◌≤◌, ◌≡◌, inl, inr, String, true, List, some, arith, Option-cases, length}
use nopass.Extension.Ceremony.{Ceremonies, is_b64u, build_client_data_json}

-- The collected client data of a ceremony for that origin, over a challenge of at least 16 bytes.
pub record ClientData (ceremonies : Ceremonies) (encode_text : String → List ℕ)
    (type challenge_b64u origin : String) (client_data_json : List ℕ) : Type 0 where
  pub valid : is_b64u challenge_b64u ≡ true
  pub challenge : List ℕ
  pub decoded : ceremonies.b64u_to_bytes challenge_b64u ≡ some challenge
  pub long : 16 ≤ length challenge
  pub encoded :
      client_data_json
      ≡ encode_text (ceremonies.client_data type (ceremonies.bytes_to_b64u challenge) origin)

module _ (ceremonies : Ceremonies) (encode_text : String → List ℕ) where
  pub build_client_data_json-ClientData :
      (type challenge_b64u origin : String) (client_data_json : List ℕ)
      → build_client_data_json ceremonies encode_text type challenge_b64u origin
        ≡ some client_data_json
      → ClientData ceremonies encode_text type challenge_b64u origin client_data_json
  unfolding build_client_data_json
  build_client_data_json-ClientData type challenge_b64u origin client_data_json h =
      elim (Option-cases (ceremonies.b64u_to_bytes challenge_b64u)) [
        | inl bad ↦ absurd (ground arith)
        | inr (challenge, decoded) ↦ record {
          valid = ground arith;
          challenge = challenge;
          decoded = decoded;
          long = ground arith;
          encoded = ground arith;
        }
      ]
