-- ===== src/Srp/Laws.antt =====
-- A login over SRP between this client and a server that follows SRP-6a.
use native.Mathlib.Nat.{mod-mod}
use nopass.Prelude.{
  ℕ, ◌+◌, ◌*◌, ◌%◌, ◌^◌, ◌<◌, ◌≡◌, ◌≢◌, ◌↔◌, refl, ap, ◌∙◌, arith, String, true, not, List, ◌++◌,
  length, All, Option, none, some, ok, ◌==◌, if◌then◌else◌,
}
use nopass.Prelude.Bytes.{IsByte}
use nopass.Platform.{Platform, Base64Laws}
use nopass.Account.Kdf.{Derivation}
use nopass.Srp.{
  Group, g_2048, SrpStep2Result, big_int, hex_to_base64, base64_to_hex, compute_k, derive_x,
  premaster, finish_step2, verify_server_proof,
}
use nopass.Srp.Numbers.{hex_to_bytes, bytes_to_hex, big_int_to_bytes, bytes_to_big_int}
use nopass.Srp.Numbers.RoundTrip.{
  hex_to_bytes-bytes_to_hex, big_int_to_bytes-IsByte, bytes_to_big_int-big_int_to_bytes, number_of,
  bytes_to_big_int-number_of,
}
use nopass.Srp.Compare.{diff_from_iff}
use nopass.Srp.Premaster.{premaster-agrees}

-- SHA-256 gives 32 bytes.
pub record DigestLaws (kdf : Derivation) : Type 0 where
  pub digest_length : (bs : List ℕ) → length (kdf.sha256 bs) ≡ 32
  pub digest_bytes : (bs : List ℕ) → All IsByte (kdf.sha256 bs)

-- What a server reads of a key or of a verifier.
abbrev pub server_reads : {K : Type 0} → Platform K → String → Option ℕ
server_reads env text = elim (env.atob text) [ none ↦ none | some bytes ↦ bytes_to_big_int bytes ]

-- The server's public key, for the verifier `v` and a secret `b`.
abbrev pub server_public : Group → ℕ → ℕ → ℕ → ℕ
server_public group k v b = (k * v + group.g ^ b) % group.n

-- The server's premaster secret, for the client's key `a`, the verifier, the scrambling `u` and `b`.
abbrev pub server_premaster : Group → ℕ → ℕ → ℕ → ℕ → ℕ
server_premaster group a v u b = (a * v ^ u) ^ b % group.n

module _ {K : Type 0} (env : Platform K) (kdf : Derivation) (group : Group) where
  -- What a client and a server agree on: the session key, and the proof of each, which the other takes.
  pub record Agreed (a v b k : ℕ) (step2 : SrpStep2Result) : Type 0 where
    pub session_key :
        step2.session_key
        ≡ big_int_to_bytes (
            server_premaster group a v
              (number_of
                (kdf.sha256 (big_int_to_bytes a ++ big_int_to_bytes (server_public group k v b))))
              b)
    pub client_proof :
        env.atob step2.client_proof_m1
        ≡ some (
            kdf.sha256 (
              big_int_to_bytes a
              ++ (big_int_to_bytes (server_public group k v b) ++ step2.session_key)))
    pub server_proof :
        verify_server_proof env kdf group step2 (
          env.btoa (
            kdf.sha256 (
              big_int_to_bytes a
              ++ (kdf.sha256 (
                    big_int_to_bytes a
                    ++ (big_int_to_bytes (server_public group k v b) ++ step2.session_key))
                  ++ step2.session_key))))
        ≡ ok tt

module _ {K : Type 0} (env : Platform K) (kdf : Derivation) (group : Group)
    (base64 : Base64Laws env) (digest : DigestLaws kdf) where
  pub base64_to_hex-btoa :
      (bs : List ℕ)
      → All IsByte bs
      → base64_to_hex env kdf group (env.btoa bs) ≡ ok (bytes_to_hex bs)
  unfolding base64_to_hex
  base64_to_hex-btoa bs h = rw (base64.atob-btoa bs h)

  pub big_int-bytes :
      (n : ℕ) → big_int env kdf group (hex_to_bytes (bytes_to_hex (big_int_to_bytes n))) ≡ ok n
  unfolding big_int
  big_int-bytes n =
      rw (hex_to_bytes-bytes_to_hex (big_int_to_bytes n), bytes_to_big_int-big_int_to_bytes n)

  big_int-digest :
      (bs : List ℕ) → big_int env kdf group (kdf.sha256 bs) ≡ ok (number_of (kdf.sha256 bs))
  unfolding big_int
  big_int-digest bs =
      rw (bytes_to_big_int-number_of (kdf.sha256 bs) (omega (arith, digest.digest_length bs)))

  -- The server's proof is accepted exactly if it is the digest of the client's key, its proof and the
  -- session key: no prefix of it, and nothing longer.
  pub verify_server_proof_iff :
      (step2 : SrpStep2Result) (m2 : List ℕ)
      → All IsByte m2
      → (verify_server_proof env kdf group step2 (env.btoa m2) ≡ ok tt)
        ↔ (m2 ≡ kdf.sha256 (step2.a_bytes ++ (step2.m1_bytes ++ step2.session_key)))
  unfolding verify_server_proof
  verify_server_proof_iff step2 m2 h =
      let expected = kdf.sha256 (step2.a_bytes ++ (step2.m1_bytes ++ step2.session_key)) in
      let diff : ℕ = if length m2 == length expected then 0 else 1 in
      let lengths : diff ≡ 0 ↔ (length m2 ≡ length expected) =
        (λ e. ground arith, λ e. ground arith) in
      let compared = diff_from_iff expected m2 diff lengths in
      rw (base64_to_hex-btoa m2 h, hex_to_bytes-bytes_to_hex m2)
        (λ e. compared.0 (ground arith), λ e. ground (arith, compared.1 e))

  pub sent :
      (bs : List ℕ)
      → All IsByte bs
      → env.atob (hex_to_base64 env kdf group (bytes_to_hex bs)) ≡ some bs
  unfolding hex_to_base64
  sent bs h = ap (λ t. env.atob (env.btoa t)) (hex_to_bytes-bytes_to_hex bs) ∙ base64.atob-btoa bs h

  pub base64_to_hex-sent :
      (bs : List ℕ)
      → All IsByte bs
      → base64_to_hex env kdf group (hex_to_base64 env kdf group (bytes_to_hex bs))
        ≡ ok (bytes_to_hex bs)
  unfolding base64_to_hex
  base64_to_hex-sent bs h = rw (sent bs h)

  -- A number is read back from base64.
  pub reads-number :
      (n : ℕ)
      → server_reads env (hex_to_base64 env kdf group (bytes_to_hex (big_int_to_bytes n))) ≡ some n
  reads-number n =
      rw (sent (big_int_to_bytes n) (big_int_to_bytes-IsByte n), server_reads)
        (bytes_to_big_int-big_int_to_bytes n)

  pub finish_step2-Agreed :
      (large : 1 < group.n) (salt_hex : List ℕ) (email password : String) (secret x k b : ℕ)
      → derive_x env kdf group salt_hex email password ≡ ok x
      → compute_k env kdf group ≡ ok k
      → server_public group k (group.g ^ x % group.n) b ≢ 0
      → (step2 : SrpStep2Result) × (finish_step2 env kdf group salt_hex email password
            (server_public group k (group.g ^ x % group.n) b)
            secret
            (group.g ^ secret % group.n)
          ≡ ok step2)
        × Agreed env kdf group (group.g ^ secret % group.n) (group.g ^ x % group.n) b k step2
  unfolding finish_step2
  finish_step2-Agreed large salt_hex email password secret x k b hx hk nonzero =
      let a = group.g ^ secret % group.n in
      let public_b = server_public group k (group.g ^ x % group.n) b in
      let u = number_of (kdf.sha256 (big_int_to_bytes a ++ big_int_to_bytes public_b)) in
      let s_bytes = big_int_to_bytes (premaster env kdf group k secret public_b u x) in
      let m1 = kdf.sha256 (big_int_to_bytes a ++ (big_int_to_bytes public_b ++ s_bytes)) in
      let step2 : SrpStep2Result = record {
        client_proof_m1 = hex_to_base64 env kdf group (bytes_to_hex m1);
        session_key = s_bytes;
        a_bytes = big_int_to_bytes a;
        m1_bytes = m1;
      } in
      let usable : not (public_b % group.n == 0) ≡ true =
        ground (arith, mod-mod (k * (group.g ^ x % group.n) + group.g ^ b) group.n) in
      (
        step2,
        rw (usable, hx, big_int-digest (big_int_to_bytes a ++ big_int_to_bytes public_b), hk) refl,
        record {
          session_key = ap big_int_to_bytes (premaster-agrees env kdf group large k secret b u x);
          client_proof =
              sent m1 (
                digest.digest_bytes (big_int_to_bytes a ++ (big_int_to_bytes public_b ++ s_bytes)));
          server_proof =
              (verify_server_proof_iff step2 (kdf.sha256 (big_int_to_bytes a ++ (m1 ++ s_bytes)))
                  (digest.digest_bytes (big_int_to_bytes a ++ (m1 ++ s_bytes)))).1
                refl;
        },
      )

-- The group of the client has a modulus that the theorems ask for.
pub g_2048-large : 1 < g_2048.n
unfolding g_2048
g_2048-large = omega arith
