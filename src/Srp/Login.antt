-- ===== src/Srp/Login.antt =====
-- A whole login over SRP: registration, both steps of the client, and a server that follows SRP-6a.
use nopass.Prelude.{
  ℕ, ◌<◌, ◌^◌, ◌%◌, ◌≡◌, ◌≢◌, ap, ◌∙◌, String, List, some, ok, All, bind_ok, subst,
}
use nopass.Prelude.Bytes.{IsByte}
use nopass.Platform.{Platform, Base64Laws}
use nopass.Account.Kdf.{Derivation}
use nopass.Srp.{
  Group, SrpRegistrationMaterial, SrpStep1Result, SrpStep2Result, big_int, hex_to_base64,
  base64_to_hex, compute_k, derive_x, generate_srp_registration, srp_step1, srp_step2,
}
use nopass.Srp.Numbers.{bytes_to_hex, big_int_to_bytes, mod_pow}
use nopass.Srp.Numbers.ModPow.{mod_pow_lem}
use nopass.Srp.Numbers.RoundTrip.{big_int_to_bytes-IsByte}
use nopass.Srp.Laws.{
  DigestLaws, base64_to_hex-btoa, base64_to_hex-sent, big_int-bytes, server_reads, server_public,
  Agreed, reads-number, finish_step2-Agreed,
}

module _ {K : Type 0} (env : Platform K) (kdf : Derivation) (group : Group)
    (base64 : Base64Laws env) (digest : DigestLaws kdf) where
  -- What a registration keeps: the salt, and a verifier that is the power of the private key.
  record Registered (email password : String) (salt : List ℕ) (material : SrpRegistrationMaterial)
      : Type 0 where
    x : ℕ
    x_eq : derive_x env kdf group (bytes_to_hex salt) email password ≡ ok x
    salt_eq : material.srp_salt ≡ hex_to_base64 env kdf group (bytes_to_hex salt)
    verifier_eq :
        material.srp_verifier
        ≡ hex_to_base64 env kdf group (bytes_to_hex (big_int_to_bytes (mod_pow group.g x group.n)))

  registration-Registered :
      (email password : String) (salt : List ℕ) (material : SrpRegistrationMaterial)
      → generate_srp_registration env kdf group email password salt ≡ ok material
      → Registered email password salt material
  unfolding generate_srp_registration
  registration-Registered email password salt material h =
      let (x, e, rest) =
        bind_ok (derive_x env kdf group (bytes_to_hex salt) email password) _ _ h in
      record { x = x; x_eq = e; salt_eq = cc rest; verifier_eq = cc rest }

  record Started (random : List ℕ) (step1 : SrpStep1Result) : Type 0 where
    secret : ℕ
    public_eq :
        step1.client_public_a
        ≡ hex_to_base64 env kdf group
            (bytes_to_hex (big_int_to_bytes (mod_pow group.g secret group.n)))
    key_eq :
        step1.private_session.public_key
        ≡ bytes_to_hex (big_int_to_bytes (mod_pow group.g secret group.n))
    secret_eq : step1.private_session.secret ≡ bytes_to_hex (big_int_to_bytes secret)

  srp_step1-Started :
      (random : List ℕ) (step1 : SrpStep1Result)
      → srp_step1 env kdf group random ≡ ok step1
      → Started random step1
  unfolding srp_step1
  srp_step1-Started random step1 h =
      let (a, e, rest) = bind_ok (big_int env kdf group random) _ _ h in
      record { secret = a; public_eq = cc rest; key_eq = cc rest; secret_eq = cc rest }

  -- A client that logs in with the email and the password it registered with agrees with a server that
  -- has the registered verifier and follows SRP-6a: unless the server's key is 0, the second step
  -- returns, both have the same session key, and each takes the proof of the other. Assumed: `atob`
  -- undoes `btoa`, and SHA-256 gives 32 bytes.
  pub srp_login-Agreed :
      (large : 1 < group.n) (email password : String) (salt random : List ℕ) (b : ℕ)
      (material : SrpRegistrationMaterial) (step1 : SrpStep1Result) (a v k : ℕ)
      → All IsByte salt
      → generate_srp_registration env kdf group email password salt ≡ ok material
      → srp_step1 env kdf group random ≡ ok step1
      → server_reads env step1.client_public_a ≡ some a
      → server_reads env material.srp_verifier ≡ some v
      → compute_k env kdf group ≡ ok k
      → server_public group k v b ≢ 0
      → (step2 : SrpStep2Result) × (srp_step2 env kdf group email password material.srp_salt
            (env.btoa (big_int_to_bytes (server_public group k v b)))
            step1.private_session
          ≡ ok step2)
        × Agreed env kdf group a v b k step2
  unfolding srp_step2
  srp_login-Agreed large email password salt random b material step1 a v k salt_bytes registered
        started reads_a reads_v hk nonzero =
      let r = registration-Registered email password salt material registered in
      let s = srp_step1-Started random step1 started in
      let v_eq : v ≡ group.g ^ r.x % group.n =
        read (mod_pow group.g r.x group.n) v material.srp_verifier r.verifier_eq reads_v
        ∙ mod_pow_lem group.g r.x group.n large in
      let a_eq : a ≡ group.g ^ s.secret % group.n =
        read (mod_pow group.g s.secret group.n) a step1.client_public_a s.public_eq reads_a
        ∙ mod_pow_lem group.g s.secret group.n large in
      let (step2, e, agreed) =
        finish_step2-Agreed env kdf group base64 digest large (bytes_to_hex salt) email password
          s.secret r.x k b r.x_eq hk (subst (λ t. server_public group k t b ≢ 0) v_eq nonzero) in
      let public_b = server_public group k (group.g ^ r.x % group.n) b in
      let salt_read : base64_to_hex env kdf group material.srp_salt ≡ ok (bytes_to_hex salt) =
        ap (base64_to_hex env kdf group) r.salt_eq
        ∙ base64_to_hex-sent env kdf group base64 digest salt salt_bytes in
      let key_read =
        base64_to_hex-btoa env kdf group base64 digest (big_int_to_bytes public_b)
          (big_int_to_bytes-IsByte public_b) in
      let bytes = big_int-bytes env kdf group base64 digest in
      let power = mod_pow_lem group.g s.secret group.n large in
      (
        step2,
        rw
            (
              v_eq,
              salt_read,
              key_read,
              bytes public_b,
              s.secret_eq,
              bytes s.secret,
              s.key_eq,
              bytes (mod_pow group.g s.secret group.n),
              power,
            )
            e,
        rw (v_eq, a_eq) agreed,
      )
    where
      read :
          (n m : ℕ) (text : String)
          → text ≡ hex_to_base64 env kdf group (bytes_to_hex (big_int_to_bytes n))
          → server_reads env text ≡ some m
          → m ≡ n
      read n m text e h =
          let sent = reads-number env kdf group base64 digest n in
          let back = ap (server_reads env) e in cc (h, back, sent)
