-- ===== src/Identity/Bundle/Laws.antt =====
-- What a verified bundle guarantees.
use nopass.Prelude.{
  ◌≡◌, ◌≢◌, ◌↔◌, refl, ap, String, Bool, Bool-cases, true, false, ok, Result-cases, Option-cases,
  arith, inl, inr, ℕ, List, ◌∷◌, ◌++◌, Option, none, some, eq_iff, str_eq, get_or_else,
}
use nopass.Types.Api.{KeyBundle}
use nopass.Platform.{Platform}
use nopass.Uuid.{uuid_bytes}
use nopass.Identity.Bundle.{
  is_missing, or_empty, bundle_message, bundle_signature_ok, verify_key_bundle, safety_number,
  safety_digits,
}

module _ {K : Type 0} (env : Platform K) where
  -- A bundle that is signed: its identity key and its signature are there, and the key verifies the
  -- signature over the domain, a 0, the bytes of the user's id and those of the RSA key.
  pub record Signed (b : KeyBundle) : Type 0 where
    pub key : String
    pub key_there : b.identity_public_key ≡ some key
    pub key_named : key ≢ ""
    pub signature : String
    pub signature_there : b.public_key_signature ≡ some signature
    pub signature_named : signature ≢ ""
    pub signature_bytes : List ℕ
    pub signature_read : env.atob signature ≡ some signature_bytes
    pub id : List ℕ
    pub id_read : uuid_bytes b.user_id ≡ ok id
    pub rsa : List ℕ
    pub rsa_read : env.atob b.public_key ≡ some rsa
    pub key_bytes : List ℕ
    pub key_read : env.atob key ≡ some key_bytes
    pub verifies :
        env.ed25519_verify signature_bytes
          (env.encode_text "nopwd-key-bundle-v1" ++ (0 ∷ (id ++ rsa)))
          key_bytes
        ≡ some true

  present : (o : Option String) → is_missing o ≡ false → (s : String) × (o ≡ some s) × (s ≢ "")
  present none h = cc
  present (some s) h = (s, refl, λ e. let t = (eq_iff s "").1 e in absurd (cc (t, h)))

  there : (o : Option String) (s : String) → o ≡ some s → s ≢ "" → is_missing o ≡ false
  there o s e n = elim (Bool-cases (str_eq s "")) [
    | inl empty ↦ absurd (n ((eq_iff s "").0 empty))
    | inr some_text ↦ rw e some_text
  ]

  is_true : (o : Option Bool) → get_or_else o false ≡ true → o ≡ some true
  is_true none h = cc
  is_true (some t) h = ap some h

  verify_key_bundle-Signed : (b : KeyBundle) → verify_key_bundle env b ≡ true → Signed b
  unfolding verify_key_bundle bundle_signature_ok bundle_message
  verify_key_bundle-Signed b h =
      let (key, kt, kn) = present b.identity_public_key (ground arith) in
      let (sig, st, sn) = present b.public_key_signature (ground arith) in
      elim (Option-cases (env.atob sig)) [
        | inl failed ↦ absurd (ground arith)
        | inr (sb, sr) ↦ elim (Result-cases (uuid_bytes b.user_id)) [
          | inr (x, failed) ↦ absurd (ground arith)
          | inl (id, ir) ↦ elim (Option-cases (env.atob b.public_key)) [
            | inl failed ↦ absurd (ground arith)
            | inr (rsa, rr) ↦ elim (Option-cases (env.atob key)) [
              | inl failed ↦ absurd (ground arith)
              | inr (kb, kr) ↦ record {
                key = key;
                key_there = kt;
                key_named = kn;
                signature = sig;
                signature_there = st;
                signature_named = sn;
                signature_bytes = sb;
                signature_read = sr;
                id = id;
                id_read = ir;
                rsa = rsa;
                rsa_read = rr;
                key_bytes = kb;
                key_read = kr;
                verifies = is_true _ (ground arith);
              }
            ]
          ]
        ]
      ]

  Signed-verify_key_bundle : (b : KeyBundle) → Signed b → verify_key_bundle env b ≡ true
  unfolding verify_key_bundle bundle_signature_ok bundle_message
  Signed-verify_key_bundle b s =
      let k = there b.identity_public_key s.key s.key_there s.key_named in
      let g = there b.public_key_signature s.signature s.signature_there s.signature_named in
      rw
        (
          k, g, s.key_there, s.signature_there, s.signature_read, s.id_read, s.rsa_read, s.key_read,
          s.verifies,
        )
        refl

  pub verify_key_bundle_iff : (b : KeyBundle) → (verify_key_bundle env b ≡ true) ↔ Signed b
  verify_key_bundle_iff b = (verify_key_bundle-Signed b, Signed-verify_key_bundle b)

  -- A bundle whose signature verifies has a safety number.
  pub safety_number-verified :
      (b : KeyBundle)
      → verify_key_bundle env b ≡ true
      → (n : String) × (safety_number env b.user_id (or_empty b.identity_public_key) ≡ ok n)
  unfolding verify_key_bundle bundle_signature_ok bundle_message safety_number
  safety_number-verified b h = elim (Result-cases (uuid_bytes b.user_id)) [
    | inr (x, failed) ↦ absurd (ground arith)
    | inl (id, id_eq) ↦ elim (Option-cases (env.atob (or_empty b.identity_public_key))) [
      | inl failed ↦ absurd (ground arith)
      | inr (key, key_eq) ↦ (safety_digits env id key, rw (id_eq, key_eq))
    ]
  ]
