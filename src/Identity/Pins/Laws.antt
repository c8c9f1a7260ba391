-- ===== src/Identity/Pins/Laws.antt =====
-- Trust on first use: what an accepted key is, and what a confirmation changes.
use nopass.Prelude.{
  subst, ok_injective, none, Option, Bool, ◌≡◌, refl, sym, ap, ◌∙◌, ◌↔◌, inl, inr, String, true,
  false, some, ok, Result-cases, Option-cases, Bool-cases, arith, eq_iff, str_eq, if◌then◌else◌,
}
use nopass.Prelude.Maps.{lookup, insert, lookup-insert}
use nopass.Types.Api.{KeyBundle}
use nopass.Platform.{Platform}
use nopass.Identity.Bundle.{is_missing, or_empty, verify_key_bundle, safety_number, safety_digits}
use nopass.Identity.Bundle.Laws.{Signed, verify_key_bundle_iff}
use nopass.Identity.Pins.{
  KeyPinStore, VerifiedKey, pin_changed, is_none, verify_member_key, confirm_key,
}

module _ {K : Type 0} (env : Platform K) where
  -- What `verifyMemberKey` has established about a bundle.
  pub record Verified (b : KeyBundle) (pins : KeyPinStore) (v : VerifiedKey) : Type 0 where
    pub signed : verify_key_bundle env b ≡ true
    pub pin : pin_changed (lookup b.user_id pins) (or_empty b.identity_public_key) ≡ false
    pub rsa : v.rsa_public_key ≡ b.public_key
    pub number : safety_number env b.user_id (or_empty b.identity_public_key) ≡ ok v.safety_number
    pub first : v.first_seen ≡ is_none (lookup b.user_id pins)

  verify_sound :
      (b : KeyBundle) (pins : KeyPinStore) (v : VerifiedKey)
      → verify_member_key env b pins ≡ ok v
      → Verified b pins v
  unfolding verify_member_key
  verify_sound b pins v h =
      elim (Result-cases (safety_number env b.user_id (or_empty b.identity_public_key))) [
        | inr (x, failed) ↦ absurd (ground arith)
        | inl (n, number) ↦ record {
          signed = ground arith;
          pin = ground arith;
          rsa = ground arith;
          number = ground arith;
          first = ground arith;
        }
      ]

  verify_key_bundle-present :
      (b : KeyBundle)
      → verify_key_bundle env b ≡ true
      → (is_missing b.identity_public_key ≡ false) × (is_missing b.public_key_signature ≡ false)
  unfolding verify_key_bundle
  verify_key_bundle-present b h = ground arith

  verify_complete :
      (b : KeyBundle) (pins : KeyPinStore) (v : VerifiedKey)
      → Verified b pins v
      → verify_member_key env b pins ≡ ok v
  unfolding verify_member_key
  verify_complete b pins v p = let here = verify_key_bundle-present b p.signed in ground arith

  pub verify_member_key-Verified :
      (b : KeyBundle) (pins : KeyPinStore) (v : VerifiedKey)
      → (verify_member_key env b pins ≡ ok v) ↔ Verified b pins v
  verify_member_key-Verified b pins v = (verify_sound b pins v, verify_complete b pins v)

  -- A confirmation pins the bundle's identity key for its user and changes no other pin, nor one
  -- that was there.
  pub lookup-confirm_key :
      (b : KeyBundle) (pins pins' : KeyPinStore) (u : String)
      → confirm_key env b pins ≡ ok pins'
      → lookup u pins'
        ≡ (if str_eq b.user_id u then some (or_empty b.identity_public_key) else lookup u pins)
  unfolding confirm_key
  lookup-confirm_key b pins pins' u h = elim (Result-cases (verify_member_key env b pins)) [
    | inr (x, failed) ↦ absurd (ground arith)
    | inl (v, verified) ↦ after v (verify_sound b pins v verified) (ground arith)
  ]
    where
      after :
          (v : VerifiedKey)
          → Verified b pins v
          → (if v.first_seen then insert b.user_id (or_empty b.identity_public_key) pins else pins)
            ≡ pins'
          → lookup u pins'
            ≡ (if str_eq b.user_id u then some (or_empty b.identity_public_key) else lookup u pins)
      after v p e =
          let key = or_empty b.identity_public_key in
          let first = p.first in
          let pin = p.pin in
          elim (Option-cases (lookup b.user_id pins)) [
            | inl new ↦
                let pinned : insert b.user_id key pins ≡ pins' = ground arith in
                ap (lookup u) (sym pinned) ∙ lookup-insert b.user_id u key pins
            | inr (k, old) ↦
                let kept : pins ≡ pins' = ground arith in
                let same : k ≡ key = ground (arith, eq_iff k key) in
                ap (lookup u) (sym kept) ∙ already k same old
          ]
        where
          already :
              (k : String)
              → k ≡ or_empty b.identity_public_key
              → lookup b.user_id pins ≡ some k
              → lookup u pins ≡ (
                  if str_eq b.user_id u
                  then some (or_empty b.identity_public_key)
                  else lookup u pins)
          already k same old = elim (Bool-cases (str_eq b.user_id u)) [
            | inr other ↦ rw other
            | inl mine ↦
                rw mine
                  (ap (λ i. lookup i pins) (sym ((eq_iff b.user_id u).0 mine)) ∙ old ∙ ap some same)
          ]

  -- Once a key is confirmed, another bundle of the same user that carries a different identity key
  -- is never accepted, and the confirmed bundle is accepted as already seen.
  pub confirm_key-pins :
      (b b' : KeyBundle) (pins pins' : KeyPinStore) (v : VerifiedKey)
      → confirm_key env b pins ≡ ok pins'
      → b'.user_id ≡ b.user_id
      → verify_member_key env b' pins' ≡ ok v
      → (or_empty b'.identity_public_key ≡ or_empty b.identity_public_key) × (v.first_seen ≡ false)
  confirm_key-pins b b' pins pins' v h user again =
      let p = verify_sound b' pins' v again in
      let pin = p.pin in
      let first = p.first in
      let at : lookup b'.user_id pins' ≡ some (or_empty b.identity_public_key) =
        lookup-confirm_key b pins pins' b'.user_id h
        ∙ ground (arith, eq_iff b.user_id b'.user_id) in
      ground (arith, at, eq_iff (or_empty b.identity_public_key) (or_empty b'.identity_public_key))

  -- The confirmed bundle itself is accepted from then on.
  pub confirm_key-verifies :
      (b : KeyBundle) (pins pins' : KeyPinStore)
      → confirm_key env b pins ≡ ok pins'
      → (v : VerifiedKey) × (verify_member_key env b pins' ≡ ok v) × (v.first_seen ≡ false)
  unfolding confirm_key
  confirm_key-verifies b pins pins' h = elim (Result-cases (verify_member_key env b pins)) [
    | inr (x, failed) ↦ absurd (ground arith)
    | inl (v, verified) ↦
        let p = verify_sound b pins v verified in
        let key = or_empty b.identity_public_key in
        let at : lookup b.user_id pins' ≡ some key =
          lookup-confirm_key b pins pins' b.user_id h
          ∙ ground (arith, eq_iff b.user_id b.user_id) in
        let w : VerifiedKey = record v { first_seen = false } in
        (
          w,
          verify_complete b pins' w (record {
            signed = p.signed;
            pin = ground (arith, at, eq_iff key key);
            rsa = p.rsa;
            number = p.number;
            first = ground (arith, at);
          }),
          refl,
        )
  ]

  -- A key that a member may be known by: the bundle is signed, the identity key is the pinned one if one
  -- is pinned, and the result is its RSA key, the digits of its user and key, and whether none is
  -- pinned.
  pub record Member (b : KeyBundle) (pins : KeyPinStore) (v : VerifiedKey) : Type 0 where
    pub bundle : Signed env b
    pub pinned : (p : String) → lookup b.user_id pins ≡ some p → p ≡ bundle.key
    pub rsa : v.rsa_public_key ≡ b.public_key
    pub number : v.safety_number ≡ safety_digits env bundle.id bundle.key_bytes
    pub first : (v.first_seen ≡ true) ↔ (lookup b.user_id pins ≡ none)

  pin_changed_iff :
      (o : Option String) (key : String)
      → (pin_changed o key ≡ false) ↔ ((p : String) → o ≡ some p → p ≡ key)
  pin_changed_iff none key = (λ h p e. absurd (cc e), λ h. refl)
  pin_changed_iff (some s) key = (
    λ h p e. let same : s ≡ p = cc e in cc (same, (eq_iff s key).0 (ground arith)),
    λ h. let t = (eq_iff s key).1 (h s refl) in ground arith,
  )

  first_iff : (o : Option String) (t : Bool) → (t ≡ is_none o) ↔ ((t ≡ true) ↔ (o ≡ none))
  first_iff none true = (λ h. (λ a. refl, λ a. refl), λ h. refl)
  first_iff none false = (λ h. absurd (cc h), λ h. h.1 refl)
  first_iff (some s) true = (λ h. absurd (cc h), λ h. absurd (cc (h.0 refl)))
  first_iff (some s) false = (λ h. (λ a. absurd (cc a), λ a. absurd (cc a)), λ h. refl)

  digits_eq :
      (b : KeyBundle) (s : Signed env b)
      → safety_number env b.user_id (or_empty b.identity_public_key)
        ≡ ok (safety_digits env s.id s.key_bytes)
  unfolding safety_number
  digits_eq b s = rw (s.key_there, s.id_read, s.key_read) refl

  -- A member's key is accepted exactly when the bundle is self-signed and the identity key is the
  -- pinned one or none is pinned; the result is the bundle's RSA key, the safety digits of the user and
  -- the identity key, and whether nothing was pinned.
  pub verify_member_key_iff :
      (b : KeyBundle) (pins : KeyPinStore) (v : VerifiedKey)
      → (verify_member_key env b pins ≡ ok v) ↔ Member b pins v
  verify_member_key_iff b pins v = (
    λ h.
        let p = verify_sound b pins v h in
        let s = (verify_key_bundle_iff env b).0 p.signed in
        let same : or_empty b.identity_public_key ≡ s.key = ap or_empty s.key_there in
        record {
          bundle = s;
          pinned =
              (pin_changed_iff (lookup b.user_id pins) s.key).0
                (subst (λ k. pin_changed (lookup b.user_id pins) k ≡ false) same p.pin);
          rsa = p.rsa;
          number = ok_injective _ _ (sym p.number ∙ digits_eq b s);
          first = (first_iff (lookup b.user_id pins) v.first_seen).0 p.first;
        },
    λ m.
        let s = m.bundle in
        let same : or_empty b.identity_public_key ≡ s.key = ap or_empty s.key_there in
        verify_complete b pins v (record {
          signed = (verify_key_bundle_iff env b).1 s;
          pin =
              subst (λ k. pin_changed (lookup b.user_id pins) k ≡ false) (sym same)
                ((pin_changed_iff (lookup b.user_id pins) s.key).1 m.pinned);
          rsa = m.rsa;
          number = digits_eq b s ∙ ap ok (sym m.number);
          first = (first_iff (lookup b.user_id pins) v.first_seen).1 m.first;
        }),
  )
