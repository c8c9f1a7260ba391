-- ===== src/Org/Resign/Laws.antt =====
-- Who gets a wrap when an organization key is shared again.
use nopass.Prelude.{
  ℕ, suc, ◌≡◌, refl, sym, ap, subst, ◌∙◌, inl, inr, String, Bool, true, false, not, ◌&&◌, ◌||◌,
  List, [], ◌∷◌, map, Option, none, some, ok, err, Result-cases, Option-cases, Bool-cases, arith,
  str_eq, filter, All, is_some,
}
use nopass.Prelude.Maps.{lookup}
use nopass.Types.Api.{OrgMember, MemberWrap}
use nopass.Errors.{Error}
use nopass.Platform.{Platform}
use nopass.Identity.Bundle.{
  IdentityKey, is_missing, or_empty, verify_key_bundle, derive_identity_key,
}
use nopass.Identity.Bundle.Laws.{safety_number-verified}
use nopass.Identity.Pins.{VerifiedKey, is_none, pin_changed, verify_member_key}
use nopass.Identity.Pins.Laws.{verify_member_key-Verified}
use nopass.Org.Resign.{
  ResignInput, ResignedWraps, bundle_of, confirmed_key, recipient_key, wrap_for, resign_from,
  build_resigned_wraps, with_skipped, with_wrap,
}

-- The member's identity key is the one pinned for them.
abbrev pub is_pinned : Option String → String → Bool
is_pinned none key = false
is_pinned (some pinned) key = str_eq pinned key

module _ {K : Type 0} (env : Platform K) (input : ResignInput K) where
  -- The owner, or a member who has published a key whose signature verifies under the identity key
  -- pinned for them.
  abbrev pub is_confirmed : OrgMember → Bool
  is_confirmed m =
      str_eq m.user_id input.owner_user_id
      || (not (is_missing m.public_key)
          && (verify_key_bundle env (bundle_of m)
              && is_pinned (lookup m.user_id input.pins) (or_empty m.identity_public_key)))

module _ {K : Type 0} (env : Platform K) (pads : ℕ → List ℕ) (input : ResignInput K)
    (identity : IdentityKey) where
  confirmed_key-pinned :
      (m : OrgMember) (v : VerifiedKey)
      → verify_member_key env (bundle_of m) input.pins ≡ ok v
      → is_some (confirmed_key (ok v)) ≡ (
          verify_key_bundle env (bundle_of m)
          && is_pinned (lookup m.user_id input.pins) (or_empty m.identity_public_key))
  confirmed_key-pinned m v h =
      let p = (verify_member_key-Verified env (bundle_of m) input.pins v).0 h in
      by_pin (lookup m.user_id input.pins) p.pin p.first p.signed
    where
      by_pin :
          (o : Option String)
          → pin_changed o (or_empty m.identity_public_key) ≡ false
          → v.first_seen ≡ is_none o
          → verify_key_bundle env (bundle_of m) ≡ true
          → is_some (confirmed_key (ok v))
            ≡ (verify_key_bundle env (bundle_of m) && is_pinned o (or_empty m.identity_public_key))
      by_pin none c f s = ground arith
      by_pin (some k) c f s = ground arith

  refused-not_pinned :
      (m : OrgMember) (e : Error)
      → verify_member_key env (bundle_of m) input.pins ≡ err e
      → (verify_key_bundle env (bundle_of m)
          && is_pinned (lookup m.user_id input.pins) (or_empty m.identity_public_key))
        ≡ false
  refused-not_pinned m e h = elim (Bool-cases (verify_key_bundle env (bundle_of m))) [
    | inr bad ↦ ground arith
    | inl good ↦ by_pin (lookup m.user_id input.pins) refl good
  ]
    where
      by_pin :
          (o : Option String)
          → lookup m.user_id input.pins ≡ o
          → verify_key_bundle env (bundle_of m) ≡ true
          → (verify_key_bundle env (bundle_of m) && is_pinned o (or_empty m.identity_public_key))
            ≡ false
      by_pin none l s = ground arith
      by_pin (some k) l s = elim (Bool-cases (str_eq k (or_empty m.identity_public_key))) [
        | inr other ↦ ground arith
        | inl same ↦
            let (n, number) = safety_number-verified env (bundle_of m) s in
            let v : VerifiedKey = record {
              rsa_public_key = (bundle_of m).public_key;
              safety_number = n;
              first_seen = false;
            } in
            let verified : verify_member_key env (bundle_of m) input.pins ≡ ok v =
              (verify_member_key-Verified env (bundle_of m) input.pins v).1 (record {
                signed = s;
                pin = ground arith;
                rsa = refl;
                number = number;
                first = ground arith;
              }) in
            absurd (cc (h, verified))
      ]

  recipient_key-confirmed :
      (m : OrgMember) → is_some (recipient_key env pads input identity m) ≡ is_confirmed env input m
  unfolding recipient_key
  recipient_key-confirmed m = elim (Result-cases (verify_member_key env (bundle_of m) input.pins)) [
    | inl (v, h) ↦ let k = confirmed_key-pinned m v h in ground arith
    | inr (e, h) ↦ let k = refused-not_pinned m e h in ground arith
  ]

  -- The members who got a wrap and those who were skipped, in the order of `members`.
  abbrev Split : List OrgMember → ResignedWraps → Type 0
  Split members r =
      (map (λ w. w.user_id) r.wraps
        ≡ map (λ m. m.user_id) (filter (is_confirmed env input) members))
      × ((r.skipped ≡ map (λ m. m.user_id) (filter (λ m. not (is_confirmed env input m)) members))
          × All (λ w. w.key_epoch ≡ input.epoch) r.wraps)

  wrap_for-fields :
      (n : ℕ) (m : OrgMember) (key : String) (w : MemberWrap)
      → wrap_for env pads input identity n m key ≡ ok w
      → (w.user_id ≡ m.user_id) × (w.key_epoch ≡ input.epoch)
  unfolding wrap_for
  wrap_for-fields n m key w h = ground arith

  resign_from-Split :
      (n : ℕ) (members : List OrgMember) (r : ResignedWraps)
      → resign_from env pads input identity n members ≡ ok r
      → Split members r
  unfolding resign_from
  resign_from-Split n [] r h =
      let empty : ResignedWraps = record { wraps = []; skipped = [] } in
      let same : empty ≡ r = ground arith in subst (Split []) same (refl, (refl, tt))
  resign_from-Split n (m ∷ ms) r h =
      let known = recipient_key-confirmed m in
      elim (Option-cases (recipient_key env pads input identity m)) [
        | inl skip ↦ elim (Result-cases (resign_from env pads input identity (suc n) ms)) [
          | inr (e, failed) ↦ absurd (ground arith)
          | inl (rest, later) ↦
              let (a, (b, c)) = resign_from-Split (suc n) ms rest later in
              let out : is_confirmed env input m ≡ false = sym known ∙ ap is_some skip in
              let same : with_skipped m.user_id rest ≡ r = ground arith in
              subst (Split (m ∷ ms)) same (rw out a, (rw out (ap (◌∷◌ m.user_id) b), c))
        ]
        | inr (key, found) ↦ elim (Result-cases (wrap_for env pads input identity n m key)) [
          | inr (e, failed) ↦ absurd (ground arith)
          | inl (w, wrapped) ↦
              elim (Result-cases (resign_from env pads input identity (suc n) ms)) [
                | inr (e, failed) ↦ absurd (ground arith)
                | inl (rest, later) ↦
                    let (a, (b, c)) = resign_from-Split (suc n) ms rest later in
                    let (user, epoch) = wrap_for-fields n m key w wrapped in
                    let isin : is_confirmed env input m ≡ true = sym known ∙ ap is_some found in
                    let same : with_wrap w rest ≡ r = ground arith in
                    subst (Split (m ∷ ms)) same (rw isin (cc (user, a)), (rw isin b, (epoch, c)))
              ]
        ]
      ]

-- Sharing an organization key again wraps it for the owner and for exactly those members whose
-- published key verifies under the identity key pinned for them, at the epoch asked for; every other
-- member is reported as skipped. Both lists keep the order of the members.
pub build_resigned_wraps-split :
    {K : Type 0} (env : Platform K) (pads : ℕ → List ℕ) (input : ResignInput K) (r : ResignedWraps)
    → build_resigned_wraps env pads input ≡ ok r
    → (map (λ w. w.user_id) r.wraps
        ≡ map (λ m. m.user_id) (filter (is_confirmed env input) input.members))
      × ((r.skipped
            ≡ map (λ m. m.user_id) (filter (λ m. not (is_confirmed env input m)) input.members))
          × All (λ w. w.key_epoch ≡ input.epoch) r.wraps)
unfolding build_resigned_wraps
build_resigned_wraps-split env pads input r h =
    elim (Result-cases (
      derive_identity_key env input.identity.protected_private_key
        input.identity.protected_private_key_iv input.identity.stretched_master_key)) [
          | inr (e, failed) ↦ absurd (ground arith)
          | inl (identity, derived) ↦
              resign_from-Split env pads input identity 0 input.members r (rw derived at h)
        ]
