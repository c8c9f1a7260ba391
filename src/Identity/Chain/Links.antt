-- ===== src/Identity/Chain/Links.antt =====
-- One link of a chain of wraps: what `checkLinkShape` and the loop of `verifyOrgKeyChain` establish.
use nopass.Prelude.{
  ℕ, ◌≡◌, refl, inl, inr, ◌≢◌, String, Bool, true, false, List, [], ◌∷◌, Option, none, some, ok,
  Result-cases, arith, eq_iff,
}
use nopass.Prelude.Maps.{lookup}
use nopass.Types.Api.{KeyBundle}
use nopass.Errors.{Signer}
use nopass.Platform.{Platform}
use nopass.Identity.Bundle.{is_missing, or_empty, succeeds, verify_key_bundle}
use nopass.Identity.Bundle.Laws.{safety_number-verified}
use nopass.Identity.Pins.{KeyPinStore, VerifiedKey, verify_member_key, is_none, pin_changed}
use nopass.Identity.Pins.Laws.{verify_member_key-Verified}
use nopass.Identity.Wrap.{OrgKeyWrap, SignedWrapLink, wrap_signature_ok}
use nopass.Identity.Chain.{Expected, is_admin_role, check_shape, note_signer, check_link}

-- Who vouches for a wrap: its recipient, if that is an owner and the chain ends here; or the
-- recipient of the next wrap, as an owner or admin.
pub data Vouched (wrap : OrgKeyWrap) (rest : List SignedWrapLink) : Type 0 where
  root :
      wrap.signer_user_id ≡ wrap.recipient_user_id
      → wrap.role ≡ "owner"
      → rest ≡ []
      → Vouched wrap rest
  by_admin :
      (next : SignedWrapLink) (more : List SignedWrapLink)
      → wrap.signer_user_id ≢ wrap.recipient_user_id
      → rest ≡ next ∷ more
      → next.wrap.recipient_user_id ≡ wrap.signer_user_id
      → is_admin_role next.wrap.role ≡ true
      → Vouched wrap rest

check_shape_sound :
    (wrap : OrgKeyWrap) (rest : List SignedWrapLink) {u : Unit {0}}
    → check_shape wrap rest ≡ ok u
    → Vouched wrap rest
unfolding check_shape
check_shape_sound wrap [] h =
    root (ground (arith, eq_iff wrap.signer_user_id wrap.recipient_user_id))
      (ground (arith, eq_iff wrap.role "owner")) refl
check_shape_sound wrap (next ∷ more) h =
    by_admin next more (ground (arith, eq_iff wrap.signer_user_id wrap.recipient_user_id)) refl
      (ground (arith, eq_iff next.wrap.recipient_user_id wrap.signer_user_id)) (ground arith)

check_shape_complete :
    (wrap : OrgKeyWrap) (rest : List SignedWrapLink)
    → Vouched wrap rest
    → check_shape wrap rest ≡ ok tt
unfolding check_shape
check_shape_complete wrap rest (root self owner last) =
    rw last
      (ground (arith, eq_iff wrap.signer_user_id wrap.recipient_user_id, eq_iff wrap.role "owner"))
check_shape_complete wrap rest (by_admin next more other here vouch admin) = rw here (
    ground (
      arith,
      eq_iff wrap.signer_user_id wrap.recipient_user_id,
      eq_iff next.wrap.recipient_user_id wrap.signer_user_id,
    ))

module _ {K : Type 0} (env : Platform K) (pins : KeyPinStore) (expected : Expected)
    (epoch : ℕ) where
  -- One link of a chain that may be used.
  pub record LinkOk (link : SignedWrapLink) (rest : List SignedWrapLink) : Type 0 where
    pub signed : is_missing link.signature ≡ false
    pub same_org : link.wrap.org_id ≡ expected.org_id
    pub same_epoch : link.wrap.epoch ≡ epoch
    pub signer : link.signer.user_id ≡ link.wrap.signer_user_id
    pub vouched : Vouched link.wrap rest
    pub bundle : verify_key_bundle env link.signer ≡ true
    pub pinned : lookup link.signer.user_id pins ≡ some (or_empty link.signer.identity_public_key)
    pub signature :
        succeeds (wrap_signature_ok env link.wrap (or_empty link.signature) link.signer) ≡ true

  abbrev pub Trusted : List SignedWrapLink → Type 0
  Trusted [] = Unit
  Trusted (link ∷ rest) = LinkOk link rest × Trusted rest

-- A list of signers to confirm stays empty only if the new one was pinned.
note_signer-nil :
    (un : List Signer) (b : KeyBundle) (v : VerifiedKey)
    → note_signer un b v ≡ []
    → (un ≡ []) × (v.first_seen ≡ false)
unfolding note_signer
note_signer-nil [] b v h = ground arith
note_signer-nil (u ∷ un) b v h = ground arith

module _ {K : Type 0} (env : Platform K) (pins : KeyPinStore) (expected : Expected)
    (own : OrgKeyWrap) where
  pub check_link_sound :
      (un : List Signer) (link : SignedWrapLink) (rest : List SignedWrapLink)
      → check_link env pins expected own un link rest ≡ ok []
      → (un ≡ []) × LinkOk env pins expected own.epoch link rest
  unfolding check_link
  check_link_sound un link rest h = elim (Result-cases (check_shape link.wrap rest)) [
    | inr (x, failed) ↦ absurd (ground arith)
    | inl (u, shape) ↦ elim (Result-cases (verify_member_key env link.signer pins)) [
      | inr (x, failed) ↦ absurd (ground arith)
      | inl (v, verified) ↦
          let p = (verify_member_key-Verified env link.signer pins v).0 verified in
          let noted : note_signer un link.signer v ≡ [] = ground arith in
          let (empty, seen) = note_signer-nil un link.signer v noted in
          let first = p.first in
          let pin = p.pin in
          (
            empty,
            record {
              signed = ground arith;
              same_org = ground (arith, eq_iff link.wrap.org_id expected.org_id);
              same_epoch = ground arith;
              signer = ground (arith, eq_iff link.signer.user_id link.wrap.signer_user_id);
              vouched = check_shape_sound link.wrap rest shape;
              bundle = p.signed;
              pinned = pin_known (lookup link.signer.user_id pins) _ (first) seen pin;
              signature = ground arith;
            },
          )
    ]
  ]
    where
      pin_known :
          (o : Option String) (key : String) {b : Bool}
          → b ≡ is_none o
          → b ≡ false
          → pin_changed o key ≡ false
          → o ≡ some key
      pin_known none key p q r = cc
      pin_known (some k) key p q r = ground (arith, eq_iff k key)

  pub check_link_complete :
      (link : SignedWrapLink) (rest : List SignedWrapLink)
      → LinkOk env pins expected own.epoch link rest
      → check_link env pins expected own [] link rest ≡ ok []
  unfolding check_link note_signer
  check_link_complete link rest l =
      let key = or_empty link.signer.identity_public_key in
      let shape = check_shape_complete link.wrap rest l.vouched in
      let (n, number) = safety_number-verified env link.signer l.bundle in
      let pinned = l.pinned in
      let v : VerifiedKey = record {
        rsa_public_key = link.signer.public_key;
        safety_number = n;
        first_seen = false;
      } in
      let verified : verify_member_key env link.signer pins ≡ ok v =
        (verify_member_key-Verified env link.signer pins v).1 (record {
          signed = l.bundle;
          pin = ground (arith, eq_iff key key);
          rsa = refl;
          number = number;
          first = ground arith;
        }) in
      let a = l.signed in
      let b = l.same_org in
      let c = l.same_epoch in
      let d = l.signer in
      let e = l.signature in
      ground (
        arith,
        eq_iff link.wrap.org_id expected.org_id,
        eq_iff link.signer.user_id link.wrap.signer_user_id,
      )
