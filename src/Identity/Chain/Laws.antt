-- ===== src/Identity/Chain/Laws.antt =====
-- The loop of `verifyOrgKeyChain` over the whole chain, and its result.
use nopass.Prelude.{
  ℕ, ◌≤◌, ◌≡◌, refl, sym, ap, subst, ◌∙◌, ◌↔◌, inl, inr, true, false, List, [], ◌∷◌, Option, none,
  some, ok, Result-cases, arith, eq_iff, length,
}
use nopass.Prelude.Maps.{lookup}
use nopass.Errors.{Signer}
use nopass.Platform.{Platform}
use nopass.Identity.Pins.{KeyPinStore}
use nopass.Identity.Wrap.{OrgKeyWrap, SignedWrapLink, OrgEpochStore}
use nopass.Identity.Chain.{
  Expected, check_link, check_links, rolled_back, none_left, verify_org_key_chain,
}
use nopass.Identity.Chain.Links.{Trusted, check_link_sound, check_link_complete}

module _ {K : Type 0} (env : Platform K) (pins : KeyPinStore) (expected : Expected)
    (own : OrgKeyWrap) where
  check_links_sound :
      (un : List Signer) (chain : List SignedWrapLink)
      → check_links env pins expected own un chain ≡ ok []
      → (un ≡ []) × Trusted env pins expected own.epoch chain
  unfolding check_links
  check_links_sound un [] h = (ground arith, tt)
  check_links_sound un (link ∷ rest) h =
      elim (Result-cases (check_link env pins expected own un link rest)) [
        | inr (x, failed) ↦ absurd (ground arith)
        | inl (next, checked) ↦
            let (empty, later) = check_links_sound next rest (rw (checked, check_links) at h) in
            let (first, here) =
              check_link_sound env pins expected own un link rest (checked ∙ ap ok empty) in
            (first, (here, later))
      ]

  check_links_complete :
      (chain : List SignedWrapLink)
      → Trusted env pins expected own.epoch chain
      → check_links env pins expected own [] chain ≡ ok []
  unfolding check_links
  check_links_complete [] t = refl
  check_links_complete (link ∷ rest) t =
      rw (check_link_complete env pins expected own link rest t.0) (check_links_complete rest t.1)

-- An epoch below none that this device has accepted for the organization.
abbrev pub Current : ℕ → Option ℕ → Type 0
Current epoch none = Unit
Current epoch (some highest) = highest ≤ epoch

-- What `verifyOrgKeyChain` has established when it returns a wrap.
pub record Verifies {K : Type 0} (env : Platform K) (pins : KeyPinStore)
    (chain : List SignedWrapLink) (expected : Expected) (epochs : OrgEpochStore) (w : OrgKeyWrap)
    : Type 0 where
  pub own : SignedWrapLink
  pub rest : List SignedWrapLink
  pub starts : chain ≡ own ∷ rest
  pub result : own.wrap ≡ w
  pub org : w.org_id ≡ expected.org_id
  pub recipient : w.recipient_user_id ≡ expected.recipient_user_id
  pub short : length chain ≤ 16
  pub trusted : Trusted env pins expected w.epoch chain
  pub current : Current w.epoch (lookup expected.org_id epochs)

module _ {K : Type 0} (env : Platform K) (pins : KeyPinStore) where
  none_left-nil : (un : List Signer) → none_left un ≡ true → un ≡ []
  none_left-nil [] h = refl
  none_left-nil (u ∷ un) h = cc

  rolled_back-Current : (n : ℕ) (o : Option ℕ) → rolled_back n o ≡ false → Current n o
  rolled_back-Current n none h = tt
  rolled_back-Current n (some m) h = ground arith

  Current-rolled_back : (n : ℕ) (o : Option ℕ) → Current n o → rolled_back n o ≡ false
  Current-rolled_back n none h = refl
  Current-rolled_back n (some m) h = ground arith

  chain_sound :
      (chain : List SignedWrapLink) (expected : Expected) (epochs : OrgEpochStore) (w : OrgKeyWrap)
      → verify_org_key_chain env pins chain expected epochs ≡ ok w
      → Verifies env pins chain expected epochs w
  unfolding verify_org_key_chain
  chain_sound [] expected epochs w h = cc
  chain_sound (own ∷ rest) expected epochs w h =
      elim (Result-cases (check_links env pins expected own.wrap [] (own ∷ rest))) [
        | inr (x, failed) ↦ absurd (ground arith)
        | inl (un, checked) ↦
            let empty = none_left-nil un (ground arith) in
            let same : own.wrap ≡ w = ground arith in
            let links =
              (check_links_sound env pins expected own.wrap [] (own ∷ rest)
                (checked ∙ ap ok empty)).1 in
            record {
              own = own;
              rest = rest;
              starts = refl;
              result = same;
              org =
                  ap (λ x. x.org_id) (sym same)
                  ∙ ground (arith, eq_iff own.wrap.org_id expected.org_id);
              recipient =
                  ap (λ x. x.recipient_user_id) (sym same)
                  ∙ ground (arith, eq_iff own.wrap.recipient_user_id expected.recipient_user_id);
              short = ground arith;
              trusted = subst (λ x. Trusted env pins expected x.epoch (own ∷ rest)) same links;
              current =
                  subst (λ x. Current x.epoch (lookup expected.org_id epochs)) same
                    (rolled_back-Current own.wrap.epoch (lookup expected.org_id epochs)
                      (ground arith));
            }
      ]

  chain_complete :
      (chain : List SignedWrapLink) (expected : Expected) (epochs : OrgEpochStore) (w : OrgKeyWrap)
      → Verifies env pins chain expected epochs w
      → verify_org_key_chain env pins chain expected epochs ≡ ok w
  unfolding verify_org_key_chain
  chain_complete [] expected epochs w v = let s = v.starts in cc
  chain_complete (own ∷ rest) expected epochs w v =
      let s = v.starts in
      let head : v.own ≡ own = cc in
      let same : own.wrap ≡ w = ap (λ x. x.wrap) (sym head) ∙ v.result in
      let links =
        check_links_complete env pins expected own.wrap (own ∷ rest)
          (subst (λ x. Trusted env pins expected x.epoch (own ∷ rest)) (sym same) v.trusted) in
      let fresh =
        Current-rolled_back own.wrap.epoch (lookup expected.org_id epochs)
          (subst (λ x. Current x.epoch (lookup expected.org_id epochs)) (sym same) v.current) in
      let o = ap (λ x. x.org_id) same ∙ v.org in
      let r = ap (λ x. x.recipient_user_id) same ∙ v.recipient in
      let n = v.short in
      ground (
        arith,
        links,
        fresh,
        eq_iff own.wrap.org_id expected.org_id,
        eq_iff own.wrap.recipient_user_id expected.recipient_user_id,
      )

  -- A chain is accepted exactly when it starts with the caller's own wrap for the organization, has
  -- at most 16 links, every link is signed by the pinned identity key of its signer and vouched for
  -- by an admin's or owner's next link or an owner's own, all at one epoch, which is not below the
  -- highest accepted on this device.
  pub verify_org_key_chain_iff :
      (chain : List SignedWrapLink) (expected : Expected) (epochs : OrgEpochStore) (w : OrgKeyWrap)
      → (verify_org_key_chain env pins chain expected epochs ≡ ok w)
        ↔ Verifies env pins chain expected epochs w
  verify_org_key_chain_iff chain expected epochs w =
      (chain_sound chain expected epochs w, chain_complete chain expected epochs w)
