-- ===== src/Org/Check/Laws.antt =====
-- When the user interface obtains an organization key.
use nopass.Prelude.{
  ◌≡◌, refl, ap, subst, ◌∙◌, ◌↔◌, inl, inr, String, false, List, some, Result, ok, err,
  Result-cases, Bool-cases, arith, ◌⊎◌,
}
use nopass.Types.Api.{WrapLink}
use nopass.Errors.{Error}
use nopass.Platform.{Platform}
use nopass.Identity.Pins.{KeyPinStore}
use nopass.Identity.Wrap.{OrgKeyWrap, OrgEpochStore, record_epoch, chain_from_server}
use nopass.Identity.Chain.{Expected, verify_org_key_chain}
use nopass.Identity.Chain.Laws.{Verifies, verify_org_key_chain_iff}
use nopass.Org.Check.{
  OrgKeyCheck, verified, confirm, unsigned, refused, Me, own_is_unsigned, on_error, of_result,
  check_org_key, open_checked, open_org_key,
}

-- The wrap that a caller expects.
abbrev pub expected : String → Me → Expected
expected org me = record { org_id = org; recipient_user_id = me.user_id }

OrgKeyCheck-cases :
    (c : OrgKeyCheck)
    → ((w : OrgKeyWrap) × (c ≡ verified w)) ⊎ ((w : OrgKeyWrap) → c ≡ verified w → ⊥)
OrgKeyCheck-cases (verified w) = inl (w, refl)
OrgKeyCheck-cases (confirm s) = inr (λ w h. cc)
OrgKeyCheck-cases (unsigned b) = inr (λ w h. cc)
OrgKeyCheck-cases (refused e) = inr (λ w h. cc)

of_result-verified :
    (r : Result Error OrgKeyWrap) (w : OrgKeyWrap) → of_result r ≡ verified w → r ≡ ok w
of_result-verified (ok v) w h = cc
of_result-verified (err e) w h = absurd (on_error_refuses e h)
  where
    on_error_refuses : (e : Error) → on_error e ≡ verified w → ⊥
    on_error_refuses (Error.unconfirmed_signers s) h = cc
    on_error_refuses _ h = cc

module _ {K : Type 0} (env : Platform K) (org : String) (chain : List WrapLink) (me : Me)
    (pins : KeyPinStore) (epochs : OrgEpochStore) (decrypt : String → Result Error K) where
  -- What has been established when `openOrgKey` hands out a key.
  pub record Opened (w : OrgKeyWrap) (key : K) (after : OrgEpochStore) : Type 0 where
    pub signed : own_is_unsigned chain me ≡ false
    pub verifies : Verifies env pins (chain_from_server org chain) (expected org me) epochs w
    pub decrypted : decrypt w.encrypted_org_key ≡ ok key
    pub recorded : after ≡ record_epoch epochs org w.epoch

  check-verified :
      (w : OrgKeyWrap)
      → check_org_key env org chain me pins epochs ≡ verified w
      → (own_is_unsigned chain me ≡ false)
        × (verify_org_key_chain env pins (chain_from_server org chain) (expected org me) epochs
            ≡ ok w)
  unfolding check_org_key
  check-verified w h = elim (Bool-cases (own_is_unsigned chain me)) [
    | inl legacy ↦ absurd (ground arith)
    | inr signed ↦ (
      signed,
      of_result-verified
          (verify_org_key_chain env pins (chain_from_server org chain) (expected org me) epochs) w
          (rw signed at h),
    )
  ]

  open_sound :
      (w : OrgKeyWrap) (key : K) (after : OrgEpochStore)
      → open_org_key env org chain me pins epochs decrypt ≡ ok ((verified w, some key), after)
      → Opened w key after
  unfolding open_org_key
  open_sound w key after h = elim (OrgKeyCheck-cases (check_org_key env org chain me pins epochs)) [
    | inr other ↦ absurd (no_key (check_org_key env org chain me pins epochs) other h)
    | inl (v, checked) ↦ elim (Result-cases (decrypt v.encrypted_org_key)) [
      | inr (x, failed) ↦ absurd (ground arith)
      | inl (k, decrypted) ↦
          let same : v ≡ w = ground arith in
          let c = check-verified w (checked ∙ ap verified same) in
          record {
            signed = c.0;
            verifies =
                (verify_org_key_chain_iff env pins (chain_from_server org chain) (expected org me)
                    epochs w).0
                  c.1;
            decrypted = subst (λ x. decrypt x.encrypted_org_key ≡ ok key) same (ground arith);
            recorded = subst (λ x. after ≡ record_epoch epochs org x.epoch) same (ground arith);
          }
    ]
  ]
    where
      no_key :
          (c : OrgKeyCheck)
          → ((v : OrgKeyWrap) → c ≡ verified v → ⊥)
          → open_checked env org epochs decrypt c ≡ ok ((verified w, some key), after)
          → ⊥
      no_key (verified v) other h = other v refl
      no_key (confirm s) other h = cc
      no_key (unsigned b) other h = cc
      no_key (refused e) other h = cc

  open_complete :
      (w : OrgKeyWrap) (key : K) (after : OrgEpochStore)
      → Opened w key after
      → open_org_key env org chain me pins epochs decrypt ≡ ok ((verified w, some key), after)
  unfolding open_org_key check_org_key
  open_complete w key after o =
      let v =
        (verify_org_key_chain_iff env pins (chain_from_server org chain) (expected org me) epochs
            w).1
          o.verifies in
      ground (arith, o.signed, v, o.decrypted, o.recorded)

  -- `openOrgKey` hands out a key exactly when the caller's copy is signed, its chain verifies and
  -- the copy decrypts to that key; the epoch of the copy is then recorded.
  pub open_org_key_iff :
      (w : OrgKeyWrap) (key : K) (after : OrgEpochStore)
      → (open_org_key env org chain me pins epochs decrypt ≡ ok ((verified w, some key), after))
        ↔ Opened w key after
  open_org_key_iff w key after = (open_sound w key after, open_complete w key after)
