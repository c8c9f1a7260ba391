-- ===== src/Org/Check/History.antt =====
-- The highest epoch that a device has accepted for an organization, over any course of openings.
use nopass.Prelude.{
  ℕ, ◌≤◌, ◌≡◌, refl, sym, str_eq, if◌then◌else◌, subst, inl, inr, String, true, false, List, Option,
  none, some, Result, ok, Result-cases, Bool-cases, arith, leb, get_or_else, eq_iff, ◌⊎◌,
}
use nopass.Prelude.Maps.{lookup, lookup-insert}
use nopass.Types.Api.{WrapLink}
use nopass.Errors.{Error}
use nopass.Platform.{Platform}
use nopass.Identity.Pins.{KeyPinStore}
use nopass.Identity.Wrap.{OrgKeyWrap, OrgEpochStore, record_epoch}
use nopass.Identity.Chain.Laws.{Current}
use nopass.Org.Check.{
  OrgKeyCheck, verified, confirm, unsigned, refused, Me, check_org_key, open_checked, open_org_key,
}
use nopass.Org.Check.Laws.{open_org_key_iff}

-- The highest epoch recorded for an organization, 0 if there is none.
abbrev highest : OrgEpochStore → String → ℕ
highest epochs org = get_or_else (lookup org epochs) 0

record_epoch-highest :
    (epochs : OrgEpochStore) (org other : String) (e : ℕ)
    → (highest epochs other ≤ highest (record_epoch epochs org e) other)
      × (e ≤ highest (record_epoch epochs org e) org)
unfolding record_epoch
record_epoch-highest epochs org other e =
    elim (Bool-cases (leb e (get_or_else (lookup org epochs) 0))) [
      | inl low ↦ rw low (omega arith, ground arith)
      | inr high ↦
          rw (high, lookup-insert org other e epochs, lookup-insert org org e epochs)
            (kept (Bool-cases (str_eq org other)) high, raised)
    ]
  where
    kept :
        ((str_eq org other ≡ true) ⊎ (str_eq org other ≡ false))
        → leb e (get_or_else (lookup org epochs) 0) ≡ false
        → highest epochs other
          ≤ get_or_else (if str_eq org other then some e else lookup other epochs) 0
    kept (inr differs) high = rw differs (omega arith)
    kept (inl same) high = rw same (
        subst (λ o. get_or_else (lookup o epochs) 0 ≤ e) ((eq_iff org other).0 same) (ground arith))

    raised : e ≤ get_or_else (if str_eq org org then some e else lookup org epochs) 0
    raised = rw ((eq_iff org org).1 refl) (omega arith)

module _ {K : Type 0} (env : Platform K) where
  -- The epoch stores that a device can have after `start`: any openings of the keys of any
  -- organizations that return, and any epochs that are recorded, as for an invitation that is accepted.
  pub data Later (start : OrgEpochStore) : OrgEpochStore → Type 0 where
    here : Later start start
    opened :
        {s t : OrgEpochStore}
        → Later start s
        → (org : String) (chain : List WrapLink) (me : Me) (pins : KeyPinStore)
          (decrypt : String → Result Error K) (result : OrgKeyCheck × Option K)
        → open_org_key env org chain me pins s decrypt ≡ ok (result, t)
        → Later start t
    recorded :
        {s : OrgEpochStore}
        → Later start s
        → (org : String) (epoch : ℕ) → Later start (record_epoch s org epoch)

  open_checked-highest :
      (org other : String) (s t : OrgEpochStore) (decrypt : String → Result Error K)
      (check : OrgKeyCheck) (result : OrgKeyCheck × Option K)
      → open_checked env org s decrypt check ≡ ok (result, t)
      → highest s other ≤ highest t other
  open_checked-highest org other s t decrypt (verified w) result h =
      elim (Result-cases (decrypt w.encrypted_org_key)) [
        | inr (x, failed) ↦ absurd (ground arith)
        | inl (key, e) ↦
            let same : record_epoch s org w.epoch ≡ t = ground arith in
            subst (λ u. highest s other ≤ highest u other) same
              (record_epoch-highest s org other w.epoch).0
      ]
  open_checked-highest org other s t decrypt (confirm signers) result h =
      let same : s ≡ t = cc h in rw same (omega arith)
  open_checked-highest org other s t decrypt (unsigned own) result h =
      let same : s ≡ t = cc h in rw same (omega arith)
  open_checked-highest org other s t decrypt (refused e) result h =
      let same : s ≡ t = cc h in rw same (omega arith)

  open_org_key-highest :
      (org other : String) (chain : List WrapLink) (me : Me) (pins : KeyPinStore)
      (s t : OrgEpochStore) (decrypt : String → Result Error K) (result : OrgKeyCheck × Option K)
      → open_org_key env org chain me pins s decrypt ≡ ok (result, t)
      → highest s other ≤ highest t other
  unfolding open_org_key
  open_org_key-highest org other chain me pins s t decrypt result h =
      open_checked-highest org other s t decrypt (check_org_key env org chain me pins s) result h

  Later-highest : {s t : OrgEpochStore} (org : String) → Later s t → highest s org ≤ highest t org
  Later-highest org here = omega arith
  Later-highest org (opened {s = m} {t = t} l o chain me pins decrypt result h) =
      let before = Later-highest org l in
      let step = open_org_key-highest o org chain me pins m t decrypt result h in omega arith
  Later-highest org (recorded {s = m} l o epoch) =
      let before = Later-highest org l in
      let step = (record_epoch-highest m o org epoch).0 in omega arith

  Current-highest : (n : ℕ) (o : Option ℕ) → Current n o → get_or_else o 0 ≤ n
  Current-highest n none c = omega arith
  Current-highest n (some k) c = c

  -- Rollback of a key: after a key has been handed out for an organization, and whatever openings of the
  -- keys of whatever organizations followed on the device, no copy of a lower epoch is accepted for it,
  -- whoever serves it and whatever its chain.
  pub open_org_key-no_rollback :
      (org : String) (chain chain' : List WrapLink) (me me' : Me) (pins pins' : KeyPinStore)
      (epochs epochs' now after : OrgEpochStore) (decrypt decrypt' : String → Result Error K)
      (w w' : OrgKeyWrap) (key key' : K)
      → open_org_key env org chain me pins epochs decrypt ≡ ok ((verified w, some key), epochs')
      → Later epochs' now
      → open_org_key env org chain' me' pins' now decrypt' ≡ ok ((verified w', some key'), after)
      → w.epoch ≤ w'.epoch
  open_org_key-no_rollback org chain chain' me me' pins pins' epochs epochs' now after decrypt
        decrypt' w w' key key' first l later =
      let o = (open_org_key_iff env org chain me pins epochs decrypt w key epochs').0 first in
      let p = (open_org_key_iff env org chain' me' pins' now decrypt' w' key' after).0 later in
      let at_first : w.epoch ≤ highest epochs' org =
        subst (λ e. w.epoch ≤ highest e org) (sym o.recorded)
          (record_epoch-highest epochs org org w.epoch).1 in
      let kept = Later-highest org l in
      let last = Current-highest w'.epoch (lookup org now) p.verifies.current in omega arith
