-- ===== src/Extension/Session/Laws.antt =====
-- Once the vault is locked it stays locked, whatever calls were under way.
use nopass.Prelude.{
  ℕ, ◌+◌, ◌≡◌, refl, false, List, [], ◌∷◌, Option, none, some, ◌<◌, All, All-append, All-split,
  All-map, arith, Bool-cases, Option-cases, Result-cases, inl, inr, ◌==◌, subst,
}
use nopass.Platform.{Platform}
use nopass.Extension.Session.{
  Background, Vault, Task, Reply, restore_vault_state, resume, unlock_items, unlock_revisions,
  unlock_timeout, unlock_alarm, lock_read, lock_remove, lock_clear, restore_read, restore_load,
  restore_drop, arm_timeout, import_vault_keys, restore_failed, restore_done,
}
use nopass.Extension.Session.Steps.{
  Worker, and_then, lock_request, Quiet, locks, restores, arms, goes_on, restarts, Run, here, later,
  Reach,
}
use nopass.Extension.Session.Invariant.{
  Issued, Valid, lock_vault-none, lock_vault-some, Reach-Valid,
}

module _ {K : Type 0} where
  abbrev pub NoUnlock : Task K → Type 0
  NoUnlock (unlock_items s enc mac) = ⊥
  NoUnlock (unlock_revisions s enc mac items) = ⊥
  NoUnlock (unlock_timeout s) = ⊥
  NoUnlock (unlock_alarm s) = ⊥
  NoUnlock _ = Unit

  -- A task that cannot open the vault: it is no unlock, and if it is a restore that found a session,
  -- the vault was locked since.
  abbrev pub Harmless : ℕ → Task K → Type 0
  Harmless n (unlock_items s enc mac) = ⊥
  Harmless n (unlock_revisions s enc mac items) = ⊥
  Harmless n (unlock_timeout s) = ⊥
  Harmless n (unlock_alarm s) = ⊥
  Harmless n (restore_read g (some s)) = g < n
  Harmless n (restore_load g s enc mac) = g < n
  Harmless n _ = Unit

  abbrev pub MaybeHarmless : ℕ → Option (Task K) → Type 0
  MaybeHarmless n none = Unit
  MaybeHarmless n (some t) = Harmless n t

  Harmless-later : (n : ℕ) (t : Task K) → Harmless n t → Harmless (n + 1) t
  Harmless-later n (restore_read g (some s)) h = omega arith
  Harmless-later n (restore_load g s enc mac) h = omega arith
  Harmless-later n _ h = h

  -- After a lock every restore that was issued is of an older generation.
  Issued-Harmless : (n : ℕ) (t : Task K) → Issued n t → NoUnlock t → Harmless (n + 1) t
  Issued-Harmless n (restore_read g (some s)) h u = omega arith
  Issued-Harmless n (restore_load g s enc mac) h u = omega arith
  Issued-Harmless n (restore_read g none) h u = tt
  Issued-Harmless n _ h u = u

  -- The vault is locked, nothing is persisted, and no task can open it.
  pub record Sealed (w : Worker K) : Type 0 where
    pub no_vault : w.background.vault ≡ none
    pub no_session : w.background.session ≡ none
    pub harmless : All (Harmless w.background.lock_generation) w.tasks

module _ {K : Type 0} (env : Platform K) (import_key : List ℕ → Option K) where
  StaysSealed : ℕ → Background K × Option (Task K) → Type 0
  StaysSealed n (b, next) =
      (b.vault ≡ none) × (b.session ≡ none) × (b.lock_generation ≡ n) × MaybeHarmless n next

  restore_failed-Sealed :
      (b : Background K) (g : ℕ)
      → b.vault ≡ none
      → b.session ≡ none
      → StaysSealed b.lock_generation (restore_failed env import_key b g)
  unfolding StaysSealed
  restore_failed-Sealed b g v s = elim (Bool-cases (b.lock_generation == g)) [
    | inl same ↦ rw same (v, refl, refl, tt)
    | inr other ↦ rw other (v, s, refl, tt)
  ]

  restore_done-Sealed :
      (b : Background K) (g : ℕ) (new : Vault K)
      → b.vault ≡ none
      → b.session ≡ none
      → g < b.lock_generation
      → StaysSealed b.lock_generation (restore_done env import_key b g new)
  unfolding StaysSealed
  restore_done-Sealed b g new v s older =
      let other : (b.lock_generation == g) ≡ false = ground arith in rw other (v, s, refl, tt)

  resume-Harmless :
      (b : Background K) (t : Task K) (reply : Reply)
      → b.vault ≡ none
      → b.session ≡ none
      → Harmless b.lock_generation t
      → StaysSealed b.lock_generation (resume env import_key b t reply)
  unfolding resume StaysSealed
  resume-Harmless b (lock_read token) reply v s h = (refl, refl, refl, tt)
  resume-Harmless b (lock_remove token) reply v s h = (v, s, refl, tt)
  resume-Harmless b (lock_clear token) reply v s h = (v, s, refl, tt)
  resume-Harmless b (restore_read g none) reply v s h = (v, s, refl, tt)
  resume-Harmless b restore_drop reply v s h = (v, s, refl, tt)
  resume-Harmless b arm_timeout reply v s h = (v, s, refl, tt)
  resume-Harmless b (restore_read g (some p)) reply v s h =
      elim (Result-cases (import_vault_keys env import_key p.enc_key p.mac_key)) [
        | inl ((enc, mac), e) ↦ rw (e, resume) (v, s, refl, h)
        | inr (e, thrown) ↦ rw (thrown, resume) (restore_failed-Sealed b g v s)
      ]
  resume-Harmless b (restore_load g p enc mac) reply v s h = elim (Option-cases reply.items) [
    | inl failed ↦ rw (failed, resume) (restore_failed-Sealed b g v s)
    | inr (items, e) ↦ elim (Option-cases reply.revisions) [
      | inl failed ↦ rw (e, failed, resume) (restore_failed-Sealed b g v s)
      | inr (revisions, f) ↦ rw (e, f, resume) (restore_done-Sealed b g _ v s h)
    ]
  ]
  resume-Harmless b _ reply v s h = absurd h

  All-and_then :
      (n : ℕ) (next : Option (Task K)) (tasks : List (Task K))
      → MaybeHarmless n next
      → All (Harmless n) tasks
      → All (Harmless n) (and_then next tasks)
  All-and_then n none tasks h k = k
  All-and_then n (some t) tasks h k = (h, k)

  Harmless-all_later :
      (n : ℕ) (tasks : List (Task K)) → All (Harmless n) tasks → All (Harmless (n + 1)) tasks
  Harmless-all_later n tasks h = All-map _ _ (Harmless-later n) tasks h

  Quiet-Sealed : (v w : Worker K) → Quiet env import_key v w → Sealed v → Sealed w
  unfolding restore_vault_state StaysSealed
  Quiet-Sealed v w (locks e) sealed =
      rw (e, lock_vault-none env import_key v.background sealed.no_vault)
        (record {
          no_vault = sealed.no_vault;
          no_session = sealed.no_session;
          harmless = (tt, Harmless-all_later _ v.tasks sealed.harmless);
        })
  Quiet-Sealed v w (restores e) sealed = elim (Bool-cases (v.background.restoring)) [
    | inl busy ↦
        rw (e, busy)
          (record {
            no_vault = sealed.no_vault;
            no_session = sealed.no_session;
            harmless = sealed.harmless;
          })
    | inr free ↦
        rw (e, free, sealed.no_vault, sealed.no_session)
          (record { no_vault = refl; no_session = refl; harmless = (tt, sealed.harmless) })
  ]
  Quiet-Sealed v w (arms e) sealed = rw e (record {
    no_vault = sealed.no_vault;
    no_session = sealed.no_session;
    harmless = (tt, sealed.harmless);
  })
  Quiet-Sealed v w (goes_on before t after reply split e) sealed =
      let around =
        All-split _ before (t ∷ after)
          (subst (All (Harmless v.background.lock_generation)) split sealed.harmless) in
      let kept =
        resume-Harmless v.background t reply sealed.no_vault sealed.no_session around.1.0 in
      rw e (record {
        no_vault = kept.0;
        no_session = kept.1;
        harmless =
            rw kept.2 (All-append _ before _ around.0 (All-and_then _ _ after kept.3 around.1.1));
      })
  Quiet-Sealed v w (restarts e) sealed =
      rw e (record { no_vault = refl; no_session = sealed.no_session; harmless = tt })

  Run-Sealed : {v w : Worker K} → Run env import_key v w → Sealed v → Sealed w
  Run-Sealed here sealed = sealed
  Run-Sealed (later {w} {x} r step) sealed = Quiet-Sealed w x step (Run-Sealed r sealed)

  lock_request-Sealed :
      (w : Worker K) (u : Vault K)
      → w.background.vault ≡ some u
      → Valid w
      → All NoUnlock w.tasks
      → Sealed (lock_request env import_key w)
  lock_request-Sealed w u unlocked valid none_unlocks =
      rw (lock_vault-some env import_key w.background u unlocked) (record {
        no_vault = refl;
        no_session = refl;
        harmless = (tt, both w.tasks valid none_unlocks);
      })
    where
      both :
          (tasks : List (Task K))
          → All (Issued w.background.lock_generation) tasks
          → All NoUnlock tasks
          → All (Harmless (w.background.lock_generation + 1)) tasks
      both [] h k = tt
      both (t ∷ ts) h k = (Issued-Harmless _ t h.0 k.0, both ts h.1 k.1)

  -- A lock of an unlocked vault lasts: with no UNLOCK under way, the vault is gone from memory and
  -- from `storage.session` at once, and stays gone in every run without an UNLOCK, restarts and
  -- restores under way included.
  pub lock_vault-lasts :
      {v w : Worker K} (u : Vault K)
      → Reach env import_key v
      → v.background.vault ≡ some u
      → All NoUnlock v.tasks
      → Run env import_key (lock_request env import_key v) w
      → (w.background.vault ≡ none) × (w.background.session ≡ none)
  lock_vault-lasts {v} u reach unlocked none_unlocks run =
      let sealed =
        Run-Sealed run
          (lock_request-Sealed v u unlocked (Reach-Valid env import_key reach) none_unlocks) in
      (sealed.no_vault, sealed.no_session)
