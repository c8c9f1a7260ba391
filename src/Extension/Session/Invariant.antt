-- ===== src/Extension/Session/Invariant.antt =====
-- A restore under way carries a lock generation that was reached.
use nopass.Prelude.{
  ℕ, ◌+◌, ◌≡◌, refl, not, ◌&&◌, ◌||◌, List, ◌∷◌, Option, none, some, ◌≤◌, All, All-append,
  All-split, All-map, arith, Bool-cases, Option-cases, Result-cases, sym, inl, inr, is_some, ◌==◌,
  subst,
}
use nopass.Platform.{Platform}
use nopass.Extension.Session.{
  Background, Vault, Task, Reply, unlock, lock_vault, restore_vault_state, resume, unlock_items,
  unlock_revisions, lock_read, lock_remove, restore_read, restore_load, import_vault_keys,
  restore_failed, restore_done, token_of,
}
use nopass.Extension.Session.Steps.{
  Worker, and_then, Quiet, locks, restores, arms, goes_on, restarts, quiet, unlocks, Reach, start,
  continues,
}

module _ {K : Type 0} where
  -- A restore carries a generation that was reached.
  abbrev pub Issued : ℕ → Task K → Type 0
  Issued n (restore_read g s) = g ≤ n
  Issued n (restore_load g s enc mac) = g ≤ n
  Issued n _ = Unit

  abbrev pub MaybeIssued : ℕ → Option (Task K) → Type 0
  MaybeIssued n none = Unit
  MaybeIssued n (some t) = Issued n t

  Issued-later : (n : ℕ) (t : Task K) → Issued n t → Issued (n + 1) t
  Issued-later n (restore_read g s) h = omega arith
  Issued-later n (restore_load g s enc mac) h = omega arith
  Issued-later n _ h = tt

  abbrev pub Valid : Worker K → Type 0
  Valid w = All (Issued w.background.lock_generation) w.tasks

module _ {K : Type 0} (env : Platform K) (import_key : List ℕ → Option K) where
  pub lock_vault-none :
      (b : Background K)
      → b.vault ≡ none
      → lock_vault env import_key b
        ≡ (record b { lock_generation = b.lock_generation + 1 }, lock_read (token_of b.session))
  unfolding lock_vault
  lock_vault-none b h = rw h refl

  pub lock_vault-some :
      (b : Background K) (u : Vault K)
      → b.vault ≡ some u
      → lock_vault env import_key b ≡ (
        record b { lock_generation = b.lock_generation + 1; vault = none; session = none },
        lock_remove (some u.session_token),
      )
  unfolding lock_vault
  lock_vault-some b u h = rw h refl

  -- The generation only grows, but for a restart, which ends every call.
  StaysIssued : Background K → Background K × Option (Task K) → Type 0
  StaysIssued b (c, after) =
      (b.lock_generation ≤ c.lock_generation) × MaybeIssued c.lock_generation after

  restore_failed-Issued :
      (b : Background K) (g : ℕ) → StaysIssued b (restore_failed env import_key b g)
  unfolding StaysIssued
  restore_failed-Issued b g = elim (Bool-cases (b.lock_generation == g)) [
    | inl same ↦ rw same (omega arith, tt)
    | inr other ↦ rw other (omega arith, tt)
  ]

  restore_done-Issued :
      (b : Background K) (g : ℕ) (new : Vault K)
      → StaysIssued b (restore_done env import_key b g new)
  unfolding StaysIssued
  restore_done-Issued b g new =
      elim (Bool-cases ((b.lock_generation == g) && not (is_some b.vault))) [
        | inl same ↦ rw same (omega arith, tt)
        | inr other ↦ rw other (omega arith, tt)
      ]

  resume-Issued :
      (b : Background K) (t : Task K) (reply : Reply)
      → Issued b.lock_generation t
      → StaysIssued b (resume env import_key b t reply)
  unfolding resume StaysIssued
  resume-Issued b (restore_read g (some p)) reply h =
      elim (Result-cases (import_vault_keys env import_key p.enc_key p.mac_key)) [
        | inl ((enc, mac), e) ↦ rw (e, resume) (omega arith, h)
        | inr (e, thrown) ↦ rw (thrown, resume) (restore_failed-Issued b g)
      ]
  resume-Issued b (restore_load g p enc mac) reply h = elim (Option-cases reply.items) [
    | inl failed ↦ rw (failed, resume) (restore_failed-Issued b g)
    | inr (items, e) ↦ elim (Option-cases reply.revisions) [
      | inl failed ↦ rw (e, failed, resume) (restore_failed-Issued b g)
      | inr (revisions, f) ↦ rw (e, f, resume) (restore_done-Issued b g _)
    ]
  ]
  resume-Issued b (unlock_items s enc mac) reply h = elim (Option-cases reply.items) [
    | inl failed ↦ rw (failed, resume) (omega arith, tt)
    | inr (items, e) ↦ rw (e, resume) (omega arith, tt)
  ]
  resume-Issued b (unlock_revisions s enc mac items) reply h = elim (Option-cases reply.revisions) [
    | inl failed ↦ rw (failed, resume) (omega arith, tt)
    | inr (revisions, e) ↦ rw (e, resume) (omega arith, tt)
  ]
  resume-Issued b (restore_read g none) reply h = (omega arith, tt)
  resume-Issued b _ reply h = (omega arith, tt)

  Issued-at_least : (n m : ℕ) → n ≤ m → (t : Task K) → Issued n t → Issued m t
  Issued-at_least n m le (restore_read g s) h = omega arith
  Issued-at_least n m le (restore_load g s enc mac) h = omega arith
  Issued-at_least n m le _ h = tt

  All-and_then-Issued :
      (n : ℕ) (after : Option (Task K)) (tasks : List (Task K))
      → MaybeIssued n after
      → All (Issued n) tasks
      → All (Issued n) (and_then after tasks)
  All-and_then-Issued n none tasks h k = k
  All-and_then-Issued n (some t) tasks h k = (h, k)

  Quiet-Valid : (v w : Worker K) → Quiet env import_key v w → Valid v → Valid w
  unfolding restore_vault_state StaysIssued
  Quiet-Valid v w (locks e) valid =
      let kept = All-map _ _ (Issued-later _) v.tasks valid in
      rw e (elim (Option-cases v.background.vault) [
        | inl shut ↦
            subst (λ p. Valid (record { background = p.0; tasks = p.1 ∷ v.tasks }))
              (sym (lock_vault-none v.background shut)) (tt, kept)
        | inr (u, unlocked) ↦
            subst (λ p. Valid (record { background = p.0; tasks = p.1 ∷ v.tasks }))
              (sym (lock_vault-some v.background u unlocked)) (tt, kept)
      ])
  Quiet-Valid v w (restores e) valid =
      elim (Bool-cases (v.background.restoring || is_some v.background.vault)) [
        | inl busy ↦ rw (e, busy) valid
        | inr free ↦ rw (e, free) (omega arith, valid)
      ]
  Quiet-Valid v w (arms e) valid = rw e (tt, valid)
  Quiet-Valid v w (goes_on before t after reply split e) valid =
      let b = v.background in
      let around =
        All-split _ before (t ∷ after) (subst (All (Issued b.lock_generation)) split valid) in
      let kept = resume-Issued b t reply around.1.0 in
      let raised = Issued-at_least _ _ kept.0 in
      rw e (
        All-append _ before _ (All-map _ _ raised before around.0)
          (All-and_then-Issued _ _ after kept.1 (All-map _ _ raised after around.1.1)))
  Quiet-Valid v w (restarts e) valid = rw e tt

  -- In every state of the worker each restore under way carries a generation that was reached.
  pub Reach-Valid : {w : Worker K} → Reach env import_key w → Valid w
  unfolding unlock
  Reach-Valid start = tt
  Reach-Valid (continues {v} {w} r (quiet q)) = Quiet-Valid v w q (Reach-Valid r)
  Reach-Valid (continues {v} {w} r (unlocks s e)) =
      elim (Result-cases (import_vault_keys env import_key s.enc_key s.mac_key)) [
        | inl ((enc, mac), k) ↦ rw (e, k, unlock) (tt, Reach-Valid r)
        | inr (e', thrown) ↦ rw (e, thrown, unlock) (Reach-Valid r)
      ]
