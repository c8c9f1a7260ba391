-- ===== src/Extension/Session/Steps.antt =====
-- Runs of the service worker: messages and events start calls, and a call that waits goes on in any
-- order. The browser may stop the worker, which keeps `storage.session` and the alarm.
use nopass.Prelude.{ℕ, ◌≡◌, false, List, [], ◌∷◌, ◌++◌, Option, none, some}
use nopass.Platform.{Platform}
use nopass.Extension.Session.{
  Background, PersistedSession, Task, Reply, unlock, lock_vault, restore_vault_state, resume,
  arm_timeout,
}

pub record Worker (K : Type 0) : Type 0 where
  pub background : Background K
  pub tasks : List (Task K)

module _ {K : Type 0} where
  -- What is left of a call, in front of other calls.
  abbrev pub and_then : Option (Task K) → List (Task K) → List (Task K)
  and_then none tasks = tasks
  and_then (some t) tasks = t ∷ tasks

  abbrev pub stopped : Background K → Background K
  stopped b = record b { vault = none; lock_generation = 0; restoring = false }

  abbrev pub first_start : Worker K
  first_start = record {
    background = record {
      vault = none;
      session = none;
      lock_generation = 0;
      restoring = false;
      alarm = none;
      revoked = [];
    };
    tasks = [];
  }

module _ {K : Type 0} (env : Platform K) (import_key : List ℕ → Option K) where
  abbrev pub lock_request : Worker K → Worker K
  lock_request w =
      let (b, t) = lock_vault env import_key w.background in
      record { background = b; tasks = t ∷ w.tasks }

  abbrev pub restore_request : Worker K → Worker K
  restore_request w =
      let (b, t) = restore_vault_state env import_key w.background in
      record { background = b; tasks = and_then t w.tasks }

  abbrev pub resumed : Background K → List (Task K) → Task K → List (Task K) → Reply → Worker K
  resumed b before t after reply =
      let (c, next) = resume env import_key b t reply in
      record { background = c; tasks = before ++ and_then next after }

  -- Every step but an UNLOCK message: LOCK and auto-lock, a restore, a use that arms auto-lock, a
  -- task that goes on, and a restart.
  pub data Quiet (v w : Worker K) : Type 0 where
    locks : w ≡ lock_request v → Quiet v w
    restores : w ≡ restore_request v → Quiet v w
    arms : w ≡ record v { tasks = arm_timeout ∷ v.tasks } → Quiet v w
    goes_on :
        (before : List (Task K)) (t : Task K) (after : List (Task K)) (reply : Reply)
        → v.tasks ≡ before ++ t ∷ after
        → w ≡ resumed v.background before t after reply
        → Quiet v w
    restarts : w ≡ record { background = stopped v.background; tasks = [] } → Quiet v w

  pub data Step (v w : Worker K) : Type 0 where
    quiet : Quiet v w → Step v w
    unlocks :
        (s : PersistedSession)
        → w ≡ record v { tasks = and_then (unlock env import_key s) v.tasks }
        → Step v w

  pub data Run (v : Worker K) : Worker K → Type 0 where
    here : Run v v
    later : {w x : Worker K} → Run v w → Quiet w x → Run v x

  pub data Reach : Worker K → Type 0 where
    start : Reach first_start
    continues : {v w : Worker K} → Reach v → Step v w → Reach w
