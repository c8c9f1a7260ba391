-- ===== src/Tests/Session.antt =====
-- The service worker of the extension: its session.
use nopass.Prelude.{ℕ, ◌≡◌, refl, true, false, List, [], ◌∷◌, Option, none, some, length}
use nopass.Envelope.Revisions.{RevisionStore}
use nopass.Extension.Session.{
  Vault, PersistedSession, Task, Reply, import_vault_keys, unlock, lock_vault, restore_vault_state,
  resume, unlock_items, unlock_revisions, unlock_timeout, unlock_alarm, lock_remove, lock_clear,
  restore_read,
}
use nopass.Extension.Session.Steps.{
  Worker, lock_request, restore_request, restores, goes_on, quiet, unlocks, Run, here, later, Reach,
  start, continues,
}
use nopass.Extension.Session.Laws.{lock_vault-lasts}
use nopass.Extension.Session.Races.{idle, unlock-outlives_lock, restore-outlives_lock}
use nopass.Tests.Toy.{toy}

abbrev import_key : List ℕ → Option ℕ
import_key bytes = some (length bytes)

abbrev a_session : PersistedSession
a_session = record {
  session_token = "token";
  default_vault_id = "vault";
  enc_key = "b";
  mac_key = "ab";
}

abbrev no_revisions : RevisionStore
no_revisions = record { current = record { revisions = []; v2_only = false }; snapshots = [] }

abbrev a_reply : Reply
a_reply = record { items = some []; revisions = some no_revisions; setting = some 15 }

abbrev a_vault : Vault ℕ
a_vault = record {
  session_token = "token";
  default_vault_id = "vault";
  vault_enc_key = 1;
  vault_mac_key = 1;
  items = [];
  revisions = no_revisions;
}

-- The worker with that vault and session, armed or not, at that generation, and its tasks.
abbrev at : Option (Vault ℕ) → Option PersistedSession → ℕ → Option ℕ → List (Task ℕ) → Worker ℕ
at vault session n alarm tasks = idle toy import_key vault session n alarm [] tasks

unlocked : Reach toy import_key (at (some a_vault) (some a_session) 1 (some 15) [])
unfolding import_vault_keys unlock resume nopass.Extension.Session.parse_auto_lock_minutes
unlocked =
    let asked : Reach toy import_key (at none none 0 none (unlock_items a_session 1 1 ∷ [])) =
      continues start (unlocks a_session refl) in
    let fetched : Reach toy import_key
        (at none none 1 none (unlock_revisions a_session 1 1 [] ∷ [])) =
      continues asked (quiet (goes_on [] (unlock_items a_session 1 1) [] a_reply refl refl)) in
    let opened : Reach toy import_key
        (at (some a_vault) none 1 none (unlock_timeout a_session ∷ [])) =
      continues fetched
        (quiet (goes_on [] (unlock_revisions a_session 1 1 []) [] a_reply refl refl)) in
    let armed : Reach toy import_key
        (at (some a_vault) none 1 (some 15) (unlock_alarm a_session ∷ [])) =
      continues opened (quiet (goes_on [] (unlock_timeout a_session) [] a_reply refl refl)) in
    continues armed (quiet (goes_on [] (unlock_alarm a_session) [] a_reply refl refl))

-- After the lock a restore finds nothing, and the lock goes on.
after_lock :
    Run toy import_key
      (lock_request toy import_key (at (some a_vault) (some a_session) 1 (some 15) []))
      (record {
        background = record {
          vault = none;
          session = none;
          lock_generation = 2;
          restoring = true;
          alarm = none;
          revoked = [];
        };
        tasks = restore_read 2 none ∷ lock_clear (some "token") ∷ [];
      })
unfolding lock_vault restore_vault_state resume
after_lock =
    let asked : Run toy import_key
        (lock_request toy import_key (at (some a_vault) (some a_session) 1 (some 15) []))
        (restore_request toy import_key
          (at none none 2 (some 15) (lock_remove (some "token") ∷ []))) =
      later here (restores refl) in
    later asked
      (goes_on (restore_read 2 none ∷ []) (lock_remove (some "token")) [] a_reply refl refl)

lock_vault-lasts_example :
    (◌≡◌ {A = Option (Vault ℕ)} none none) × (◌≡◌ {A = Option PersistedSession} none none)
lock_vault-lasts_example = lock_vault-lasts toy import_key a_vault unlocked refl tt after_lock

unlock-outlives_lock_example :
    (w : Worker ℕ) × Run toy import_key
      (lock_request toy import_key
        (at (some a_vault) none 1 (some 15) (unlock_alarm a_session ∷ [])))
      w
    × (w.background.vault ≡ some a_vault)
unfolding import_vault_keys
unlock-outlives_lock_example =
    unlock-outlives_lock toy import_key a_session 1 1 [] no_revisions refl a_vault 1 (some 15) [] []

restore-outlives_lock_example :
    (w : Worker ℕ) × Run toy import_key
      (lock_request toy import_key (at none (some a_session) 0 (some 15) []))
      w
    × (w.background.session ≡ none)
    × (w.background.vault ≡ some a_vault)
unfolding import_vault_keys
restore-outlives_lock_example =
    restore-outlives_lock toy import_key a_session 1 1 [] no_revisions refl 0 (some 15) [] []
