-- ===== src/Extension/Session/Races.antt =====
-- Two orders of steps in which a lock does not last.
use nopass.Prelude.{
  ℕ, ◌+◌, ◌≡◌, refl, String, true, false, List, [], ◌∷◌, ◌++◌, Option, none, some, arith, ok, ◌==◌,
}
use nopass.Types.Vault.{EncryptedVaultItem}
use nopass.Platform.{Platform}
use nopass.Envelope.Revisions.{RevisionStore}
use nopass.Extension.Session.{
  Background, Vault, PersistedSession, Task, Reply, lock_vault, restore_vault_state, resume,
  unlock_alarm, lock_read, lock_remove, restore_read, restore_load, import_vault_keys,
}
use nopass.Extension.Session.Steps.{
  Worker, lock_request, resumed, Quiet, restores, goes_on, Run, here, later,
}

module _ {K : Type 0} (env : Platform K) (import_key : List ℕ → Option K) where
  abbrev opened : PersistedSession → K → K → List EncryptedVaultItem → RevisionStore → Vault K
  opened s enc mac items revisions = record {
    session_token = s.session_token;
    default_vault_id = s.default_vault_id;
    vault_enc_key = enc;
    vault_mac_key = mac;
    items = items;
    revisions = revisions;
  }

  abbrev answered : List EncryptedVaultItem → RevisionStore → Reply
  answered items revisions = record {
    items = some items;
    revisions = some revisions;
    setting = none;
  }

  -- A worker without a restore under way.
  abbrev pub idle :
      Option (Vault K)
      → Option PersistedSession
      → ℕ
      → Option ℕ
      → List String
      → List (Task K)
      → Worker K
  idle vault session n alarm revoked tasks = record {
    background = record {
      vault = vault;
      session = session;
      lock_generation = n;
      restoring = false;
      alarm = alarm;
      revoked = revoked;
    };
    tasks = tasks;
  }

  module _ (s : PersistedSession) (enc mac : K) (items : List EncryptedVaultItem)
      (revisions : RevisionStore)
      (imported : import_vault_keys env import_key s.enc_key s.mac_key ≡ ok (enc, mac)) where
    -- A restore with a session of the current generation opens the vault.
    restored :
        (n : ℕ) (alarm : Option ℕ) (revoked : List String) (before after : List (Task K))
        (session : Option PersistedSession)
        → idle (some (opened s enc mac items revisions)) session n alarm revoked (before ++ after)
          ≡ resumed env import_key
              (record {
                vault = none;
                session = session;
                lock_generation = n;
                restoring = true;
                alarm = alarm;
                revoked = revoked;
              })
              before
              (restore_load n s enc mac)
              after
              (answered items revisions)
    unfolding resume
    restored n alarm revoked before after session =
        let same : (n == n) ≡ true = ground arith in rw same refl

    -- The keys of a session that was read are imported.
    read :
        (b : Background K) (n : ℕ) (after : List (Task K)) (reply : Reply)
        → record { background = b; tasks = restore_load n s enc mac ∷ after }
          ≡ resumed env import_key b [] (restore_read n (some s)) after reply
    unfolding resume
    read b n after reply = rw (imported, resume) refl

    -- A lock while the last call of an UNLOCK is under way, after the vault was opened and before the
    -- session is persisted, does not last: the session is persisted after the lock, and the next
    -- restore opens the vault with it, without an UNLOCK.
    pub unlock-outlives_lock :
        (u : Vault K) (n : ℕ) (alarm : Option ℕ) (revoked : List String) (tasks : List (Task K))
        → (w : Worker K) × Run env import_key
            (lock_request env import_key
              (idle (some u) none n alarm revoked (unlock_alarm s ∷ tasks)))
            w
          × (w.background.vault ≡ some (opened s enc mac items revisions))
    unfolding lock_vault restore_vault_state resume
    unlock-outlives_lock u n alarm revoked tasks =
        let token = lock_remove (some u.session_token) in
        let persists : Quiet env import_key _ _ =
          goes_on (token ∷ []) (unlock_alarm s) tasks (answered items revisions) refl refl in
        let restores_it = later (later here persists) (restores refl) in
        let reads =
          goes_on [] (restore_read (n + 1) (some s)) (token ∷ tasks) (answered items revisions) refl
            (read _ (n + 1) (token ∷ tasks) (answered items revisions)) in
        let loads =
          goes_on [] (restore_load (n + 1) s enc mac) (token ∷ tasks) (answered items revisions)
            refl (restored (n + 1) alarm revoked [] (token ∷ tasks) (some s)) in
        (_, later (later restores_it reads) loads, refl)

    -- A lock of a vault that is only persisted, as after a restart, does not last if a restore starts
    -- while the lock reads the session: the restore carries the new generation, so the vault is opened
    -- after the lock removed the session.
    pub restore-outlives_lock :
        (n : ℕ) (alarm : Option ℕ) (revoked : List String) (tasks : List (Task K))
        → (w : Worker K) × Run env import_key
            (lock_request env import_key (idle none (some s) n alarm revoked tasks))
            w
          × (w.background.session ≡ none)
          × (w.background.vault ≡ some (opened s enc mac items revisions))
    unfolding lock_vault restore_vault_state resume
    restore-outlives_lock n alarm revoked tasks =
        let token = lock_read (some s.session_token) in
        let cleared = lock_remove (some s.session_token) in
        let reply = answered items revisions in
        let reads =
          goes_on [] (restore_read (n + 1) (some s)) (token ∷ tasks) reply refl
            (read _ (n + 1) (token ∷ tasks) reply) in
        let wipes = goes_on (restore_load (n + 1) s enc mac ∷ []) token tasks reply refl refl in
        let loads =
          goes_on [] (restore_load (n + 1) s enc mac) (cleared ∷ tasks) reply refl
            (restored (n + 1) alarm revoked [] (cleared ∷ tasks) none) in
        (_, later (later (later (later here (restores refl)) reads) wipes) loads, refl, refl)
