-- ===== src/Extension/Session.antt =====
-- The unlocked session of the service worker: `vaultState`, `storage.session`, the auto-lock alarm,
-- and UNLOCK, LOCK, the restore after a restart and the re-arming of auto-lock. A call runs from one
-- `await` to the next: what is left of it is a `Task`, and `resume` runs it on with what the awaited
-- call gave. A request to the browser takes effect when it is made.
use nopass.Prelude.{
  ℕ, ◌+◌, ◌≡◌, String, Bool, true, false, ◌&&◌, ◌||◌, List, [], ◌∷◌, ◌++◌, Option, none, some,
  Result, ok, err, ◌>>=◌, or_throw, not, str_eq, ◌==◌, if◌then◌else◌, is_some,
}
use nopass.Types.Vault.{EncryptedVaultItem}
use nopass.Errors.{Error, request_failed}
use nopass.Platform.{Platform, from_base64}
use nopass.Envelope.Revisions.{RevisionStore}
pub mod Steps
pub mod Invariant
pub mod Laws
pub mod Races

pub record Vault (K : Type 0) : Type 0 where
  pub session_token : String
  pub default_vault_id : String
  pub vault_enc_key : K
  pub vault_mac_key : K
  pub items : List EncryptedVaultItem
  pub revisions : RevisionStore

-- Also the body of an UNLOCK message.
pub record PersistedSession : Type 0 where
  pub session_token : String
  pub default_vault_id : String
  pub enc_key : String
  pub mac_key : String

-- `session` is what `storage.session` holds, `alarm` the minutes that auto-lock was armed with, and
-- `revoked` the tokens that the server was asked to revoke.
pub record Background (K : Type 0) : Type 0 where
  pub vault : Option (Vault K)
  pub session : Option PersistedSession
  pub lock_generation : ℕ
  pub restoring : Bool
  pub alarm : Option ℕ
  pub revoked : List String

-- What is left of a call at an `await`; the comment says what it waits for.
pub data Task (K : Type 0) : Type 0 where
  -- the items; the revisions; the timeout; the alarm
  unlock_items : PersistedSession → K → K → Task K
  unlock_revisions : PersistedSession → K → K → List EncryptedVaultItem → Task K
  unlock_timeout unlock_alarm : PersistedSession → Task K
  -- the stored session; the token is of the session that the read found
  lock_read : Option String → Task K
  -- the removal of the session; that of the alarm
  lock_remove lock_clear : Option String → Task K
  -- the stored session, as the read found it
  restore_read : ℕ → Option PersistedSession → Task K
  -- the items and the revisions
  restore_load : ℕ → PersistedSession → K → K → Task K
  -- the removal of the session
  restore_drop : Task K
  -- the timeout
  arm_timeout : Task K

-- What an awaited call gave: the items or the revisions, nothing if the call threw, and the
-- setting of auto-lock, nothing if it is no number.
pub record Reply : Type 0 where
  pub items : Option (List EncryptedVaultItem)
  pub revisions : Option RevisionStore
  pub setting : Option ℕ

abbrev pub auto_lock_choices : List ℕ
auto_lock_choices = 1 ∷ 5 ∷ 15 ∷ 30 ∷ 60 ∷ 240 ∷ []

abbrev pub one_of : ℕ → List ℕ → Bool
one_of n [] = false
one_of n (m ∷ ms) = (m == n) || one_of n ms

-- A setting that is no number is nothing.
unfoldable pub parse_auto_lock_minutes : Option ℕ → ℕ
parse_auto_lock_minutes none = 15
parse_auto_lock_minutes (some n) = if one_of n auto_lock_choices then n else 15

-- `if (sessionToken) api.auth.logout(sessionToken)`
abbrev pub revoke : Option String → List String → List String
revoke none tokens = tokens
revoke (some token) tokens = if str_eq token "" then tokens else token ∷ tokens

abbrev pub token_of : Option PersistedSession → Option String
token_of none = none
token_of (some s) = some s.session_token

module _ {K : Type 0} (env : Platform K) (import_key : List ℕ → Option K) where
  unfoldable pub import_vault_keys : String → String → Result Error (K × K)
  import_vault_keys enc_key mac_key = do
    enc_bytes ← from_base64 env enc_key
    mac_bytes ← from_base64 env mac_key
    enc ← or_throw (import_key enc_bytes) request_failed
    mac ← or_throw (import_key mac_bytes) request_failed
    ok (enc, mac)

  -- UNLOCK from an extension page, up to the request for the items.
  unfoldable pub unlock : PersistedSession → Option (Task K)
  unlock s = elim (import_vault_keys s.enc_key s.mac_key) [
    | err e ↦ none
    | ok (enc, mac) ↦ some (unlock_items s enc mac)
  ]

  -- `lockVault`, up to its first `await`.
  unfoldable pub lock_vault : Background K → Background K × Task K
  lock_vault b = elim b.vault [
    | some v ↦ (
      record b { lock_generation = b.lock_generation + 1; vault = none; session = none },
      lock_remove (some v.session_token),
    )
    | none ↦ (record b { lock_generation = b.lock_generation + 1 }, lock_read (token_of b.session))
  ]

  -- `restoreVaultState`, up to its first `await`.
  unfoldable pub restore_vault_state : Background K → Background K × Option (Task K)
  restore_vault_state b =
      if b.restoring || is_some b.vault
      then (b, none)
      else (record b { restoring = true }, some (restore_read b.lock_generation b.session))

  -- The `catch` of a restore.
  abbrev pub restore_failed : Background K → ℕ → Background K × Option (Task K)
  restore_failed b generation =
      if b.lock_generation == generation
      then (record b { session = none }, some restore_drop)
      else (record b { restoring = false }, none)

  -- The end of a restore whose requests were answered.
  abbrev pub restore_done : Background K → ℕ → Vault K → Background K × Option (Task K)
  restore_done b generation v =
      if b.lock_generation == generation && not (is_some b.vault)
      then (record b { vault = some v; restoring = false }, none)
      else (record b { restoring = false }, none)

  -- The task is run on to its next `await`, or to its end.
  unfoldable pub resume : Background K → Task K → Reply → Background K × Option (Task K)
  resume b (unlock_items s enc mac) reply = elim reply.items [
    | none ↦ (b, none)
    | some items ↦ (
      record b { lock_generation = b.lock_generation + 1 },
      some (unlock_revisions s enc mac items),
    )
  ]
  resume b (unlock_revisions s enc mac items) reply = elim reply.revisions [
    | none ↦ (b, none)
    | some revisions ↦ (
      record b {
        vault = some (record {
          session_token = s.session_token;
          default_vault_id = s.default_vault_id;
          vault_enc_key = enc;
          vault_mac_key = mac;
          items = items;
          revisions = revisions;
        });
      },
      some (unlock_timeout s),
    )
  ]
  resume b (unlock_timeout s) reply =
      (record b { alarm = some (parse_auto_lock_minutes reply.setting) }, some (unlock_alarm s))
  resume b (unlock_alarm s) reply = (record b { session = some s }, none)
  resume b (lock_read token) reply =
      (record b { vault = none; session = none }, some (lock_remove token))
  resume b (lock_remove token) reply = (record b { alarm = none }, some (lock_clear token))
  resume b (lock_clear token) reply = (record b { revoked = revoke token b.revoked }, none)
  resume b (restore_read generation none) reply = (record b { restoring = false }, none)
  resume b (restore_read generation (some s)) reply = elim (import_vault_keys s.enc_key s.mac_key) [
    | err e ↦ restore_failed b generation
    | ok (enc, mac) ↦ (b, some (restore_load generation s enc mac))
  ]
  resume b (restore_load generation s enc mac) reply = elim reply.items [
    | none ↦ restore_failed b generation
    | some items ↦ elim reply.revisions [
      | none ↦ restore_failed b generation
      | some revisions ↦ restore_done b generation (record {
        session_token = s.session_token;
        default_vault_id = s.default_vault_id;
        vault_enc_key = enc;
        vault_mac_key = mac;
        items = items;
        revisions = revisions;
      })
    ]
  ]
  resume b restore_drop reply = (record b { restoring = false }, none)
  resume b arm_timeout reply =
      (record b { alarm = some (parse_auto_lock_minutes reply.setting) }, none)
