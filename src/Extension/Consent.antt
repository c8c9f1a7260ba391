-- ===== src/Extension/Consent.antt =====
-- `requestConsent`, CONSENT_DETAILS and CONSENT_RESULT: the passkey ceremonies that wait for the user.
-- `pending` is `pendingConsents`, with the window of each request once it is open, and `decided` the
-- promises that were resolved.
use nopass.Prelude.{
  ℕ, ◌≡◌, String, Bool, true, false, not, ◌&&◌, List, [], ◌∷◌, ◌++◌, Option, none, some, Result, ok,
  err, ◌>>=◌, ◌>>◌, guard, or_throw, str_eq, ◌==◌, if◌then◌else◌, is_some,
}
use nopass.Prelude.Maps.{lookup, insert}
use nopass.Extension.Sender.{Sender, Browser, is_consent_page}
use nopass.Extension.Reads.{Failure, refused}
pub mod Laws

pub data Kind : Type 0 where
  create get : Kind

pub record ConsentRequest : Type 0 where
  pub kind : Kind
  pub rp_id : String
  pub origin : String

pub record Waiting : Type 0 where
  pub request : ConsentRequest
  pub window : Option ℕ

pub record Consents : Type 0 where
  pub pending : List (String × Waiting)
  pub decided : List (String × Bool)

-- `pendingConsents.delete(requestId)`
unfoldable pub forget_request : String → List (String × Waiting) → List (String × Waiting)
forget_request id [] = []
forget_request id ((k, w) ∷ rest) =
    if str_eq k id then forget_request id rest else (k, w) ∷ forget_request id rest

-- `settle` of a request: the timer and the listener go with it.
unfoldable pub settle : Consents → String → Bool → Consents
settle c id approved = record {
  pending = forget_request id c.pending;
  decided = (id, approved) ∷ c.decided;
}

-- `pendingConsents.get(requestId)?.settle(approved)`
unfoldable pub settle_pending : Consents → String → Bool → Consents
settle_pending c id approved = elim (lookup id c.pending) [
  | none ↦ c
  | some w ↦ settle c id approved
]

-- `requestConsent`, up to the request for a window.
unfoldable pub request_consent : Consents → String → ConsentRequest → Consents
request_consent c id request = record c {
  pending = insert id (record { request = request; window = none }) c.pending;
}

-- The window is open: the listener knows it from now on.
unfoldable pub window_opened : Consents → String → Option ℕ → Consents
window_opened c id window = elim (lookup id c.pending) [
  | none ↦ c
  | some w ↦ record c { pending = insert id (record w { window = window }) c.pending }
]

-- No window could be opened.
unfoldable pub window_failed : Consents → String → Consents
window_failed c id = settle_pending c id false

-- The timer of a request runs out.
unfoldable pub timed_out : Consents → String → Consents
timed_out c id = settle_pending c id false

abbrev pub shows_in : Option ℕ → ℕ → Bool
shows_in none closed = false
shows_in (some w) closed = closed == w

-- `onRemoved` of one request.
unfoldable pub window_closed : Consents → String → ℕ → Consents
window_closed c id closed = elim (lookup id c.pending) [
  | none ↦ c
  | some w ↦ if shows_in w.window closed then settle c id false else c
]

module _ (browser : Browser) where
  -- CONSENT_DETAILS
  unfoldable pub consent_details : Consents → Sender → String → Result Failure ConsentRequest
  consent_details c sender id = do
    guard (is_consent_page browser sender) (refused "unauthorized")
    w ← or_throw (lookup id c.pending) (refused "expired")
    ok w.request

  -- CONSENT_RESULT, with the consents after it.
  unfoldable pub consent_result :
      Consents → Sender → String → Bool → Consents × Result Failure (Unit {0})
  consent_result c sender id approved =
      if not (is_consent_page browser sender)
      then (c, err (refused "unauthorized"))
      else (settle_pending c id approved, ok tt)
