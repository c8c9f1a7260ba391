-- ===== src/Extension/Consent/Laws.antt =====
-- A passkey ceremony goes on only with the user's approval in the extension's own window.
use nopass.Prelude.{
  ℕ, ◌≡◌, refl, ◌⊎◌, inl, inr, subst, String, Bool, true, false, List, [], ◌∷◌, Option, none, some,
  arith, Bool-cases, Option-cases,
}
use nopass.Prelude.Maps.{lookup}
use nopass.Extension.Sender.{Sender, Browser, is_consent_page}
use nopass.Extension.Consent.{
  ConsentRequest, Waiting, Consents, forget_request, settle, settle_pending, request_consent,
  window_opened, window_failed, timed_out, window_closed, shows_in, consent_result,
}

abbrev pub first_start : Consents
first_start = record { pending = []; decided = [] }

lookup-forget_request :
    (id : String) (m : List (String × Waiting)) → lookup id (forget_request id m) ≡ none
unfolding lookup forget_request
lookup-forget_request id [] = refl
lookup-forget_request id ((k, w) ∷ m) = ground (arith, lookup-forget_request id m)

-- What happens to the consents: a ceremony asks, with an id that no request had, its window opens or
-- does not, the time runs out, a window is closed, or a message comes.
pub data Event : Type 0 where
  asked : String → ConsentRequest → Event
  opened : String → Option ℕ → Event
  failed expired : String → Event
  closed : String → ℕ → Event
  answered : Sender → String → Bool → Event

module _ (browser : Browser) where
  abbrev pub after : Consents → Event → Consents
  after c (asked id request) = request_consent c id request
  after c (opened id window) = window_opened c id window
  after c (failed id) = window_failed c id
  after c (expired id) = timed_out c id
  after c (closed id window) = window_closed c id window
  after c (answered sender id approved) = (consent_result browser c sender id approved).0

  -- The newest event first.
  abbrev pub history : List Event → Consents
  history [] = first_start
  history (e ∷ es) = after (history es) e

  -- A request is approved in a history if it is asked and later answered with yes by a sender that is
  -- the consent page, while it waits.
  abbrev pub Approved : String → List Event → Type 0
  Approved id [] = ⊥
  Approved id (answered sender asked_id approved ∷ es) =
      ((asked_id ≡ id)
        × (approved ≡ true)
        × (is_consent_page browser sender ≡ true)
        × ((w : Waiting) × (lookup id (history es).pending ≡ some w)))
      ⊎ Approved id es
  Approved id (_ ∷ es) = Approved id es

  abbrev pub Decided : String × Bool → List (String × Bool) → Type 0
  Decided d [] = ⊥
  Decided d (x ∷ xs) = (x ≡ d) ⊎ Decided d xs

  settle_pending-cases :
      (c : Consents) (id : String) (approved : Bool)
      → (settle_pending c id approved ≡ c)
        ⊎ ((w : Waiting) × (lookup id c.pending ≡ some w)
            × (settle_pending c id approved ≡ settle c id approved))
  unfolding settle_pending
  settle_pending-cases c id approved = elim (Option-cases (lookup id c.pending)) [
    | inl gone ↦ inl (rw (gone, settle_pending) refl)
    | inr (w, there) ↦ inr (w, there, rw (there, settle_pending) refl)
  ]

  -- Only an answer of yes adds an approval.
  settle-no :
      (c : Consents) (id other : String)
      → Decided (id, true) (settle c other false).decided
      → Decided (id, true) c.decided
  unfolding settle
  settle-no c id other (inl e) = absurd (cc e)
  settle-no c id other (inr old) = old

  settle_pending-no :
      (c : Consents) (id other : String)
      → Decided (id, true) (settle_pending c other false).decided
      → Decided (id, true) c.decided
  settle_pending-no c id other h = elim (settle_pending-cases c other false) [
    | inl same ↦ subst (λ d. Decided (id, true) d.decided) same h
    | inr (w, there, e) ↦ settle-no c id other (subst (λ d. Decided (id, true) d.decided) e h)
  ]

  window_opened-decided :
      (c : Consents) (id : String) (window : Option ℕ)
      → (window_opened c id window).decided ≡ c.decided
  unfolding window_opened
  window_opened-decided c id window = elim (Option-cases (lookup id c.pending)) [
    | inl gone ↦ rw (gone, window_opened) refl
    | inr (w, there) ↦ rw (there, window_opened) refl
  ]

  window_closed-cases :
      (c : Consents) (id : String) (window : ℕ)
      → (window_closed c id window ≡ c) ⊎ (window_closed c id window ≡ settle c id false)
  unfolding window_closed
  window_closed-cases c id window = elim (Option-cases (lookup id c.pending)) [
    | inl gone ↦ inl (rw (gone, window_closed) refl)
    | inr (w, there) ↦ elim (Bool-cases (shows_in w.window window)) [
      | inl shown ↦ inr (rw (there, window_closed, shown) refl)
      | inr other ↦ inl (rw (there, window_closed, other) refl)
    ]
  ]

  window_closed-no :
      (c : Consents) (id other : String) (window : ℕ)
      → Decided (id, true) (window_closed c other window).decided
      → Decided (id, true) c.decided
  window_closed-no c id other window h = elim (window_closed-cases c other window) [
    | inl same ↦ subst (λ d. Decided (id, true) d.decided) same h
    | inr e ↦ settle-no c id other (subst (λ d. Decided (id, true) d.decided) e h)
  ]

  settle-yes :
      (c : Consents) (id other : String) (approved : Bool)
      → Decided (id, true) (settle c other approved).decided
      → ((other ≡ id) × (approved ≡ true)) ⊎ Decided (id, true) c.decided
  unfolding settle
  settle-yes c id other approved (inl e) = inl (cc e, cc e)
  settle-yes c id other approved (inr old) = inr old

  -- An approval after a message is an old one, or the message is the answer of the consent page.
  consent_result-yes :
      (c : Consents) (sender : Sender) (id other : String) (approved : Bool)
      → Decided (id, true) (consent_result browser c sender other approved).0.decided
      → ((other ≡ id)
          × (approved ≡ true)
          × (is_consent_page browser sender ≡ true)
          × ((w : Waiting) × (lookup id c.pending ≡ some w)))
        ⊎ Decided (id, true) c.decided
  unfolding consent_result
  consent_result-yes c sender id other approved h =
      elim (Bool-cases (is_consent_page browser sender)) [
        | inr page ↦
            let same : (consent_result browser c sender other approved).0 ≡ c =
              rw (consent_result, page) refl in
            inr (subst (λ (d : Consents). Decided (id, true) d.decided) same h)
        | inl page ↦
            let settled : (consent_result browser c sender other approved).0
                ≡ settle_pending c other approved =
              rw (consent_result, page) refl in
            let given = subst (λ (d : Consents). Decided (id, true) d.decided) settled h in
            elim (settle_pending-cases c other approved) [
              | inl same ↦ inr (subst (λ d. Decided (id, true) d.decided) same given)
              | inr (w, there, e) ↦
                  elim (settle-yes c id other approved
                    (subst (λ d. Decided (id, true) d.decided) e given)) [
                      | inr old ↦ inr old
                      | inl (this, yes_given) ↦ inl (
                        this,
                        yes_given,
                        page,
                        (w, subst (λ i. lookup i c.pending ≡ some w) this there),
                      )
                    ]
            ]
      ]

  -- Whatever happens, a request is decided with yes only if it was waiting and a sender that is the
  -- consent page answered it with yes: a timeout, a closed window and any other sender give no yes.
  pub Decided-Approved :
      (id : String) (es : List Event) → Decided (id, true) (history es).decided → Approved id es
  unfolding request_consent window_failed timed_out
  Decided-Approved id [] h = h
  Decided-Approved id (asked other request ∷ es) h = Decided-Approved id es h
  Decided-Approved id (opened other window ∷ es) h =
      Decided-Approved id es
        (subst (Decided (id, true)) (window_opened-decided (history es) other window) h)
  Decided-Approved id (failed other ∷ es) h =
      Decided-Approved id es (settle_pending-no (history es) id other h)
  Decided-Approved id (expired other ∷ es) h =
      Decided-Approved id es (settle_pending-no (history es) id other h)
  Decided-Approved id (closed other window ∷ es) h =
      Decided-Approved id es (window_closed-no (history es) id other window h)
  Decided-Approved id (answered sender other approved ∷ es) h =
      elim (consent_result-yes (history es) sender id other approved h) [
        | inl given ↦ inl given
        | inr old ↦ inr (Decided-Approved id es old)
      ]
