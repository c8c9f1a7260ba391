-- ===== src/Extension/Fill.antt =====
-- FILL_TARGET and AUTOFILL: which frame the credentials go to, and when. `targets` is what
-- `storage.session` holds under the keys of `fillTargetKey`.
use Prim.Native.String
use nopass.Prelude.{
  ℕ, ◌≡◌, String, Bool, true, false, not, ◌&&◌, ◌||◌, List, [], ◌∷◌, Option, none, some, Result, ok,
  err, ◌>>=◌, ◌>>◌, guard, or_throw, str_eq, ◌==◌, if◌then◌else◌, is_some,
}
use nopass.Prelude.Maps.{lookup, insert}
use nopass.Types.Vault.{LoginItem}
use nopass.Platform.{Platform}
use nopass.Autofill.{Web, url_matches, is_fillable_origin}
use nopass.Extension.Sender.{Sender, Browser, is_extension_page, sender_origin}
use nopass.Extension.Session.{Vault}
use nopass.Extension.Reads.{Failure, refused, origin_mismatch, null_vault, read_login}
pub mod Laws
pub mod Targets

pub record FillTarget : Type 0 where
  pub frame_id : ℕ
  pub document_id : Option String
  pub origin : String

-- FILL_CREDENTIALS, and the frame that it goes to.
pub record Fill : Type 0 where
  pub target : FillTarget
  pub username : String
  pub password : String

-- What a handler did: the message to the content script, if one went out, the targets that are kept,
-- and the answer.
pub record Filled : Type 0 where
  pub sent : Option Fill
  pub targets : List (String × FillTarget)
  pub answer : Result Failure (Unit {0})

-- `storage.session.remove(key)`
unfoldable pub remove : String → List (String × FillTarget) → List (String × FillTarget)
remove key [] = []
remove key ((k, target) ∷ rest) =
    if str_eq k key then remove key rest else (k, target) ∷ remove key rest

-- `if (!tab.url) return undefined`, then the origin.
abbrev pub top_frame : (String → Option String) → Option String → Option FillTarget
top_frame url_origin none = none
top_frame url_origin (some url) = if str_eq url "" then none else elim (url_origin url) [
  | none ↦ none
  | some origin ↦ some (record { frame_id = 0; document_id = none; origin = origin })
]

module _ (browser : Browser) where
  unfoldable pub fill_target_key : ℕ → String
  fill_target_key tab_id = String.◌++◌ "fillTarget:" (browser.number tab_id)

  unfoldable pub sender_frame : Sender → Option FillTarget
  sender_frame sender = elim (sender_origin browser sender) [
    | none ↦ none
    | some origin ↦ if str_eq origin "" then none else elim sender.frame_id [
      | none ↦ none
      | some frame_id ↦
          some (record { frame_id = frame_id; document_id = sender.document_id; origin = origin })
    ]
  ]

  -- FILL_TARGET, with whether a frame was recorded.
  unfoldable pub record_target :
      Sender → List (String × FillTarget) → List (String × FillTarget) × Bool
  record_target sender targets = elim (sender_frame sender) [
    | none ↦ (targets, false)
    | some target ↦ elim sender.tab [
      | none ↦ (targets, false)
      | some none ↦ (targets, false)
      | some (some tab_id) ↦ (insert (fill_target_key tab_id) target targets, true)
    ]
  ]

  -- `tab_url` is the address that `chrome.tabs.get` gives, nothing if it throws.
  unfoldable pub resolve_fill_target :
      List (String × FillTarget) → Option String → ℕ → Option FillTarget
  resolve_fill_target targets tab_url tab_id = elim (lookup (fill_target_key tab_id) targets) [
    | some recorded ↦ some recorded
    | none ↦ top_frame browser.url_origin tab_url
  ]

module _ {K : Type 0} (env : Platform K) (web : Web) (browser : Browser) where
  -- `confirmable`
  unfoldable pub is_confirmable : FillTarget → Bool
  is_confirmable target = (target.frame_id == 0) && is_fillable_origin web target.origin

  abbrev pub is_confirmed : Option String → String → Bool
  is_confirmed none origin = false
  is_confirmed (some confirmed) origin = str_eq confirmed origin

  -- The checks of AUTOFILL, up to the message to the content script.
  unfoldable pub prepare_fill :
      Sender
      → Option (Vault K)
      → Option (Vault K)
      → String
      → Option String
      → Option FillTarget
      → Result Failure Fill
  prepare_fill sender vault armed item_id confirmed_origin resolved = do
    guard (is_extension_page browser sender) (refused "unauthorized")
    guard (is_some vault) (refused "locked")
    state ← or_throw armed null_vault
    read ← read_login env state item_id
    target ← or_throw resolved (refused "no_login_form")
    guard
        (url_matches web read.2.urls target.origin
          || (is_confirmable target && is_confirmed confirmed_origin target.origin))
        (origin_mismatch target.origin (is_confirmable target))
    ok (record { target = target; username = read.2.username; password = read.2.password })

  -- AUTOFILL. `delivered` is the `filled` that the content script answers, false if there is no
  -- answer.
  unfoldable pub autofill :
      Sender
      → Option (Vault K)
      → Option (Vault K)
      → String
      → ℕ
      → Option String
      → Option String
      → (Fill → Bool)
      → List (String × FillTarget)
      → Filled
  autofill sender vault armed item_id tab_id confirmed_origin tab_url delivered targets =
      elim (prepare_fill sender vault armed item_id confirmed_origin
        (resolve_fill_target browser targets tab_url tab_id)) [
          | err e ↦ record { sent = none; targets = targets; answer = err e }
          | ok fill ↦
              if delivered fill
              then record { sent = some fill; targets = targets; answer = ok tt }
              else record {
                sent = some fill;
                targets = remove (fill_target_key browser tab_id) targets;
                answer = err (refused "no_login_form");
              }
        ]
