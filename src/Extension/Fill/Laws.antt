-- ===== src/Extension/Fill/Laws.antt =====
-- Where credentials go.
use nopass.Prelude.{
  ℕ, ◌≡◌, refl, ◌⊎◌, inl, inr, ap, String, Bool, true, false, List, Option, none, some, ok, err,
  arith, Bool-cases, Option-cases, Result-cases, is_some, eq_iff, ==_iff,
}
use nopass.Types.Vault.{LoginItem}
use nopass.Platform.{Platform}
use nopass.Autofill.{Web, url_matches, is_fillable_origin}
use nopass.Extension.Sender.{Sender, Browser, is_extension_page}
use nopass.Extension.Session.{Vault}
use nopass.Extension.Reads.{refused, read_login}
use nopass.Extension.Reads.Laws.{Reads, read_login-Reads}
use nopass.Extension.Fill.{
  FillTarget, Fill, top_frame, fill_target_key, resolve_fill_target, is_confirmable, is_confirmed,
  prepare_fill, autofill,
}
use nopass.Extension.Fill.Targets.{lookup-remove}

module _ {K : Type 0} (env : Platform K) (web : Web) (browser : Browser) where
  -- When a fill may go out: the popup asked for it, the vault was unlocked and still is, the item is
  -- a login of it, and the target's origin matches the login, or it is a top frame that can be
  -- confirmed and exactly its origin was.
  pub record Allowed (sender : Sender) (vault armed : Option (Vault K)) (item_id : String)
      (confirmed_origin : Option String) (resolved : Option FillTarget) (fill : Fill) : Type 0 where
    pub page : is_extension_page browser sender ≡ true
    pub unlocked : is_some vault ≡ true
    pub state : Vault K
    pub still : armed ≡ some state
    pub login : LoginItem
    pub reads : Reads env state item_id login
    pub username : fill.username ≡ login.username
    pub password : fill.password ≡ login.password
    pub target : resolved ≡ some fill.target
    pub origin :
        (url_matches web login.urls fill.target.origin ≡ true)
        ⊎ ((fill.target.frame_id ≡ 0)
            × (is_fillable_origin web fill.target.origin ≡ true)
            × (confirmed_origin ≡ some fill.target.origin))

  is_confirmed_origin :
      (confirmed : Option String) (origin : String)
      → is_confirmed env web browser confirmed origin ≡ true
      → confirmed ≡ some origin
  is_confirmed_origin none origin h = cc
  is_confirmed_origin (some c) origin h = ap some ((eq_iff c origin).0 h)

  prepare_fill-Allowed :
      (sender : Sender) (vault armed : Option (Vault K)) (item_id : String)
      (confirmed_origin : Option String) (resolved : Option FillTarget) (fill : Fill)
      → prepare_fill env web browser sender vault armed item_id confirmed_origin resolved ≡ ok fill
      → Allowed sender vault armed item_id confirmed_origin resolved fill
  unfolding prepare_fill is_confirmable
  prepare_fill-Allowed sender vault armed item_id confirmed_origin resolved fill h =
      elim (Option-cases armed) [
        | inl gone ↦ absurd (ground arith)
        | inr (state, still) ↦ elim (Result-cases (read_login env state item_id)) [
          | inr (e, thrown) ↦ absurd (ground arith)
          | inl ((item, opened, login), read) ↦ elim (Option-cases resolved) [
            | inl nowhere ↦ absurd (ground arith)
            | inr (target, there) ↦
                let same : target ≡ fill.target = ground arith in
                let same_origin : target.origin ≡ fill.target.origin = ap (λ t. t.origin) same in
                record {
                  page = ground arith;
                  unlocked = ground arith;
                  state = state;
                  still = still;
                  login = login;
                  reads = read_login-Reads env state item_id item opened login read;
                  username = ground arith;
                  password = ground arith;
                  target = cc (there, same);
                  origin = elim (Bool-cases (url_matches web login.urls fill.target.origin)) [
                    | inl matches ↦ inl matches
                    | inr other ↦ inr (
                      (==_iff _ 0).0 (ground arith),
                      ground arith,
                      is_confirmed_origin confirmed_origin fill.target.origin (ground arith),
                    )
                  ];
                }
          ]
        ]
      ]

  -- A message with credentials goes out only when a fill is allowed: to the popup's request, for a
  -- login of the unlocked vault, to the frame that the fill of that tab resolves to, with that login's
  -- user name and password, on an origin that matches it or that the user confirmed for a top frame.
  pub autofill-Allowed :
      (sender : Sender) (vault armed : Option (Vault K)) (item_id : String) (tab_id : ℕ)
      (confirmed_origin tab_url : Option String) (delivered : Fill → Bool)
      (targets : List (String × FillTarget)) (fill : Fill)
      → (autofill env web browser sender vault armed item_id tab_id confirmed_origin tab_url
          delivered targets).sent
        ≡ some fill
      → Allowed sender vault armed item_id confirmed_origin
          (resolve_fill_target browser targets tab_url tab_id)
          fill
  unfolding autofill
  autofill-Allowed sender vault armed item_id tab_id confirmed_origin tab_url delivered targets fill
        h =
      let asked = resolve_fill_target browser targets tab_url tab_id in
      let prepared =
        prepare_fill env web browser sender vault armed item_id confirmed_origin asked in
      elim (Result-cases prepared) [
        | inr (e, thrown) ↦ absurd (ground arith)
        | inl (f, made) ↦
            let same : f ≡ fill = elim (Bool-cases (delivered f)) [
              | inl yes_filled ↦ ground arith
              | inr not_filled ↦ ground arith
            ] in
            prepare_fill-Allowed sender vault armed item_id confirmed_origin asked fill
              (cc (made, same))
      ]

  -- The answer is a success only if a message went out and the page filled it in; the recorded frame
  -- is kept.
  pub autofill-answer :
      (sender : Sender) (vault armed : Option (Vault K)) (item_id : String) (tab_id : ℕ)
      (confirmed_origin tab_url : Option String) (delivered : Fill → Bool)
      (targets : List (String × FillTarget))
      → (autofill env web browser sender vault armed item_id tab_id confirmed_origin tab_url
          delivered targets).answer
        ≡ ok tt
      → (fill : Fill) × (delivered fill ≡ true)
        × (autofill env web browser sender vault armed item_id tab_id confirmed_origin tab_url
              delivered targets
            ≡ record { sent = some fill; targets = targets; answer = ok tt })
  unfolding autofill
  autofill-answer sender vault armed item_id tab_id confirmed_origin tab_url delivered targets h =
      let asked = resolve_fill_target browser targets tab_url tab_id in
      let prepared =
        prepare_fill env web browser sender vault armed item_id confirmed_origin asked in
      elim (Result-cases prepared) [
        | inr (e, thrown) ↦ absurd (ground arith)
        | inl (f, made) ↦ elim (Bool-cases (delivered f)) [
          | inl filled ↦ (f, filled, rw (made, filled, autofill) refl)
          | inr empty ↦ absurd (ground arith)
        ]
      ]

  -- A message that was not filled in makes the worker forget the frame: the answer is that there is no
  -- form, and the next fill of that tab goes to its top frame.
  pub autofill-remove :
      (sender : Sender) (vault armed : Option (Vault K)) (item_id : String) (tab_id : ℕ)
      (confirmed_origin tab_url later_url : Option String) (delivered : Fill → Bool)
      (targets : List (String × FillTarget)) (fill : Fill)
      → (autofill env web browser sender vault armed item_id tab_id confirmed_origin tab_url
          delivered targets).sent
        ≡ some fill
      → delivered fill ≡ false
      → ((autofill env web browser sender vault armed item_id tab_id confirmed_origin tab_url
            delivered targets).answer
          ≡ err (refused "no_login_form"))
        × (resolve_fill_target browser
              (autofill env web browser sender vault armed item_id tab_id confirmed_origin tab_url
                delivered targets).targets
              later_url
              tab_id
            ≡ top_frame browser.url_origin later_url)
  unfolding autofill resolve_fill_target
  autofill-remove sender vault armed item_id tab_id confirmed_origin tab_url later_url delivered
        targets fill h n =
      let asked = resolve_fill_target browser targets tab_url tab_id in
      let prepared =
        prepare_fill env web browser sender vault armed item_id confirmed_origin asked in
      let gone = lookup-remove (fill_target_key browser tab_id) targets in
      elim (Result-cases prepared) [
        | inr (e, thrown) ↦ absurd (ground arith)
        | inl (f, made) ↦ elim (Bool-cases (delivered f)) [
          | inl filled ↦
              let same : f ≡ fill = ground arith in absurd (cc (ap delivered same, filled, n))
          | inr empty ↦ (ground arith, rw (made, empty, autofill, resolve_fill_target, gone) refl)
        ]
      ]
