-- ===== src/Extension/Fill/Targets.antt =====
-- Where a fill goes: the frame that reported itself.
use nopass.Prelude.{
  ℕ, ◌≡◌, refl, inl, inr, String, true, List, [], ◌∷◌, Option, none, some, arith, Bool-cases,
  Option-cases, if◌then◌else◌, str_eq,
}
use nopass.Prelude.Maps.{lookup, insert, lookup-insert}
use nopass.Extension.Sender.{Sender, Browser, sender_origin}
use nopass.Extension.Fill.{
  FillTarget, remove, fill_target_key, sender_frame, record_target, resolve_fill_target,
}

pub lookup-remove :
    (key : String) (targets : List (String × FillTarget)) → lookup key (remove key targets) ≡ none
unfolding lookup remove
lookup-remove key [] = refl
lookup-remove key ((k, target) ∷ rest) = ground (arith, lookup-remove key rest)

module _ (browser : Browser) where
  sender_frame-fields :
      (sender : Sender) (target : FillTarget)
      → sender_frame browser sender ≡ some target
      → (sender_origin browser sender ≡ some target.origin)
        × (sender.frame_id ≡ some target.frame_id)
  unfolding sender_frame
  sender_frame-fields sender target h = elim (Option-cases (sender_origin browser sender)) [
    | inl none_there ↦ absurd (ground arith)
    | inr (origin, there) ↦ elim (Option-cases sender.frame_id) [
      | inl no_frame ↦ absurd (ground arith)
      | inr (frame, framed) ↦ (ground arith, ground arith)
    ]
  ]

  resolve_fill_target-insert :
      (target : FillTarget) (targets : List (String × FillTarget)) (tab_id : ℕ)
      (tab_url : Option String) (asked : ℕ)
      → resolve_fill_target browser
          (insert (fill_target_key browser tab_id) target targets)
          tab_url
          asked
        ≡ (if str_eq (fill_target_key browser tab_id) (fill_target_key browser asked)
            then some target
            else resolve_fill_target browser targets tab_url asked)
  unfolding resolve_fill_target
  resolve_fill_target-insert target targets tab_id tab_url asked =
      let key = fill_target_key browser tab_id in
      let other = fill_target_key browser asked in
      rw (resolve_fill_target, lookup-insert key other target targets)
        (elim (Bool-cases (str_eq key other)) [
          | inl same ↦ rw same refl
          | inr differs ↦ rw (differs, resolve_fill_target) refl
        ])

  -- A frame that reports itself is a content script's in a tab. Its target is the origin and the frame
  -- that the browser set; a fill of that tab goes to it from then on, and that of a tab with another
  -- key goes where it went.
  pub record_target-resolve_fill_target :
      (sender : Sender) (targets recorded : List (String × FillTarget)) (tab_url : Option String)
      (asked : ℕ)
      → record_target browser sender targets ≡ (recorded, true)
      → (tab_id : ℕ) × (target : FillTarget) × (sender.tab ≡ some (some tab_id))
        × (sender_origin browser sender ≡ some target.origin)
        × (sender.frame_id ≡ some target.frame_id)
        × (resolve_fill_target browser recorded tab_url asked ≡ (
            if str_eq (fill_target_key browser tab_id) (fill_target_key browser asked)
            then some target
            else resolve_fill_target browser targets tab_url asked))
  unfolding record_target
  record_target-resolve_fill_target sender targets recorded tab_url asked h =
      elim (Option-cases (sender_frame browser sender)) [
        | inl none_there ↦ absurd (ground arith)
        | inr (target, framed) ↦ elim (Option-cases sender.tab) [
          | inl no_tab ↦ absurd (ground arith)
          | inr (none, no_id) ↦ absurd (ground arith)
          | inr (some tab_id, tab) ↦
              let (origin, frame) = sender_frame-fields sender target framed in
              let e : recorded ≡ insert (fill_target_key browser tab_id) target targets =
                ground arith in
              (
                tab_id,
                target,
                tab,
                origin,
                frame,
                rw e (resolve_fill_target-insert target targets tab_id tab_url asked),
              )
        ]
      ]
