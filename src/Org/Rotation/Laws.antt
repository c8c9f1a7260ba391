-- ===== src/Org/Rotation/Laws.antt =====
-- A rotation is complete or it is refused.
use nopass.Prelude.{
  ℕ, ◌+◌, ◌≡◌, sym, ap, subst, ◌∙◌, inl, inr, String, true, not, ◌||◌, List, [], map, none, some,
  ok, Result-cases, arith, filter, All, Pairwise, Pairwise-map,
}
use nopass.Prelude.Bytes.{IsByte}
use nopass.Prelude.Sets.{has}
use nopass.Types.Vault.{VaultItemPlaintext}
use nopass.Types.Api.{MemberWrap}
use nopass.Platform.{Platform, Base64Laws, CipherLaws}
use nopass.Envelope.Revisions.{RevisionStore}
use nopass.Envelope.Revisions.Laws.{Extends}
use nopass.Envelope.Format.{v2, DecryptedItem, decrypt_vault_item, open_blob}
use nopass.Envelope.Format.Laws.{decrypt_vault_item-Accepted}
use nopass.Envelope.Format.RoundTrip.{Serializes, decrypt-encrypt_vault_item}
use nopass.Envelope.Format.Sealing.{open_blob-parsed}
use nopass.Envelope.Legacy.{parse_item}
use nopass.Org.Resign.{build_resigned_wraps, ResignInput, ResignedWraps}
use nopass.Org.Resign.Laws.{is_confirmed, build_resigned_wraps-split}
use nopass.Org.Rotation.{
  RotationInput, RotationPlan, Rotated, missing_from, gone_items, gone_members, remaining,
  org_binding, undecryptable_of, items_of, revisions_of, rotate_items, prepare_rotation,
  finish_rotation, build_rotation,
}
use nopass.Org.Rotation.Items.{old_keys, new_keys, Moved, rotate_items-Swept}
use nopass.Org.Rotation.Known.{
  is_empty-nil, map-nil, filter_all, Accounted, items-Accounted, members-Accounted,
}

module _ {K : Type 0} (env : Platform K) (new_key : K) (pads ivs : ℕ → List ℕ)
    (input : RotationInput K) where
  -- The input of `buildResignedWraps`.
  abbrev pub resign_input : ResignInput K
  resign_input = record {
    org_id = input.org_id;
    epoch = input.current_epoch + 1;
    owner_user_id = input.owner_user_id;
    org_key = new_key;
    members = remaining input;
    pins = input.pins;
    identity = input.identity;
  }

  -- What holds of a rotation that may be sent to the server.
  pub record Complete (store : RevisionStore) (plan : RotationPlan) (t : RevisionStore)
      : Type 0 where
    pub epoch : plan.request.new_epoch ≡ input.current_epoch + 1
    -- everyone who stays, in the server's order, is confirmed and has a wrap at the new epoch
    pub members : map (λ w. w.user_id) plan.request.wraps ≡ map (λ m. m.user_id) (remaining input)
    pub confirmed : filter (λ m. not (is_confirmed env resign_input m)) (remaining input) ≡ []
    pub wrap_epochs : All (λ w. w.key_epoch ≡ input.current_epoch + 1) plan.request.wraps
    -- every item that is not to be deleted, in the server's order, is written under the new key
    pub items :
        Pairwise
          (Moved env new_key pads ivs input)
          (filter (λ i. not (has i.id input.drop_item_ids)) input.items)
          plan.request.items
    pub recorded : map (λ p. p.0) plan.revisions ≡ map (λ r. r.id) plan.request.items
    -- nothing that the device has seen is left out silently
    pub known_items : (id : String) → has id input.known.items ≡ true → Accounted input id
    pub known_members :
        (id : String)
        → has id input.known.members ≡ true
        → (has id (map (λ m. m.user_id) input.members) || has id input.acknowledged_gone.members)
          ≡ true
    pub store_kept : Extends store t

  record Prepared (wraps : List MemberWrap) : Type 0 where
    no_items : missing_from input.acknowledged_gone.items (gone_items input) ≡ []
    no_members : missing_from input.acknowledged_gone.members (gone_members input) ≡ []
    resigned : ResignedWraps
    resigned_eq : build_resigned_wraps env pads resign_input ≡ ok resigned
    wraps_eq : resigned.wraps ≡ wraps
    none_skipped : resigned.skipped ≡ []

  prepare-Prepared :
      (wraps : List MemberWrap)
      → prepare_rotation env new_key pads ivs input ≡ ok wraps
      → Prepared wraps
  unfolding prepare_rotation
  prepare-Prepared wraps h = elim (Result-cases (build_resigned_wraps env pads resign_input)) [
    | inr (e, failed) ↦ absurd (ground arith)
    | inl (resigned, built) ↦ record {
      no_items = is_empty-nil _ (ground arith);
      no_members = is_empty-nil _ (ground arith);
      resigned = resigned;
      resigned_eq = built;
      wraps_eq = ground arith;
      none_skipped = is_empty-nil resigned.skipped (ground arith);
    }
  ]

  -- What the code after the loop makes of the rounds.
  record Finished (wraps : List MemberWrap) (rounds : List Rotated) (plan : RotationPlan)
      : Type 0 where
    none_left : undecryptable_of rounds ≡ []
    epoch : plan.request.new_epoch ≡ input.current_epoch + 1
    wraps_eq : wraps ≡ plan.request.wraps
    items_eq : items_of rounds ≡ plan.request.items
    revisions_eq : revisions_of rounds ≡ plan.revisions

  finish-Finished :
      (wraps : List MemberWrap) (rounds : List Rotated) (plan : RotationPlan)
      → finish_rotation env new_key pads ivs input wraps rounds ≡ ok plan
      → Finished wraps rounds plan
  unfolding finish_rotation
  finish-Finished wraps rounds plan h = record {
    none_left = is_empty-nil _ (ground arith);
    epoch = ground arith;
    wraps_eq = ground arith;
    items_eq = ground arith;
    revisions_eq = ground arith;
  }

  build-Complete :
      (wraps : List MemberWrap) (rounds : List Rotated) (store : RevisionStore)
      (plan : RotationPlan)
      → Prepared wraps
      → (rotate_items env new_key pads ivs input store 0 input.items).0 ≡ ok rounds
      → Finished wraps rounds plan
      → Complete store plan (rotate_items env new_key pads ivs input store 0 input.items).1
  build-Complete wraps rounds store plan p loop f =
      let split = build_resigned_wraps-split env pads resign_input p.resigned p.resigned_eq in
      let (wrapped, (skipped, epochs)) = split in
      let out = map-nil _ (sym skipped ∙ p.none_skipped) in
      let same = p.wraps_eq ∙ f.wraps_eq in
      let swept =
        rotate_items-Swept env new_key pads ivs input store 0 input.items rounds loop f.none_left in
      record {
        epoch = f.epoch;
        members =
            ap (map (λ w. w.user_id)) (sym same)
            ∙ wrapped
            ∙ ap (map (λ m. m.user_id))
                (filter_all (is_confirmed env resign_input) (remaining input) out);
        confirmed = out;
        wrap_epochs = subst (All (λ w. w.key_epoch ≡ input.current_epoch + 1)) same epochs;
        items =
            subst
              (Pairwise (Moved env new_key pads ivs input)
                (filter (λ i. not (has i.id input.drop_item_ids)) input.items))
              f.items_eq swept.moved;
        recorded =
            ap (map (λ p. p.0)) (sym f.revisions_eq)
            ∙ swept.recorded
            ∙ ap (map (λ r. r.id)) f.items_eq;
        known_items = λ id. items-Accounted input id p.no_items;
        known_members = λ id. members-Accounted input id p.no_members;
        store_kept = swept.extends;
      }

  -- A rotation that is built is complete. It is for the next epoch; exactly the members who stay have
  -- a wrap, all of them confirmed; every item of the server's list that is not to be deleted was read
  -- under the old key and is written with the same content under the new one; every item that this device
  -- has seen is on the server's list, to be deleted, or acknowledged as gone, and every member on the
  -- server's list or acknowledged; and the revision store has forgotten nothing.
  pub build_rotation-Complete :
      (store : RevisionStore) (plan : RotationPlan)
      → (build_rotation env new_key pads ivs input store).0 ≡ ok plan
      → Complete store plan (build_rotation env new_key pads ivs input store).1
  unfolding build_rotation
  build_rotation-Complete store plan h =
      elim (Result-cases (prepare_rotation env new_key pads ivs input)) [
        | inr (e, failed) ↦ absurd (ground arith)
        | inl (wraps, prepared) ↦
            let loop = rotate_items env new_key pads ivs input store 0 input.items in
            elim (Result-cases loop.0) [
              | inr (e, failed) ↦ absurd (ground arith)
              | inl (rounds, swept) ↦
                  rw (prepared, build_rotation)
                    (build-Complete wraps rounds store plan (prepare-Prepared wraps prepared) swept
                      (finish-Finished wraps rounds plan (ground arith)))
            ]
      ]

  -- After a rotation, every item that it moved opens under the new key, for a device that has seen
  -- no revision of it, with the content that the old key gave. Assumed: `atob` undoes `btoa`,
  -- AES-GCM decrypts what it encrypted, ivs are bytes, and what `JSON.parse` gave is given back by
  -- `JSON.stringify` and `JSON.parse`.
  pub build_rotation-readable :
      (base64 : Base64Laws env) (cipher : CipherLaws env) (store : RevisionStore)
      (plan : RotationPlan)
      → ((n : ℕ) → All IsByte (ivs n))
      → ((bytes : List ℕ) (p : VaultItemPlaintext) → parse_item env bytes ≡ ok p → Serializes env p)
      → (build_rotation env new_key pads ivs input store).0 ≡ ok plan
      → Pairwise
          (λ item out.
            (d : DecryptedItem) × (r : ℕ) × (open_blob env item.encrypted
                (org_binding input.org_id item)
                (old_keys env new_key pads ivs input)
              ≡ ok d)
            × (decrypt_vault_item env out.encrypted
                  (org_binding input.org_id item)
                  (new_keys env new_key pads ivs input)
                  none
                ≡ ok (record { plaintext = d.plaintext; revision = r; format = v2 }, none)))
          (filter (λ i. not (has i.id input.drop_item_ids)) input.items)
          plan.request.items
  build_rotation-readable base64 cipher store plan iv_ok json h =
      Pairwise-map (Moved env new_key pads ivs input) _
        (λ item out m.
          let opened =
            ((decrypt_vault_item-Accepted env item.encrypted (org_binding input.org_id item)
                (old_keys env new_key pads ivs input) (some m.before) m.current (some m.after)).0
              m.read).opened in
          let (bytes, parsed) =
            open_blob-parsed env item.encrypted (org_binding input.org_id item)
              (old_keys env new_key pads ivs input) m.current opened in
          (
            m.current,
            m.revision,
            opened,
            decrypt-encrypt_vault_item env base64 cipher m.current.plaintext
                (org_binding input.org_id item) (new_keys env new_key pads ivs input) (some m.after)
                none (some m.current.revision) (ivs m.iv) out.encrypted m.revision m.written
                (iv_ok m.iv) (json bytes m.current.plaintext parsed) (λ n seen. absurd seen),
          ))
        _ _ (build_rotation-Complete store plan h).items
