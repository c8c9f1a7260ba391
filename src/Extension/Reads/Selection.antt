-- ===== src/Extension/Reads/Selection.antt =====
-- What is selected from the logins of the vault.
use nopass.Prelude.{
  In, ◌≡◌, refl, ◌↔◌, ◌⊎◌, inl, inr, true, List, [], ◌∷◌, Option, some, Bool-cases, Option-cases,
  subst, sym,
}
use nopass.Types.Vault.{EncryptedVaultItem, LoginItem}
use nopass.Platform.{Platform}
use nopass.Envelope.Format.{DecryptedItem}
use nopass.Extension.Session.{Vault}
use nopass.Extension.Reads.{is_active_login, login_of, selected, select_logins}

module _ {K : Type 0} (env : Platform K) where
  -- What is selected over a list: the results of its active logins that decrypt, and no other.
  pub record Selects {R : Type 0} (keep : EncryptedVaultItem → DecryptedItem → LoginItem → Option R)
      (state : Vault K) (items : List EncryptedVaultItem) (r : R) : Type 0 where
    pub item : EncryptedVaultItem
    pub listed : In item items
    pub active : is_active_login item ≡ true
    pub opened : DecryptedItem
    pub login : LoginItem
    pub read : login_of env state item ≡ some (opened, login)
    pub kept : keep item opened login ≡ some r

  module _ {R : Type 0} (keep : EncryptedVaultItem → DecryptedItem → LoginItem → Option R)
      (state : Vault K) where
    Selects-later :
        (item : EncryptedVaultItem) (items : List EncryptedVaultItem) (r : R)
        → Selects keep state items r
        → Selects keep state (item ∷ items) r
    Selects-later item items r s = record {
      item = s.item;
      listed = inr s.listed;
      active = s.active;
      opened = s.opened;
      login = s.login;
      read = s.read;
      kept = s.kept;
    }

    -- An item adds its result in front, if it has one.
    select_step :
        (item : EncryptedVaultItem) (items : List EncryptedVaultItem)
        → (select_logins env keep state (item ∷ items) ≡ select_logins env keep state items)
          ⊎ ((r : R) × Selects keep state (item ∷ items) r
              × (select_logins env keep state (item ∷ items)
                  ≡ r ∷ select_logins env keep state items))
    unfolding select_logins
    select_step item items = elim (Bool-cases (is_active_login item)) [
      | inr other ↦ inl (rw other refl)
      | inl active ↦ elim (Option-cases (login_of env state item)) [
        | inl closed ↦ inl (rw (active, closed) refl)
        | inr ((opened, login), read) ↦ elim (Option-cases (keep item opened login)) [
          | inl left_out ↦ inl (rw (active, read, left_out, selected) refl)
          | inr (r, kept) ↦ inr (
            r,
            record {
              item = item;
              listed = inl refl;
              active = active;
              opened = opened;
              login = login;
              read = read;
              kept = kept;
            },
            rw (active, read, kept, selected) refl,
          )
        ]
      ]
    ]

    In-select_logins :
        (items : List EncryptedVaultItem) (r : R)
        → In r (select_logins env keep state items)
        → Selects keep state items r
    unfolding select_logins
    In-select_logins [] r h = absurd h
    In-select_logins (item ∷ items) r h = elim (select_step item items) [
      | inl same ↦ Selects-later item items r (In-select_logins items r (subst (In r) same h))
      | inr (first, s, e) ↦ elim (subst (In r) e h) [
        | inl this ↦ subst (Selects keep state (item ∷ items)) (sym this) s
        | inr later ↦ Selects-later item items r (In-select_logins items r later)
      ]
    ]

    In-later :
        (item : EncryptedVaultItem) (items : List EncryptedVaultItem) (r : R)
        → In r (select_logins env keep state items)
        → In r (select_logins env keep state (item ∷ items))
    In-later item items r h = elim (select_step item items) [
      | inl same ↦ subst (In r) (sym same) h
      | inr (first, s, e) ↦ subst (In r) (sym e) (inr h)
    ]

    Selects-In :
        (items : List EncryptedVaultItem) (r : R) (item : EncryptedVaultItem)
        (opened : DecryptedItem) (login : LoginItem)
        → In item items
        → is_active_login item ≡ true
        → login_of env state item ≡ some (opened, login)
        → keep item opened login ≡ some r
        → In r (select_logins env keep state items)
    unfolding select_logins
    Selects-In [] r item opened login listed active read kept = listed
    Selects-In (x ∷ items) r item opened login (inr listed) active read kept =
        In-later x items r (Selects-In items r item opened login listed active read kept)
    Selects-In (x ∷ items) r item opened login (inl e) active read kept =
        subst (λ y. In r (select_logins env keep state (y ∷ items))) e
          (rw (active, read, kept, selected) (inl refl))

    pub In-select_logins_iff :
        (items : List EncryptedVaultItem) (r : R)
        → In r (select_logins env keep state items) ↔ Selects keep state items r
    In-select_logins_iff items r = (
      In-select_logins items r,
      λ s. Selects-In items r s.item s.opened s.login s.listed s.active s.read s.kept,
    )
