-- ===== src/Extension/Passkeys/Candidates.antt =====
-- Which passkeys a page may use, and which of them is taken.
use nopass.Prelude.{
  In, ◌≡◌, refl, ap, subst, inl, inr, String, Bool, true, false, not, ◌&&◌, List, [], ◌∷◌, Option,
  none, some, arith, Bool-cases, Option-cases, ltb, length, str_eq, eq_iff, All,
}
use nopass.Prelude.Sets.{has}
use nopass.Types.Vault.{EncryptedVaultItem, LoginItem, PasskeyCredential}
use nopass.Platform.{Platform}
use nopass.Envelope.Format.{DecryptedItem}
use nopass.Autofill.{Web}
use nopass.Extension.Sender.{Browser}
use nopass.Extension.Session.{Vault}
use nopass.Extension.Reads.Selection.{In-select_logins_iff}
use nopass.Extension.Ceremony.{Ceremonies, Candidate, newest, passkey_candidate}
use nopass.Extension.Passkeys.{find_passkey_logins}

newest-newer :
    (greater : String → String → Bool) (best c : Candidate) (cs : List Candidate)
    → greater c.passkey.created_at best.passkey.created_at ≡ true
    → newest greater c cs ≡ newest greater best (c ∷ cs)
unfolding newest
newest-newer greater best c cs newer = rw newer refl

newest-older :
    (greater : String → String → Bool) (best c : Candidate) (cs : List Candidate)
    → greater c.passkey.created_at best.passkey.created_at ≡ false
    → newest greater best cs ≡ newest greater best (c ∷ cs)
unfolding newest
newest-older greater best c cs older = rw older refl

pub In-newest :
    (greater : String → String → Bool) (best : Candidate) (cs : List Candidate)
    → In (newest greater best cs) (best ∷ cs)
unfolding newest
In-newest greater best [] = inl refl
In-newest greater best (c ∷ cs) =
    elim (Bool-cases (greater c.passkey.created_at best.passkey.created_at)) [
      | inl newer ↦ inr (
          subst (λ n. In n (c ∷ cs)) (newest-newer greater best c cs newer)
            (In-newest greater c cs))
      | inr older ↦
          subst (λ n. In n (best ∷ c ∷ cs)) (newest-older greater best c cs older)
            (skip (In-newest greater best cs))
    ]
  where
    skip : In (newest greater best cs) (best ∷ cs) → In (newest greater best cs) (best ∷ c ∷ cs)
    skip (inl this) = inl this
    skip (inr later) = inr (inr later)

-- No candidate is newer than this one.
abbrev pub Newest : (String → String → Bool) → List Candidate → Candidate → Type 0
Newest greater cs n = All (λ c. greater c.passkey.created_at n.passkey.created_at ≡ false) cs

-- With a comparison that is a preorder, no candidate is newer than the one that is taken.
pub newest-Newest :
    (greater : String → String → Bool) (greater_self : (s : String) → greater s s ≡ false)
    (not_greater_trans : (r s t : String)
      → greater r s ≡ false
      → greater s t ≡ false
      → greater r t ≡ false)
    (not_greater_of_greater : (s t : String) → greater s t ≡ true → greater t s ≡ false)
    (best : Candidate) (cs : List Candidate)
    → Newest greater (best ∷ cs) (newest greater best cs)
unfolding newest
newest-Newest greater self trans of_greater best [] = (self best.passkey.created_at, tt)
newest-Newest greater self trans of_greater best (c ∷ cs) =
    elim (Bool-cases (greater c.passkey.created_at best.passkey.created_at)) [
      | inl newer ↦
          let rest = newest-Newest greater self trans of_greater c cs in
          subst (Newest greater (best ∷ c ∷ cs)) (newest-newer greater best c cs newer)
            (trans _ _ _ (of_greater _ _ newer) rest.0, rest)
      | inr older ↦
          let rest = newest-Newest greater self trans of_greater best cs in
          subst (Newest greater (best ∷ c ∷ cs)) (newest-older greater best c cs older)
            (rest.0, (trans _ _ _ older rest.0, rest.1))
    ]

passkey_candidate-fields :
    (rp_id : String) (allowed : List String) (item : EncryptedVaultItem) (current : DecryptedItem)
    (plain : LoginItem) (c : Candidate)
    → passkey_candidate rp_id allowed item current plain ≡ some c
    → (c.passkey.rp_id ≡ rp_id)
      × ((ltb 0 (length allowed) && not (has c.passkey.credential_id allowed)) ≡ false)
unfolding passkey_candidate
passkey_candidate-fields rp_id allowed item current plain c h = elim (Option-cases plain.passkey) [
  | inl without ↦ absurd (ground arith)
  | inr (passkey, there) ↦ elim (Bool-cases (str_eq passkey.rp_id rp_id)) [
    | inr other ↦ absurd (ground arith)
    | inl same ↦
        elim (Bool-cases (ltb 0 (length allowed) && not (has passkey.credential_id allowed))) [
          | inl excluded ↦ absurd (ground arith)
          | inr listed ↦
              let mine : passkey ≡ c.passkey = ground arith in
              (
                cc ((eq_iff passkey.rp_id rp_id).0 same, ap (λ p. p.rp_id) mine),
                subst
                    (λ (p : PasskeyCredential).
                      (ltb 0 (length allowed) && not (has p.credential_id allowed)) ≡ false)
                    mine listed,
              )
        ]
  ]
]

module _ {K : Type 0} (env : Platform K) (web : Web) (browser : Browser)
    (ceremonies : Ceremonies) where
  -- A login of the vault with a passkey of that relying party, among those that the page allows.
  pub record Usable (vault : Option (Vault K)) (rp_id : String) (allow : List String)
      (c : Candidate) : Type 0 where
    pub listed : In c (find_passkey_logins env web browser ceremonies vault rp_id allow)
    pub rp : c.passkey.rp_id ≡ rp_id
    pub allowed : (ltb 0 (length allow) && not (has c.passkey.credential_id allow)) ≡ false

  pub find_passkey_logins-Usable :
      (vault : Option (Vault K)) (rp_id : String) (allow : List String) (c : Candidate)
      → In c (find_passkey_logins env web browser ceremonies vault rp_id allow)
      → Usable vault rp_id allow c
  unfolding find_passkey_logins
  find_passkey_logins-Usable none rp_id allow c h = absurd h
  find_passkey_logins-Usable (some state) rp_id allow c h =
      let s = (In-select_logins_iff env (passkey_candidate rp_id allow) state state.items c).0 h in
      let (rp, allowed) = passkey_candidate-fields rp_id allow s.item s.opened s.login c s.kept in
      record { listed = h; rp = rp; allowed = allowed }
