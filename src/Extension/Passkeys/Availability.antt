-- ===== src/Extension/Passkeys/Availability.antt =====
-- What a page is told of the passkeys before it asks for one.
use nopass.Prelude.{
  In, ◌≡◌, refl, sym, subst, ◌↔◌, inl, inr, String, true, List, [], ◌∷◌, Option, some, arith,
  Option-cases, is_some, ltb, length,
}
use nopass.Platform.{Platform}
use nopass.Autofill.{Web}
use nopass.Extension.Sender.{Sender, Browser}
use nopass.Extension.Session.{Vault}
use nopass.Extension.Ceremony.{Ceremonies, Candidate, may_use}
use nopass.Extension.Passkeys.{
  find_passkey_logins, origin_of, webauthn_available, webauthn_has_credential,
}
use nopass.Extension.Passkeys.Candidates.{Usable, find_passkey_logins-Usable}

module _ {K : Type 0} (env : Platform K) (web : Web) (browser : Browser)
    (ceremonies : Ceremonies) where
  -- A page is told that passkeys are available exactly when it is a content script whose origin may use
  -- the relying party's passkeys and the vault is unlocked.
  pub webauthn_available_iff :
      (sender : Sender) (vault : Option (Vault K)) (rp_id : String)
      → (webauthn_available env web browser ceremonies sender vault rp_id ≡ true) ↔ (
          (origin : String) × (origin_of env web browser ceremonies sender ≡ some origin)
          × (is_some vault ≡ true)
          × (may_use web browser.starts_with rp_id origin ≡ true))
  unfolding webauthn_available
  webauthn_available_iff sender vault rp_id =
      elim (Option-cases (origin_of env web browser ceremonies sender)) [
        | inl nowhere ↦ (λ h. absurd (ground arith), λ (origin, e, u, m). absurd (cc (nowhere, e)))
        | inr (o, there) ↦ (
          λ h. (o, there, ground arith, ground arith),
          λ (origin, e, u, m).
              let same : o ≡ origin = cc (there, e) in rw (webauthn_available, e, u, m) refl,
        )
      ]

  -- A page is told that there is a passkey only where it is told that passkeys are available, and only
  -- if the vault holds one of that relying party among those it asks for.
  pub webauthn_has_credential-Usable :
      (sender : Sender) (vault : Option (Vault K)) (rp_id : String) (allow : List String)
      → webauthn_has_credential env web browser ceremonies sender vault rp_id allow ≡ true
      → (webauthn_available env web browser ceremonies sender vault rp_id ≡ true)
        × ((c : Candidate) × Usable env web browser ceremonies vault rp_id allow c)
  unfolding webauthn_has_credential webauthn_available
  webauthn_has_credential-Usable sender vault rp_id allow h =
      elim (Option-cases (origin_of env web browser ceremonies sender)) [
        | inl nowhere ↦ absurd (ground arith)
        | inr (o, there) ↦ (
          ground arith,
          some_usable (find_passkey_logins env web browser ceremonies vault rp_id allow) refl
              (ground arith),
        )
      ]
    where
      some_usable :
          (cs : List Candidate)
          → find_passkey_logins env web browser ceremonies vault rp_id allow ≡ cs
          → ltb 0 (length cs) ≡ true
          → (c : Candidate) × Usable env web browser ceremonies vault rp_id allow c
      some_usable [] e l = absurd (ground arith)
      some_usable (c ∷ cs) e l = (
        c,
        find_passkey_logins-Usable env web browser ceremonies vault rp_id allow c
            (subst (In c) (sym e) (inl refl)),
      )
