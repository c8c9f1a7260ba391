-- ===== src/Extension/Passkeys/Asked.antt =====
-- Who asks for a passkey, and what is known when the user is asked to approve.
use nopass.Prelude.{
  ℕ, ◌≡◌, inl, inr, String, true, List, [], ◌∷◌, Option, some, ok, arith, Option-cases, is_some,
  bind_ok, guard_ok, or_throw, or_throw_ok,
}
use nopass.Platform.{Platform}
use nopass.Autofill.{Web}
use nopass.Extension.Sender.{Sender, Browser, sender_origin}
use nopass.Extension.Session.{Vault}
use nopass.Extension.Reads.{refused}
use nopass.Extension.Ceremony.{
  Ceremonies, Candidate, GetMessage, some_candidates, build_client_data_json, may_use,
}
use nopass.Extension.Passkeys.{find_passkey_logins, origin_of, prepare_get}
use nopass.Extension.Passkeys.ClientData.{ClientData, build_client_data_json-ClientData}

module _ {K : Type 0} (env : Platform K) (web : Web) (browser : Browser)
    (ceremonies : Ceremonies) where
  -- The page that asks: a content script at an origin that may use the relying party's passkeys, while
  -- the vault is unlocked.
  pub record Asks (sender : Sender) (vault : Option (Vault K)) (rp_id origin : String)
      : Type 0 where
    pub sent : sender_origin browser sender ≡ some origin
    pub unlocked : is_some vault ≡ true
    pub allowed : may_use web browser.starts_with rp_id origin ≡ true

  pub origin_of-some :
      (sender : Sender) (origin : String)
      → origin_of env web browser ceremonies sender ≡ some origin
      → sender_origin browser sender ≡ some origin
  origin_of-some sender origin h = elim (Option-cases (sender_origin browser sender)) [
    | inl nothing ↦ absurd (ground arith)
    | inr (o, there) ↦ ground arith
  ]

  -- What is known when the user is asked to use a passkey.
  pub record Prepared (sender : Sender) (vault : Option (Vault K)) (message : GetMessage)
      (first : Candidate) (rest : List Candidate) (client_data_json : List ℕ) : Type 0 where
    pub origin : String
    pub asks : Asks sender vault message.rp_id origin
    pub candidates :
        find_passkey_logins env web browser ceremonies vault message.rp_id
          message.allow_credential_ids
        ≡ first ∷ rest
    pub client_data :
        ClientData ceremonies env.encode_text "webauthn.get" message.challenge origin
          client_data_json

  some_candidates_ok :
      (found : List Candidate) (p : Candidate × List Candidate)
      → some_candidates found ≡ ok p
      → found ≡ p.0 ∷ p.1
  some_candidates_ok [] p h = cc
  some_candidates_ok (c ∷ cs) p h = cc

  pub prepare_get-Prepared :
      (sender : Sender) (vault : Option (Vault K)) (message : GetMessage) (first : Candidate)
      (rest : List Candidate) (client_data_json : List ℕ)
      → prepare_get env web browser ceremonies sender vault message
        ≡ ok (first, rest, client_data_json)
      → Prepared sender vault message first rest client_data_json
  unfolding prepare_get
  prepare_get-Prepared sender vault message first rest client_data_json h =
      let (origin, e, h1) =
        bind_ok (or_throw (origin_of env web browser ceremonies sender) (refused "unauthorized")) _
          _ h in
      let (unlocked, h2) = guard_ok (is_some vault) _ _ _ h1 in
      let (allowed, h3) =
        guard_ok (may_use web browser.starts_with message.rp_id origin) _ _ _ h2 in
      let found =
        find_passkey_logins env web browser ceremonies vault message.rp_id
          message.allow_credential_ids in
      let (candidates, f, h4) = bind_ok (some_candidates found) _ _ h3 in
      let built =
        build_client_data_json ceremonies env.encode_text "webauthn.get" message.challenge origin in
      let (json, g, h5) = bind_ok (or_throw built (refused "invalid challenge")) _ _ h4 in
      let same_json : json ≡ client_data_json = cc h5 in
      let same_first : candidates.0 ≡ first = cc h5 in
      let same_rest : candidates.1 ≡ rest = cc h5 in
      let listed = some_candidates_ok found candidates f in
      record {
        origin = origin;
        asks = record {
          sent =
              origin_of-some sender origin
                (or_throw_ok (origin_of env web browser ceremonies sender) _ origin e);
          unlocked = unlocked;
          allowed = allowed;
        };
        candidates = cc (listed, same_first, same_rest);
        client_data =
            build_client_data_json-ClientData ceremonies env.encode_text "webauthn.get"
              message.challenge origin client_data_json
              (cc (or_throw_ok built _ json g, same_json));
      }
