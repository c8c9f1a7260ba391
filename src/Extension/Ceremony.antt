-- ===== src/Extension/Ceremony.antt =====
-- The parts of a passkey ceremony in apps/extension/src/background/index.ts: what it calls, its messages
-- and answers, the collected client data, which pages may ask, and which passkey is taken.
use Prim.Native.Char.{code}
use nopass.Prelude.{
  ℕ, String, Bool, true, not, ◌&&◌, ◌||◌, List, [], ◌∷◌, Option, none, some, Result, ok, err,
  str_eq, ◌==◌, leb, ltb, if◌then◌else◌, is_some, length,
}
use nopass.Prelude.Sets.{has}
use nopass.Types.Vault.{EncryptedVaultItem, LoginItem, PasskeyCredential}
use nopass.Envelope.Format.{DecryptedItem}
use nopass.Autofill.{Web}
use nopass.Webauthn.{rp_id_matches_origin}
use nopass.Extension.Session.{Vault}
use nopass.Extension.Reads.{Failure, refused}

-- What the ceremonies call: `bytesToB64u` and `b64uToBytes` (nothing if it throws), the text of the
-- collected client data, SHA-256, the signature of a PKCS #8 key, and `a.localeCompare(b) > 0`.
pub record Ceremonies : Type 0 where
  pub bytes_to_b64u : List ℕ → String
  pub b64u_to_bytes : String → Option (List ℕ)
  pub client_data : String → String → String → String
  pub sha256 : List ℕ → List ℕ
  pub sign : List ℕ → List ℕ → List ℕ
  pub locale_greater : String → String → Bool

-- A credential of `generateCredential`.
pub record Generated : Type 0 where
  pub credential_id : List ℕ
  pub cose_public_key : List ℕ
  pub private_key_pkcs8 : List ℕ
  pub public_key_spki : List ℕ

-- `vaultState` when the message is handled, after the user's answer, when the item is encrypted, when
-- the request is made, and when it is answered.
pub record Vaults (K : Type 0) : Type 0 where
  pub first : Option (Vault K)
  pub consented : Option (Vault K)
  pub encrypting : Option (Vault K)
  pub requesting : Option (Vault K)
  pub answered : Option (Vault K)

pub record Candidate : Type 0 where
  pub item : EncryptedVaultItem
  pub plain : LoginItem
  pub passkey : PasskeyCredential
  pub current : DecryptedItem

pub record CreateMessage : Type 0 where
  pub rp_id : String
  pub rp_name : String
  pub user_name : String
  pub user_display_name : String
  pub user_handle : String
  pub exclude_credential_ids : List String
  pub challenge : String

pub record GetMessage : Type 0 where
  pub rp_id : String
  pub challenge : String
  pub allow_credential_ids : List String

-- The data of the answers, before base64url.
pub record Attestation : Type 0 where
  pub credential_id : List ℕ
  pub attestation_object : List ℕ
  pub auth_data : List ℕ
  pub public_key_spki : List ℕ
  pub client_data_json : List ℕ

pub record Assertion : Type 0 where
  pub credential_id : String
  pub auth_data : List ℕ
  pub signature : List ℕ
  pub user_handle : String
  pub client_data_json : List ℕ

-- `/^[A-Za-z0-9_-]+$/`
abbrev pub is_b64u_char : ℕ → Bool
is_b64u_char c =
    (leb 65 c && leb c 90)
    || ((leb 97 c && leb c 122) || ((leb 48 c && leb c 57) || ((c == 95) || (c == 45))))

abbrev pub all_b64u : String → Bool
all_b64u String.[] = true
all_b64u (String.◌∷◌ c s) = is_b64u_char (code c) && all_b64u s

unfoldable pub is_b64u : String → Bool
is_b64u s = not (str_eq s "") && all_b64u s

abbrev pub min_challenge_bytes : ℕ
min_challenge_bytes = 16

-- `FLAG_UP | FLAG_BE | FLAG_BS`
abbrev pub authenticator_flags : ℕ
authenticator_flags = 0x19

-- `a || b` on texts
abbrev pub or_text : String → String → String
or_text a b = if str_eq a "" then b else a

-- The first element after the stable sort by `createdAt`, newest first.
unfoldable pub newest : (String → String → Bool) → Candidate → List Candidate → Candidate
newest greater best [] = best
newest greater best (c ∷ cs) =
    newest greater (if greater c.passkey.created_at best.passkey.created_at then c else best) cs

-- `candidates.length === 0`, else the first and the rest.
abbrev pub some_candidates : List Candidate → Result Failure (Candidate × List Candidate)
some_candidates [] = err (refused "no matching credential")
some_candidates (c ∷ cs) = ok (c, cs)

module _ (ceremonies : Ceremonies) (encode_text : String → List ℕ) where
  unfoldable pub build_client_data_json : String → String → String → Option (List ℕ)
  build_client_data_json type challenge_b64u origin =
      if not (is_b64u challenge_b64u)
      then none
      else elim (ceremonies.b64u_to_bytes challenge_b64u) [
        | none ↦ none
        | some challenge ↦
            if ltb (length challenge) min_challenge_bytes
            then none
            else some (
                encode_text
                  (ceremonies.client_data type (ceremonies.bytes_to_b64u challenge) origin))
      ]

module _ (web : Web) (starts_with : String → String → Bool) where
  unfoldable pub is_registrable_rp_id : String → Bool
  is_registrable_rp_id rp_id =
      if str_eq rp_id "localhost" then true else is_some (web.registrable_domain rp_id)

  -- `rpIdMatchesOrigin(rpId, origin) && isRegistrableRpId(rpId)`
  unfoldable pub may_use : String → String → Bool
  may_use rp_id origin =
      rp_id_matches_origin web.parse_url starts_with web.ends_with rp_id origin
      && is_registrable_rp_id rp_id

-- What a login gives to the search for passkeys of `rpId`.
unfoldable pub passkey_candidate :
    String → List String → EncryptedVaultItem → DecryptedItem → LoginItem → Option Candidate
passkey_candidate rp_id allowed item current plain = elim plain.passkey [
  | none ↦ none
  | some passkey ↦
      if not (str_eq passkey.rp_id rp_id)
      then none
      else if ltb 0 (length allowed) && not (has passkey.credential_id allowed)
      then none
      else some (record { item = item; plain = plain; passkey = passkey; current = current })
]
