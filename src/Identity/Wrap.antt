-- ===== src/Identity/Wrap.antt =====
-- Signed organization key wraps of packages/crypto/src/identity.ts: `wrapMessage`,
-- `signOrgKeyWrap`, `chainFromServer`, and the epochs that a device has accepted
-- (`openOrgEpochStore` of packages/ui/src/lib/local-trust-state.ts, less its storage).
use nopass.Prelude.{
  ℕ, String, Bool, false, ◌&&◌, List, ◌∷◌, ◌++◌, map, Option, none, some, Result, ok, ◌>>=◌, ◌>>◌,
  guard, leb, length, if◌then◌else◌, get_or_else,
}
use nopass.Prelude.Bytes.{be}
use nopass.Prelude.Maps.{lookup, insert}
use nopass.Types.Api.{KeyBundle, WrapLink, role_name}
use nopass.Errors.{Error, role_too_long, invalid_epoch}
use nopass.Platform.{Platform, to_base64, from_base64}
use nopass.Uuid.{uuid_bytes}
use nopass.Identity.Bundle

pub record OrgKeyWrap : Type 0 where
  pub org_id : String
  pub epoch : ℕ
  pub recipient_user_id : String
  pub signer_user_id : String
  pub role : String
  pub encrypted_org_key : String

pub record SignedWrapLink : Type 0 where
  pub wrap : OrgKeyWrap
  pub signature : Option String
  pub signer : KeyBundle

-- Highest epoch accepted per organization.
abbrev pub OrgEpochStore : Type 0
OrgEpochStore = List (String × ℕ)

-- `record`
unfoldable pub record_epoch : OrgEpochStore → String → ℕ → OrgEpochStore
record_epoch epochs org epoch =
    if leb epoch (get_or_else (lookup org epochs) 0) then epochs else insert org epoch epochs

-- An unsigned legacy wrap has no epoch: its signature is dropped.
signature_of : WrapLink → Option String
signature_of l = elim l.key_epoch [ none ↦ none | some e ↦ l.wrap_signature ]

unfoldable pub chain_from_server : String → List WrapLink → List SignedWrapLink
unfolding signature_of
chain_from_server org chain =
    map
      (λ l. record {
        wrap = record {
          org_id = org;
          epoch = get_or_else l.key_epoch 0;
          recipient_user_id = l.recipient_user_id;
          signer_user_id = l.signer_user_id;
          role = role_name l.role;
          encrypted_org_key = l.encrypted_org_key;
        };
        signature = signature_of l;
        signer = l.signer;
      })
      chain

module _ {K : Type 0} (env : Platform K) where
  unfoldable pub wrap_message : OrgKeyWrap → Result Error (List ℕ)
  wrap_message wrap = do
    let role = env.encode_text wrap.role
    guard (leb (length role) 255) role_too_long
    guard (leb 1 wrap.epoch && leb wrap.epoch 0xffffffff) invalid_epoch
    org ← uuid_bytes wrap.org_id
    recipient ← uuid_bytes wrap.recipient_user_id
    signer ← uuid_bytes wrap.signer_user_id
    key ← from_base64 env wrap.encrypted_org_key
    ok (
        env.encode_text "nopwd-org-key-wrap-v2"
        ++ (0
            ∷ (org
                ++ (be 4 wrap.epoch ++ (recipient ++ (signer ++ (length role ∷ (role ++ key))))))))

  unfoldable pub sign_org_key_wrap : OrgKeyWrap → List ℕ → Result Error String
  sign_org_key_wrap wrap identity_secret_key = do
    message ← wrap_message wrap
    ok (to_base64 env (env.ed25519_sign message identity_secret_key))

  -- The `try` block around the check of a link's signature.
  unfoldable pub wrap_signature_ok : OrgKeyWrap → String → KeyBundle → Result Error Bool
  wrap_signature_ok wrap signature signer = do
    sig ← from_base64 env signature
    message ← wrap_message wrap
    key ← from_base64 env (Bundle.or_empty signer.identity_public_key)
    ok (get_or_else (env.ed25519_verify sig message key) false)
