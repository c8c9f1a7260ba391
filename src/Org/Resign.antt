-- ===== src/Org/Resign.antt =====
-- `buildResignedWraps` of packages/ui/src/lib/org-trust.ts and `encryptOrgKeyForMember` of
-- packages/crypto/src/org-crypto.ts. The randomness of the n-th encryption is `pads n`.
use nopass.Prelude.{
  ℕ, suc, ◌≡◌, String, Bool, true, false, List, [], ◌∷◌, Option, none, some, Result, ok, err, ◌>>=◌,
  or_throw, str_eq, if◌then◌else◌,
}
use nopass.Types.Api.{OrgMember, KeyBundle, MemberWrap, role_name}
use nopass.Errors.{Error, cipher_failed}
use nopass.Platform.{Platform, to_base64, from_base64}
use nopass.Identity.Bundle.{IdentityKey, is_missing, or_empty, derive_identity_key}
use nopass.Identity.Pins.{KeyPinStore, VerifiedKey, verify_member_key}
use nopass.Identity.Wrap.{sign_org_key_wrap}
pub mod Laws

pub record ProtectedIdentity (K : Type 0) : Type 0 where
  pub protected_private_key : String
  pub protected_private_key_iv : String
  pub stretched_master_key : K

pub record ResignInput (K : Type 0) : Type 0 where
  pub org_id : String
  pub epoch : ℕ
  pub owner_user_id : String
  pub org_key : K
  pub members : List OrgMember
  pub pins : KeyPinStore
  pub identity : ProtectedIdentity K

pub record ResignedWraps : Type 0 where
  pub wraps : List MemberWrap
  pub skipped : List String

abbrev pub bundle_of : OrgMember → KeyBundle
bundle_of m = record {
  user_id = m.user_id;
  public_key = or_empty m.public_key;
  identity_public_key = m.identity_public_key;
  public_key_signature = m.public_key_signature;
}

-- The key of a member that has been verified; nothing for a key seen for the first time.
abbrev pub confirmed_key : Result Error VerifiedKey → Option String
confirmed_key (ok v) = if v.first_seen then none else some v.rsa_public_key
confirmed_key (err e) = none

-- One round's member, in `wraps` or in `skipped`.
abbrev pub with_skipped : String → ResignedWraps → ResignedWraps
with_skipped user r = record r { skipped = user ∷ r.skipped }

abbrev pub with_wrap : MemberWrap → ResignedWraps → ResignedWraps
with_wrap wrap r = record r { wraps = wrap ∷ r.wraps }

module _ {K : Type 0} (env : Platform K) (pads : ℕ → List ℕ) where
  unfoldable pub encrypt_org_key_for_member : K → String → List ℕ → Result Error String
  encrypt_org_key_for_member org_key recipient_public_key pad = do
    spki ← from_base64 env recipient_public_key
    encrypted ← or_throw (env.rsa_encrypt spki (env.export_raw org_key) pad) cipher_failed
    ok (to_base64 env encrypted)

  -- The RSA key to wrap for, unless the member is skipped.
  unfoldable pub recipient_key : ResignInput K → IdentityKey → OrgMember → Option String
  recipient_key input identity m =
      if str_eq m.user_id input.owner_user_id
      then some identity.rsa_public_key
      else if is_missing m.public_key
      then none
      else confirmed_key (verify_member_key env (bundle_of m) input.pins)

  unfoldable pub wrap_for :
      ResignInput K → IdentityKey → ℕ → OrgMember → String → Result Error MemberWrap
  wrap_for input identity n m rsa_public_key = do
    encrypted_org_key ← encrypt_org_key_for_member input.org_key rsa_public_key (pads n)
    wrap_signature ←
        sign_org_key_wrap env
          (record {
            org_id = input.org_id;
            epoch = input.epoch;
            recipient_user_id = m.user_id;
            signer_user_id = input.owner_user_id;
            role = role_name m.role;
            encrypted_org_key = encrypted_org_key;
          })
          identity.secret_key
    ok (record {
      user_id = m.user_id;
      encrypted_org_key = encrypted_org_key;
      wrap_signature = wrap_signature;
      key_epoch = input.epoch;
    })

  -- The loop, from the n-th member on.
  unfoldable pub resign_from :
      ResignInput K → IdentityKey → ℕ → List OrgMember → Result Error ResignedWraps
  resign_from input identity n [] = ok (record { wraps = []; skipped = [] })
  resign_from input identity n (m ∷ ms) = elim (recipient_key input identity m) [
    | none ↦ do rest ← resign_from input identity (suc n) ms; ok (with_skipped m.user_id rest)
    | some rsa_public_key ↦ do
      wrap ← wrap_for input identity n m rsa_public_key
      rest ← resign_from input identity (suc n) ms
      ok (with_wrap wrap rest)
  ]

  unfoldable pub build_resigned_wraps : ResignInput K → Result Error ResignedWraps
  build_resigned_wraps input = do
    identity ←
        derive_identity_key env input.identity.protected_private_key
          input.identity.protected_private_key_iv input.identity.stretched_master_key
    resign_from input identity 0 input.members
