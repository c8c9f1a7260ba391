-- ===== src/Identity/Pins.antt =====
-- Trust on first use: `verifyMemberKey` and `confirmKey` of packages/crypto/src/identity.ts. A
-- `KeyPinStore` is its map from user ids to identity keys.
use nopass.Prelude.{
  ℕ, ◌≡◌, String, Bool, true, false, not, ◌||◌, List, [], ◌∷◌, Option, none, some, Result, ok, err,
  ◌>>=◌, ◌>>◌, guard, str_eq, if◌then◌else◌,
}
use nopass.Prelude.Maps.{lookup, insert}
use nopass.Types.Api.{KeyBundle}
use nopass.Errors.{Error, unverifiable_key, pinned_key_changed}
use nopass.Platform.{Platform}
use nopass.Identity.Bundle.{is_missing, or_empty, verify_key_bundle, safety_number}
pub mod Laws

abbrev pub KeyPinStore : Type 0
KeyPinStore = List (String × String)

pub record VerifiedKey : Type 0 where
  pub rsa_public_key : String
  pub safety_number : String
  -- this user's identity key is not pinned yet
  pub first_seen : Bool

-- `pinned !== undefined && pinned !== bundle.identityPublicKey`
abbrev pub pin_changed : Option String → String → Bool
pin_changed none key = false
pin_changed (some pinned) key = not (str_eq pinned key)

abbrev pub is_none : Option String → Bool
is_none none = true
is_none (some s) = false

module _ {K : Type 0} (env : Platform K) where
  unfoldable pub verify_member_key : KeyBundle → KeyPinStore → Result Error VerifiedKey
  verify_member_key bundle pins = do
    guard (not (is_missing bundle.identity_public_key || is_missing bundle.public_key_signature)) (
        unverifiable_key bundle.user_id
          "This user has not published an identity key yet. Ask them to sign in once, then try again.")
    guard (verify_key_bundle env bundle)
        (unverifiable_key bundle.user_id "This user's key bundle has an invalid signature.")
    let pinned = lookup bundle.user_id pins
    guard (not (pin_changed pinned (or_empty bundle.identity_public_key)))
        (pinned_key_changed bundle.user_id)
    number ← safety_number env bundle.user_id (or_empty bundle.identity_public_key)
    ok (record {
      rsa_public_key = bundle.public_key;
      safety_number = number;
      first_seen = is_none pinned;
    })

  -- The new pins.
  unfoldable pub confirm_key : KeyBundle → KeyPinStore → Result Error KeyPinStore
  confirm_key bundle pins = do
    verified ← verify_member_key bundle pins
    ok (
        if verified.first_seen
        then insert bundle.user_id (or_empty bundle.identity_public_key) pins
        else pins)
