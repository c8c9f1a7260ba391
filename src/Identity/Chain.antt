-- ===== src/Identity/Chain.antt =====
-- `verifyOrgKeyChain` of packages/crypto/src/identity.ts.
use nopass.Prelude.{
  ℕ, ◌≡◌, String, Bool, true, false, not, ◌&&◌, ◌||◌, List, [], ◌∷◌, ◌++◌, Option, none, some,
  Result, ok, err, ◌>>=◌, ◌>>◌, guard, leb, ltb, ◌==◌, str_eq, length, if◌then◌else◌, get_or_else,
  any,
}
use nopass.Prelude.Maps.{lookup}
use nopass.Types.Api.{KeyBundle}
use nopass.Errors.{Error, Signer, untrusted_org_key, unconfirmed_signers}
use nopass.Platform.{Platform}
use nopass.Identity.Bundle.{is_missing, or_empty, succeeds}
use nopass.Identity.Pins.{KeyPinStore, VerifiedKey, verify_member_key}
use nopass.Identity.Wrap.{OrgKeyWrap, SignedWrapLink, OrgEpochStore, wrap_signature_ok}
pub mod Links
pub mod Laws

pub record Expected : Type 0 where
  pub org_id : String
  pub recipient_user_id : String

-- `ORG_ADMIN_ROLES.has(role)`
abbrev pub is_admin_role : String → Bool
is_admin_role role = str_eq role "owner" || str_eq role "admin"

-- Whether the link after this one may vouch for it.
abbrev pub vouches : OrgKeyWrap → List SignedWrapLink → Bool
vouches wrap [] = false
vouches wrap (next ∷ _) =
    str_eq next.wrap.recipient_user_id wrap.signer_user_id && is_admin_role next.wrap.role

abbrev pub is_last : List SignedWrapLink → Bool
is_last [] = true
is_last (next ∷ _) = false

abbrev pub is_self_signed : OrgKeyWrap → Bool
is_self_signed wrap = str_eq wrap.signer_user_id wrap.recipient_user_id

-- The two checks on the shape of the chain at a link, `rest` being what follows it.
unfoldable pub check_shape : OrgKeyWrap → List SignedWrapLink → Result Error (Unit {0})
check_shape wrap rest =
    if is_self_signed wrap
    then guard (str_eq wrap.role "owner" && is_last rest)
        (untrusted_org_key "Only the organization owner can vouch for their own key.")
    else guard (vouches wrap rest) (
        untrusted_org_key
          "This organization's key was shared by someone who is not an admin or owner.")

-- The list of signers to confirm, with a new one at the end unless its user is listed.
unfoldable pub note_signer : List Signer → KeyBundle → VerifiedKey → List Signer
note_signer unconfirmed signer verified =
    if verified.first_seen && not (any (λ u. str_eq u.bundle.user_id signer.user_id) unconfirmed)
    then unconfirmed ++ record { bundle = signer; safety_number = verified.safety_number } ∷ []
    else unconfirmed

-- `highest !== undefined && own.wrap.epoch < highest`
abbrev pub rolled_back : ℕ → Option ℕ → Bool
rolled_back epoch none = false
rolled_back epoch (some highest) = ltb epoch highest

abbrev pub none_left : List Signer → Bool
none_left [] = true
none_left (s ∷ ss) = false

module _ {K : Type 0} (env : Platform K) (pins : KeyPinStore) where
  -- One round of the loop.
  unfoldable pub check_link :
      Expected
      → OrgKeyWrap
      → List Signer
      → SignedWrapLink
      → List SignedWrapLink
      → Result Error (List Signer)
  check_link expected own unconfirmed link rest = do
    guard (not (is_missing link.signature)) (
        untrusted_org_key
          "This organization's key is not signed by whoever shared it. Ask the owner to re-sign the organization.")
    guard (str_eq link.wrap.org_id expected.org_id && link.wrap.epoch == own.epoch)
        (untrusted_org_key "This organization's key chain mixes organizations or key versions.")
    guard (str_eq link.signer.user_id link.wrap.signer_user_id)
        (untrusted_org_key "Key chain signer mismatch.")
    check_shape link.wrap rest
    verified ← verify_member_key env link.signer pins
    guard (succeeds (wrap_signature_ok env link.wrap (or_empty link.signature) link.signer)) (
        untrusted_org_key
          "This organization key's signature is invalid — it may have been replaced.")
    ok (note_signer unconfirmed link.signer verified)

  unfoldable pub check_links :
      Expected → OrgKeyWrap → List Signer → List SignedWrapLink → Result Error (List Signer)
  check_links expected own unconfirmed [] = ok unconfirmed
  check_links expected own unconfirmed (link ∷ rest) = do
    next ← check_link expected own unconfirmed link rest
    check_links expected own next rest

  unfoldable pub verify_org_key_chain :
      List SignedWrapLink → Expected → OrgEpochStore → Result Error OrgKeyWrap
  verify_org_key_chain [] expected epochs =
      err (untrusted_org_key "The server did not return your copy of this organization's key.")
  verify_org_key_chain (own ∷ rest) expected epochs = do
    guard
        (str_eq own.wrap.org_id expected.org_id
          && str_eq own.wrap.recipient_user_id expected.recipient_user_id)
        (untrusted_org_key "The server did not return your copy of this organization's key.")
    guard (leb (length (own ∷ rest)) 16)
        (untrusted_org_key "This organization's key chain is too long.")
    unconfirmed ← check_links expected own.wrap [] (own ∷ rest)
    guard (not (rolled_back own.wrap.epoch (lookup expected.org_id epochs))) (
        untrusted_org_key
          "This organization's key is older than one this device already uses — refusing a rollback.")
    guard (none_left unconfirmed) (unconfirmed_signers unconfirmed)
    ok own.wrap
