-- ===== src/Org/Check.antt =====
-- `checkOrgKey` and `openOrgKey` of packages/ui/src/lib/org-trust.ts. The reason of a refusal is the
-- error whose message the code shows; for a changed key it has a text of its own.
use nopass.Prelude.{
  ℕ, ◌≡◌, String, Bool, true, false, ◌&&◌, List, [], ◌∷◌, Option, none, some, Result, ok, err,
  ◌>>=◌, str_eq, if◌then◌else◌,
}
use nopass.Types.Api.{WrapLink}
use nopass.Errors.{Error, Signer, unconfirmed_signers}
use nopass.Platform.{Platform}
use nopass.Identity.Pins.{KeyPinStore, is_none}
use nopass.Identity.Wrap.{OrgKeyWrap, OrgEpochStore, record_epoch, chain_from_server}
use nopass.Identity.Chain.{verify_org_key_chain}
pub mod Laws
pub mod History

pub data OrgKeyCheck : Type 0 where
  verified : OrgKeyWrap → OrgKeyCheck
  confirm : List Signer → OrgKeyCheck
  unsigned : Bool → OrgKeyCheck
  refused : Error → OrgKeyCheck

-- The caller's own user.
pub record Me : Type 0 where
  pub user_id : String
  pub role : String

-- The first link is the caller's copy and carries no signature.
abbrev pub own_is_unsigned : List WrapLink → Me → Bool
own_is_unsigned [] me = false
own_is_unsigned (own ∷ rest) me =
    str_eq own.recipient_user_id me.user_id && is_none own.wrap_signature

abbrev pub on_error : Error → OrgKeyCheck
on_error (unconfirmed_signers signers) = confirm signers
on_error e = refused e

abbrev pub of_result : Result Error OrgKeyWrap → OrgKeyCheck
of_result (ok wrap) = verified wrap
of_result (err e) = on_error e

module _ {K : Type 0} (env : Platform K) where
  unfoldable pub check_org_key :
      String → List WrapLink → Me → KeyPinStore → OrgEpochStore → OrgKeyCheck
  check_org_key org chain me pins epochs =
      if own_is_unsigned chain me
      then unsigned (str_eq me.role "owner")
      else of_result (
          verify_org_key_chain env pins (chain_from_server org chain)
            (record { org_id = org; recipient_user_id = me.user_id }) epochs)

  -- What follows the check; `decrypt` may throw, and then the epoch is not recorded.
  abbrev pub open_checked :
      String
      → OrgEpochStore
      → (String → Result Error K)
      → OrgKeyCheck
      → Result Error ((OrgKeyCheck × Option K) × OrgEpochStore)
  open_checked org epochs decrypt (verified wrap) = do
    org_key ← decrypt wrap.encrypted_org_key
    ok ((verified wrap, some org_key), record_epoch epochs org wrap.epoch)
  open_checked org epochs decrypt check = ok ((check, none), epochs)

  unfoldable pub open_org_key :
      String
      → List WrapLink
      → Me
      → KeyPinStore
      → OrgEpochStore
      → (String → Result Error K)
      → Result Error ((OrgKeyCheck × Option K) × OrgEpochStore)
  open_org_key org chain me pins epochs decrypt =
      open_checked org epochs decrypt (check_org_key org chain me pins epochs)
