-- ===== src/Tests/Shared.antt =====
-- An organization with its owner and one item.
use nopass.Prelude.{
  ℕ, ◌≤◌, ◌≡◌, refl, ◌↔◌, arith, String, true, false, List, [], ◌∷◌, some, Result, ok, err,
}
use nopass.Prelude.Maps.{lookup, insert}
use nopass.Types.Api.{OrgRole, KeyBundle, WrapLink}
use nopass.Errors.{Error}
use nopass.Uuid.{uuid_bytes}
use nopass.Identity.Bundle.{
  verify_key_bundle, bundle_signature_ok, bundle_message, safety_number, safety_digits,
}
use nopass.Identity.Pins.{KeyPinStore, VerifiedKey, verify_member_key, confirm_key}
use nopass.Identity.Pins.Laws.{
  Member, verify_member_key_iff, verify_member_key-Verified, confirm_key-verifies,
}
use nopass.Identity.Wrap.{
  OrgKeyWrap, OrgEpochStore, record_epoch, chain_from_server, wrap_message, wrap_signature_ok,
}
use nopass.Identity.Chain.{verify_org_key_chain}
use nopass.Identity.Chain.Links.{root}
use nopass.Identity.Chain.Laws.{Verifies, Current, verify_org_key_chain_iff}
use nopass.Org.Check.{Me, verified, open_org_key}
use nopass.Org.Check.Laws.{Opened, expected, open_org_key_iff}
use nopass.Org.Check.History.{here, opened, open_org_key-no_rollback}
use nopass.Tests.Toy.{toy}

abbrev pub org_id : String
org_id = "00000000-0000-0000-0000-00000000000a"

abbrev pub owner_id : String
owner_id = "00000000-0000-0000-0000-00000000000b"

abbrev owner_bundle : KeyBundle
owner_bundle = record {
  user_id = owner_id;
  public_key = "b";
  identity_public_key = some "b";
  public_key_signature = some "b";
}

abbrev pub some_pins : KeyPinStore
some_pins = (owner_id, "b") ∷ []

abbrev owner_link : WrapLink
owner_link = record {
  recipient_user_id = owner_id;
  role = OrgRole.owner;
  encrypted_org_key = "b";
  wrap_signature = some "b";
  key_epoch = some 1;
  signer_user_id = owner_id;
  signer = owner_bundle;
}

abbrev owner_me : Me
owner_me = record { user_id = owner_id; role = "owner" }

abbrev owner_wrap : OrgKeyWrap
owner_wrap = record {
  org_id = org_id;
  epoch = 1;
  recipient_user_id = owner_id;
  signer_user_id = owner_id;
  role = "owner";
  encrypted_org_key = "b";
}

abbrev id_or_empty : Result Error (List ℕ) → List ℕ
id_or_empty (ok bs) = bs
id_or_empty (err e) = []

abbrev owner_verified : VerifiedKey
owner_verified = record {
  rsa_public_key = "b";
  safety_number = safety_digits toy (id_or_empty (uuid_bytes owner_id)) (0 ∷ []);
  first_seen = false;
}

verify_org_key_chain_iff_example :
    (verify_org_key_chain toy some_pins
        (chain_from_server org_id (owner_link ∷ []))
        (expected org_id owner_me)
        []
      ≡ ok owner_wrap)
    ↔ Verifies toy some_pins
        (chain_from_server org_id (owner_link ∷ []))
        (expected org_id owner_me)
        []
        owner_wrap
verify_org_key_chain_iff_example =
    verify_org_key_chain_iff toy some_pins (chain_from_server org_id (owner_link ∷ []))
      (expected org_id owner_me) [] owner_wrap

-- The owner's copy verifies on a device that has accepted no epoch above 1.
owner-Verifies :
    (epochs : OrgEpochStore)
    → Current 1 (lookup org_id epochs)
    → Verifies toy some_pins
        (chain_from_server org_id (owner_link ∷ []))
        (expected org_id owner_me)
        epochs
        owner_wrap
unfolding chain_from_server verify_key_bundle bundle_signature_ok bundle_message uuid_bytes lookup
    wrap_message wrap_signature_ok
owner-Verifies epochs h = record {
  own = record { wrap = owner_wrap; signature = some "b"; signer = owner_bundle };
  rest = [];
  starts = refl;
  result = refl;
  org = refl;
  recipient = refl;
  short = omega arith;
  trusted = (
    record {
      signed = refl;
      same_org = refl;
      same_epoch = refl;
      signer = refl;
      vouched = root refl refl refl;
      bundle = refl;
      pinned = refl;
      signature = refl;
    },
    tt,
  );
  current = h;
}

abbrev later_epochs : OrgEpochStore
later_epochs = (org_id, 1) ∷ []

abbrev a_decrypt : String → Result Error ℕ
a_decrypt s = ok 5

first_open :
    open_org_key toy org_id (owner_link ∷ []) owner_me some_pins [] a_decrypt
    ≡ ok ((verified owner_wrap, some 5), later_epochs)
unfolding record_epoch lookup insert
first_open =
    (open_org_key_iff toy org_id (owner_link ∷ []) owner_me some_pins [] a_decrypt owner_wrap 5
        later_epochs).1
      (record { signed = refl; verifies = owner-Verifies [] tt; decrypted = refl; recorded = refl })

later_open :
    open_org_key toy org_id (owner_link ∷ []) owner_me some_pins later_epochs a_decrypt
    ≡ ok ((verified owner_wrap, some 5), later_epochs)
unfolding record_epoch lookup insert
later_open =
    (open_org_key_iff toy org_id (owner_link ∷ []) owner_me some_pins later_epochs a_decrypt
        owner_wrap 5 later_epochs).1
      (record {
        signed = refl;
        verifies = owner-Verifies later_epochs (omega arith);
        decrypted = refl;
        recorded = refl;
      })

open_org_key_iff_example :
    (open_org_key toy org_id (owner_link ∷ []) owner_me some_pins [] a_decrypt
      ≡ ok ((verified owner_wrap, some 5), later_epochs))
    ↔ Opened toy org_id (owner_link ∷ []) owner_me some_pins [] a_decrypt owner_wrap 5 later_epochs
open_org_key_iff_example =
    open_org_key_iff toy org_id (owner_link ∷ []) owner_me some_pins [] a_decrypt owner_wrap 5
      later_epochs

-- A second opening, between the two.
open_org_key-no_rollback_example : 1 ≤ 1
open_org_key-no_rollback_example =
    open_org_key-no_rollback toy org_id (owner_link ∷ []) (owner_link ∷ []) owner_me owner_me
      some_pins some_pins [] later_epochs later_epochs later_epochs a_decrypt a_decrypt owner_wrap
      owner_wrap 5 5 first_open
      (opened here org_id (owner_link ∷ []) owner_me some_pins a_decrypt
        (verified owner_wrap, some 5) later_open)
      later_open

verify_member_key_iff_example :
    (verify_member_key toy owner_bundle some_pins ≡ ok owner_verified)
    ↔ Member toy owner_bundle some_pins owner_verified
verify_member_key_iff_example = verify_member_key_iff toy owner_bundle some_pins owner_verified

-- The owner's key, seen for the first time, is confirmed.
bundle_signed : verify_key_bundle toy owner_bundle ≡ true
unfolding verify_key_bundle bundle_signature_ok bundle_message uuid_bytes
bundle_signed = refl

first_verified :
    verify_member_key toy owner_bundle [] ≡ ok (record owner_verified { first_seen = true })
unfolding lookup safety_number uuid_bytes
first_verified =
    (verify_member_key-Verified toy owner_bundle [] (record owner_verified { first_seen = true })).1
      (record { signed = bundle_signed; pin = refl; rsa = refl; number = refl; first = refl })

confirmed : confirm_key toy owner_bundle [] ≡ ok some_pins
unfolding confirm_key insert
confirmed = rw (first_verified, confirm_key) refl

later_verified : verify_member_key toy owner_bundle some_pins ≡ ok owner_verified
unfolding lookup safety_number uuid_bytes
later_verified =
    (verify_member_key-Verified toy owner_bundle some_pins owner_verified).1
      (record { signed = bundle_signed; pin = refl; rsa = refl; number = refl; first = refl })

confirm_key-verifies_example :
    (v : VerifiedKey) × (verify_member_key toy owner_bundle some_pins ≡ ok v)
    × (v.first_seen ≡ false)
confirm_key-verifies_example = confirm_key-verifies toy owner_bundle [] some_pins confirmed
