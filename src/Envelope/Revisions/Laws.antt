-- ===== src/Envelope/Revisions/Laws.antt =====
-- The store never forgets: no operation lowers a revision or reopens version 1.
use nopass.Prelude.{
  ℕ, ◌≤◌, ◌≡◌, String, true, Option, none, some, max, arith, eq_iff, str_eq, if◌then◌else◌,
  get_or_else,
}
use nopass.Prelude.Maps.{lookup-insert}
use nopass.Envelope.Revisions.{RevisionStore, get, record_revision, mark_v2_only}

-- `s` has seen at least `n` of an item.
abbrev pub Seen : ℕ → Option ℕ → Type 0
Seen n none = ⊥
Seen n (some highest) = n ≤ highest

-- After `record`, the item's revision is the higher of the new one and the one that was there, and
-- every other item's is what it was.
pub get-record_revision :
    (s : RevisionStore) (i j : String) (n : ℕ)
    → get (record_revision s i n) j
      ≡ (if str_eq i j then some (max n (get_or_else (get s i) n)) else get s j)
unfolding get record_revision
get-record_revision s i j n = ground (arith, lookup-insert i j n s.revisions, eq_iff i j)

pub v2_only-record_revision :
    (s : RevisionStore) (i : String) (n : ℕ) → (record_revision s i n).v2_only ≡ s.v2_only
unfolding record_revision
v2_only-record_revision s i n = ground arith

-- What a store has seen of every item, another has seen too.
pub record Extends (s t : RevisionStore) : Type 0 where
  pub seen : (j : String) (n : ℕ) → Seen n (get s j) → Seen n (get t j)
  pub closed : s.v2_only ≡ true → t.v2_only ≡ true

pub Extends-refl : (s : RevisionStore) → Extends s s
Extends-refl s = record { seen = λ j n h. h; closed = λ h. h }

pub Extends-trans : {s t u : RevisionStore} → Extends s t → Extends t u → Extends s u
Extends-trans p q = record {
  seen = λ j n h. q.seen j n (p.seen j n h);
  closed = λ h. q.closed (p.closed h);
}

pub Seen-record_revision_self :
    (s : RevisionStore) (i : String) (n : ℕ) → Seen n (get (record_revision s i n) i)
Seen-record_revision_self s i n = ground (arith, get-record_revision s i i n, eq_iff i i)

pub record_revision-Extends :
    (s : RevisionStore) (i : String) (n : ℕ) → Extends s (record_revision s i n)
record_revision-Extends s i n = record {
  seen = λ j m h. ground (arith, get-record_revision s i j n, eq_iff i j, h);
  closed = λ h. ground (arith, v2_only-record_revision s i n);
}

pub mark_v2_only-Extends : (s : RevisionStore) → Extends s (mark_v2_only s)
unfolding mark_v2_only get
mark_v2_only-Extends s = record { seen = λ j n h. ground (arith, h); closed = λ h. ground arith }

pub mark_v2_only-closes : (s : RevisionStore) → (mark_v2_only s).v2_only ≡ true
unfolding mark_v2_only
mark_v2_only-closes s = ground arith
