-- ===== src/Replication/Refdb/Laws.antt =====
-- The refs in memory of link-replication/src/refdb/mem.rs after an update.
use radicle_link.Prelude.{
  ◌≡◌, ◌≢◌, refl, sym, ap, ◌∙◌, inl, inr, Bool, true, false, Option, none, some, List, [], ◌∷◌,
  ◌++◌, if◌then◌else◌, Bool-cases, arith,
}
use radicle_link.Refs.{same_chars}
use radicle_link.Refs.Valid.{same_chars_iff}
use radicle_link.Refs.Name.{Name}
use radicle_link.Tracking.Policy.{Oid}
use radicle_link.Replication.Refdb.{
  Update, direct, symbolic, prune, Mem, find, without, with_ref, update_one, update, starts_with,
  scan,
}

true-ne-false : true ≢ false
true-ne-false h = cc

same_self : (n : Name) → same_chars n n ≡ true
same_self n = (same_chars_iff n n).1 refl

if_again :
    (b : Bool) (oid : Oid) (w : Option Oid)
    → (if b then none else w) ≡ (if b then none else (if b then some oid else w))
if_again true oid w = refl
if_again false oid w = refl

apart_below :
    (n m k : Name) → same_chars k n ≡ false → same_chars k m ≡ true → same_chars n m ≡ false
apart_below n m k apart here = elim (Bool-cases (same_chars n m)) [
  | inl same ↦ absurd (
      true-ne-false (
        sym
          ((same_chars_iff k n).1 ((same_chars_iff k m).0 here ∙ sym ((same_chars_iff n m).0 same)))
        ∙ apart))
  | inr differs ↦ differs
]

find-other :
    (n m k : Name) (oid : Oid) (mem : Mem)
    → same_chars k n ≡ false
    → find m (without n mem) ≡ (if same_chars n m then none else find m mem)
    → find m ((k, oid) ∷ without n mem) ≡ (if same_chars n m then none else find m ((k, oid) ∷ mem))
unfolding find
find-other n m k oid mem apart h = elim (Bool-cases (same_chars k m)) [
  | inl here ↦ rw here (rw (apart_below n m k apart here) refl)
  | inr there ↦ rw there h
]

pub find-without :
    (n m : Name) (mem : Mem)
    → find m (without n mem) ≡ (if same_chars n m then none else find m mem)
unfolding find without
find-without n m [] = ground arith
find-without n m ((k, oid) ∷ mem) = elim (Bool-cases (same_chars k n)) [
  | inl here ↦
      let eq = (same_chars_iff k n).0 here in
      rw here (find-without n m mem ∙ (rw eq (if_again (same_chars n m) oid (find m mem))))
  | inr apart ↦ rw apart (find-other n m k oid mem apart (find-without n m mem))
]

pub find-with_ref :
    (n m : Name) (oid : Oid) (mem : Mem)
    → find m (with_ref n oid mem) ≡ (if same_chars n m then some oid else find m mem)
unfolding find
find-with_ref n m oid mem = elim (Bool-cases (same_chars n m)) [
  | inl here ↦ rw here refl
  | inr there ↦ rw there (find-without n m mem ∙ (rw there refl))
]

-- What an update leaves at a name, of what was there.
abbrev pub effect : Name → Update → Option Oid → Option Oid
effect m (direct name target policy) old = if same_chars name m then some target else old
effect m (symbolic name target policy) old = if same_chars name m then some target.target else old
effect m (prune name prev) old = if same_chars name m then none else old

abbrev pub effects : Name → List Update → Option Oid → Option Oid
effects m [] old = old
effects m (up ∷ ups) old = effects m ups (effect m up old)

find-update_one :
    (m : Name) (up : Update) (mem : Mem) → find m (update_one up mem).1 ≡ effect m up (find m mem)
find-update_one m (direct name target policy) mem = find-with_ref name m target mem
find-update_one m (symbolic name target policy) mem = find-with_ref name m target.target mem
find-update_one m (prune name prev) mem = find-without name m mem

pub find-update :
    (m : Name) (ups : List Update) (mem : Mem)
    → find m (update ups mem).1 ≡ effects m ups (find m mem)
unfolding update
find-update m [] mem = refl
find-update m (up ∷ ups) mem =
    find-update m ups (update_one up mem).1 ∙ ap (effects m ups) (find-update_one m up mem)

pub effects-append :
    (m : Name) (xs ys : List Update) (old : Option Oid)
    → effects m (xs ++ ys) old ≡ effects m ys (effects m xs old)
effects-append m [] ys old = refl
effects-append m (x ∷ xs) ys old = effects-append m xs ys (effect m x old)

-- Whatever follows, scanning for a prefix finds nothing once the first ref does not start with it.
pub scan_stops :
    (prefix n : Name) (oid : Oid) (mem : Mem)
    → starts_with prefix n ≡ false
    → scan (some prefix) ((n, oid) ∷ mem) ≡ []
unfolding scan
scan_stops prefix n oid mem h = rw h refl
