-- ===== src/Replication/Peek/Laws.antt =====
-- What the phases of link-replication/src/peek let through, and what they require.
use radicle_link.Prelude.{
  ◌≡◌, refl, sym, subst, ◌∙◌, ◌↔◌, ◌⊎◌, inl, inr, Bool, true, false, not, ◌||◌, List, [], ◌∷◌, ok,
  err-ne-ok, Bool-cases, filter, In, filter-In,
}
use radicle_link.Refs.{same_chars}
use radicle_link.Refs.Valid.{same_chars_iff}
use radicle_link.Refs.Name.{Name}
use radicle_link.Replication.Peek.{contains, guard_diff, guard_required}

false-ne-true : ◌≡◌ {A = Bool} false true → ⊥
false-ne-true h = cc

cons-ne-nil : {x : Name} {xs : List Name} → x ∷ xs ≡ [] → ⊥
cons-ne-nil h = cc

-- `contains` decides membership.
contains-In : (name : Name) (names : List Name) → contains name names ≡ true → In name names
contains-In name [] h = absurd (false-ne-true h)
contains-In name (x ∷ names) h = elim (Bool-cases (same_chars name x)) [
  | inl same ↦ inl ((same_chars_iff name x).0 same)
  | inr differs ↦ inr (contains-In name names (sym (rw differs refl) ∙ h))
]

or_true : (b : Bool) → (b || true) ≡ true
or_true true = refl
or_true false = refl

In-contains : (name : Name) (names : List Name) → In name names → contains name names ≡ true
In-contains name [] m = absurd m
In-contains name (x ∷ names) (inl e) = rw ((same_chars_iff name x).1 e) refl
In-contains name (x ∷ names) (inr m) = rw (In-contains name names m) (or_true (same_chars name x))

guard_diff_ok : (diff : List Name) → guard_diff diff ≡ ok tt → diff ≡ []
guard_diff_ok [] h = refl
guard_diff_ok (x ∷ diff) h = absurd (err-ne-ok h)

not-false : (b : Bool) → not b ≡ false → b ≡ true
not-false true h = refl
not-false false h = sym h

-- Nothing is left out of the filter, so that nothing passes the test.
filter_empty :
    (p : Name → Bool) (x : Name) (xs : List Name) → filter p xs ≡ [] → In x xs → p x ≡ false
filter_empty p x xs h m = elim (Bool-cases (p x)) [
  | inl keep ↦ absurd (subst (In x) h (filter-In x p xs m keep))
  | inr drop ↦ drop
]

diff_empty :
    (required wanted : List Name)
    → ((x : Name) → In x required → In x wanted)
    → filter (λ name. not (contains name wanted)) required ≡ []
diff_empty [] wanted h = refl
diff_empty (x ∷ required) wanted h =
    rw (In-contains x wanted (h x (inl refl))) (diff_empty required wanted (λ y m. h y (inr m)))

guard_required-Covers :
    (required wanted : List Name)
    → guard_required required wanted ≡ ok tt
    → (wanted ≡ []) ⊎ ((x : Name) → In x required → In x wanted)
unfolding guard_required
guard_required-Covers required [] h = inl refl
guard_required-Covers required (y ∷ wanted) h =
    let absent = λ (name : Name). not (contains name (y ∷ wanted)) in
    let empty = guard_diff_ok (filter absent required) h in
    inr (λ x m.
      contains-In x (y ∷ wanted)
        (not-false (contains x (y ∷ wanted)) (filter_empty absent x required empty m)))

Covers-guard_required :
    (required wanted : List Name)
    → (wanted ≡ []) ⊎ ((x : Name) → In x required → In x wanted)
    → guard_required required wanted ≡ ok tt
unfolding guard_required
Covers-guard_required required [] h = refl
Covers-guard_required required (y ∷ wanted) (inl e) = absurd (cons-ne-nil e)
Covers-guard_required required (y ∷ wanted) (inr all) =
    rw (diff_empty required (y ∷ wanted) all) refl

-- The guard passes exactly when nothing is wanted or every required ref is wanted.
pub guard_required_iff :
    (required wanted : List Name)
    → (guard_required required wanted ≡ ok tt)
      ↔ ((wanted ≡ []) ⊎ ((x : Name) → In x required → In x wanted))
guard_required_iff required wanted =
    (guard_required-Covers required wanted, Covers-guard_required required wanted)
