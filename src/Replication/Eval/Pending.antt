-- ===== src/Replication/Eval/Pending.antt =====
-- How the pending updates are parted (link-replication/src/eval/pull.rs).
use radicle_link.Prelude.{
  ℕ, zero, suc, ◌+◌, ◌≤◌, ◌≡◌, refl, sym, ap, ◌∙◌, ◌||◌, inl, inr, Bool, true, false, some, List,
  [], ◌∷◌, ◌++◌, All, length, if◌then◌else◌, Bool-cases, All-append, arith,
}
use radicle_link.Refs.{same_chars, ends_with}
use radicle_link.Refs.Valid.{same_chars_iff}
use radicle_link.Refs.Name.{Name}
use radicle_link.Replication.Refdb.{Update, direct, symbolic, prune}
use radicle_link.Replication.Eval.{rad_id, is_id_update, last_before, last_first, drain, take_tips}

false-ne-true : ◌≡◌ {A = Bool} false true → ⊥
false-ne-true h = cc

or_true : (b : Bool) → (b || true) ≡ true
or_true true = refl
or_true false = refl

-- How many updates pass a test.
abbrev pub count : (Update → Bool) → List Update → ℕ
count p [] = 0
count p (x ∷ xs) = (if p x then 1 else 0) + count p xs

count-append :
    (p : Update → Bool) (xs ys : List Update) → count p (xs ++ ys) ≡ count p xs + count p ys
count-append p [] ys = omega arith
count-append p (x ∷ xs) ys = omega (arith, count-append p xs ys)

length-last_before : (x : Update) (xs : List Update) → length (last_before x xs) ≡ suc (length xs)
length-last_before x [] = refl
length-last_before x (z ∷ zs) = refl

count-last_before :
    (p : Update → Bool) (x : Update) (xs : List Update)
    → count p (last_before x xs) ≡ (if p x then 1 else 0) + count p xs
count-last_before p x [] = refl
count-last_before p x (z ∷ zs) = omega arith

length-last_first : (xs : List Update) → length (last_first xs) ≡ length xs
unfolding last_first
length-last_first [] = refl
length-last_first (x ∷ []) = refl
length-last_first (x ∷ y ∷ xs) =
    length-last_before x (last_first (y ∷ xs)) ∙ ap suc (length-last_first (y ∷ xs))

count-last_first : (p : Update → Bool) (xs : List Update) → count p (last_first xs) ≡ count p xs
unfolding last_first
count-last_first p [] = refl
count-last_first p (x ∷ []) = refl
count-last_first p (x ∷ y ∷ xs) =
    count-last_before p x (last_first (y ∷ xs))
    ∙ ap (λ n. (if p x then 1 else 0) + n) (count-last_first p (y ∷ xs))

-- The text ends with `refs/rad/id`, and something may stand before that.
abbrev pub EndsInId : Name → Type 0
EndsInId name =
    (before : Name) × (name
      ≡ before ++ 114 ∷ 101 ∷ 102 ∷ 115 ∷ 47 ∷ 114 ∷ 97 ∷ 100 ∷ 47 ∷ 105 ∷ 100 ∷ [])

-- An update that sets a name ending with `refs/rad/id`, or makes a symbolic reference to one.
abbrev pub SetsId : Update → Type 0
SetsId (direct name target policy) = EndsInId name
SetsId (symbolic name target policy) = EndsInId target.name
SetsId (prune name prev) = ⊥

ends_with-EndsInId : (name : Name) → ends_with rad_id name ≡ true → EndsInId name
unfolding ends_with
ends_with-EndsInId [] h = absurd (false-ne-true h)
ends_with-EndsInId (c ∷ name) h = elim (Bool-cases (same_chars (c ∷ name) rad_id)) [
  | inl whole ↦ ([], (same_chars_iff (c ∷ name) rad_id).0 whole)
  | inr later ↦
      let (before, eq) = ends_with-EndsInId name (sym (rw later refl) ∙ h) in
      (c ∷ before, ap (λ (rest : Name). c ∷ rest) eq)
]

EndsInId-ends_with : (name before : Name) → name ≡ before ++ rad_id → ends_with rad_id name ≡ true
unfolding ends_with
EndsInId-ends_with name [] eq = rw eq refl
EndsInId-ends_with name (c ∷ before) eq =
    rw (eq, EndsInId-ends_with (before ++ rad_id) before refl)
      (or_true (same_chars (c ∷ before ++ rad_id) rad_id))

is_id_update-SetsId : (up : Update) → is_id_update up ≡ true → SetsId up
is_id_update-SetsId (direct name target policy) h = ends_with-EndsInId name h
is_id_update-SetsId (symbolic name target policy) h = ends_with-EndsInId target.name h
is_id_update-SetsId (prune name prev) h = absurd (false-ne-true h)

SetsId-is_id_update : (up : Update) → SetsId up → is_id_update up ≡ true
SetsId-is_id_update (direct name target policy) h = EndsInId-ends_with name h.0 h.1
SetsId-is_id_update (symbolic name target policy) h = EndsInId-ends_with target.name h.0 h.1
SetsId-is_id_update (prune name prev) h = absurd h

not-SetsId : (up : Update) → is_id_update up ≡ false → ¬ SetsId up
not-SetsId up h sets = false-ne-true (sym h ∙ SetsId-is_id_update up sets)

All-imp :
    (P Q : Update → Type 0) (ups : List Update)
    → ((up : Update) → P up → Q up)
    → All P ups
    → All Q ups
All-imp P Q [] f a = tt
All-imp P Q (up ∷ ups) f a = (f up a.0, All-imp P Q ups f a.1)

abbrev Tips : List Update → Type 0
Tips ups = All (λ up. is_id_update up ≡ true) ups

abbrev Others : List Update → Type 0
Others ups = All (λ up. is_id_update up ≡ false) ups

-- The updates are parted into those that set an identity and the others, and every update is in one of the
-- parts as often as before.
pub record Parts (ups : List Update) (parts : List Update × List Update) : Type 0 where
  pub are_tips : All SetsId parts.0
  pub are_others : All (λ up. ¬ SetsId up) parts.1
  pub same : (p : Update → Bool) → count p parts.0 + count p parts.1 ≡ count p ups

-- What the loop holds, when it stands before `rest`.
record Drained (fuel : ℕ) (kept rest tips : List Update) : Type 0 where
  parts : List Update × List Update
  ends : drain fuel kept rest tips ≡ some parts
  are_tips : Tips parts.0
  are_others : Others parts.1
  same :
      (p : Update → Bool)
      → count p parts.0 + count p parts.1 ≡ count p tips + (count p kept + count p rest)

drain_lem :
    (fuel : ℕ) (kept rest tips : List Update)
    → length rest ≤ fuel
    → Others kept
    → Tips tips
    → Drained fuel kept rest tips
unfolding drain
drain_lem zero kept [] tips l others ids = record {
  parts = (tips, kept);
  ends = refl;
  are_tips = ids;
  are_others = others;
  same = λ p. omega arith;
}
drain_lem (suc fuel) kept [] tips l others ids = record {
  parts = (tips, kept);
  ends = refl;
  are_tips = ids;
  are_others = others;
  same = λ p. omega arith;
}
drain_lem zero kept (up ∷ rest) tips l others ids = absurd (omega arith)
drain_lem (suc fuel) kept (up ∷ rest) tips l others ids = elim (Bool-cases (is_id_update up)) [
  | inl tip ↦
      let go =
        drain_lem fuel kept (last_first rest) (tips ++ up ∷ [])
          (omega (arith, length-last_first rest)) others
          (All-append (λ x. is_id_update x ≡ true) tips (up ∷ []) ids (tip, tt)) in
      record {
        parts = go.parts;
        ends = (rw tip refl) ∙ go.ends;
        are_tips = go.are_tips;
        are_others = go.are_others;
        same =
            λ p. omega (arith, go.same p, count-append p tips (up ∷ []), count-last_first p rest);
      }
  | inr other ↦
      let go =
        drain_lem fuel (kept ++ up ∷ []) rest tips (omega arith)
          (All-append (λ x. is_id_update x ≡ false) kept (up ∷ []) others (other, tt)) ids in
      record {
        parts = go.parts;
        ends = (rw other refl) ∙ go.ends;
        are_tips = go.are_tips;
        are_others = go.are_others;
        same = λ p. omega (arith, go.same p, count-append p kept (up ∷ []));
      }
]

-- The loop over the pending updates ends; it takes out exactly those that set a name ending with
-- `refs/rad/id`, or make a symbolic reference to one, and keeps the others, each update as often as it was
-- pending, whatever their order. The `rad/id` that is tracked of a peer does not end so, and is kept.
pub take_tips_lem :
    (pending : List Update)
    → (parts : List Update × List Update) × (take_tips pending ≡ some parts) × Parts pending parts
take_tips_lem pending =
    let done = drain_lem (length pending) [] pending [] (omega arith) tt tt in
    (
      done.parts,
      done.ends,
      record {
        are_tips =
            All-imp (λ up. is_id_update up ≡ true) SetsId done.parts.0 is_id_update-SetsId
              done.are_tips;
        are_others =
            All-imp (λ up. is_id_update up ≡ false) (λ up. ¬ SetsId up) done.parts.1 not-SetsId
              done.are_others;
        same = λ p. omega (arith, done.same p);
      },
    )
