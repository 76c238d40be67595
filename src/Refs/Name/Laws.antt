-- ===== src/Refs/Name/Laws.antt =====
-- How the operations of git-ref-format/core/src/name.rs undo each other.
use radicle_link.Prelude.{
  ℕ, ◌≡◌, ◌≢◌, refl, sym, ap, ◌∙◌, inl, inr, true, none, some, List, [], ◌∷◌, ◌++◌, ◌==◌, All,
  Bool-cases, arith,
}
use radicle_link.Refs.{solidus, split}
use radicle_link.Refs.Name.{
  Name, push, join, truncated, popped, pop, strip, strip_prefix, components, push_components,
  drop_last, from_iter,
}

abbrev pub HasNoSlash : Name → Type 0
HasNoSlash = All (λ c. c ≢ solidus)

pub append_assoc : {A : Type 0} (a b c : List A) → (a ++ b) ++ c ≡ a ++ (b ++ c)
append_assoc [] b c = refl
append_assoc (x ∷ a) b c = ap (λ l. x ∷ l) (append_assoc a b c)

pub split_cons : (s : Name) → (x : Name) × (xs : List Name) × (split s ≡ x ∷ xs)
unfolding split
split_cons [] = ([], [], refl)
split_cons (c ∷ cs) =
    let (x, xs, eq) = split_cons cs in
    elim (Bool-cases (c == solidus)) [
      | inl slash ↦ ([], split cs, (rw (slash, split) refl))
      | inr other ↦ (c ∷ x, xs, (rw (other, split) (rw eq refl)))
    ]

-- The components of a name that was joined are those of the first and those of the second.
pub split-join : (a b : Name) → split (join a b) ≡ split a ++ split b
unfolding split
split-join [] b = refl
split-join (c ∷ a) b =
    let (x, xs, eq) = split_cons a in
    let step : split (join a b) ≡ (x ∷ xs) ++ split b =
      split-join a b ∙ ap (λ l. l ++ split b) eq in
    elim (Bool-cases (c == solidus)) [
      | inl slash ↦ rw (slash, split) (ap (λ l. [] ∷ l) (split-join a b))
      | inr other ↦ rw (other, split) (rw step (rw eq refl))
    ]

pub split_whole : (c : Name) → HasNoSlash c → split c ≡ c ∷ []
unfolding split
split_whole [] h = refl
split_whole (d ∷ c) h = ground (arith, split_whole c h.1, h.0)

pub push_components-split : (s : Name) → push_components (split s) ≡ s ++ solidus ∷ []
unfolding split push_components
push_components-split [] = refl
push_components-split (c ∷ cs) =
    let (x, xs, eq) = split_cons cs in
    let step : push_components (x ∷ xs) ≡ cs ++ solidus ∷ [] =
      ap push_components (sym eq) ∙ push_components-split cs in
    elim (Bool-cases (c == solidus)) [
      | inl slash ↦ rw (slash, split) (ground (arith, push_components-split cs))
      | inr other ↦ rw (other, split) (rw eq (ap (λ l. c ∷ l) step))
    ]

pub drop_last-append : (s : Name) (c : ℕ) → drop_last (s ++ c ∷ []) ≡ some s
unfolding drop_last
drop_last-append [] c = refl
drop_last-append (d ∷ []) c = refl
drop_last-append (d ∷ e ∷ s) c = rw (drop_last-append (e ∷ s) c) refl

-- Collecting the components of a name gives the name.
pub from_iter-components : (s : Name) → from_iter (components s) ≡ some s
from_iter-components s = ap drop_last (push_components-split s) ∙ drop_last-append s solidus

split-push_components :
    (c : Name) (cs : List Name)
    → All HasNoSlash (c ∷ cs)
    → (s : Name) × (push_components (c ∷ cs) ≡ s ++ solidus ∷ []) × (split s ≡ c ∷ cs)
unfolding push_components
split-push_components c [] h = (c, refl, split_whole c h.0)
split-push_components c (d ∷ cs) h =
    let (s, eq, parts) = split-push_components d cs h.1 in
    (
      join c s,
      ap (λ l. c ++ solidus ∷ l) eq ∙ sym (append_assoc c (solidus ∷ s) (solidus ∷ [])),
      split-join c s ∙ (rw (split_whole c h.0) (ap (λ l. c ∷ l) parts)),
    )

-- The name that is collected from components, of which there is one, has these components.
pub components-from_iter :
    (c : Name) (cs : List Name)
    → All HasNoSlash (c ∷ cs)
    → (s : Name) × (from_iter (c ∷ cs) ≡ some s) × (components s ≡ c ∷ cs)
components-from_iter c cs h =
    let (s, eq, parts) = split-push_components c cs h in
    (s, ap drop_last eq ∙ drop_last-append s solidus, parts)

strip-append : (a b : Name) → strip a (a ++ b) ≡ some b
unfolding strip
strip-append [] b = refl
strip-append (c ∷ a) b = ground (arith, strip-append a b)

-- Stripping what a name was joined to leaves the name.
pub strip_prefix-join : (a b : Name) → strip_prefix (join a b) a ≡ some b
unfolding strip_prefix strip
strip_prefix-join a b = rw (strip-append a (solidus ∷ b)) refl

truncated-none : (b : Name) → HasNoSlash b → truncated b ≡ none
unfolding truncated
truncated-none [] h = refl
truncated-none (c ∷ b) h = rw (truncated-none b h.1) (ground (arith, h.0))

truncated-join : (a b : Name) → HasNoSlash b → truncated (join a b) ≡ some a
unfolding truncated
truncated-join [] b h = rw (truncated-none b h) refl
truncated-join (c ∷ a) b h = rw (truncated-join a b h) refl

-- Popping takes off the component that was pushed last.
pub pop-push : (a b : Name) → HasNoSlash b → pop (push a b) ≡ (true, a)
pop-push a b h = ap (popped (push a b)) (truncated-join a b h)
