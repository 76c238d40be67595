-- ===== src/Refs/Pattern/Laws.antt =====
-- Patterns of git-ref-format/core/src/refspec.rs, taken apart and put together.
use radicle_link.Prelude.{
  ℕ, ◌+◌, ◌≤◌, ◌≡◌, refl, sym, ap, subst, ◌∙◌, ◌⊎◌, inl, inr, Bool, true, false, Option, none, some,
  List, [], ◌∷◌, ◌++◌, map, ◌==◌, any, ok, Bool-cases, arith,
}
use radicle_link.Refs.{star, solidus, same_chars, split, ref_format}
use radicle_link.Refs.Chars.{count_stars}
use radicle_link.Refs.Valid.{total_stars, same_chars_iff, ref_format_iff}
use radicle_link.Refs.Name.{Name, push_components, drop_last}
use radicle_link.Refs.Name.Laws.{push_components-split, drop_last-append}
use radicle_link.Refs.Pattern.{
  pattern_opts, glob, normal, as_ref, component_of, components, collect, truncated, without_last,
  from_components,
}

any-count_stars : (x : Name) → any (λ c. c == star) x ≡ true → 1 ≤ count_stars x
unfolding count_stars
any-count_stars [] h = ground arith
any-count_stars (c ∷ cs) h = ground (arith, any-count_stars cs)

one_star : count_stars (star ∷ []) ≡ 1
unfolding count_stars
one_star = refl

-- What a component is, and how many stars it stands for.
component_of-cases :
    (x : Name)
    → ((g : Option Name) × (component_of x ≡ glob g) × (as_ref (glob g) ≡ x) × (1 ≤ count_stars x))
      ⊎ (component_of x ≡ normal x)
unfolding component_of
component_of-cases x = elim (Bool-cases (same_chars x (star ∷ []))) [
  | inl lone ↦
      let eq = (same_chars_iff x (star ∷ [])).0 lone in
      inl (
        none,
        (rw (lone, component_of) refl),
        sym eq,
        subst (λ y. 1 ≤ count_stars y) (sym eq) (omega (arith, one_star)),
      )
  | inr long ↦ elim (Bool-cases (any (λ c. c == star) x)) [
    | inl globs ↦
        inl (some x, (rw (long, component_of) (rw globs refl)), refl, any-count_stars x globs)
    | inr plain ↦ inr (rw (long, component_of) (rw plain refl))
  ]
]

abbrev seen_stars : Bool → ℕ
seen_stars true = 1
seen_stars false = 0

collect_lem :
    (seen : Bool) (xs : List Name)
    → seen_stars seen + total_stars xs ≤ 1
    → collect seen (map component_of xs) ≡ ok (push_components xs)
unfolding collect push_components
collect_lem seen [] h = refl
collect_lem true (x ∷ xs) h = elim (component_of-cases x) [
  | inl (g, eq, text, stars) ↦ absurd (omega arith)
  | inr eq ↦ rw (eq, collect) (rw (collect_lem true xs (omega arith)) refl)
]
collect_lem false (x ∷ xs) h = elim (component_of-cases x) [
  | inl (g, eq, text, stars) ↦
      rw (eq, collect)
        (rw (collect_lem true xs (omega arith))
          (ap (λ y. ok (y ++ solidus ∷ push_components xs)) text))
  | inr eq ↦ rw (eq, collect) (rw (collect_lem false xs (omega arith)) refl)
]

-- Collecting the components of a valid pattern gives the pattern.
pub from_components-components :
    (p : Name) → ref_format pattern_opts p ≡ ok tt → from_components (components p) ≡ some (ok p)
from_components-components p v =
    let (ne, parts, levels, stars) = (ref_format_iff pattern_opts p).0 v in
    ap truncated (collect_lem false (split p) (omega arith))
    ∙ ap (λ s. without_last (drop_last s)) (push_components-split p)
    ∙ ap without_last (drop_last-append p solidus)
