-- ===== src/Refs/Name/Valid.antt =====
-- Which refnames of git-ref-format/core/src/name.rs are valid.
use radicle_link.Prelude.{
  ◌+◌, ◌≤◌, ◌≡◌, ◌≢◌, refl, ap, subst, ◌∙◌, ◌⊎◌, inl, inr, Bool, true, some, List, [], ◌∷◌, ◌++◌,
  ◌==◌, length, length-append, All, All-append, ok, Bool-cases, arith,
}
use radicle_link.Refs.{
  Options, solidus, at_sign, split, ref_format, check_all, check_counts, check_parts, check_part,
  check_chars, arm, ends_with,
}
use radicle_link.Refs.Chars.{count_stars}
use radicle_link.Refs.Valid.{IsPart, total_stars, max_stars, ref_format_iff}
use radicle_link.Refs.Name.{Name, name_opts, join, components, head, first_component}
use radicle_link.Refs.Name.Laws.{HasNoSlash, split_cons, split-join, split_whole}

abbrev pub IsValid : Options → Name → Type 0
IsValid opts s = ref_format opts s ≡ ok tt

total_stars-append : (xs ys : List Name) → total_stars (xs ++ ys) ≡ total_stars xs + total_stars ys
total_stars-append [] ys = omega arith
total_stars-append (x ∷ xs) ys = omega (arith, total_stars-append xs ys)

length-split : (s : Name) → 1 ≤ length (split s)
length-split s = let (x, xs, eq) = split_cons s in rw eq (omega arith)

join-ne-at : (a b : Name) → join a b ≢ at_sign ∷ []
join-ne-at [] b h = ground arith
join-ne-at (c ∷ []) b h = ground arith
join-ne-at (c ∷ d ∷ a) b h = ground arith

join_parts :
    (opts : Options) (a b : Name)
    → All IsPart (split a)
    → All IsPart (split b)
    → total_stars (split a) + total_stars (split b) ≤ max_stars opts
    → IsValid opts (join a b)
join_parts opts a b pa pb stars = (ref_format_iff opts (join a b)).1 (
  join-ne-at a b,
  (rw (split-join a b) (All-append IsPart (split a) (split b) pa pb)),
  inr (
      rw (split-join a b)
        (omega (arith, length-append (split a) (split b), length-split a, length-split b))),
  (rw (split-join a b) (omega (arith, total_stars-append (split a) (split b)))),
)

-- Joining a valid name with a valid name gives a valid one, and with a valid pattern a valid pattern;
-- even where a single component is not enough.
pub join-IsValid :
    (a b : Name) (onelevel pattern : Bool)
    → IsValid name_opts a
    → IsValid (record { allow_onelevel = true; allow_pattern = pattern }) b
    → IsValid (record { allow_onelevel = onelevel; allow_pattern = pattern }) (join a b)
join-IsValid a b onelevel pattern va vb =
    let (na, pa, la, sa) = (ref_format_iff name_opts a).0 va in
    let (nb, pb, lb, sb) =
      (ref_format_iff (record { allow_onelevel = true; allow_pattern = pattern }) b).0 vb in
    join_parts (record { allow_onelevel = onelevel; allow_pattern = pattern }) a b pa pb
      (omega arith)

pub split-HasNoSlash : (s : Name) → All HasNoSlash (split s)
unfolding split
split-HasNoSlash [] = (tt, tt)
split-HasNoSlash (c ∷ cs) =
    let (x, xs, eq) = split_cons cs in
    let parts : All HasNoSlash (x ∷ xs) = subst (All HasNoSlash) eq (split-HasNoSlash cs) in
    elim (Bool-cases (c == solidus)) [
      | inl slash ↦ rw (slash, split) (tt, split-HasNoSlash cs)
      | inr other ↦ rw (other, split) (rw eq (((λ e. ground arith), parts.0), parts.1))
    ]

-- What a component of a valid name is.
abbrev pub IsComponent : Name → Type 0
IsComponent c = HasNoSlash c × ((c ≡ at_sign ∷ []) ⊎ IsValid name_opts c)

At-cases : (c : Name) → (c ≡ at_sign ∷ []) ⊎ (c ≢ at_sign ∷ [])
At-cases [] = inr (λ h. ground arith)
At-cases (c ∷ []) = ground arith
At-cases (c ∷ d ∷ cs) = inr (λ h. ground arith)

part-IsComponent : (c : Name) → IsPart c → count_stars c ≤ 0 → HasNoSlash c → IsComponent c
part-IsComponent c part stars whole =
    let alone = split_whole c whole in
    (
      whole,
      elim (At-cases c) [
        | inl lone ↦ inl lone
        | inr fine ↦ inr (
            (ref_format_iff name_opts c).1
              (fine, (rw alone (part, tt)), inl refl, (rw alone (omega arith))))
      ],
    )

parts-IsComponent :
    (cs : List Name) → All IsPart cs → total_stars cs ≤ 0 → All HasNoSlash cs → All IsComponent cs
parts-IsComponent [] parts stars whole = tt
parts-IsComponent (c ∷ cs) parts stars whole = (
  part-IsComponent c parts.0 (omega arith) whole.0,
  parts-IsComponent cs parts.1 (omega arith) whole.1,
)

-- The components of a valid name have no slash, and each is a valid name unless it is `@`.
pub components-IsComponent : (s : Name) → IsValid name_opts s → All IsComponent (components s)
components-IsComponent s v =
    let (ne, parts, levels, stars) = (ref_format_iff name_opts s).0 v in
    parts-IsComponent (split s) parts stars (split-HasNoSlash s)

at_name : IsValid name_opts (at_sign ∷ solidus ∷ 97 ∷ [])
unfolding ref_format check_all check_counts check_parts check_part check_chars arm ends_with split
at_name = refl

at-IsPart : IsPart (at_sign ∷ [])
unfolding split
at-IsPart =
    let (ne, parts, levels, stars) =
      (ref_format_iff name_opts (at_sign ∷ solidus ∷ 97 ∷ [])).0 at_name in
    parts.0

at_stars : count_stars (at_sign ∷ []) ≡ 0
unfolding count_stars
at_stars = refl

at_invalid : ¬ IsValid name_opts (at_sign ∷ [])
at_invalid v = ((ref_format_iff name_opts (at_sign ∷ [])).0 v).0 refl

-- In front of a valid name, `@` is a component of a valid name although it is not a valid name.
pub head_invalid :
    (s : Name)
    → IsValid name_opts s
    → IsValid name_opts (join (at_sign ∷ []) s)
      × (head (join (at_sign ∷ []) s) ≡ some (at_sign ∷ []))
      × ¬ IsValid name_opts (at_sign ∷ [])
head_invalid s v =
    let (ne, parts, levels, stars) = (ref_format_iff name_opts s).0 v in
    let alone = split_whole (at_sign ∷ []) ((λ e. ground arith), tt) in
    (
      join_parts name_opts (at_sign ∷ []) s (rw alone (at-IsPart, tt)) parts
          (rw alone (omega (arith, at_stars))),
      ap first_component (split-join (at_sign ∷ []) s ∙ ap (λ l. l ++ split s) alone),
      at_invalid,
    )
