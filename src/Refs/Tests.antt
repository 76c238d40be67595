-- ===== src/Refs/Tests.antt =====
-- Runs of git-ref-format/core/src/check.rs.
use radicle_link.Prelude.{
  ℕ, none, some, ◌≡◌, ◌≢◌, refl, ◌↔◌, ◌⊎◌, true, false, List, [], ◌∷◌, ◌++◌, All, ◌≤◌, length, ok,
  err, arith,
}
use radicle_link.Refs.{
  Options, at_sign, brace, solidus, split, ref_format, check_all, check_counts, check_parts,
  check_part, check_chars, arm, ends_with, at_open_brace,
}
use radicle_link.Refs.Name.{Name, name_opts, join, head}
use radicle_link.Refs.Name.Laws.{HasNoSlash}
use radicle_link.Refs.Name.Valid.{IsValid, join-IsValid, head_invalid}
use radicle_link.Refs.Qualified.{
  refs, from_refstr, add_namespace, namespaced, namespace, strip_namespace,
  strip_namespace_recursive,
}
use radicle_link.Refs.Qualified.Laws.{
  within, strip_namespace-add_namespace, strip_namespace_unqualified, strip_namespace_recursive_lem,
}
use radicle_link.Refs.Valid.{IsPart, total_stars, max_stars, ref_format_iff, ref_format_cyclic}

abbrev strict : Options
strict = record { allow_onelevel = false; allow_pattern = false }

abbrev lenient : Options
lenient = record { allow_onelevel = true; allow_pattern = false }

-- `refs/a`
abbrev refs_a : List ℕ
refs_a = 114 ∷ 101 ∷ 102 ∷ 115 ∷ 47 ∷ 97 ∷ []

refs_a_ok : ref_format strict refs_a ≡ ok tt
unfolding ref_format check_all check_counts check_parts check_part check_chars arm ends_with split
refs_a_ok = refl

-- `{a@`
cyclic_run : ref_format lenient (123 ∷ 97 ∷ 64 ∷ []) ≡ err at_open_brace
unfolding ref_format check_all check_counts check_parts check_part check_chars arm ends_with split
cyclic_run = refl

ref_format_iff_example : (ref_format strict refs_a ≡ ok tt) ↔ (
    (refs_a ≢ at_sign ∷ [])
    × All IsPart (split refs_a)
    × ((strict.allow_onelevel ≡ true) ⊎ (2 ≤ length (split refs_a)))
    × (total_stars (split refs_a) ≤ max_stars strict))
ref_format_iff_example = ref_format_iff strict refs_a

letter_only : All (λ c. c ≢ solidus) (97 ∷ [])
letter_only = ((λ e. ground arith), tt)

ref_format_cyclic_example : ref_format lenient (brace ∷ (97 ∷ []) ++ at_sign ∷ []) ≢ ok tt
ref_format_cyclic_example = ref_format_cyclic lenient (97 ∷ []) letter_only

-- `a`, `b` and `refs/a/b`
abbrev a : Name
a = 97 ∷ []

abbrev b : Name
b = 98 ∷ []

abbrev refs_a_b : Name
refs_a_b = 114 ∷ 101 ∷ 102 ∷ 115 ∷ 47 ∷ 97 ∷ 47 ∷ 98 ∷ []

b_whole : HasNoSlash b
b_whole = ((λ e. cc), tt)

name-IsValid : IsValid name_opts refs_a
unfolding ref_format check_all check_counts check_parts check_part check_chars arm ends_with split
name-IsValid = refl

-- `*b`
abbrev star_b : Name
star_b = 42 ∷ 98 ∷ []

star_b-IsValid : IsValid (record { allow_onelevel = true; allow_pattern = true }) star_b
unfolding ref_format check_all check_counts check_parts check_part check_chars arm ends_with split
star_b-IsValid = refl

join-IsValid_example :
    IsValid (record { allow_onelevel = false; allow_pattern = true }) (join refs_a star_b)
join-IsValid_example = join-IsValid refs_a star_b false true name-IsValid star_b-IsValid

head_invalid_example :
    IsValid name_opts (join (at_sign ∷ []) refs_a)
    × (head (join (at_sign ∷ []) refs_a) ≡ some (at_sign ∷ []))
    × ¬ IsValid name_opts (at_sign ∷ [])
head_invalid_example = head_invalid refs_a name-IsValid

refs_a_b_qualified : from_refstr refs_a_b ≡ some refs_a_b
unfolding from_refstr split
refs_a_b_qualified = refl

strip_namespace-add_namespace_example :
    (n : Name) × (add_namespace b refs_a_b ≡ some n)
    × (namespaced n ≡ some n)
    × (namespace n ≡ some b)
    × (strip_namespace n ≡ some refs_a_b)
strip_namespace-add_namespace_example =
    strip_namespace-add_namespace b refs_a_b b_whole refs_a_b_qualified

strip_namespace_unqualified_example :
    (namespaced (within b refs) ≡ some (within b refs))
    × (strip_namespace (within b refs) ≡ some refs)
    × (from_refstr refs ≡ none)
strip_namespace_unqualified_example = strip_namespace_unqualified b b_whole

nested_namespaced : namespaced (within a (within b refs_a_b)) ≡ some (within a (within b refs_a_b))
unfolding namespaced split
nested_namespaced = refl

strip_namespace_recursive_lem_example :
    (t : Name) × (strip_namespace_recursive (within a (within b refs_a_b)) ≡ some t)
    × (namespaced t ≡ none)
strip_namespace_recursive_lem_example =
    strip_namespace_recursive_lem (within a (within b refs_a_b)) nested_namespaced
