-- ===== src/Refs/Valid.antt =====
-- Exactly which strings git-ref-format/core/src/check.rs takes for refnames.
use radicle_link.Prelude.{
  ℕ, ◌+◌, ◌≤◌, ◌≡◌, ◌≢◌, refl, ap, subst, ◌↔◌, ◌⊎◌, inl, inr, true, List, [], ◌∷◌, if◌then◌else◌,
  length, All, ok, ◌++◌, err-ne-ok, >>=-eq-ok, Bool-cases, arith,
}
use radicle_link.Refs.{
  Options, dot, at_sign, brace, solidus, lock, same_chars, ends_with, split, check_part,
  check_parts, check_counts, check_all, ref_format,
}
use radicle_link.Refs.Chars.{test_false, NeverFollowed, count_stars, IsCleanFrom, check_chars_lem}

pub same_chars_iff : (xs ys : List ℕ) → (same_chars xs ys ≡ true) ↔ (xs ≡ ys)
same_chars_iff [] [] = (λ h. refl, λ h. refl)
same_chars_iff [] (d ∷ ds) = (λ h. ground arith, λ h. ground arith)
same_chars_iff (c ∷ cs) [] = (λ h. ground arith, λ h. ground arith)
same_chars_iff (c ∷ cs) (d ∷ ds) =
    (λ h. ground (arith, (same_chars_iff cs ds).0), λ h. ground (arith, (same_chars_iff cs ds).1))

abbrev pub HasSuffix : List ℕ → List ℕ → Type 0
HasSuffix suffix x = (front : List ℕ) × (x ≡ front ++ suffix)

ends_with-whole : (suffix : List ℕ) → ends_with suffix suffix ≡ true
unfolding ends_with
ends_with-whole [] = refl
ends_with-whole (c ∷ cs) = rw ((same_chars_iff (c ∷ cs) (c ∷ cs)).1 refl) refl

ends_with-append : (suffix front : List ℕ) → ends_with suffix (front ++ suffix) ≡ true
unfolding ends_with
ends_with-append suffix [] = ends_with-whole suffix
ends_with-append suffix (c ∷ front) = ground (arith, ends_with-append suffix front)

ends_with_front : (suffix x : List ℕ) → ends_with suffix x ≡ true → HasSuffix suffix x
unfolding ends_with
ends_with_front suffix [] h = ([], (same_chars_iff [] suffix).0 h)
ends_with_front suffix (c ∷ cs) h = elim (Bool-cases (same_chars (c ∷ cs) suffix)) [
  | inl whole ↦ ([], (same_chars_iff (c ∷ cs) suffix).0 whole)
  | inr part ↦
      let (front, eq) = ends_with_front suffix cs (ground arith) in (c ∷ front, ap (λ l. c ∷ l) eq)
]

ends_with-HasSuffix : (suffix x : List ℕ) → (ends_with suffix x ≡ true) ↔ HasSuffix suffix x
ends_with-HasSuffix suffix x =
    (ends_with_front suffix x, λ (front, eq). rw eq (ends_with-append suffix front))

-- A component: not empty, not ending in `.lock`, and clean.
abbrev pub IsPart : List ℕ → Type 0
IsPart [] = ⊥
IsPart (c ∷ cs) = ¬ HasSuffix lock (c ∷ cs) × IsCleanFrom c 0 (c ∷ cs)

abbrev pub total_stars : List (List ℕ) → ℕ
total_stars [] = 0
total_stars (x ∷ xs) = count_stars x + total_stars xs

check_part_lem :
    (g n : ℕ) (x : List ℕ) → (check_part g x ≡ ok n) ↔ ((n ≡ g + count_stars x) × IsPart x)
unfolding check_part
check_part_lem g n [] = (λ h. ground arith, λ h. absurd h.1)
check_part_lem g n (c ∷ cs) =
    let suffix = ends_with-HasSuffix lock (c ∷ cs) in
    let chars = check_chars_lem c (length cs) 0 g n (c ∷ cs) (omega arith) in
    elim (Bool-cases (ends_with lock (c ∷ cs))) [
      | inl locked ↦
          rw (locked, check_part) (λ h. absurd (err-ne-ok h), λ h. absurd (h.1.0 (suffix.0 locked)))
      | inr fine ↦
          rw (fine, check_part)
            (
              λ h. let (eq, clean) = chars.0 h in (eq, ((λ l. ground (arith, suffix.1 l)), clean)),
              λ h. chars.1 (h.0, h.1.1),
            )
    ]

check_parts_lem :
    (g n : ℕ) (xs : List (List ℕ))
    → (check_parts g xs ≡ ok n) ↔ ((n ≡ g + total_stars xs) × All IsPart xs)
unfolding check_parts
check_parts_lem g n [] = (λ h. (ground arith, tt), λ h. ground arith)
check_parts_lem g n (x ∷ xs) = (
  λ h.
      let (m, part, rest) = >>=-eq-ok (check_part g x) _ h in
      let (eq, is_part) = (check_part_lem g m x).0 part in
      let (eq', parts) = (check_parts_lem m n xs).0 rest in (omega arith, (is_part, parts)),
  λ (eq, (is_part, parts)).
      let part = (check_part_lem g (g + count_stars x) x).1 (refl, is_part) in
      rw (part, check_parts) ((check_parts_lem (g + count_stars x) n xs).1 (omega arith, parts)),
)

-- How many `*` a refname may have.
abbrev pub max_stars : Options → ℕ
max_stars opts = if opts.allow_pattern then 1 else 0

check_counts_lem :
    (opts : Options) (parts globs : ℕ)
    → (check_counts opts parts globs ≡ ok tt)
      ↔ (((opts.allow_onelevel ≡ true) ⊎ (2 ≤ parts)) × (globs ≤ max_stars opts))
unfolding check_counts
check_counts_lem opts parts globs = (λ h. ground arith, λ h. ground arith)

check_all_lem :
    (opts : Options) (s : List ℕ)
    → (check_all opts s ≡ ok tt) ↔ (
        All IsPart (split s)
        × ((opts.allow_onelevel ≡ true) ⊎ (2 ≤ length (split s)))
        × (total_stars (split s) ≤ max_stars opts))
unfolding check_all
check_all_lem opts s = (
  λ h.
      let (n, checked, counts) = >>=-eq-ok (check_parts 0 (split s)) _ h in
      let (eq, parts) = (check_parts_lem 0 n (split s)).0 checked in
      let (levels, globs) = (check_counts_lem opts (length (split s)) n).0 counts in
      (parts, levels, omega arith),
  λ (parts, levels, globs).
      rw ((check_parts_lem 0 (total_stars (split s)) (split s)).1 (omega arith, parts), check_all)
        ((check_counts_lem opts (length (split s)) (total_stars (split s))).1 (levels, globs)),
)

dot_refused : ¬ All IsPart (split (dot ∷ []))
unfolding split
dot_refused (part, rest) = let (suffix, (clean, dots, ats, starts, ends)) = part in starts refl refl

-- A string is accepted exactly when it is not `@` alone, every component between slashes is not
-- empty, does not end in `.lock`, has no reserved, blank or control character, neither starts nor
-- ends with a dot, and has neither `..` nor `@{` when read as a cycle; there are two components unless
-- one suffices; and there is no `*`, or at most one for a pattern.
pub ref_format_iff :
    (opts : Options) (s : List ℕ)
    → (ref_format opts s ≡ ok tt) ↔ (
        (s ≢ at_sign ∷ [])
        × All IsPart (split s)
        × ((opts.allow_onelevel ≡ true) ⊎ (2 ≤ length (split s)))
        × (total_stars (split s) ≤ max_stars opts))
unfolding ref_format split
ref_format_iff opts [] = (λ h. ground arith, λ (other, parts, levels, counts). absurd parts.0)
ref_format_iff opts (c ∷ cs) = elim (Bool-cases (same_chars (c ∷ cs) (at_sign ∷ []))) [
  | inl lone ↦
      rw (lone, ref_format)
        (
          λ h. absurd (err-ne-ok h),
          λ h. absurd (h.0 ((same_chars_iff (c ∷ cs) (at_sign ∷ [])).0 lone)),
        )
  | inr long ↦ elim (Bool-cases (same_chars (c ∷ cs) (dot ∷ []))) [
    | inl lone_dot ↦
        rw (long, ref_format)
          (rw lone_dot (
            λ h. absurd (err-ne-ok h),
            λ (other, parts, levels, counts). absurd (
                dot_refused (
                  subst (λ l. All IsPart (split l))
                    ((same_chars_iff (c ∷ cs) (dot ∷ [])).0 lone_dot) parts)),
          ))
    | inr fine ↦
        rw (long, ref_format)
          (rw fine (
            λ h.
                let (parts, levels, counts) = (check_all_lem opts (c ∷ cs)).0 h in
                (
                  (λ e. ground (arith, long, (same_chars_iff (c ∷ cs) (at_sign ∷ [])).1 e)),
                  parts,
                  levels,
                  counts,
                ),
            λ (other, parts, levels, counts).
                (check_all_lem opts (c ∷ cs)).1 (parts, levels, counts),
          ))
  ]
]

split_single : (x : List ℕ) → All (λ c. c ≢ solidus) x → split x ≡ x ∷ []
unfolding split
split_single [] h = refl
split_single (c ∷ cs) h = rw (test_false c solidus h.0) (rw (split_single cs h.1) refl)

NeverFollowed-last :
    (a b first : ℕ) (x : List ℕ) → NeverFollowed a b first (x ++ a ∷ []) → first ≢ b
NeverFollowed-last a b first [] h = h.0 refl
NeverFollowed-last a b first (y ∷ ys) h = NeverFollowed-last a b first ys h.1

All-middle : (x : List ℕ) → All (λ c. c ≢ solidus) x → All (λ c. c ≢ solidus) (x ++ at_sign ∷ [])
All-middle [] h = ((λ e. ground arith), tt)
All-middle (c ∷ cs) h = (h.0, All-middle cs h.1)

-- A string without slashes that starts with `{` and ends with `@` is refused, although neither `@{`
-- nor anything else that is reserved need be in it.
pub ref_format_cyclic :
    (opts : Options) (x : List ℕ)
    → All (λ c. c ≢ solidus) x
    → ref_format opts (brace ∷ x ++ at_sign ∷ []) ≢ ok tt
ref_format_cyclic opts x h accepted =
    let s = brace ∷ x ++ at_sign ∷ [] in
    let (other, parts, levels, counts) = (ref_format_iff opts s).0 accepted in
    let whole = split_single s ((λ e. ground arith), All-middle x h) in
    let ((suffix, (clean, dots, ats, starts, ends)), rest) =
      subst (λ l. All IsPart l) whole parts in
    NeverFollowed-last at_sign brace brace (brace ∷ x) ats refl
