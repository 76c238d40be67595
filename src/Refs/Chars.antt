-- ===== src/Refs/Chars.antt =====
-- What the loop of git-ref-format/core/src/check.rs asks of the characters of a component.
use radicle_link.Prelude.{
  ℕ, suc, ◌+◌, ◌≡◌, ◌≢◌, refl, ◌↔◌, ◌⊎◌, inl, inr, Bool, false, List, [], ◌∷◌, ◌==◌, if◌then◌else◌,
  length, any, All, ok, Bool-cases, arith,
}
use radicle_link.Refs.{
  RefError, dot, at_sign, brace, star, blank, invalid_chars, is_ascii_control, fail, glob, proceed,
  arm, successor, check_chars,
}

-- Neither reserved, nor blank, nor a control character.
abbrev pub IsCleanChar : ℕ → Type 0
IsCleanChar y =
    (any (λ c. c == y) invalid_chars ≡ false) × (y ≢ blank) × (is_ascii_control y ≡ false)

-- `a` is nowhere followed by `b`, where `first` follows the last character.
abbrev pub NeverFollowed : ℕ → ℕ → ℕ → List ℕ → Type 0
NeverFollowed a b first [] = Unit {0}
NeverFollowed a b first (y ∷ ys) = ((y ≡ a) → successor first ys ≢ b) × NeverFollowed a b first ys

abbrev pub EndsWithout : ℕ → List ℕ → Type 0
EndsWithout a [] = Unit {0}
EndsWithout a (y ∷ []) = y ≢ a
EndsWithout a (y ∷ z ∷ zs) = EndsWithout a (z ∷ zs)

unfoldable pub count_stars : List ℕ → ℕ
count_stars [] = 0
count_stars (y ∷ ys) = let rest = count_stars ys in if y == star then suc rest else rest

arm_ok :
    (y z : ℕ) (f l : Bool)
    → (arm y z f l ≡ (if y == star then glob else proceed)) ↔ (
        IsCleanChar y
        × (y ≡ dot → (z ≢ dot) × (f ≡ false) × (l ≡ false))
        × (y ≡ at_sign → z ≢ brace))
unfolding arm
arm_ok y z f l = (λ h. ground arith, λ h. ground arith)

arm-cases :
    (y z : ℕ) (f l : Bool)
    → (arm y z f l ≡ (if y == star then glob else proceed))
      ⊎ ((e : RefError) × (arm y z f l ≡ fail e))
unfolding arm
arm-cases y z f l = ground arith

abbrev pub StartsWithout : ℕ → List ℕ → Type 0
StartsWithout a [] = Unit {0}
StartsWithout a (y ∷ ys) = y ≢ a

abbrev stars : ℕ → ℕ
stars y = if y == star then 1 else 0

pub test_false : (a b : ℕ) → a ≢ b → (a == b) ≡ false
test_false a b h = ground arith

plus_zero : (g : ℕ) → g + 0 ≡ g
plus_zero g = omega arith

check_chars_step :
    (first last i g n y : ℕ) (ys : List ℕ)
    → (check_chars first last i g (y ∷ ys) ≡ ok n) ↔ (
        (arm y (successor first ys) (i == 0) (i == last) ≡ (if y == star then glob else proceed))
        × (check_chars first last (suc i) (g + stars y) ys ≡ ok n))
unfolding check_chars
check_chars_step first last i g n y ys =
    elim (arm-cases y (successor first ys) (i == 0) (i == last)) [
      | inl passes ↦ elim (Bool-cases (y == star)) [
        | inl is_star ↦ rw (passes, check_chars) (rw is_star (λ h. (refl, h), λ h. h.1))
        | inr other ↦
            rw (passes, check_chars) (rw other (rw (plus_zero g) (λ h. (refl, h), λ h. h.1)))
      ]
      | inr (e, fails) ↦ rw (fails, check_chars) (λ h. ground arith, λ h. ground arith)
    ]

-- What the loop asks of the characters from index `i` on.
abbrev pub IsCleanFrom : ℕ → ℕ → List ℕ → Type 0
IsCleanFrom first i ys =
    All IsCleanChar ys
    × NeverFollowed dot dot first ys
    × NeverFollowed at_sign brace first ys
    × (i ≡ 0 → StartsWithout dot ys)
    × EndsWithout dot ys

count_stars_step :
    (g n y : ℕ) (ys : List ℕ) → (n ≡ g + stars y + count_stars ys) ↔ (n ≡ g + count_stars (y ∷ ys))
unfolding count_stars
count_stars_step g n y ys = (λ h. ground arith, λ h. ground arith)

pub check_chars_lem :
    (first last i g n : ℕ) (ys : List ℕ)
    → i + length ys ≡ suc last
    → (check_chars first last i g ys ≡ ok n) ↔ ((n ≡ g + count_stars ys) × IsCleanFrom first i ys)
unfolding check_chars count_stars
check_chars_lem first last i g n [] len =
    (λ h. (ground arith, (tt, tt, tt, (λ z. tt), tt)), λ h. ground arith)
check_chars_lem first last i g n (y ∷ []) len =
    let step = check_chars_step first last i g n y [] in
    let here = arm_ok y first (i == 0) (i == last) in
    let rest = check_chars_lem first last (suc i) (g + stars y) n [] (omega arith) in
    let count = count_stars_step g n y [] in
    (
      λ h.
          let (passes, more) = step.0 h in
          let (clean, dots, ats) = here.0 passes in
          (
            count.0 (rest.0 more).0,
            (
              (clean, tt),
              ((λ e. (dots e).0), tt),
              (ats, tt),
              (λ start e. let (a, b, c) = dots e in ground arith),
              λ e. let (a, b, c) = dots e in ground arith,
            ),
          ),
      λ (eq, ((clean, u), (dd, v), (ab, w), sd, ed)). step.1 (
        here.1 (clean, (λ e. absurd (ed e)), ab),
        rest.1 (count.1 eq, (tt, tt, tt, (λ z. tt), tt)),
      ),
    )
check_chars_lem first last i g n (y ∷ z ∷ zs) len =
    let step = check_chars_step first last i g n y (z ∷ zs) in
    let here = arm_ok y z (i == 0) (i == last) in
    let rest = check_chars_lem first last (suc i) (g + stars y) n (z ∷ zs) (omega arith) in
    let count = count_stars_step g n y (z ∷ zs) in
    (
      λ h.
          let (passes, more) = step.0 h in
          let (clean, dots, ats) = here.0 passes in
          let (eq, (all_clean, dd, ab, sd, ed)) = rest.0 more in
          (
            count.0 eq,
            (
              (clean, all_clean),
              ((λ e. (dots e).0), dd),
              (ats, ab),
              (λ start e. let (a, b, c) = dots e in ground arith),
              ed,
            ),
          ),
      λ (eq, ((clean, all_clean), (dd, dds), (ab, abs), sd, ed)). step.1 (
        here.1 (
          clean,
          (λ e. (dd e, test_false i 0 (λ start. sd start e), test_false i last (omega arith))),
          ab,
        ),
        rest.1 (count.1 eq, (all_clean, dds, abs, (λ start. absurd (omega arith)), ed)),
      ),
    )
