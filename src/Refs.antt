-- ===== src/Refs.antt =====
-- git-ref-format/core/src/check.rs: is a string a valid refname? Strings are lists of code points.
pub mod Chars
pub mod Name
pub mod Qualified
pub mod Pattern
pub mod Valid
pub mod Tests
use radicle_link.Prelude.{
  ℕ, zero, suc, ◌+◌, ◌-◌, Bool, true, false, not, ◌&&◌, ◌||◌, Option, none, some, List, [], ◌∷◌,
  ltb, ◌==◌, if◌then◌else◌, length, any, Result, ok, err, ◌>>=◌,
}

pub record Options : Type 0 where
  pub allow_onelevel : Bool
  pub allow_pattern : Bool

pub data RefError : Type 0 where
  empty lone_at slash dot_lock dot_dot at_open_brace : RefError
  invalid_char : ℕ → RefError
  starts_dot ends_dot control space pattern one_level : RefError

abbrev pub dot : ℕ
dot = 46

abbrev pub at_sign : ℕ
at_sign = 64

abbrev pub brace : ℕ
brace = 123

abbrev pub star : ℕ
star = 42

abbrev pub solidus : ℕ
solidus = 47

abbrev pub blank : ℕ
blank = 32

-- `.lock`
abbrev pub lock : List ℕ
lock = 46 ∷ 108 ∷ 111 ∷ 99 ∷ 107 ∷ []

-- `\0`, `\\`, `~`, `^`, `:`, `?` and `[`
abbrev pub invalid_chars : List ℕ
invalid_chars = 0 ∷ 92 ∷ 126 ∷ 94 ∷ 58 ∷ 63 ∷ 91 ∷ []

abbrev pub is_ascii_control : ℕ → Bool
is_ascii_control z = ltb z 32 || z == 127

abbrev pub same_chars : List ℕ → List ℕ → Bool
same_chars [] [] = true
same_chars [] (d ∷ ds) = false
same_chars (c ∷ cs) [] = false
same_chars (c ∷ cs) (d ∷ ds) = c == d && same_chars cs ds

-- `x.ends_with(suffix)`
unfoldable pub ends_with : List ℕ → List ℕ → Bool
ends_with suffix [] = same_chars [] suffix
ends_with suffix (c ∷ cs) = let rest = ends_with suffix cs in same_chars (c ∷ cs) suffix || rest

abbrev pub push_first : ℕ → List (List ℕ) → List (List ℕ)
push_first c [] = (c ∷ []) ∷ []
push_first c (x ∷ xs) = (c ∷ x) ∷ xs

-- `s.split('/')`
unfoldable pub split : List ℕ → List (List ℕ)
split [] = [] ∷ []
split (c ∷ cs) = let rest = split cs in if c == solidus then [] ∷ rest else push_first c rest

-- An arm of the `match` on a character and its successor.
pub data Arm : Type 0 where
  fail : RefError → Arm
  glob proceed : Arm

unfoldable pub arm : ℕ → ℕ → Bool → Bool → Arm
arm y z is_first is_last =
    if y == dot && z == dot
    then fail dot_dot
    else if y == at_sign && z == brace
    then fail at_open_brace
    else if any (λ c. c == y) invalid_chars
    then fail (invalid_char y)
    else if y == star
    then glob
    else if y == dot && is_first
    then fail starts_dot
    else if y == dot && is_last
    then fail ends_dot
    else if y == blank
    then fail space
    else if is_ascii_control y
    then fail control
    else proceed

-- `x.chars().cycle().skip(1)`: after the last character comes the first.
abbrev pub successor : ℕ → List ℕ → ℕ
successor first [] = first
successor first (z ∷ zs) = z

-- The loop over the characters of a component, from index `i`; `last` is the index of the last one.
unfoldable pub check_chars : ℕ → ℕ → ℕ → ℕ → List ℕ → Result RefError ℕ
check_chars first last i globs [] = ok globs
check_chars first last i globs (y ∷ ys) =
    let rest = check_chars first last (suc i) globs ys in
    let counted = check_chars first last (suc i) (globs + 1) ys in
    elim (arm y (successor first ys) (i == 0) (i == last)) [
      | fail e ↦ err e
      | glob ↦ counted
      | proceed ↦ rest
    ]

unfoldable pub check_part : ℕ → List ℕ → Result RefError ℕ
check_part globs [] = err slash
check_part globs (c ∷ cs) =
    if ends_with lock (c ∷ cs) then err dot_lock else check_chars c (length cs) 0 globs (c ∷ cs)

-- The loop over the components; it returns how many `*` there are.
unfoldable pub check_parts : ℕ → List (List ℕ) → Result RefError ℕ
check_parts globs [] = ok globs
check_parts globs (x ∷ xs) = do globs' ← check_part globs x; check_parts globs' xs

unfoldable pub check_counts : Options → ℕ → ℕ → Result RefError (Unit {0})
check_counts opts parts globs =
    if ltb parts 2 && not opts.allow_onelevel
    then err one_level
    else if ltb 1 globs && opts.allow_pattern
    then err pattern
    else if ltb 0 globs && not opts.allow_pattern
    then err (invalid_char star)
    else ok tt

unfoldable pub check_all : Options → List ℕ → Result RefError (Unit {0})
check_all opts s = do globs ← check_parts 0 (split s); check_counts opts (length (split s)) globs

unfoldable pub ref_format : Options → List ℕ → Result RefError (Unit {0})
ref_format opts s =
    if same_chars s []
    then err empty
    else if same_chars s (at_sign ∷ [])
    then err lone_at
    else if same_chars s (dot ∷ [])
    then err starts_dot
    else check_all opts s
