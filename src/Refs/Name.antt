-- ===== src/Refs/Name.antt =====
-- git-ref-format/core/src/name.rs and name/iter.rs: refnames, joined and taken apart. A refname is the
-- list of its code points; `none` is a panic.
pub mod Laws
pub mod Valid
use radicle_link.Prelude.{
  ℕ, Bool, true, false, ◌||◌, Option, none, some, List, [], ◌∷◌, ◌++◌, ◌==◌, if◌then◌else◌, any,
  Result, ok, err,
}
use radicle_link.Refs.{Options, RefError, solidus, split, ref_format}

abbrev pub Name : Type 0
Name = List ℕ

-- `CHECK_OPTS`
abbrev pub name_opts : Options
name_opts = record { allow_onelevel = true; allow_pattern = false }

-- `TryFrom<String> for RefString`
abbrev pub as_checked : Name → Result RefError (Unit {0}) → Result RefError Name
as_checked s (ok u) = ok s
as_checked s (err e) = err e

abbrev pub try_from : Name → Result RefError Name
try_from s = as_checked s (ref_format name_opts s)

-- `push`, with which `join` and `and` are made.
abbrev pub push : Name → Name → Name
push name other = name ++ solidus ∷ other

abbrev pub join : Name → Name → Name
join name other = push name other

-- `extend`
abbrev pub extend : Name → List Name → Name
extend name [] = name
extend name (x ∷ xs) = extend (push name x) xs

-- What stands before the last slash: `rfind` and `truncate`.
unfoldable pub truncated : Name → Option Name
truncated [] = none
truncated (c ∷ cs) = elim (truncated cs) [
  | none ↦ if c == solidus then some [] else none
  | some front ↦ some (c ∷ front)
]

abbrev pub popped : Name → Option Name → Bool × Name
popped name none = (false, name)
popped name (some front) = (true, front)

abbrev pub pop : Name → Bool × Name
pop name = popped name (truncated name)

-- `strip_prefix` of `str`
unfoldable pub strip : List ℕ → List ℕ → Option (List ℕ)
strip [] s = some s
strip (c ∷ base) [] = none
strip (c ∷ base) (d ∷ s) = let rest = strip base s in if c == d then rest else none

-- `strip_prefix`
abbrev pub strip_slash : Option Name → Option Name
strip_slash none = none
strip_slash (some rest) = strip (solidus ∷ []) rest

unfoldable pub strip_prefix : Name → Name → Option Name
strip_prefix name base = strip_slash (strip base name)

-- `components`
abbrev pub components : Name → List Name
components name = split name

abbrev pub first_component : List Name → Option Name
first_component [] = none
first_component (c ∷ cs) = some c

-- `head`
abbrev pub head : Name → Option Name
head name = first_component (components name)

-- The loop of `from_iter`.
unfoldable pub push_components : List Name → Name
push_components [] = []
push_components (c ∷ cs) = c ++ solidus ∷ push_components cs

-- `buf.truncate(buf.len() - 1)`; `none` is the overflow on an empty string.
unfoldable pub drop_last : Name → Option Name
drop_last [] = none
drop_last (c ∷ []) = some []
drop_last (c ∷ d ∷ cs) = elim (drop_last (d ∷ cs)) [ none ↦ none | some rest ↦ some (c ∷ rest) ]

-- `from_iter`; the assertion is the case of the empty string.
abbrev pub from_iter : List Name → Option Name
from_iter cs = drop_last (push_components cs)

-- `Component::from_refstring`
unfoldable pub from_refstring : Name → Option Name
from_refstring name = if any (λ c. c == solidus) name then none else some name
