-- ===== src/Refs/Qualified.antt =====
-- git-ref-format/core/src/deriv.rs: refnames below `refs/`, and namespaces. `none` is a panic, but in
-- from_refstr and namespaced.
pub mod Laws
use radicle_link.Prelude.{
  ℕ, zero, suc, Bool, true, false, ◌&&◌, Option, none, some, List, [], ◌∷◌, if◌then◌else◌, length,
}
use radicle_link.Refs.{same_chars}
use radicle_link.Refs.Name.{Name, push, join, extend, strip_prefix, components, from_iter}

-- `refs`
abbrev pub refs : Name
refs = 114 ∷ 101 ∷ 102 ∷ 115 ∷ []

-- `namespaces`
abbrev pub namespaces : Name
namespaces = 110 ∷ 97 ∷ 109 ∷ 101 ∷ 115 ∷ 112 ∷ 97 ∷ 99 ∷ 101 ∷ 115 ∷ []

-- `refs/namespaces`
abbrev pub refs_namespaces : Name
refs_namespaces =
    114 ∷ 101 ∷ 102 ∷ 115 ∷ 47 ∷ 110 ∷ 97 ∷ 109 ∷ 101 ∷ 115 ∷ 112 ∷ 97 ∷ 99 ∷ 101 ∷ 115 ∷ []

-- `Qualified::from_components`
abbrev pub from_components : Name → Name → List Name → Name
from_components a b tail = extend (push (join refs a) b) tail

abbrev pub qualified_from : Name → List Name → Option Name
qualified_from name [] = none
qualified_from name (x ∷ []) = none
qualified_from name (x ∷ y ∷ []) = none
qualified_from name (x ∷ y ∷ z ∷ tail) = if same_chars x refs then some name else none

-- `Qualified::from_refstr`
unfoldable pub from_refstr : Name → Option Name
from_refstr name = qualified_from name (components name)

abbrev pub three : List Name → Option (Name × Name × Name × List Name)
three [] = none
three (x ∷ []) = none
three (x ∷ y ∷ []) = none
three (x ∷ y ∷ z ∷ tail) = some (x, y, z, tail)

unfoldable pub non_empty_components : Name → Option (Name × Name × Name × List Name)
non_empty_components q = three (components q)

-- `add_namespace`
abbrev pub add_namespace : Name → Name → Option Name
add_namespace ns q = from_iter (refs ∷ namespaces ∷ ns ∷ components q)

abbrev pub namespaced_from : Name → List Name → Option Name
namespaced_from name [] = none
namespaced_from name (x ∷ []) = none
namespaced_from name (x ∷ y ∷ []) = none
namespaced_from name (x ∷ y ∷ z ∷ []) = none
namespaced_from name (x ∷ y ∷ z ∷ w ∷ tail) =
    if same_chars x refs && (same_chars y namespaces && same_chars w refs) then some name else none

-- `From<&RefStr> for Option<Namespaced>`
unfoldable pub namespaced : Name → Option Name
namespaced name = namespaced_from name (components name)

abbrev pub third : List Name → Option Name
third [] = none
third (x ∷ []) = none
third (x ∷ y ∷ []) = none
third (x ∷ y ∷ z ∷ tail) = some z

-- `namespace`
unfoldable pub namespace : Name → Option Name
namespace name = third (components name)

abbrev pub skip_one : List Name → List Name
skip_one [] = []
skip_one (x ∷ xs) = xs

unfoldable pub strip_namespace : Name → Option Name
strip_namespace name = elim (strip_prefix name refs_namespaces) [
  | none ↦ none
  | some rest ↦ from_iter (skip_one (components rest))
]

-- The loop of `strip_namespace_recursive`, on fuel.
unfoldable pub strip_loop : ℕ → Name → Option Name
strip_loop zero q = none
strip_loop (suc fuel) q = elim (namespaced q) [
  | none ↦ some q
  | some ns ↦ elim (strip_namespace ns) [ none ↦ none | some q' ↦ strip_loop fuel q' ]
]

unfoldable pub strip_namespace_recursive : Name → Option Name
strip_namespace_recursive name = elim (strip_namespace name) [
  | none ↦ none
  | some q ↦ strip_loop (length name) q
]
