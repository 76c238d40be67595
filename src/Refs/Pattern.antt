-- ===== src/Refs/Pattern.antt =====
-- git-ref-format/core/src/refspec.rs and refspec/iter.rs: refnames that may have a `*`.
pub mod Laws
use radicle_link.Prelude.{
  ℕ, Bool, true, false, Option, none, some, List, [], ◌∷◌, ◌++◌, map, ◌==◌, if◌then◌else◌, any,
  Result, ok, err, ◌>>=◌,
}
use radicle_link.Refs.{Options, star, solidus, same_chars, split}
use radicle_link.Refs.Name.{Name, push, drop_last}

-- `CHECK_OPTS`
abbrev pub pattern_opts : Options
pattern_opts = record { allow_onelevel = true; allow_pattern = true }

-- `with_pattern`, and `to_pattern` of a refname.
abbrev pub with_pattern : Name → Name → Name
with_pattern name p = push name p

pub data Component : Type 0 where
  glob : Option Name → Component
  normal : Name → Component

-- `AsRef<str> for Component`
abbrev pub as_ref : Component → Name
as_ref (glob none) = star ∷ []
as_ref (glob (some x)) = x
as_ref (normal x) = x

-- The closure of `Components::next`.
unfoldable pub component_of : Name → Component
component_of x =
    if same_chars x (star ∷ [])
    then glob none
    else if any (λ c. c == star) x
    then glob (some x)
    else normal x

abbrev pub components : Name → List Component
components p = map component_of (split p)

pub data DuplicateGlob : Type 0 where
  duplicate_glob : DuplicateGlob

-- The loop of `from_iter`; the flag is `seen_glob`.
unfoldable pub collect : Bool → List Component → Result DuplicateGlob Name
collect seen [] = ok []
collect seen (normal x ∷ cs) = do buf ← collect seen cs; ok (x ++ solidus ∷ buf)
collect true (glob x ∷ cs) = err duplicate_glob
collect false (glob x ∷ cs) = do buf ← collect true cs; ok (as_ref (glob x) ++ solidus ∷ buf)

-- `none` is the overflow of `buf.len() - 1` where there are no components.
abbrev pub without_last : Option Name → Option (Result DuplicateGlob Name)
without_last none = none
without_last (some s) = some (ok s)

abbrev pub truncated : Result DuplicateGlob Name → Option (Result DuplicateGlob Name)
truncated (err e) = some (err e)
truncated (ok buf) = without_last (drop_last buf)

-- `from_components` and `from_iter`
abbrev pub from_components : List Component → Option (Result DuplicateGlob Name)
from_components cs = truncated (collect false cs)
