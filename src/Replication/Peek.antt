-- ===== src/Replication/Peek.antt =====
-- link-replication/src/peek.rs, peek/clone.rs and peek/fetch.rs: what is asked of a peer first. A set of
-- names is a list, and the tracked peers are a map in the order of the peers.
pub mod Clone
pub mod Fetch
pub mod Laws
use radicle_link.Prelude.{
  ℕ, inl, inr, Bool, true, false, not, ◌&&◌, ◌==◌, Option, none, some, List, [], ◌∷◌, ◌++◌, map,
  filter, if◌then◌else◌, Result, ok, err, ◌>>=◌, Map, get, any,
}
use radicle_link.Net.Info.{PeerId}
use radicle_link.Refs.{same_chars}
use radicle_link.Refs.Name.{Name, push, join}
use radicle_link.Refs.Qualified.{refs}
use radicle_link.Tracking.Policy.{Oid}
use radicle_link.Tracking.Reference.Text.{rad, remotes}
use radicle_link.Replication.Names.{
  Texts, Rad, id, selv, signed_refs, ids, Parsed, ParseError, rad_name, owned_name, scoped, parse,
  ids_name,
}
use radicle_link.Replication.Wants.{
  FilteredRef, filtered_ref, Store, BuildWantsHaves, nothing_yet, build, add, WantsError,
}

-- `DataPolicy` of track.rs
pub data DataPolicy : Type 0 where
  deny allowed : DataPolicy

pub data LayoutError : Type 0 where
  missing_required_refs : List Name → LayoutError

-- Names that are written one by one; a panic of one is a panic of all.
abbrev pub also : Option Name → Option (List Name) → Option (List Name)
also none rest = none
also (some name) none = none
also (some name) (some names) = some (name ∷ names)

abbrev pub collect : List (Option Name) → Option (List Name)
collect [] = some []
collect (name ∷ names) = also name (collect names)

abbrev pub contains : Name → List Name → Bool
contains name names = any (same_chars name) names

-- `RefPrefix::from_prefix`, of `Prefix::RadIds`
abbrev pub ids_prefix : {U : Type 0} → Texts U → Option PeerId → Name
ids_prefix t none = push (join refs rad) (ids_name ++ 47 ∷ [])
ids_prefix t (some peer) =
    push (push (push (join refs remotes) (t.encode_peer peer)) rad) (ids_name ++ 47 ∷ [])

abbrev pub guard_diff : List Name → Result LayoutError (Unit {0})
guard_diff [] = ok tt
guard_diff (x ∷ diff) = err (missing_required_refs (x ∷ diff))

-- `guard_required`
unfoldable pub guard_required : List Name → List Name → Result LayoutError (Unit {0})
guard_required required [] = ok tt
guard_required required (x ∷ wanted) =
    guard_diff (filter (λ name. not (contains name (x ∷ wanted))) required)

module _ (t : Texts Name) where
  unfoldable pub ref_prefixes : PeerId → PeerId → List (Option Name)
  ref_prefixes peer remote =
      scoped t peer remote (rad_name t id)
      ∷ scoped t peer remote (rad_name t selv)
      ∷ scoped t peer remote (rad_name t signed_refs)
      ∷ some (ids_prefix t (if peer == remote then none else some peer))
      ∷ []

  unfoldable pub required_refs : PeerId → PeerId → List (Option Name)
  required_refs peer remote =
      scoped t peer remote (rad_name t id) ∷ scoped t peer remote (rad_name t signed_refs) ∷ []

  abbrev pub wanted_refs : PeerId → List FilteredRef → List (Option Name)
  wanted_refs remote rs =
      map (λ (r : FilteredRef). scoped t r.remote remote (owned_name t r.inner)) rs

  -- The `pre_validate` of every phase that has required refs; `none` is a panic.
  abbrev pub guard_all :
      Option (List Name) → Option (List Name) → Option (Result LayoutError (Unit {0}))
  guard_all none wanted = none
  guard_all (some required) none = none
  guard_all (some required) (some wanted) = some (guard_required required wanted)

  -- `NonEmptyVec::from_vec`
  abbrev pub non_empty_prefixes : Option (List Name) → Option (Option (List Name))
  non_empty_prefixes none = none
  non_empty_prefixes (some []) = some none
  non_empty_prefixes (some (x ∷ xs)) = some (some (x ∷ xs))

-- The `wants_haves` of `ForClone` and of `ForFetch`.
unfoldable pub peek_wants_haves :
    {E : Type 0}
    → Store E
    → Texts Name
    → List FilteredRef
    → Result (WantsError E) (Option (List Oid × List Oid))
peek_wants_haves db t rs = do w ← add db t rs nothing_yet; ok (build w)
