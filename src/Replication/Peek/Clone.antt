-- ===== src/Replication/Peek/Clone.antt =====
-- link-replication/src/peek/clone.rs: the first phase of a clone.
use radicle_link.Prelude.{inl, inr, Option, none, some, List, Result, ok, err, ℕ}
use radicle_link.Net.Info.{PeerId}
use radicle_link.Refs.Name.{Name}
use radicle_link.Tracking.Policy.{Oid}
use radicle_link.Replication.Names.{Texts, Parsed, ParseError, parse}
use radicle_link.Replication.Wants.{FilteredRef, filtered_ref}
use radicle_link.Replication.Peek.{
  LayoutError, collect, required_refs, ref_prefixes, wanted_refs, guard_all, non_empty_prefixes,
}

pub record ForClone : Type 0 where
  pub remote_id : PeerId
  pub limit : ℕ

-- Only refs of the remote itself, and of the rad category.
abbrev pub own_rad : Oid → PeerId → Parsed Name → Option FilteredRef
own_rad tip remote parsed = elim parsed.remote [
  | some peer ↦ none
  | none ↦ elim parsed.inner [ inl r ↦ some (filtered_ref tip remote parsed) | inr name ↦ none ]
]

abbrev pub own_parsed : Oid → PeerId → Result ParseError (Parsed Name) → Option FilteredRef
own_parsed tip remote (err e) = none
own_parsed tip remote (ok parsed) = own_rad tip remote parsed

module _ (t : Texts Name) where
  unfoldable pub ref_filter : ForClone → Name × Oid → Option FilteredRef
  ref_filter self (name, tip) = own_parsed tip self.remote_id (parse t name)

  unfoldable pub ls_refs : ForClone → Option (Option (List Name))
  ls_refs self = non_empty_prefixes t (collect (ref_prefixes t self.remote_id self.remote_id))

  unfoldable pub pre_validate : ForClone → List FilteredRef → Option (Result LayoutError (Unit {0}))
  pre_validate self rs =
      guard_all t (collect (required_refs t self.remote_id self.remote_id))
        (collect (wanted_refs t self.remote_id rs))
