-- ===== src/Replication/Peek/Fetch.antt =====
-- link-replication/src/peek/fetch.rs: the first phase of a fetch.
pub mod Laws
use radicle_link.Prelude.{
  ℕ, inl, inr, Bool, true, false, not, ◌&&◌, ◌==◌, Option, none, some, List, [], ◌∷◌, ◌++◌,
  if◌then◌else◌, Result, ok, err, Map, get, keys, filter,
}
use radicle_link.Net.Info.{PeerId}
use radicle_link.Refs.Name.{Name}
use radicle_link.Tracking.Policy.{Oid}
use radicle_link.Replication.Names.{
  Texts, Rad, id, selv, signed_refs, ids, Parsed, ParseError, parse,
}
use radicle_link.Replication.Wants.{FilteredRef, filtered_ref}
use radicle_link.Replication.Peek.{
  DataPolicy, deny, allowed, LayoutError, collect, required_refs, ref_prefixes, wanted_refs,
  guard_all, non_empty_prefixes,
}

pub record Spec : Type 0 where
  pub is_delegate : Bool
  pub policy : DataPolicy

pub record ForFetch : Type 0 where
  pub local_id : PeerId
  pub remote_id : PeerId
  pub tracked : Map Spec
  pub limit : ℕ

abbrev pub peers : ForFetch → List PeerId
peers self = filter (λ peer. not (peer == self.local_id)) (keys self.tracked)

-- The peer that a ref belongs to, unless it is the local one.
abbrev pub remote_of : ForFetch → Option PeerId → Option PeerId
remote_of self none = some self.remote_id
remote_of self (some peer) = if peer == self.local_id then none else some peer

-- The policy of the peer applies to its signed refs.
abbrev pub by_policy : DataPolicy → Rad Name → FilteredRef → Option FilteredRef
by_policy deny signed_refs r = none
by_policy allowed signed_refs r = some r
by_policy policy id r = some r
by_policy policy selv r = some r
by_policy policy (ids urn) r = some r

abbrev pub only_rad : Oid → PeerId → DataPolicy → Parsed Name → Option FilteredRef
only_rad tip peer policy parsed = elim parsed.inner [
  | inl r ↦ by_policy policy r (filtered_ref tip peer parsed)
  | inr name ↦ none
]

abbrev pub of_tracked : Oid → PeerId → Option Spec → Parsed Name → Option FilteredRef
of_tracked tip peer none parsed = none
of_tracked tip peer (some spec) parsed = only_rad tip peer spec.policy parsed

abbrev pub of_peer : ForFetch → Oid → Option PeerId → Parsed Name → Option FilteredRef
of_peer self tip none parsed = none
of_peer self tip (some peer) parsed = of_tracked tip peer (get peer self.tracked) parsed

abbrev pub of_parsed : ForFetch → Oid → Result ParseError (Parsed Name) → Option FilteredRef
of_parsed self tip (err e) = none
of_parsed self tip (ok parsed) = of_peer self tip (remote_of self parsed.remote) parsed

module _ (t : Texts Name) where
  unfoldable pub ref_filter : ForFetch → Name × Oid → Option FilteredRef
  ref_filter self (name, tip) = of_parsed self tip (parse t name)

  abbrev pub all_prefixes : PeerId → List PeerId → List (Option Name)
  all_prefixes remote [] = []
  all_prefixes remote (peer ∷ rest) = ref_prefixes t peer remote ++ all_prefixes remote rest

  unfoldable pub ls_refs : ForFetch → Option (Option (List Name))
  ls_refs self = non_empty_prefixes t (collect (all_prefixes self.remote_id (peers self)))

  -- The required refs of the delegates among the tracked peers.
  abbrev pub all_required : PeerId → PeerId → Map Spec → List (Option Name)
  all_required local remote [] = []
  all_required local remote ((peer, spec) ∷ rest) =
      let others = all_required local remote rest in
      if not (peer == local) && spec.is_delegate
      then required_refs t peer remote ++ others
      else others

  unfoldable pub pre_validate : ForFetch → List FilteredRef → Option (Result LayoutError (Unit {0}))
  pre_validate self rs =
      guard_all t (collect (all_required self.local_id self.remote_id self.tracked))
        (collect (wanted_refs t self.remote_id rs))
