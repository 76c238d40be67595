-- ===== src/Replication/Fetch/Transitive.antt =====
-- link-replication/src/fetch/transitive.rs: the phase for the transitively tracked peers.
use radicle_link.Prelude.{
  ℕ, inl, inr, ◌||◌, ◌==◌, Option, none, some, List, [], ◌∷◌, ◌++◌, if◌then◌else◌, Result, ok, err,
  Map, get, contains_key, keys, any,
}
use radicle_link.Net.Info.{PeerId}
use radicle_link.Refs.Name.{Name}
use radicle_link.Tracking.Policy.{Oid}
use radicle_link.Replication.Names.{
  Texts, Rad, id, selv, signed_refs, ids, Parsed, ParseError, parse, scoped, rad_name,
}
use radicle_link.Replication.Wants.{FilteredRef, filtered_ref, Store, WantsError, wants_haves}
use radicle_link.Replication.Sigrefs.{Sigrefs}
use radicle_link.Replication.Peek.{
  LayoutError, collect, ref_prefixes, required_refs, wanted_refs, guard_all, non_empty_prefixes,
}

pub record Transitive : Type 0 where
  pub local_id : PeerId
  pub remote_id : PeerId
  pub signed : Map Sigrefs
  pub identities : List PeerId
  pub denied : List PeerId
  pub limit : ℕ

abbrev pub seen_at : Option Sigrefs → PeerId → Parsed Name → Option FilteredRef
seen_at none peer parsed = none
seen_at (some s) peer parsed = some (filtered_ref s.at peer parsed)

-- A ref of a peer with signed refs, or one that is denied: `rad/signed_refs` is taken where it was seen.
abbrev pub of_known : Transitive → Oid → PeerId → Parsed Name → Rad Name → Option FilteredRef
of_known self tip peer parsed signed_refs = seen_at (get peer self.signed) peer parsed
of_known self tip peer parsed id = some (filtered_ref tip peer parsed)
of_known self tip peer parsed selv = some (filtered_ref tip peer parsed)
of_known self tip peer parsed (ids urn) = some (filtered_ref tip peer parsed)

abbrev pub of_other : Oid → PeerId → Parsed Name → Rad Name → Option FilteredRef
of_other tip peer parsed id = some (filtered_ref tip peer parsed)
of_other tip peer parsed (ids urn) = some (filtered_ref tip peer parsed)
of_other tip peer parsed selv = none
of_other tip peer parsed signed_refs = none

abbrev pub of_rad : Transitive → Oid → PeerId → Parsed Name → Option FilteredRef
of_rad self tip peer parsed = elim parsed.inner [
  | inr name ↦ none
  | inl r ↦
      if contains_key peer self.signed || any (λ x. x == peer) self.denied
      then of_known self tip peer parsed r
      else of_other tip peer parsed r
]

abbrev pub of_parsed : Transitive → Oid → Result ParseError (Parsed Name) → Option FilteredRef
of_parsed self tip (err e) = none
of_parsed self tip (ok parsed) = elim parsed.remote [
  | none ↦ none
  | some peer ↦ of_rad self tip peer parsed
]

-- The signed refs of each peer, as `wants_haves` reads them.
abbrev pub combined_lists : Map Sigrefs → List (PeerId × List (Name × Oid))
combined_lists [] = []
combined_lists ((peer, s) ∷ m) = (peer, s.refs) ∷ combined_lists m

module _ (t : Texts Name) where
  unfoldable pub ref_filter : Transitive → Name × Oid → Option FilteredRef
  ref_filter self (name, tip) = of_parsed self tip (parse t name)

  abbrev pub prefixes_of : PeerId → List PeerId → List (Option Name)
  prefixes_of remote [] = []
  prefixes_of remote (peer ∷ peers) = ref_prefixes t peer remote ++ prefixes_of remote peers

  unfoldable pub ls_refs : Transitive → Option (Option (List Name))
  ls_refs self =
      non_empty_prefixes t
        (collect (prefixes_of self.remote_id (keys self.signed ++ self.denied ++ self.identities)))

  abbrev pub required_of : PeerId → List PeerId → List (Option Name)
  required_of remote [] = []
  required_of remote (peer ∷ peers) = required_refs t peer remote ++ required_of remote peers

  abbrev pub required_ids : PeerId → List PeerId → List (Option Name)
  required_ids remote [] = []
  required_ids remote (peer ∷ peers) =
      scoped t peer remote (rad_name t id) ∷ required_ids remote peers

  unfoldable pub pre_validate :
      Transitive → List FilteredRef → Option (Result LayoutError (Unit {0}))
  pre_validate self rs =
      guard_all t
        (collect (
          required_of self.remote_id (keys self.signed) ++ required_ids self.remote_id self.denied))
        (collect (wanted_refs t self.remote_id rs))

unfoldable pub transitive_wants_haves :
    {E : Type 0}
    → Store E
    → Texts Name
    → Transitive
    → List FilteredRef
    → Result (WantsError E) (Option (List Oid × List Oid))
transitive_wants_haves db t self rs = wants_haves db t rs (combined_lists self.signed)
