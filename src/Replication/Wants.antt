-- ===== src/Replication/Wants.antt =====
-- link-replication/src/transmit.rs and the wants_haves of fetch.rs: what to ask a peer for. An object set
-- is a map in the order of the ids.
pub mod Steps
pub mod Laws
use radicle_link.Prelude.{
  ℕ, ◌⊎◌, inl, inr, Bool, true, false, not, ◌&&◌, ◌==◌, Option, none, some, List, [], ◌∷◌,
  if◌then◌else◌, Result, ok, err, ◌>>=◌, Map, insert, contains_key, keys, filter,
}
use radicle_link.Net.Info.{PeerId}
use radicle_link.Refs.Name.{Name}
use radicle_link.Refs.Qualified.{from_refstr, refs, namespaces}
use radicle_link.Tracking.Policy.{Oid}
use radicle_link.Replication.Names.{
  Texts, Rad, id, selv, signed_refs, ids, Parsed, remote_tracking, owned_name,
}
use radicle_link.Replication.Refdb.{Update, direct, symbolic, abort, allow}

-- `FilteredRef`, whose remote is always set.
pub record FilteredRef : Type 0 where
  pub tip : Oid
  pub remote : PeerId
  pub inner : Rad Name ⊎ Name

abbrev pub remote_or : Option PeerId → PeerId → PeerId
remote_or none remote = remote
remote_or (some peer) remote = peer

-- `FilteredRef::new`
abbrev pub filtered_ref : Oid → PeerId → Parsed Name → FilteredRef
filtered_ref tip remote parsed = record {
  tip = tip;
  remote = remote_or parsed.remote remote;
  inner = parsed.inner;
}

pub data WantsError (E : Type 0) : Type 0 where
  find_failed : E → WantsError E
  malformed : Name → WantsError E
  panicked : WantsError E

-- What is used of `Refdb` and `Odb`.
pub record Store (E : Type 0) : Type 0 where
  pub refname_to_id : Name → Result E (Option Oid)
  pub contains : Oid → Bool

pub record BuildWantsHaves : Type 0 where
  pub wants : Map (Unit {0})
  pub haves : Map (Unit {0})

abbrev pub nothing_yet : BuildWantsHaves
nothing_yet = record { wants = []; haves = [] }

abbrev pub want : Oid → BuildWantsHaves → BuildWantsHaves
want oid w = record w { wants = insert oid tt w.wants }

abbrev pub have : Oid → BuildWantsHaves → BuildWantsHaves
have oid w = record w { haves = insert oid tt w.haves }

-- `build`: nothing to ask for is `none`.
abbrev pub non_empty : List Oid → List Oid → Option (List Oid × List Oid)
non_empty haves [] = none
non_empty haves (x ∷ wants) = some (x ∷ wants, haves)

unfoldable pub build : BuildWantsHaves → Option (List Oid × List Oid)
build w = non_empty (keys w.haves) (filter (λ oid. not (contains_key oid w.haves)) (keys w.wants))

module _ (t : Texts Name) where
  -- `to_remote_tracking`
  abbrev pub to_remote_tracking : FilteredRef → Option (Option Name)
  to_remote_tracking r = remote_tracking t r.remote (owned_name t r.inner)

  abbrev pub tracking_of : PeerId → Name → Option (Option Name)
  tracking_of peer name = elim (from_refstr name) [
    | none ↦ some none
    | some q ↦ remote_tracking t peer q
  ]

module _ {E : Type 0} (db : Store E) where
  -- The part that `add` and `wants_haves` share.
  unfoldable pub look_up : Oid → Option Oid → BuildWantsHaves → BuildWantsHaves
  look_up tip none w = if db.contains tip then w else want tip w
  look_up tip (some oid) w =
      if not (tip == oid) && not (db.contains tip) then want tip (have oid w) else have oid w

  unfoldable pub want_ref : Name → Oid → BuildWantsHaves → Result (WantsError E) BuildWantsHaves
  want_ref name tip w = elim (db.refname_to_id name) [
    | err e ↦ err (find_failed e)
    | ok found ↦ ok (look_up tip found w)
  ]

  module _ (t : Texts Name) where
    abbrev pub add_tracked :
        Option (Option Name) → Oid → BuildWantsHaves → Result (WantsError E) BuildWantsHaves
    add_tracked none tip w = err panicked
    add_tracked (some none) tip w = err panicked
    add_tracked (some (some name)) tip w = want_ref name tip w

    unfoldable pub add : List FilteredRef → BuildWantsHaves → Result (WantsError E) BuildWantsHaves
    add [] w = ok w
    add (r ∷ rs) w =
        add_tracked (to_remote_tracking t r) r.tip w >>= (λ (w' : BuildWantsHaves). add rs w')

    abbrev pub signed_tracked :
        Name → Option (Option Name) → Oid → BuildWantsHaves → Result (WantsError E) BuildWantsHaves
    signed_tracked name none tip w = err panicked
    signed_tracked name (some none) tip w = err (malformed name)
    signed_tracked name (some (some tracking)) tip w = want_ref tracking tip w

    unfoldable pub add_signed :
        PeerId → List (Name × Oid) → BuildWantsHaves → Result (WantsError E) BuildWantsHaves
    add_signed peer [] w = ok w
    add_signed peer ((name, tip) ∷ refs) w =
        signed_tracked name (tracking_of t peer name) tip w
        >>= (λ (w' : BuildWantsHaves). add_signed peer refs w')

    unfoldable pub add_all_signed :
        List (PeerId × List (Name × Oid)) → BuildWantsHaves → Result (WantsError E) BuildWantsHaves
    add_all_signed [] w = ok w
    add_all_signed ((peer, refs) ∷ rest) w =
        add_signed peer refs w >>= (λ (w' : BuildWantsHaves). add_all_signed rest w')

    -- `wants_haves` of fetch.rs
    unfoldable pub wants_haves :
        List FilteredRef
        → List (PeerId × List (Name × Oid))
        → Result (WantsError E) (Option (List Oid × List Oid))
    wants_haves filtered signed = do
      w ← add_all_signed signed nothing_yet
      w' ← add filtered w
      ok (build w')
