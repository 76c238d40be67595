-- ===== src/Replication/Fetch.antt =====
-- link-replication/src/fetch.rs: the phase that fetches what the signed refs say. `RefScan::scan` is a
-- parameter, with a result for the scan and one for each ref.
pub mod Laws
pub mod Signed
pub mod Transitive
use radicle_link.Prelude.{
  ℕ, ◌⊎◌, inl, inr, Bool, true, false, ◌&&◌, ◌==◌, Option, none, some, List, [], ◌∷◌, ◌++◌,
  if◌then◌else◌, Result, ok, err, ◌>>=◌, Map, contains_key, keys,
}
use radicle_link.Net.Info.{PeerId}
use radicle_link.Refs.{same_chars}
use radicle_link.Refs.Name.{Name, push, join}
use radicle_link.Refs.Qualified.{refs}
use radicle_link.Tracking.Policy.{Oid}
use radicle_link.Tracking.Reference.Text.{rad, remotes}
use radicle_link.Replication.Names.{
  Texts, Rad, id, selv, signed_refs, ids, Parsed, ParseError, parse,
}
use radicle_link.Replication.Refdb.{
  Policy, abort, reject, allow, Update, direct, symbolic, prune, starts_with,
}
use radicle_link.Replication.Wants.{
  FilteredRef, filtered_ref, tracking_of, Store, WantsError, wants_haves,
}
use radicle_link.Replication.Sigrefs.{SignedAt, Flattened}
use radicle_link.Replication.Peek.{LayoutError, collect, contains, ref_prefixes, non_empty_prefixes}

pub record Fetch : Type 0 where
  pub local_id : PeerId
  pub remote_id : PeerId
  pub signed : Flattened
  pub limit : ℕ

-- What is used of a scanned ref.
pub record Known : Type 0 where
  pub name : Name
  pub target : Oid ⊎ Name

pub data PrepareError (E : Type 0) : Type 0 where
  scan_failed : E → PrepareError E
  prepare_panicked : PrepareError E

abbrev pub for_peer : Fetch → Oid → PeerId → Parsed Name → Rad Name → Option FilteredRef
for_peer self tip peer parsed selv = none
for_peer self tip peer parsed id = some (filtered_ref tip peer parsed)
for_peer self tip peer parsed signed_refs = some (filtered_ref tip peer parsed)
for_peer self tip peer parsed (ids urn) = some (filtered_ref tip peer parsed)

abbrev pub for_rad : Fetch → Oid → PeerId → Parsed Name → Option FilteredRef
for_rad self tip peer parsed = elim parsed.inner [
  | inr name ↦ none
  | inl r ↦ if contains_key peer self.signed.remotes then for_peer self tip peer parsed r else none
]

abbrev pub for_parsed : Fetch → Oid → Result ParseError (Parsed Name) → Option FilteredRef
for_parsed self tip (err e) = none
for_parsed self tip (ok parsed) = elim parsed.remote [
  | none ↦ none
  | some peer ↦ for_rad self tip peer parsed
]

-- `refs/remotes/<peer>`
abbrev pub peer_prefix : Texts Name → PeerId → Name
peer_prefix t peer = push (join refs remotes) (t.encode_peer peer)

abbrev pub rad_prefix : Texts Name → PeerId → Name
rad_prefix t peer = push (peer_prefix t peer) rad

abbrev pub directs : List (Name × Oid) → List Update
directs [] = []
directs ((name, tip) ∷ tracked) = direct name tip allow ∷ directs tracked

abbrev pub names_of : List (Name × Oid) → List Name
names_of [] = []
names_of ((name, tip) ∷ tracked) = name ∷ names_of tracked

-- A known ref, of which those of rad and those that are signed are left alone.
abbrev pub prune_known : Name → List Name → Known → List Update
prune_known rad_prefix signed known =
    if starts_with rad_prefix known.name
    then []
    else if contains known.name signed
    then []
    else prune known.name known.target ∷ []

module _ {E : Type 0} where
  unfoldable pub prunes :
      Name → List Name → List (Result E Known) → Result (PrepareError E) (List Update)
  prunes rad_prefix signed [] = ok []
  prunes rad_prefix signed (err e ∷ items) = err (scan_failed e)
  prunes rad_prefix signed (ok known ∷ items) = do
    rest ← prunes rad_prefix signed items
    ok (prune_known rad_prefix signed known ++ rest)

  abbrev pub prunes_of :
      Name → List Name → Result E (List (Result E Known)) → Result (PrepareError E) (List Update)
  prunes_of rad_prefix signed (err e) = err (scan_failed e)
  prunes_of rad_prefix signed (ok items) = prunes rad_prefix signed items

module _ {E : Type 0} (t : Texts Name) (scan : Name → Result E (List (Result E Known))) where
  abbrev pub track_one : Option (Option Name) → Oid → Result (PrepareError E) (Name × Oid)
  track_one none tip = err prepare_panicked
  track_one (some none) tip = err prepare_panicked
  track_one (some (some name)) tip = ok (name, tip)

  -- The signed refs of a peer, by the names under which they are tracked.
  unfoldable pub track_all :
      PeerId → List (Name × Oid) → Result (PrepareError E) (List (Name × Oid))
  track_all peer [] = ok []
  track_all peer ((name, tip) ∷ pairs) = do
    first ← track_one (tracking_of t peer name) tip
    rest ← track_all peer pairs
    ok (first ∷ rest)

  -- The body of the loop of `prepare`.
  unfoldable pub prepare_peer : PeerId → List (Name × Oid) → Result (PrepareError E) (List Update)
  prepare_peer peer pairs = do
    tracked ← track_all peer pairs
    pruned ← prunes_of (rad_prefix t peer) (names_of tracked) (scan (peer_prefix t peer))
    ok (directs tracked ++ pruned)

  unfoldable pub prepare_all : Map SignedAt → Result (PrepareError E) (List Update)
  prepare_all [] = ok []
  prepare_all ((peer, s) ∷ m) = do
    first ← prepare_peer peer s.refs
    rest ← prepare_all m
    ok (first ++ rest)

  -- `prepare`, whose tips are the updates. It tracks nothing.
  abbrev pub prepare : Fetch → Result (PrepareError E) (List Update)
  prepare self = prepare_all self.signed.refs

module _ (t : Texts Name) where
  unfoldable pub ref_filter : Fetch → Name × Oid → Option FilteredRef
  ref_filter self (name, tip) = for_parsed self tip (parse t name)

  abbrev pub prefixes : PeerId → List PeerId → List (Option Name)
  prefixes remote [] = []
  prefixes remote (peer ∷ peers) = ref_prefixes t peer remote ++ prefixes remote peers

  unfoldable pub ls_refs : Fetch → Option (Option (List Name))
  ls_refs self = non_empty_prefixes t (collect (prefixes self.remote_id (keys self.signed.remotes)))

-- The signed refs of each peer, as `wants_haves` reads them.
abbrev pub signed_lists : Map SignedAt → List (PeerId × List (Name × Oid))
signed_lists [] = []
signed_lists ((peer, s) ∷ m) = (peer, s.refs) ∷ signed_lists m

unfoldable pub fetch_wants_haves :
    {E : Type 0}
    → Store E
    → Texts Name
    → Fetch
    → List FilteredRef
    → Result (WantsError E) (Option (List Oid × List Oid))
fetch_wants_haves db t self rs = wants_haves db t rs (signed_lists self.signed.refs)

-- `pre_validate`: no layout errors to check for.
abbrev pub pre_validate : Fetch → List FilteredRef → Result LayoutError (Unit {0})
pre_validate self rs = ok tt
