-- ===== src/Replication/State.antt =====
-- link-replication/src/state.rs: what a replication has gathered. A urn of the local storage is a number,
-- and the network and the odb are parameters.
pub mod Laws
use radicle_link.Prelude.{
  ℕ, ◌⊎◌, inl, inr, Bool, true, false, Option, none, some, is_some, List, [], ◌∷◌, ◌++◌,
  if◌then◌else◌, Result, ok, err, ◌>>=◌, map_err, Map, get, insert,
}
use radicle_link.Net.Info.{PeerId}
use radicle_link.Refs.Name.{Name}
use radicle_link.Tracking.Policy.{Oid}
use radicle_link.Replication.Names.{Texts, Rad, id, selv, signed_refs, ids}
use radicle_link.Replication.Refdb.{Update, Applied, append, Mem, find, update}
use radicle_link.Replication.Wants.{FilteredRef, WantsError}
use radicle_link.Replication.Sigrefs.{Sigrefs}
use radicle_link.Replication.Peek.{LayoutError}

abbrev pub Urn : Type 0
Urn = ℕ

-- `track::Rel`
pub data Rel : Type 0 where
  delegation : PeerId ⊎ Urn → Rel
  self_ref : Urn → Rel

pub record FetchState : Type 0 where
  pub refs : Mem
  pub idts : Map Oid
  pub dels : Map (Map Oid)
  pub sigs : Map Oid
  pub tips : List Update
  pub trks : List Rel

-- `Default`
abbrev pub fresh : FetchState
fresh = record { refs = []; idts = []; dels = []; sigs = []; tips = []; trks = [] }

abbrev pub nothing_applied : Applied
nothing_applied = record { rejected = []; updated = [] }

-- The body of the loop of `update_all`.
abbrev pub update_next : Update → FetchState → Applied × FetchState
update_next up s =
    let (applied, mem) = update (up ∷ []) s.refs in
    (applied, record s { tips = s.tips ++ up ∷ []; refs = mem })

unfoldable pub update_all : List Update → FetchState → Applied × FetchState
update_all [] s = (nothing_applied, s)
update_all (up ∷ ups) s =
    let (first, s') = update_next up s in
    let (rest, s2) = update_all ups s' in (append first rest, s2)

abbrev pub lookup_in : Urn → Option (Map Oid) → Option Oid
lookup_in urn none = none
lookup_in urn (some m) = get urn m

abbrev pub lookup_delegations : FetchState → PeerId → Urn → Option Oid
lookup_delegations s peer urn = lookup_in urn (get peer s.dels)

abbrev pub clear_rad_refs : FetchState → FetchState
clear_rad_refs s = record s { idts = []; dels = []; sigs = [] }

-- `BTreeMap::entry` and `or_insert_with`
abbrev pub or_empty : Option (Map Oid) → Map Oid
or_empty none = []
or_empty (some m) = m

abbrev pub note_delegation : PeerId → Oid → Option Urn → FetchState → FetchState
note_delegation peer tip none s = s
note_delegation peer tip (some urn) s = record s {
  dels = insert peer (insert urn tip (or_empty (get peer s.dels))) s.dels;
}

module _ (u : Texts Urn) where
  abbrev pub note_rad : PeerId → Oid → Rad Name → FetchState → FetchState
  note_rad peer tip id s = record s { idts = insert peer tip s.idts }
  note_rad peer tip (ids name) s = note_delegation peer tip (u.try_from_id name) s
  note_rad peer tip signed_refs s = record s { sigs = insert peer tip s.sigs }
  note_rad peer tip selv s = s

  abbrev pub note : FilteredRef → FetchState → FetchState
  note r s = elim r.inner [ inl rad ↦ note_rad r.remote r.tip rad s | inr name ↦ s ]

  -- The loop of `step`.
  unfoldable pub note_all : List FilteredRef → FetchState → FetchState
  note_all [] s = s
  note_all (r ∷ rs) s = note_all rs (note r s)

-- The updates that a phase prepares, `internal::Updates`.
pub record Updates : Type 0 where
  pub tips : List Update
  pub track : List Rel

-- A phase: what `Negotiation`, `Layout` and `UpdateTips` say, with their panics as `none`.
pub record Phase (E : Type 0) : Type 0 where
  pub ls_refs : Option (Option (List Name))
  pub ref_filter : Name × Oid → Option FilteredRef
  pub pre_validate : List FilteredRef → Option (Result LayoutError (Unit {0}))
  pub wants_haves : List FilteredRef → Result (WantsError E) (Option (List Oid × List Oid))
  pub fetch_limit : ℕ
  pub prepare : FetchState → List FilteredRef → Result E Updates

-- The reload of the storage, and the other side of a connection.
pub record Net (E : Type 0) : Type 0 where
  pub reload : Result E (Unit {0})
  pub run_ls_refs : List Name → Result E (List (Name × Oid))
  pub run_fetch : ℕ → List Oid → List Oid → Result E (Unit {0})

pub data StepError (E : Type 0) : Type 0 where
  step_failed : E → StepError E
  bad_layout : LayoutError → StepError E
  bad_wants : WantsError E → StepError E
  step_panicked : StepError E

abbrev pub filter_map : (Name × Oid → Option FilteredRef) → List (Name × Oid) → List FilteredRef
filter_map f [] = []
filter_map f (x ∷ xs) = let rest = filter_map f xs in elim (f x) [ none ↦ rest | some r ↦ r ∷ rest ]

module _ {E : Type 0} (net : Net E) (phase : Phase E) where
  abbrev pub advertised : Option (Option (List Name)) → Result (StepError E) (List FilteredRef)
  advertised none = err step_panicked
  advertised (some none) = ok []
  advertised (some (some prefixes)) = elim (net.run_ls_refs prefixes) [
    | err e ↦ err (step_failed e)
    | ok found ↦ ok (filter_map phase.ref_filter found)
  ]

  abbrev pub laid_out : Option (Result LayoutError (Unit {0})) → Result (StepError E) (Unit {0})
  laid_out none = err step_panicked
  laid_out (some (err e)) = err (bad_layout e)
  laid_out (some (ok done)) = ok tt

  abbrev pub fetched :
      Result (WantsError E) (Option (List Oid × List Oid)) → Result (StepError E) (Unit {0})
  fetched (err e) = err (bad_wants e)
  fetched (ok none) = ok tt
  fetched (ok (some (want, have))) = map_err step_failed (net.run_fetch phase.fetch_limit want have)

  abbrev pub apply_updates : Updates → FetchState → FetchState
  apply_updates up s = (update_all up.tips (record s { trks = s.trks ++ up.track })).1

  -- `step`
  unfoldable pub step : Texts Urn → FetchState → Result (StepError E) FetchState
  step u s = do
    reloaded ← map_err step_failed net.reload
    rs ← advertised phase.ls_refs
    laid ← laid_out (phase.pre_validate rs)
    done ← fetched (phase.wants_haves rs)
    up ← map_err step_failed (phase.prepare (note_all u rs s) rs)
    ok (apply_updates up (note_all u rs s))

-- `Shim`: the refs in memory before those of the storage.
abbrev pub shim_found : {E : Type 0} → Option Oid → Result E (Option Oid) → Result E (Option Oid)
shim_found none inner = inner
shim_found (some oid) inner = ok (some oid)

unfoldable pub shim_refname_to_id :
    {E : Type 0} → (Name → Result E (Option Oid)) → FetchState → Name → Result E (Option Oid)
shim_refname_to_id inner s name = shim_found (find name s.refs) (inner name)

-- What is used of the `SignedRefs` of the storage.
pub record Loads (E : Type 0) : Type 0 where
  pub load : PeerId → ℕ → Result E (Option Sigrefs)
  pub load_at : Oid → PeerId → ℕ → Result E (Option Sigrefs)

module _ {E : Type 0} (inner : Loads E) where
  abbrev pub load_tip : Option Oid → PeerId → ℕ → Result E (Option Sigrefs)
  load_tip none peer cutoff = ok none
  load_tip (some tip) peer cutoff = inner.load_at tip peer cutoff

  abbrev pub shim_load_from : Map Oid → PeerId → ℕ → Result E (Option Sigrefs)
  shim_load_from [] peer cutoff = inner.load peer cutoff
  shim_load_from (x ∷ sigs) peer cutoff = load_tip (get peer (x ∷ sigs)) peer cutoff

  unfoldable pub shim_load : FetchState → PeerId → ℕ → Result E (Option Sigrefs)
  shim_load s peer cutoff = shim_load_from s.sigs peer cutoff

abbrev pub related : Rel → PeerId ⊎ Urn
related (delegation x) = x
related (self_ref urn) = inr urn

abbrev pub related_all : List Rel → List (PeerId ⊎ Urn)
related_all [] = []
related_all (rel ∷ rels) = related rel ∷ related_all rels

-- `track`
abbrev pub shim_track : List Rel → FetchState → List (PeerId ⊎ Urn) × FetchState
shim_track rels s = (related_all rels, record s { trks = s.trks ++ rels })
