-- ===== src/Tracking/Batch.antt =====
-- link-tracking/src/git/tracking/batch.rs: several actions as one transaction. The actions on one urn
-- and peer are fused first.
pub mod Entries
pub mod Laws
pub mod Runs
use radicle_link.Prelude.{
  ℕ, ◌⊎◌, inl, inr, Bool, true, false, ◌&&◌, ◌||◌, Option, none, some, List, [], ◌∷◌, ◌++◌, map,
  ltb, ◌==◌, if◌then◌else◌, Result, ok, err, ◌>>=◌, map_err,
}
use radicle_link.Net.Info.{PeerId}
use radicle_link.Tracking.Policy.{
  Oid, Track, Untrack, PreviousValue, PreviousError, must_exist_and_match, Reduction, simple,
  reduction_list, WithConfig, compose_track, Entry, compose_entry, compose_reduction,
}
use radicle_link.Tracking.Reference.{Urn, RefName, ref_name}
use radicle_link.Tracking.Refdb.{
  Update, write, delete, Updated, Applied, TxnError, Git, Refs, update,
}
use radicle_link.Tracking.Ops.{Odb, Ref, Db, find_reference}

pub data Action (C : Type 0) : Type 0 where
  track_action : Urn → Option PeerId → C → Track → Action C
  untrack_action : Urn → PeerId → Untrack → Action C

-- `BTreeMap`, by its entries in the order of the keys.
module _ {K T : Type 0} (lt same : K → K → Bool) where
  unfoldable pub get_entry : K → List (K × Reduction T) → Option (Reduction T)
  get_entry k [] = none
  get_entry k ((j, r) ∷ m) = let rest = get_entry k m in if same j k then some r else rest

  unfoldable pub replace_entry : K → Reduction T → List (K × Reduction T) → List (K × Reduction T)
  replace_entry k new [] = []
  replace_entry k new ((j, r) ∷ m) =
      let rest = replace_entry k new m in if same j k then (j, new) ∷ rest else (j, r) ∷ rest

  unfoldable pub add_entry : K → Reduction T → List (K × Reduction T) → List (K × Reduction T)
  add_entry k new [] = (k, new) ∷ []
  add_entry k new ((j, r) ∷ m) =
      let rest = add_entry k new m in if lt k j then (k, new) ∷ (j, r) ∷ m else (j, r) ∷ rest

  -- `entry(k).and_modify(compose).or_insert(simple)`; `none` stands for a panic of `compose`.
  unfoldable pub upsert :
      (T → T → Reduction T) → K → T → List (K × Reduction T) → Option (List (K × Reduction T))
  upsert compose k t m = elim (get_entry k m) [
    | none ↦ some (add_entry k (simple t) m)
    | some r ↦ elim (compose_reduction compose r t) [
      | none ↦ none
      | some new ↦ some (replace_entry k new m)
    ]
  ]

abbrev pub PairKey : Type 0
PairKey = Urn × PeerId

abbrev pub same_path : Option ℕ → Option ℕ → Bool
same_path none none = true
same_path none (some b) = false
same_path (some a) none = false
same_path (some a) (some b) = a == b

abbrev pub lt_path : Option ℕ → Option ℕ → Bool
lt_path none none = false
lt_path none (some b) = true
lt_path (some a) none = false
lt_path (some a) (some b) = ltb a b

abbrev pub same_urn : Urn → Urn → Bool
same_urn a b = a.id == b.id && same_path a.path b.path

abbrev pub lt_urn : Urn → Urn → Bool
lt_urn a b = ltb a.id b.id || (a.id == b.id && lt_path a.path b.path)

abbrev pub same_pair : PairKey → PairKey → Bool
same_pair a b = same_urn a.0 b.0 && a.1 == b.1

abbrev pub lt_pair : PairKey → PairKey → Bool
lt_pair a b = lt_urn a.0 b.0 || (same_urn a.0 b.0 && ltb a.1 b.1)

-- `pairs` and `defaults` of `fuse`.
pub record Fused (C : Type 0) : Type 0 where
  pub pairs : List (PairKey × Reduction (Entry C))
  pub defaults : List (Urn × Reduction (WithConfig C))

module _ {C : Type 0} where
  abbrev pub with_pairs : Fused C → Option (List (PairKey × Reduction (Entry C))) → Option (Fused C)
  with_pairs f none = none
  with_pairs f (some pairs) = some (record f { pairs = pairs })

  abbrev pub with_defaults :
      Fused C → Option (List (Urn × Reduction (WithConfig C))) → Option (Fused C)
  with_defaults f none = none
  with_defaults f (some defaults) = some (record f { defaults = defaults })

  unfoldable pub fuse_action : Fused C → Action C → Option (Fused C)
  fuse_action f (track_action urn none config policy) = with_defaults f (
      upsert lt_urn same_urn compose_track urn (record { policy = policy; config = config })
        f.defaults)
  fuse_action f (track_action urn (some peer) config policy) = with_pairs f (
      upsert lt_pair same_pair compose_entry (urn, peer)
        (inl (record { policy = policy; config = config })) f.pairs)
  fuse_action f (untrack_action urn peer policy) =
      with_pairs f (upsert lt_pair same_pair compose_entry (urn, peer) (inr policy) f.pairs)

  unfoldable pub fuse_each : Fused C → List (Action C) → Option (Fused C)
  fuse_each f [] = some f
  fuse_each f (a ∷ rest) = elim (fuse_action f a) [ none ↦ none | some f' ↦ fuse_each f' rest ]

  abbrev pub pair_action : PairKey → Entry C → Action C
  pair_action (urn, peer) (inl w) = track_action urn (some peer) w.config w.policy
  pair_action (urn, peer) (inr policy) = untrack_action urn peer policy

  abbrev pub default_action : Urn → WithConfig C → Action C
  default_action urn w = track_action urn none w.config w.policy

  unfoldable pub flatten :
      {K T : Type 0} → (K → T → Action C) → List (K × Reduction T) → List (Action C)
  flatten action [] = []
  flatten action ((k, r) ∷ m) = map (action k) (reduction_list r) ++ flatten action m

  -- `fuse`
  unfoldable pub fuse : List (Action C) → Option (List (Action C))
  fuse actions = elim (fuse_each (record { pairs = []; defaults = [] }) actions) [
    | none ↦ none
    | some f ↦ some (flatten pair_action f.pairs ++ flatten default_action f.defaults)
  ]

pub data BatchError (X : Type 0) : Type 0 where
  write_obj : X → BatchError X
  find_ref txn : TxnError → BatchError X
  missing_ref : RefName → BatchError X

pub data BatchUpdated : Type 0 where
  tracked untracked : Ref → BatchUpdated

-- `From<refdb::Updated> for Updated`
abbrev pub batch_updated : Updated → BatchUpdated
batch_updated (Updated.written name target) = tracked (record { name = name; target = target })
batch_updated (Updated.deleted name previous) =
    untracked (record { name = name; target = previous })

pub record BatchApplied : Type 0 where
  pub updates : List BatchUpdated
  pub rejections : List PreviousError

-- `same_config` is `Eq` for `Config`, by which the cache of written configurations is searched.
module _ {O C X : Type 0} (git : Git) (odb : Odb O C X) (same_config : C → C → Bool) where
  unfoldable pub cached : C → List (C × Oid) → Option Oid
  cached config [] = none
  cached config ((c, oid) ∷ cache) =
      let rest = cached config cache in if same_config c config then some oid else rest

  -- `target`: the object of a configuration, which is written unless it is in the cache.
  unfoldable pub target :
      C → List (C × Oid) × O → Result (BatchError X) (Oid × (List (C × Oid) × O))
  target config (cache, objects) = elim (cached config cache) [
    | some oid ↦ ok (oid, (cache, objects))
    | none ↦ elim (odb.write_config config objects) [
      | err e ↦ err (write_obj e)
      | ok (oid, objects') ↦ ok (oid, ((config, oid) ∷ cache, objects'))
    ]
  ]

  unfoldable pub write_update :
      RefName
      → C
      → PreviousValue
      → List (C × Oid) × O
      → Result (BatchError X) (Update × (List (C × Oid) × O))
  write_update n config previous st =
      target config st >>= (λ (r : Oid × (List (C × Oid) × O)). ok (write n r.0 previous, r.1))

  abbrev pub existing : RefName → Option Ref → Result (BatchError X) Oid
  existing n none = err (missing_ref n)
  existing n (some r) = ok r.target

  -- The closure of `into_updates`.
  unfoldable pub into_update :
      Refs → Action C → List (C × Oid) × O → Result (BatchError X) (Update × (List (C × Oid) × O))
  into_update refs (track_action urn peer config Track.any) st =
      write_update (ref_name urn peer) config PreviousValue.any st
  into_update refs (track_action urn peer config Track.must_exist) st = do
    found ← map_err find_ref (find_reference git (ref_name urn peer) refs)
    oid ← existing (ref_name urn peer) found
    write_update (ref_name urn peer) config (must_exist_and_match oid) st
  into_update refs (track_action urn peer config Track.must_not_exist) st =
      write_update (ref_name urn peer) config PreviousValue.must_not_exist st
  into_update refs (untrack_action urn peer Untrack.any) st =
      ok (delete (ref_name urn (some peer)) PreviousValue.any, st)
  into_update refs (untrack_action urn peer Untrack.must_exist) st = do
    found ← map_err find_ref (find_reference git (ref_name urn (some peer)) refs)
    oid ← existing (ref_name urn (some peer)) found
    ok (delete (ref_name urn (some peer)) (must_exist_and_match oid), st)

  unfoldable pub into_updates :
      Refs → List (Action C) → List (C × Oid) × O → Result (BatchError X) (List Update × O)
  into_updates refs [] (cache, objects) = ok ([], objects)
  into_updates refs (a ∷ rest) st =
      into_update refs a st >>= (λ (r : Update × (List (C × Oid) × O)).
        into_updates refs rest r.1 >>= (λ (rs : List Update × O). ok (r.0 ∷ rs.0, rs.1)))

  abbrev pub batch_applied : Applied → BatchApplied
  batch_applied a = record { updates = map batch_updated a.updates; rejections = a.rejections }

  -- `batch`, of the actions that `fuse` gives. Objects that were written before an error stay in the
  -- database, which the result does not tell.
  unfoldable pub batch_fused :
      {N : Type 0} → List (Action C) → Db O N → Result (BatchError X) (BatchApplied × Db O N)
  batch_fused actions db = do
    (updates, objects) ← into_updates db.refs actions ([], db.objects)
    (applied, refs) ← map_err txn (update git db.refs updates)
    ok (batch_applied applied, record db { objects = objects; refs = refs })

  -- `none` is a panic.
  unfoldable pub batch :
      {N : Type 0}
      → List (Action C)
      → Db O N
      → Option (Result (BatchError X) (BatchApplied × Db O N))
  batch actions db = elim (fuse actions) [ none ↦ none | some fused ↦ some (batch_fused fused db) ]
