-- ===== src/Tracking/Ops.antt =====
-- link-tracking/src/git/tracking.rs: the operations on tracking entries. The object database and the
-- pruning are parameters; `C` is a configuration and `X` an error of the database.
pub mod Laws
use radicle_link.Prelude.{
  ℕ, Bool, true, false, not, ◌&&◌, Option, none, some, List, [], ◌∷◌, ◌++◌, map, if◌then◌else◌,
  ◌==◌, Result, ok, err, ◌>>=◌, ◌>>◌, map_err,
}
use radicle_link.Net.Info.{PeerId}
use radicle_link.Tracking.Policy.{
  Oid, Track, Untrack, UntrackAll, track_previous, untrack_previous, into_previous_value,
  PreviousValue, PreviousError, must_exist_and_match,
}
use radicle_link.Tracking.Reference.{Urn, Remote, default, peer, remote_peer, RefName, ref_name}
use radicle_link.Tracking.Refdb.{
  Update, write, delete, Updated, written, deleted, Applied, TxnError, read, symbolic_ref, Git,
  Refs, lookup_ref, update,
}

-- odb.rs: the traits `Read` and `Write`.
pub record Odb (O C X : Type 0) : Type 0 where
  pub find_config : Oid → O → Result X (Option C)
  pub write_config : C → O → Result X (Oid × O)

-- The trait `Prune`, on the references of the namespaces.
pub record Prune (N R X : Type 0) : Type 0 where
  pub prune : ℕ → Option PeerId → N → Result X (List R × N)

pub data TrackingError (X : Type 0) : Type 0 where
  write_obj modify_obj find_obj prune_failed : X → TrackingError X
  txn : TxnError → TrackingError X
  find_ref : TxnError → TrackingError X
  did_not_exist : RefName → TrackingError X
  missing_obj : Oid → TrackingError X
  bug : TrackingError X

pub record Ref : Type 0 where
  pub name : RefName
  pub target : Oid

pub data Tracked (C : Type 0) : Type 0 where
  tracked_default : ℕ → C → Tracked C
  tracked_peer : ℕ → PeerId → C → Tracked C

-- The state of a storage: the objects, the tracking references and the namespaces.
pub record Db (O N : Type 0) : Type 0 where
  pub objects : O
  pub refs : Refs
  pub namespaces : N

-- Which of an iterator's results a caller sees: `updates.first()`.
abbrev pub first {ℓ} : {A : Type ℓ} → List A → Option A
first [] = none
first (x ∷ xs) = some x

-- `find_reference`: a symbolic reference is an error.
abbrev pub direct_ref : RefName → Option (Option Oid) → Result TxnError (Option Ref)
direct_ref n none = ok none
direct_ref n (some none) = err symbolic_ref
direct_ref n (some (some oid)) = ok (some (record { name = n; target = oid }))

unfoldable pub find_reference : Git → RefName → Refs → Result TxnError (Option Ref)
find_reference git n refs = if git.reference n then direct_ref n (lookup_ref n refs) else err read

-- What `track` and `modify` make of `Applied`; `bug` is a panic.
abbrev pub written_ref :
    {X : Type 0}
    → Option Updated
    → Option PreviousError
    → Result (TrackingError X) (Result PreviousError Ref)
written_ref (some (written name target)) rejection =
    ok (ok (record { name = name; target = target }))
written_ref (some (deleted name previous)) rejection = err bug
written_ref none (some e) = ok (err e)
written_ref none none = err bug

abbrev pub deleted_oid :
    {X : Type 0}
    → Option Updated
    → Option PreviousError
    → Result (TrackingError X) (Result PreviousError (Option Oid))
deleted_oid (some (deleted name previous)) rejection = ok (ok (some previous))
deleted_oid (some (written name target)) rejection = err bug
deleted_oid none (some e) = ok (err e)
deleted_oid none none = ok (ok none)

pub record Untracked (R : Type 0) : Type 0 where
  pub previous : Option Oid
  pub pruned : Option (List R)

-- A call's result, and the storage after it.
abbrev pub Outcome : Type 0 → Type 0 → Type 0 → Type 0 → Type 0
Outcome O N X A = Result (TrackingError X) A × Db O N

module _ {O C X N R : Type 0} (git : Git) (odb : Odb O C X) (pr : Prune N R X) where
  -- `db.update`, on the storage.
  unfoldable pub db_update : List Update → Db O N → Outcome O N X Applied
  db_update updates db = elim (update git db.refs updates) [
    | err e ↦ (err (txn e), db)
    | ok (applied, refs) ↦ (ok applied, record db { refs = refs })
  ]

  unfoldable pub write_ref :
      RefName → Oid → PreviousValue → Db O N → Outcome O N X (Result PreviousError Ref)
  write_ref n target previous db =
      let (applied, db') = db_update (write n target previous ∷ []) db in
      (applied >>= (λ (a : Applied). written_ref (first a.updates) (first a.rejections)), db')

  unfoldable pub track :
      Urn → Option PeerId → C → Track → Db O N → Outcome O N X (Result PreviousError Ref)
  track urn p config policy db = elim (odb.write_config config db.objects) [
    | err e ↦ (err (write_obj e), db)
    | ok (target, objects) ↦
        write_ref (ref_name urn p) target (track_previous policy) (record db { objects = objects })
  ]

  abbrev pub modify_found : Oid → (C → C) → O → Option C → Result (TrackingError X) (Oid × O)
  modify_found oid f objects none = err (missing_obj oid)
  modify_found oid f objects (some config) =
      map_err modify_obj (odb.write_config (f config) objects)

  -- `modify_config` of librad/src/git/tracking/odb.rs
  unfoldable pub modify_config : Oid → (C → C) → O → Result (TrackingError X) (Oid × O)
  modify_config oid f objects = do
    found ← map_err modify_obj (odb.find_config oid objects)
    modify_found oid f objects found

  abbrev pub modify_ref :
      RefName → (C → C) → Option Ref → Db O N → Outcome O N X (Result PreviousError Ref)
  modify_ref n f none db = (err (did_not_exist n), db)
  modify_ref n f (some reference) db = elim (modify_config reference.target f db.objects) [
    | err e ↦ (err e, db)
    | ok (new, objects) ↦
        write_ref n new (must_exist_and_match reference.target) (record db { objects = objects })
  ]

  unfoldable pub modify :
      Urn → Option PeerId → (C → C) → Db O N → Outcome O N X (Result PreviousError Ref)
  modify urn p f db = elim (find_reference git (ref_name urn p) db.refs) [
    | err e ↦ (err (find_ref e), db)
    | ok found ↦ modify_ref (ref_name urn p) f found db
  ]

  -- `if prune { Some(db.prune(urn, peer)?) } else { None }`
  unfoldable pub prune_if : Bool → ℕ → Option PeerId → Db O N → Outcome O N X (Option (List R))
  prune_if false urn p db = (ok none, db)
  prune_if true urn p db = elim (pr.prune urn p db.namespaces) [
    | err e ↦ (err (prune_failed e), db)
    | ok (pruned, namespaces) ↦ (ok (some pruned), record db { namespaces = namespaces })
  ]

  abbrev pub untracked_result :
      Result PreviousError (Option Oid) → Option (List R) → Result PreviousError (Untracked R)
  untracked_result (err e) pruned = err e
  untracked_result (ok previous) pruned = ok (record { previous = previous; pruned = pruned })

  -- The pruning is done whether or not the policy allowed the removal.
  abbrev pub untrack_pruned :
      Bool
      → ℕ
      → PeerId
      → Result (TrackingError X) (Result PreviousError (Option Oid))
      → Db O N
      → Outcome O N X (Result PreviousError (Untracked R))
  untrack_pruned prune urn p (err e) db = (err e, db)
  untrack_pruned prune urn p (ok previous) db =
      let (pruned, db') = prune_if prune urn (some p) db in
      (pruned >>= (λ (rs : Option (List R)). ok (untracked_result previous rs)), db')

  unfoldable pub untrack :
      Urn → PeerId → Untrack → Bool → Db O N → Outcome O N X (Result PreviousError (Untracked R))
  untrack urn p policy prune db =
      let (applied, db') =
        db_update (delete (ref_name urn (some p)) (untrack_previous policy) ∷ []) db in
      untrack_pruned prune urn.id p
        (applied >>= (λ (a : Applied). deleted_oid (first a.updates) (first a.rejections))) db'

  -- `references`: the entries below `refs/rad/remotes`, or below one urn of these.
  unfoldable pub references : Option ℕ → Refs → List (RefName × Option Oid)
  references filter_by [] = []
  references none (r ∷ refs) = r ∷ references none refs
  references (some urn) ((n, v) ∷ refs) =
      let rest = references (some urn) refs in if n.urn == urn then (n, v) ∷ rest else rest

  -- What the iterator over the references yields.
  abbrev pub yielded : RefName → Option Oid → Result TxnError Ref
  yielded n none = err symbolic_ref
  yielded n (some oid) =
      if git.reference n then ok (record { name = n; target = oid }) else err read

  unfoldable pub deletes : UntrackAll → List (RefName × Option Oid) → Result TxnError (List Update)
  deletes policy [] = ok []
  deletes policy ((n, v) ∷ refs) = do
    r ← yielded n v
    us ← deletes policy refs
    ok (delete r.name (into_previous_value policy r.target) ∷ us)

  -- The names that `untrack_all` reports; a write among the updates is a panic.
  unfoldable pub deleted_names : List Updated → Result (TrackingError X) (List RefName)
  deleted_names [] = ok []
  deleted_names (written n target ∷ us) = err bug
  deleted_names (deleted n previous ∷ us) = do ns ← deleted_names us; ok (n ∷ ns)

  unfoldable pub untrack_all :
      Urn
      → UntrackAll
      → Bool
      → Db O N
      → Outcome O N X ((List RefName × List PreviousError) × Option (List R))
  untrack_all urn policy prune db = elim (deletes policy (references (some urn.id) db.refs)) [
    | err e ↦ (err (find_ref e), db)
    | ok updates ↦
        let (applied, db') = db_update updates db in
        elim applied [
          | err e ↦ (err e, db')
          | ok a ↦
              let (pruned, db2) = prune_if prune urn.id none db' in
              (
                pruned >>= (λ (rs : Option (List R)).
                    deleted_names a.updates
                    >>= (λ (ns : List RefName). ok ((ns, a.rejections), rs))),
                db2,
              )
        ]
  ]

  -- `from_reference`
  abbrev pub from_reference : RefName → C → Tracked C
  from_reference n config = elim n.remote [
    | default ↦ tracked_default n.urn config
    | peer p ↦ tracked_peer n.urn p config
  ]

  abbrev pub get_found : RefName → O → Option Ref → Result (TrackingError X) (Option (Tracked C))
  get_found n objects none = ok none
  get_found n objects (some reference) =
      map_err find_obj (odb.find_config reference.target objects) >>= (λ (found : Option C).
        ok (elim found [ none ↦ none | some config ↦ some (from_reference n config) ]))

  unfoldable pub get : Urn → Option PeerId → Db O N → Result (TrackingError X) (Option (Tracked C))
  get urn p db = do
    found ← map_err find_ref (find_reference git (ref_name urn p) db.refs)
    get_found (ref_name urn p) db.objects found

  unfoldable pub is_tracked : Urn → Option PeerId → Db O N → Result (TrackingError X) Bool
  is_tracked urn p db = do
    found ← map_err find_ref (find_reference git (ref_name urn p) db.refs)
    ok (elim found [ none ↦ false | some reference ↦ true ])

  -- The loop of `default_only`.
  unfoldable pub default_loop : Bool → List (RefName × Option Oid) → Result TxnError Bool
  default_loop seen [] = ok seen
  default_loop seen ((n, v) ∷ refs) =
      let rest = default_loop true refs in
      yielded n v >>= (λ (r : Ref). elim r.name.remote [ default ↦ rest | peer p ↦ ok false ])

  unfoldable pub default_only : Urn → Db O N → Result (TrackingError X) Bool
  default_only urn db = map_err find_ref (default_loop false (references (some urn.id) db.refs))

  -- `TrackedPeers`, collected.
  unfoldable pub peers_of : List (RefName × Option Oid) → List (Result TxnError PeerId)
  peers_of [] = []
  peers_of ((n, v) ∷ refs) =
      let rest = peers_of refs in
      elim (yielded n v) [
        | err e ↦ err e ∷ rest
        | ok r ↦ elim (remote_peer r.name.remote) [ none ↦ rest | some p ↦ ok p ∷ rest ]
      ]

  unfoldable pub tracked_peers : Option ℕ → Db O N → List (Result TxnError PeerId)
  tracked_peers filter_by db = peers_of (references filter_by db.refs)
