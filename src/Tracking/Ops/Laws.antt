-- ===== src/Tracking/Ops/Laws.antt =====
-- What the operations of link-tracking/src/git/tracking.rs promise, when the calls of git2 succeed.
use radicle_link.Prelude.{
  ◌≡◌, refl, ap, ◌∙◌, inl, inr, true, false, Option, none, some, List, arith, if◌then◌else◌, Result,
  ok, err, Option-cases,
}
use radicle_link.Net.Info.{PeerId}
use radicle_link.Tracking.Policy.{
  Oid, Track, Untrack, track_previous, untrack_previous, PreviousValue, PreviousError, guard,
  must_exist_and_match,
}
use radicle_link.Tracking.Reference.{Urn, RefName, ref_name, same_name, same_name_iff}
use radicle_link.Tracking.Refdb.{Git, Refs, lookup_ref, remove_ref, set_ref, target_of}
use radicle_link.Tracking.Refdb.Laws.{
  IsReliable, lookup_ref-remove_ref, lookup_ref-set_ref, update-write, update-write_rejected,
  update-delete, update-delete_missing,
}
use radicle_link.Tracking.Ops.{
  Odb, Prune, Ref, Db, direct_ref, find_reference, Untracked, Outcome, db_update, write_ref, track,
  modify_found, modify_config, modify_ref, modify, prune_if, untrack, from_reference, get_found,
  get, is_tracked,
}

-- What was just written is found.
pub record IsOdb {O C X : Type 0} (odb : Odb O C X) : Type 0 where
  pub find-write :
      (c : C) (o o' : O) (oid : Oid)
      → odb.write_config c o ≡ ok (oid, o')
      → odb.find_config oid o' ≡ ok (some c)

-- What a reference that is not symbolic is found to be.
abbrev pub direct_value : Option Oid → Option (Option Oid)
direct_value none = none
direct_value (some oid) = some (some oid)

-- What `track` does once the configuration is written as `oid`.
abbrev pub tracked_as :
    {O N X : Type 0}
    → RefName
    → Oid
    → Option PreviousError
    → Db O N
    → Outcome O N X (Result PreviousError Ref)
tracked_as n oid none db =
    (ok (ok (record { name = n; target = oid })), record db { refs = set_ref n oid db.refs })
tracked_as n oid (some e) db = (ok (err e), db)

-- What `track` leaves and returns under a policy, of the target that the reference has.
abbrev pub track_outcome :
    {O N X : Type 0}
    → Track
    → RefName
    → Oid
    → Option Oid
    → Db O N
    → Outcome O N X (Result PreviousError Ref)
track_outcome Track.any n oid previous db =
    (ok (ok (record { name = n; target = oid })), record db { refs = set_ref n oid db.refs })
track_outcome Track.must_exist n oid (some old) db =
    (ok (ok (record { name = n; target = oid })), record db { refs = set_ref n oid db.refs })
track_outcome Track.must_exist n oid none db = (ok (err PreviousError.did_not_exist), db)
track_outcome Track.must_not_exist n oid none db =
    (ok (ok (record { name = n; target = oid })), record db { refs = set_ref n oid db.refs })
track_outcome Track.must_not_exist n oid (some old) db = (ok (err PreviousError.did_exist), db)

outcome_eq :
    {O N X : Type 0} (n : RefName) (oid : Oid) (policy : Track) (previous : Option Oid)
    (db : Db O N)
    → tracked_as {X = X} n oid (guard (track_previous policy) previous) db
      ≡ track_outcome policy n oid previous db
unfolding guard
outcome_eq n oid Track.any previous db = refl
outcome_eq n oid Track.must_exist none db = refl
outcome_eq n oid Track.must_exist (some old) db = refl
outcome_eq n oid Track.must_not_exist none db = refl
outcome_eq n oid Track.must_not_exist (some old) db = refl

-- What `untrack` does to what is at the reference.
abbrev pub untracked_as :
    {O N X R : Type 0}
    → RefName
    → Untrack
    → Option Oid
    → Db O N
    → Outcome O N X (Result PreviousError (Untracked R))
untracked_as n policy (some oid) db = (
  ok (ok (record { previous = some oid; pruned = none })),
  record db { refs = remove_ref n db.refs },
)
untracked_as n Untrack.any none db = (ok (ok (record { previous = none; pruned = none })), db)
untracked_as n Untrack.must_exist none db = (ok (err PreviousError.did_not_exist), db)

module _ {O C X N R : Type 0} (git : Git) (odb : Odb O C X) (pr : Prune N R X)
    (reliable : IsReliable git) where
  write_ref_lem :
      (n : RefName) (target : Oid) (previous : PreviousValue) (db : Db O N)
      → guard previous (target_of (lookup_ref n db.refs)) ≡ none
      → write_ref git odb pr n target previous db ≡ (
        ok (ok (record { name = n; target = target })),
        record db { refs = set_ref n target db.refs },
      )
  unfolding write_ref db_update
  write_ref_lem n target previous db h =
      rw (update-write git reliable n target previous db.refs h, write_ref, db_update) refl

  write_ref_rejected :
      (n : RefName) (target : Oid) (previous : PreviousValue) (db : Db O N) (e : PreviousError)
      → guard previous (target_of (lookup_ref n db.refs)) ≡ some e
      → write_ref git odb pr n target previous db ≡ (ok (err e), db)
  unfolding write_ref db_update
  write_ref_rejected n target previous db e h =
      rw (update-write_rejected git reliable n target previous db.refs e h, write_ref, db_update)
        refl

  write_ref_cases :
      (n : RefName) (target : Oid) (previous : PreviousValue) (db : Db O N)
      → write_ref git odb pr n target previous db
        ≡ tracked_as n target (guard previous (target_of (lookup_ref n db.refs))) db
  write_ref_cases n target previous db =
      elim (Option-cases (guard previous (target_of (lookup_ref n db.refs)))) [
        | inl h ↦ rw (h, tracked_as) (write_ref_lem n target previous db h)
        | inr (e, h) ↦ rw (h, tracked_as) (write_ref_rejected n target previous db e h)
      ]

  track_cases :
      (urn : Urn) (p : Option PeerId) (config : C) (policy : Track) (db : Db O N) (oid : Oid)
      (o : O)
      → odb.write_config config db.objects ≡ ok (oid, o)
      → track git odb pr urn p config policy db
        ≡ tracked_as
            (ref_name urn p)
            oid
            (guard (track_previous policy) (target_of (lookup_ref (ref_name urn p) db.refs)))
            (record db { objects = o })
  unfolding track
  track_cases urn p config policy db oid o wrote =
      rw (wrote, track)
        (write_ref_cases (ref_name urn p) oid (track_previous policy) (record db { objects = o }))

  -- When the database takes the configuration, `track` sets the one reference, and returns it, under
  -- `Any`, under `MustExist` where the reference has a target, and under `MustNotExist` where it has
  -- none. Under `MustExist` without a target the result is the rejection that it did not exist, under
  -- `MustNotExist` with one that it did exist; and then no reference changes, although the
  -- configuration is written.
  pub track_lem :
      (urn : Urn) (p : Option PeerId) (config : C) (policy : Track) (db : Db O N) (oid : Oid)
      (o : O)
      → odb.write_config config db.objects ≡ ok (oid, o)
      → track git odb pr urn p config policy db
        ≡ track_outcome policy
            (ref_name urn p)
            oid
            (target_of (lookup_ref (ref_name urn p) db.refs))
            (record db { objects = o })
  track_lem urn p config policy db oid o wrote =
      track_cases urn p config policy db oid o wrote
      ∙ outcome_eq (ref_name urn p) oid policy (target_of (lookup_ref (ref_name urn p) db.refs))
          (record db { objects = o })

  find_reference_lem :
      (n : RefName) (refs : Refs) → find_reference git n refs ≡ direct_ref n (lookup_ref n refs)
  unfolding find_reference
  find_reference_lem n refs = rw (reliable.reference n) refl

  lookup_ref_self :
      (n : RefName) (oid : Oid) (refs : Refs) → lookup_ref n (set_ref n oid refs) ≡ some (some oid)
  lookup_ref_self n oid refs =
      lookup_ref-set_ref n n oid refs ∙ (rw ((same_name_iff n n).1 refl) refl)

  get_present :
      (urn : Urn) (p : Option PeerId) (db : Db O N) (oid : Oid) (config : C)
      → lookup_ref (ref_name urn p) db.refs ≡ some (some oid)
      → odb.find_config oid db.objects ≡ ok (some config)
      → get git odb pr urn p db ≡ ok (some (from_reference git odb pr (ref_name urn p) config))
  unfolding get
  get_present urn p db oid config found stored =
      rw (find_reference_lem (ref_name urn p) db.refs, get) (rw found (rw (stored, get_found) refl))

  get_absent :
      (urn : Urn) (p : Option PeerId) (db : Db O N)
      → lookup_ref (ref_name urn p) db.refs ≡ none
      → (get git odb pr urn p db ≡ ok none) × (is_tracked git odb pr urn p db ≡ ok false)
  unfolding get is_tracked
  get_absent urn p db missing = (
    rw (find_reference_lem (ref_name urn p) db.refs, get) (rw missing refl),
    rw (find_reference_lem (ref_name urn p) db.refs, is_tracked) (rw missing refl),
  )

  -- What `track` has written under a policy that allows it, `get` finds, and the other references are
  -- as they were.
  pub get-track :
      IsOdb odb
      → (urn : Urn) (p : Option PeerId) (config : C) (policy : Track) (db : Db O N) (oid : Oid)
        (o : O)
      → odb.write_config config db.objects ≡ ok (oid, o)
      → guard (track_previous policy) (target_of (lookup_ref (ref_name urn p) db.refs)) ≡ none
      → (get git odb pr urn p (track git odb pr urn p config policy db).1
          ≡ ok (some (from_reference git odb pr (ref_name urn p) config)))
        × ((m : RefName)
            → lookup_ref m (track git odb pr urn p config policy db).1.refs
              ≡ (if same_name (ref_name urn p) m then some (some oid) else lookup_ref m db.refs))
  unfolding get
  get-track law urn p config policy db oid o wrote h =
      let done : track git odb pr urn p config policy db
          ≡ tracked_as (ref_name urn p) oid none (record db { objects = o }) =
        track_cases urn p config policy db oid o wrote
        ∙ ap (λ g. tracked_as (ref_name urn p) oid g (record db { objects = o })) h in
      (
        rw done (
            get_present urn p
              (record db { objects = o; refs = set_ref (ref_name urn p) oid db.refs }) oid config
              (lookup_ref_self (ref_name urn p) oid db.refs)
              (law.find-write config db.objects o oid wrote)),
        λ m. rw done (lookup_ref-set_ref (ref_name urn p) m oid db.refs),
      )

  untrack_allowed :
      (policy : Untrack) (oid : Oid) → guard (untrack_previous policy) (some oid) ≡ none
  unfolding guard
  untrack_allowed Untrack.any oid = refl
  untrack_allowed Untrack.must_exist oid = refl

  untrack_cases :
      (urn : Urn) (p : PeerId) (policy : Untrack) (db : Db O N)
      → ((oid : Oid)
          → lookup_ref (ref_name urn (some p)) db.refs ≡ some (some oid)
          → untrack git odb pr urn p policy false db ≡ (
            ok (ok (record { previous = some oid; pruned = none })),
            record db { refs = remove_ref (ref_name urn (some p)) db.refs },
          ))
        × (lookup_ref (ref_name urn (some p)) db.refs ≡ none
            → (untrack git odb pr urn p Untrack.any false db
                ≡ (ok (ok (record { previous = none; pruned = none })), db))
              × (untrack git odb pr urn p Untrack.must_exist false db
                  ≡ (ok (err PreviousError.did_not_exist), db)))
  unfolding untrack prune_if db_update
  untrack_cases urn p policy db =
      let n = ref_name urn (some p) in
      (
        λ oid found.
            rw
              (
                update-delete git reliable n (untrack_previous policy) db.refs oid found
                    (untrack_allowed policy oid),
                untrack,
                db_update,
              )
              refl,
        λ missing.
            let (any, must) = update-delete_missing git reliable n db.refs missing in
            (rw (any, untrack, db_update) refl, rw (must, untrack, db_update) refl),
      )

  -- Where the reference is not symbolic and no pruning is asked for, `untrack` removes a reference that
  -- exists, and returns what it pointed to; without one, `MustExist` is rejected and `Any` does nothing.
  pub untrack_lem :
      (urn : Urn) (p : PeerId) (policy : Untrack) (db : Db O N) (found : Option Oid)
      → lookup_ref (ref_name urn (some p)) db.refs ≡ direct_value found
      → untrack git odb pr urn p policy false db
        ≡ untracked_as (ref_name urn (some p)) policy found db
  untrack_lem urn p policy db (some oid) h = (untrack_cases urn p policy db).0 oid h
  untrack_lem urn p Untrack.any db none h = ((untrack_cases urn p Untrack.any db).1 h).0
  untrack_lem urn p Untrack.must_exist db none h =
      ((untrack_cases urn p Untrack.must_exist db).1 h).1

  -- Once an entry has been untracked under a policy that allows it, it is gone, and the others are as
  -- they were.
  pub get-untrack :
      (urn : Urn) (p : PeerId) (policy : Untrack) (db : Db O N) (oid : Oid)
      → lookup_ref (ref_name urn (some p)) db.refs ≡ some (some oid)
      → (get git odb pr urn (some p) (untrack git odb pr urn p policy false db).1 ≡ ok none)
        × (is_tracked git odb pr urn (some p) (untrack git odb pr urn p policy false db).1
            ≡ ok false)
        × ((m : RefName)
            → lookup_ref m (untrack git odb pr urn p policy false db).1.refs
              ≡ (if same_name (ref_name urn (some p)) m then none else lookup_ref m db.refs))
  get-untrack urn p policy db oid found =
      let n = ref_name urn (some p) in
      let done = untrack_lem urn p policy db (some oid) found in
      let gone =
        get_absent urn (some p) (record db { refs = remove_ref n db.refs })
          (lookup_ref-remove_ref n n db.refs ∙ (rw ((same_name_iff n n).1 refl) refl)) in
      (rw done gone.0, rw done gone.1, λ m. rw done (lookup_ref-remove_ref n m db.refs))

  -- With `MustExist` and no entry, `untrack` reports that the entry did not exist, and prunes all the
  -- same when it is asked to.
  pub untrack_rejected_prunes :
      (urn : Urn) (p : PeerId) (db : Db O N) (rs : List R) (ns : N)
      → lookup_ref (ref_name urn (some p)) db.refs ≡ none
      → pr.prune urn.id (some p) db.namespaces ≡ ok (rs, ns)
      → untrack git odb pr urn p Untrack.must_exist true db
        ≡ (ok (err PreviousError.did_not_exist), record db { namespaces = ns })
  unfolding untrack prune_if db_update
  untrack_rejected_prunes urn p db rs ns missing prunes =
      let (any, must) =
        update-delete_missing git reliable (ref_name urn (some p)) db.refs missing in
      rw (must, untrack, db_update) (rw (prunes, prune_if) refl)

  same_oid : (oid : Oid) → guard (must_exist_and_match oid) (some oid) ≡ none
  unfolding guard
  same_oid oid = ground arith

  modify_config_lem :
      (oid new : Oid) (f : C → C) (config : C) (objects o : O)
      → odb.find_config oid objects ≡ ok (some config)
      → odb.write_config (f config) objects ≡ ok (new, o)
      → modify_config git odb pr oid f objects ≡ ok (new, o)
  unfolding modify_config
  modify_config_lem oid new f config objects o stored wrote =
      rw (stored, modify_config) (rw (wrote, modify_found) refl)

  modify_present :
      (urn : Urn) (p : Option PeerId) (f : C → C) (db : Db O N) (oid : Oid) (config : C) (new : Oid)
      (o : O)
      → lookup_ref (ref_name urn p) db.refs ≡ some (some oid)
      → odb.find_config oid db.objects ≡ ok (some config)
      → odb.write_config (f config) db.objects ≡ ok (new, o)
      → modify git odb pr urn p f db ≡ (
        ok (ok (record { name = ref_name urn p; target = new })),
        record db { objects = o; refs = set_ref (ref_name urn p) new db.refs },
      )
  unfolding modify modify_config
  modify_present urn p f db oid config new o found stored wrote =
      rw (find_reference_lem (ref_name urn p) db.refs, modify)
        (rw found (
          rw (modify_config_lem oid new f config db.objects o stored wrote, modify_ref)
            (write_ref_lem (ref_name urn p) new (must_exist_and_match oid)
              (record db { objects = o }) (rw found (same_oid oid)))))

  -- When the configuration of an entry is found and the changed one is written, `modify` makes `get`
  -- find the changed one, and the other references are as they were.
  pub get-modify :
      IsOdb odb
      → (urn : Urn) (p : Option PeerId) (f : C → C) (db : Db O N) (oid : Oid) (config : C)
        (new : Oid) (o : O)
      → lookup_ref (ref_name urn p) db.refs ≡ some (some oid)
      → odb.find_config oid db.objects ≡ ok (some config)
      → odb.write_config (f config) db.objects ≡ ok (new, o)
      → ((modify git odb pr urn p f db).0
          ≡ ok (ok (record { name = ref_name urn p; target = new })))
        × (get git odb pr urn p (modify git odb pr urn p f db).1
            ≡ ok (some (from_reference git odb pr (ref_name urn p) (f config))))
        × ((m : RefName)
            → lookup_ref m (modify git odb pr urn p f db).1.refs
              ≡ (if same_name (ref_name urn p) m then some (some new) else lookup_ref m db.refs))
  get-modify law urn p f db oid config new o found stored wrote =
      let n = ref_name urn p in
      let done = modify_present urn p f db oid config new o found stored wrote in
      (
        rw done refl,
        rw done (
            get_present urn p (record db { objects = o; refs = set_ref n new db.refs }) new
              (f config) (lookup_ref_self n new db.refs)
              (law.find-write (f config) db.objects o new wrote)),
        λ m. rw done (lookup_ref-set_ref n m new db.refs),
      )
