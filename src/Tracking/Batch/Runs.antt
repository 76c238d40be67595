-- ===== src/Tracking/Batch/Runs.antt =====
-- What `fuse` of link-tracking/src/git/tracking/batch.rs makes of a list of actions.
use radicle_link.Prelude.{
  ◌≡◌, refl, sym, ap, subst, ◌∙◌, inl, inr, Option, none, some, List, [], ◌∷◌, ◌++◌, map, All,
  if◌then◌else◌, Bool-cases,
}
use radicle_link.Net.Info.{PeerId}
use radicle_link.Tracking.Policy.{
  Reduction, simple, stuck, reduction_list, WithConfig, Entry, compose_entry,
}
use radicle_link.Tracking.Policy.Fusion.{run_entry, run_reduction, IsForced}
use radicle_link.Tracking.Reference.{Urn, RefName, ref_name, same_name, same_name_iff}
use radicle_link.Tracking.Batch.{
  Action, track_action, untrack_action, upsert, PairKey, same_pair, lt_pair, Fused, with_pairs,
  with_defaults, fuse_action, fuse_each, pair_action, default_action, flatten, fuse,
}
use radicle_link.Tracking.Batch.Laws.{
  action_name, action_entry, run_actions, HasNoPath, run_pairs, run_track_reduction, run_defaults,
  run_fused, IsFused, run_defaults-peer, pairs_upsert, defaults_upsert, pair_name, default_name,
}

module _ {C : Type 0} where
  abbrev run_action : Action C → RefName → Option C → Option C
  run_action a n s = if same_name (action_name a) n then run_entry (action_entry a) s else s

  run_fused-pair :
      (pairs pairs' : List (PairKey × Reduction (Entry C)))
      (defaults : List (Urn × Reduction (WithConfig C))) (urn : Urn) (p : PeerId) (t : Entry C)
      (n : RefName) (s : Option C)
      → run_pairs pairs' n s ≡ (
          if same_name (ref_name urn (some p)) n
          then run_entry t (run_pairs pairs n s)
          else run_pairs pairs n s)
      → run_defaults defaults n (run_pairs pairs' n s) ≡ (
          if same_name (ref_name urn (some p)) n
          then run_entry t (run_defaults defaults n (run_pairs pairs n s))
          else run_defaults defaults n (run_pairs pairs n s))
  run_fused-pair pairs pairs' defaults urn p t n s h =
      elim (Bool-cases (same_name (ref_name urn (some p)) n)) [
        | inl here ↦
            let at = (same_name_iff (ref_name urn (some p)) n).0 here in
            let eq : run_pairs pairs' n s ≡ run_entry t (run_pairs pairs n s) = h ∙ rw here refl in
            rw here (
              ap (run_defaults defaults n) eq
              ∙ subst
                  (λ m.
                    run_defaults defaults m (run_entry t (run_pairs pairs n s))
                    ≡ run_entry t (run_defaults defaults m (run_pairs pairs n s)))
                  at
                  (run_defaults-peer defaults urn p _
                    ∙ ap (run_entry t) (sym (run_defaults-peer defaults urn p _))))
        | inr there ↦ rw there (ap (run_defaults defaults n) (h ∙ rw there refl))
      ]

  fuse_pair :
      (f : Fused C) (urn : Urn) (p : PeerId) (t : Entry C) (a : Action C)
      → fuse_action f a ≡ with_pairs f (upsert lt_pair same_pair compose_entry (urn, p) t f.pairs)
      → action_name a ≡ ref_name urn (some p)
      → action_entry a ≡ t
      → urn.path ≡ none
      → IsFused f
      → (f' : Fused C) × (fuse_action f a ≡ some f')
        × IsFused f'
        × (IsForced t
            → (n : RefName) (s : Option C) → run_fused f' n s ≡ run_action a n (run_fused f n s))
  fuse_pair f urn p t a eq name entry nopath h =
      let (m, inserts, ism, runs) = pairs_upsert urn p t f.pairs nopath h.0 in
      (
        record f { pairs = m },
        (eq ∙ ap (with_pairs f) inserts),
        (ism, h.1),
        λ forced n s.
            rw (name, entry) (run_fused-pair f.pairs m f.defaults urn p t n s (runs forced n s)),
      )

  fuse_action_lem :
      (f : Fused C) (a : Action C)
      → HasNoPath a
      → IsFused f
      → (f' : Fused C) × (fuse_action f a ≡ some f')
        × IsFused f'
        × (IsForced (action_entry a)
            → (n : RefName) (s : Option C) → run_fused f' n s ≡ run_action a n (run_fused f n s))
  unfolding fuse_action
  fuse_action_lem f (track_action urn none config policy) nopath h =
      let t : WithConfig C = record { policy = policy; config = config } in
      let (m, inserts, ism, runs) = defaults_upsert urn t f.defaults nopath h.1 in
      (
        record f { defaults = m },
        ap (with_defaults f) inserts,
        (h.0, ism),
        λ forced n s. runs forced n (run_pairs f.pairs n s),
      )
  fuse_action_lem f (track_action urn (some p) config policy) nopath h =
      fuse_pair f urn p (inl (record { policy = policy; config = config }))
        (track_action urn (some p) config policy) refl refl refl nopath h
  fuse_action_lem f (untrack_action urn p policy) nopath h =
      fuse_pair f urn p (inr policy) (untrack_action urn p policy) refl refl refl nopath h

  fuse_each_lem :
      (f : Fused C) (actions : List (Action C))
      → All HasNoPath actions
      → IsFused f
      → (f' : Fused C) × (fuse_each f actions ≡ some f')
        × (All (λ a. IsForced (action_entry a)) actions
            → (n : RefName) (s : Option C)
            → run_fused f' n s ≡ run_actions actions n (run_fused f n s))
  unfolding fuse_each
  fuse_each_lem f [] nopath h = (f, refl, λ forced n s. refl)
  fuse_each_lem f (a ∷ rest) nopath h =
      let (f1, step, h1, runs1) = fuse_action_lem f a nopath.0 h in
      let (f2, steps, runs2) = fuse_each_lem f1 rest nopath.1 h1 in
      (
        f2,
        (rw (step, fuse_each) steps),
        λ forced n s. runs2 forced.1 n s ∙ ap (run_actions rest n) (runs1 forced.0 n s),
      )

  run_actions-append :
      (xs bs : List (Action C)) (n : RefName) (s : Option C)
      → run_actions (xs ++ bs) n s ≡ run_actions bs n (run_actions xs n s)
  run_actions-append [] bs n s = refl
  run_actions-append (a ∷ xs) bs n s = run_actions-append xs bs n _

  run_action-pair :
      (k : PairKey) (e : Entry C) (n : RefName) (s : Option C)
      → run_action (pair_action k e) n s ≡ (if same_name (pair_name k) n then run_entry e s else s)
  run_action-pair (urn, p) (inl w) n s = refl
  run_action-pair (urn, p) (inr u) n s = refl

  pair_reduction :
      (k : PairKey) (r : Reduction (Entry C)) (n : RefName) (s : Option C)
      → run_actions (map (pair_action k) (reduction_list r)) n s
        ≡ (if same_name (pair_name k) n then run_reduction r s else s)
  pair_reduction k (simple e) n s = run_action-pair k e n s
  pair_reduction k (stuck a b) n s =
      run_action-pair k b n _
      ∙ ap (λ x. if same_name (pair_name k) n then run_entry b x else x) (run_action-pair k a n s)
      ∙ elim (Bool-cases (same_name (pair_name k) n)) [ inl h ↦ rw h refl | inr h ↦ rw h refl ]

  default_reduction :
      (k : Urn) (r : Reduction (WithConfig C)) (n : RefName) (s : Option C)
      → run_actions (map (default_action k) (reduction_list r)) n s
        ≡ (if same_name (default_name k) n then run_track_reduction r s else s)
  default_reduction k (simple e) n s = refl
  default_reduction k (stuck a b) n s = elim (Bool-cases (same_name (default_name k) n)) [
    | inl h ↦ rw h refl
    | inr h ↦ rw h refl
  ]

  run_actions-flatten_pairs :
      (m : List (PairKey × Reduction (Entry C))) (n : RefName) (s : Option C)
      → run_actions (flatten pair_action m) n s ≡ run_pairs m n s
  unfolding flatten
  run_actions-flatten_pairs [] n s = refl
  run_actions-flatten_pairs ((k, r) ∷ m) n s =
      run_actions-append (map (pair_action k) (reduction_list r)) (flatten pair_action m) n s
      ∙ run_actions-flatten_pairs m n _
      ∙ ap (run_pairs m n) (pair_reduction k r n s)

  run_actions-flatten_defaults :
      (m : List (Urn × Reduction (WithConfig C))) (n : RefName) (s : Option C)
      → run_actions (flatten default_action m) n s ≡ run_defaults m n s
  unfolding flatten
  run_actions-flatten_defaults [] n s = refl
  run_actions-flatten_defaults ((k, r) ∷ m) n s =
      run_actions-append (map (default_action k) (reduction_list r)) (flatten default_action m) n s
      ∙ run_actions-flatten_defaults m n _
      ∙ ap (run_defaults m n) (default_reduction k r n s)

  fuse_lem :
      (actions : List (Action C))
      → All HasNoPath actions
      → (fused : List (Action C)) × (fuse actions ≡ some fused)
        × (All (λ a. IsForced (action_entry a)) actions
            → (n : RefName) (s : Option C) → run_actions fused n s ≡ run_actions actions n s)
  unfolding fuse
  fuse_lem actions nopath =
      let (f, eq, runs) =
        fuse_each_lem (record { pairs = []; defaults = [] }) actions nopath (tt, tt) in
      (
        flatten pair_action f.pairs ++ flatten default_action f.defaults,
        (rw (eq, fuse) refl),
        λ forced n s.
            run_actions-append (flatten pair_action f.pairs) (flatten default_action f.defaults) n s
            ∙ run_actions-flatten_defaults f.defaults n _
            ∙ ap (run_defaults f.defaults n) (run_actions-flatten_pairs f.pairs n s)
            ∙ runs forced n s,
      )

  -- Whatever the actions on urns without a path, `fuse` does not panic.
  pub fuse_total :
      (actions : List (Action C))
      → All HasNoPath actions
      → (fused : List (Action C)) × (fuse actions ≡ some fused)
  fuse_total actions nopath = let (fused, eq, runs) = fuse_lem actions nopath in (fused, eq)

  -- If no action is a `track MustExist`, and their urns have no path, then the actions that `fuse`
  -- gives leave at every reference what the given ones leave there, one after the other.
  pub fuse_run :
      (actions : List (Action C)) (n : RefName) (s : Option C)
      → All HasNoPath actions
      → All (λ a. IsForced (action_entry a)) actions
      → (fused : List (Action C)) × (fuse actions ≡ some fused)
        × (run_actions fused n s ≡ run_actions actions n s)
  fuse_run actions n s nopath forced =
      let (fused, eq, runs) = fuse_lem actions nopath in (fused, eq, runs forced n s)
