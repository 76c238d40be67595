-- ===== src/Tracking/Batch/Laws.antt =====
-- What fusion in link-tracking/src/git/tracking/batch.rs preserves.
use radicle_link.Prelude.{
  ◌≡◌, ◌≢◌, refl, sym, ap, subst, ◌∙◌, ◌↔◌, inl, inr, true, false, Option, none, some, List, [],
  ◌∷◌, arith, if◌then◌else◌, ◌==◌, Bool-cases,
}
use mathlib.Core.Option.{some-injective}
use radicle_link.Net.Info.{PeerId}
use radicle_link.Tracking.Policy.{
  Reduction, simple, stuck, WithConfig, compose_track, Entry, compose_entry, compose_reduction,
  compose_stuck, lift_reduction,
}
use radicle_link.Tracking.Policy.Fusion.{
  run_entry, run_reduction, IsForced, IsReduced, compose_reduction_total, compose_reduction_run,
}
use radicle_link.Tracking.Reference.{Urn, RefName, ref_name, same_name}
use radicle_link.Tracking.Batch.{
  Action, track_action, untrack_action, upsert, PairKey, same_urn, lt_urn, same_pair, lt_pair,
  Fused,
}
use radicle_link.Tracking.Batch.Entries.{run_entries, IsEntries, upsert_lem}

none-ne-some : {A : Type 0} {a : A} → ◌≢◌ {A = Option A} none (some a)
none-ne-some h = cc

abbrev pub pair_name : PairKey → RefName
pair_name (urn, p) = ref_name urn (some p)

abbrev pub default_name : Urn → RefName
default_name urn = ref_name urn none

abbrev pub NoPath : Urn → Type 0
NoPath urn = urn.path ≡ none

abbrev pub PairNoPath : PairKey → Type 0
PairNoPath (urn, p) = NoPath urn

urn_same :
    (j k : Urn) → NoPath j → NoPath k → (same_urn j k ≡ true) ↔ (default_name j ≡ default_name k)
urn_same j k pj pk = (λ h. ground arith, λ h. ground arith)

pair_same :
    (j k : PairKey)
    → PairNoPath j
    → PairNoPath k
    → (same_pair j k ≡ true) ↔ (pair_name j ≡ pair_name k)
pair_same (u, p) (v, q) pj pk = (λ h. ground arith, λ h. ground arith)

default_name-peer :
    (u urn : Urn) (p : PeerId) → same_name (default_name u) (ref_name urn (some p)) ≡ false
default_name-peer u urn p = elim (Bool-cases (u.id == urn.id)) [
  | inl h ↦ rw h refl
  | inr h ↦ rw h refl
]

module _ {C : Type 0} where
  lift_option : Option (Reduction (WithConfig C)) → Option (Reduction (Entry C))
  lift_option none = none
  lift_option (some r) = some (lift_reduction r)

  compose_stuck-lift :
      (first : WithConfig C) (r : Reduction (WithConfig C))
      → compose_stuck compose_entry (inl first) (lift_reduction r)
        ≡ lift_option (compose_stuck compose_track first r)
  unfolding compose_entry lift_option
  compose_stuck-lift first (simple new) = refl
  compose_stuck-lift first (stuck a b) = refl

  compose_reduction-lift :
      (r : Reduction (WithConfig C)) (t : WithConfig C)
      → compose_reduction compose_entry (lift_reduction r) (inl t)
        ≡ lift_option (compose_reduction compose_track r t)
  unfolding compose_reduction compose_entry lift_option
  compose_reduction-lift (simple s) t = refl
  compose_reduction-lift (stuck first second) t = compose_stuck-lift first (compose_track second t)

  -- The laws of `WithConfig`, from those of `Either`.
  lift-some :
      (o : Option (Reduction (WithConfig C))) (r : Reduction (Entry C))
      → lift_option o ≡ some r
      → (new : Reduction (WithConfig C)) × (o ≡ some new) × (lift_reduction new ≡ r)
  unfolding lift_option
  lift-some none r h = absurd (none-ne-some h)
  lift-some (some new) r h = (new, refl, some-injective _ _ h)

  track_total :
      (r : Reduction (WithConfig C)) (t : WithConfig C)
      → IsReduced (lift_reduction r)
      → (new : Reduction (WithConfig C)) × (compose_reduction compose_track r t ≡ some new)
        × IsReduced (lift_reduction new)
  track_total r t red =
      let (new, composes, red') = compose_reduction_total (lift_reduction r) (inl t) red in
      let (w, eq, lifted) =
        lift-some (compose_reduction compose_track r t) new
          (sym (compose_reduction-lift r t) ∙ composes) in
      (w, eq, subst IsReduced (sym lifted) red')

  track_run :
      (r : Reduction (WithConfig C)) (t : WithConfig C) (new : Reduction (WithConfig C))
      (x : Option C)
      → IsReduced (lift_reduction r)
      → IsForced (inl t)
      → compose_reduction compose_track r t ≡ some new
      → run_reduction (lift_reduction new) x
        ≡ run_entry (inl t) (run_reduction (lift_reduction r) x)
  unfolding lift_option
  track_run r t new x red forced h =
      compose_reduction_run (lift_reduction r) (inl t) (lift_reduction new) x red forced
        (compose_reduction-lift r t ∙ ap lift_option h)

  abbrev pub action_name : Action C → RefName
  action_name (track_action urn p config policy) = ref_name urn p
  action_name (untrack_action urn p policy) = ref_name urn (some p)

  abbrev pub action_entry : Action C → Entry C
  action_entry (track_action urn p config policy) =
      inl (record { policy = policy; config = config })
  action_entry (untrack_action urn p policy) = inr policy

  -- What actions, one after the other, leave at a reference: what is rejected changes nothing.
  abbrev pub run_actions : List (Action C) → RefName → Option C → Option C
  run_actions [] n s = s
  run_actions (a ∷ rest) n s =
      run_actions rest n (if same_name (action_name a) n then run_entry (action_entry a) s else s)

  abbrev pub HasNoPath : Action C → Type 0
  HasNoPath (track_action urn p config policy) = NoPath urn
  HasNoPath (untrack_action urn p policy) = NoPath urn

  abbrev pub run_pairs : List (PairKey × Reduction (Entry C)) → RefName → Option C → Option C
  run_pairs = run_entries lt_pair same_pair pair_name run_reduction IsReduced PairNoPath

  abbrev pub run_track_reduction : Reduction (WithConfig C) → Option C → Option C
  run_track_reduction r = run_reduction (lift_reduction r)

  abbrev pub IsTrackReduced : Reduction (WithConfig C) → Type 0
  IsTrackReduced r = IsReduced (lift_reduction r)

  abbrev pub run_defaults : List (Urn × Reduction (WithConfig C)) → RefName → Option C → Option C
  run_defaults = run_entries lt_urn same_urn default_name run_track_reduction IsTrackReduced NoPath

  abbrev pub run_fused : Fused C → RefName → Option C → Option C
  run_fused f n s = run_defaults f.defaults n (run_pairs f.pairs n s)

  abbrev pub IsFused : Fused C → Type 0
  IsFused f =
      IsEntries lt_pair same_pair pair_name run_reduction IsReduced PairNoPath f.pairs
      × IsEntries lt_urn same_urn default_name run_track_reduction IsTrackReduced NoPath f.defaults

  pub run_defaults-peer :
      (m : List (Urn × Reduction (WithConfig C))) (urn : Urn) (p : PeerId) (s : Option C)
      → run_defaults m (ref_name urn (some p)) s ≡ s
  run_defaults-peer [] urn p s = refl
  run_defaults-peer ((u, r) ∷ m) urn p s =
      rw (default_name-peer u urn p) (run_defaults-peer m urn p s)

  pub pairs_upsert :
      (urn : Urn) (p : PeerId) (t : Entry C) (m : List (PairKey × Reduction (Entry C)))
      → NoPath urn
      → IsEntries lt_pair same_pair pair_name run_reduction IsReduced PairNoPath m
      → (m' : List (PairKey × Reduction (Entry C))) × (upsert lt_pair same_pair compose_entry
            (urn, p)
            t
            m
          ≡ some m')
        × IsEntries lt_pair same_pair pair_name run_reduction IsReduced PairNoPath m'
        × (IsForced t
            → (n : RefName) (s : Option C)
            → run_pairs m' n s ≡ (
                if same_name (ref_name urn (some p)) n
                then run_entry t (run_pairs m n s)
                else run_pairs m n s))
  pairs_upsert urn p t m nopath h =
      upsert_lem lt_pair same_pair pair_name run_reduction IsReduced PairNoPath pair_same
        compose_entry run_entry IsForced (λ e x. refl) (λ e. tt) compose_reduction_total
        (λ r e new x. compose_reduction_run r e new x) (urn, p) t m nopath h

  pub defaults_upsert :
      (urn : Urn) (t : WithConfig C) (m : List (Urn × Reduction (WithConfig C)))
      → NoPath urn
      → IsEntries lt_urn same_urn default_name run_track_reduction IsTrackReduced NoPath m
      → (m' : List (Urn × Reduction (WithConfig C))) × (upsert lt_urn same_urn compose_track urn t m
          ≡ some m')
        × IsEntries lt_urn same_urn default_name run_track_reduction IsTrackReduced NoPath m'
        × (IsForced (inl t)
            → (n : RefName) (s : Option C)
            → run_defaults m' n s ≡ (
                if same_name (default_name urn) n
                then run_entry (inl t) (run_defaults m n s)
                else run_defaults m n s))
  defaults_upsert urn t m nopath h =
      upsert_lem lt_urn same_urn default_name run_track_reduction IsTrackReduced NoPath urn_same
        compose_track (λ w. run_entry (inl w)) (λ w. IsForced (inl w)) (λ w x. refl) (λ w. tt)
        track_total (λ r w new x. track_run r w new x) urn t m nopath h
