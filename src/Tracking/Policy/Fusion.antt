-- ===== src/Tracking/Policy/Fusion.antt =====
-- Does the composition of link-tracking/src/git/tracking/policy.rs mean the same as the actions that
-- it composes, run one after the other?
use radicle_link.Prelude.{
  ◌≡◌, ◌≢◌, refl, sym, ap, subst, ◌∙◌, ◌⊎◌, inl, inr, Option, none, some, List, [], ◌∷◌, All,
}
use mathlib.Core.Option.{some-injective}
use radicle_link.Tracking.Policy.{
  Track, Untrack, Reduction, simple, stuck, WithConfig, compose_policies, compose_track,
  compose_untrack_track, Entry, lift_reduction, with_config, compose_entry, compose_stuck,
  compose_reduction,
}

none-ne-some : {A : Type 0} {a : A} → ◌≢◌ {A = Option A} none (some a)
none-ne-some h = cc

any-ne-must_exist : Track.any ≢ Track.must_exist
any-ne-must_exist h = cc

must_not_exist-ne-must_exist : Track.must_not_exist ≢ Track.must_exist
must_not_exist-ne-must_exist h = cc

module _ {C : Type 0} where
  -- What a track leaves at a reference where `s` was: what a policy rejects changes nothing.
  abbrev pub run_track : Track → C → Option C → Option C
  run_track Track.any c s = some c
  run_track Track.must_not_exist c none = some c
  run_track Track.must_not_exist c (some x) = some x
  run_track Track.must_exist c none = none
  run_track Track.must_exist c (some x) = some c

  abbrev pub run_entry : Entry C → Option C → Option C
  run_entry (inl w) s = run_track w.policy w.config s
  run_entry (inr untrack) s = none

  abbrev pub run_reduction : Reduction (Entry C) → Option C → Option C
  run_reduction (simple e) s = run_entry e s
  run_reduction (stuck first second) s = run_entry second (run_entry first s)

  abbrev pub run_all : List (Entry C) → Option C → Option C
  run_all [] s = s
  run_all (e ∷ es) s = run_all es (run_entry e s)

  -- The composition of all actions on one reference, as `fuse` folds it.
  abbrev pub fuse_entries : Reduction (Entry C) → List (Entry C) → Option (Reduction (Entry C))
  fuse_entries r [] = some r
  fuse_entries r (e ∷ es) = elim (compose_reduction compose_entry r e) [
    | none ↦ none
    | some r' ↦ fuse_entries r' es
  ]

  -- Not a `track MustExist` that follows another kind of track.
  abbrev pub KeepsConfig : Entry C → Entry C → Type 0
  KeepsConfig (inl first) (inl second) =
      second.policy ≡ Track.must_exist → first.policy ≡ Track.must_exist
  KeepsConfig (inl first) (inr second) = Unit {0}
  KeepsConfig (inr first) second = Unit {0}

  abbrev pub IsForced : Entry C → Type 0
  IsForced (inl w) = w.policy ≢ Track.must_exist
  IsForced (inr untrack) = Unit {0}

  compose_policies_run :
      (p' p : Track) (c' c : C) (s : Option C)
      → (p' ≡ Track.must_exist → p ≡ Track.must_exist)
      → run_reduction (lift_reduction (compose_policies p' p c' c)) s
        ≡ run_track p' c' (run_track p c s)
  unfolding compose_policies
  compose_policies_run Track.any p c' c s h = refl
  compose_policies_run Track.must_not_exist Track.any c' c s h = refl
  compose_policies_run Track.must_not_exist Track.must_not_exist c' c none h = refl
  compose_policies_run Track.must_not_exist Track.must_not_exist c' c (some x) h = refl
  compose_policies_run Track.must_not_exist Track.must_exist c' c s h = refl
  compose_policies_run Track.must_exist Track.any c' c s h = absurd (any-ne-must_exist (h refl))
  compose_policies_run Track.must_exist Track.must_not_exist c' c s h =
      absurd (must_not_exist-ne-must_exist (h refl))
  compose_policies_run Track.must_exist Track.must_exist c' c none h = refl
  compose_policies_run Track.must_exist Track.must_exist c' c (some x) h = refl

  untrack_track_run :
      (u : Untrack) (p : Track) (c : C) (s : Option C)
      → run_entry (with_config c (compose_untrack_track u p)) s ≡ run_track p c none
  unfolding compose_untrack_track
  untrack_track_run u Track.any c s = refl
  untrack_track_run u Track.must_not_exist c s = refl
  untrack_track_run u Track.must_exist c s = refl

  -- Unless a `track MustExist` follows another kind of track, composing two entries means the same as
  -- running the one after the other, whatever was at the reference.
  pub compose_entry_run :
      (first second : Entry C) (s : Option C)
      → KeepsConfig first second
      → run_reduction (compose_entry first second) s ≡ run_entry second (run_entry first s)
  unfolding compose_entry compose_track
  compose_entry_run (inl first) (inl second) s h =
      compose_policies_run second.policy first.policy second.config first.config s h
  compose_entry_run (inl first) (inr untrack) s h = refl
  compose_entry_run (inr untrack) (inl second) s h =
      untrack_track_run untrack second.policy second.config s
  compose_entry_run (inr first) (inr second) s h = refl

  loses_policies :
      (p' p : Track) (c' c : C) (s : Option C)
      → p' ≡ Track.must_exist
      → p ≢ Track.must_exist
      → (run_reduction (lift_reduction (compose_policies p' p c' c)) s ≡ some c)
        × (run_track p' c' (run_track p c s) ≡ some c')
  unfolding compose_policies
  loses_policies Track.any p c' c s e n = absurd (any-ne-must_exist e)
  loses_policies Track.must_not_exist p c' c s e n = absurd (must_not_exist-ne-must_exist e)
  loses_policies Track.must_exist Track.any c' c s e n = (refl, refl)
  loses_policies Track.must_exist Track.must_not_exist c' c none e n = (refl, refl)
  loses_policies Track.must_exist Track.must_not_exist c' c (some x) e n = (refl, refl)
  loses_policies Track.must_exist Track.must_exist c' c s e n = absurd (n refl)

  -- Where a `track MustExist` follows another kind of track, the composition writes the configuration
  -- of the first, while the two in sequence leave that of the second.
  pub compose_entry_loses :
      (first second : WithConfig C) (s : Option C)
      → second.policy ≡ Track.must_exist
      → first.policy ≢ Track.must_exist
      → (run_reduction (compose_entry (inl first) (inl second)) s ≡ some first.config)
        × (run_entry (inl second) (run_entry (inl first) s) ≡ some second.config)
  unfolding compose_entry compose_track
  compose_entry_loses first second s =
      loses_policies second.policy first.policy second.config first.config s

  -- What a reduction can be: an entry, or a `track MustExist` and then a `track MustNotExist`.
  abbrev pub IsReduced : Reduction (Entry C) → Type 0
  IsReduced (simple e) = Unit {0}
  IsReduced (stuck (inl first) (inl second)) =
      (first.policy ≡ Track.must_exist) × (second.policy ≡ Track.must_not_exist)
  IsReduced (stuck (inl first) (inr second)) = ⊥
  IsReduced (stuck (inr first) second) = ⊥

  compose_policies-IsReduced :
      (p' p : Track) (c' c : C) → IsReduced (lift_reduction (compose_policies p' p c' c))
  unfolding compose_policies
  compose_policies-IsReduced Track.any p c' c = tt
  compose_policies-IsReduced Track.must_not_exist Track.any c' c = tt
  compose_policies-IsReduced Track.must_not_exist Track.must_not_exist c' c = tt
  compose_policies-IsReduced Track.must_not_exist Track.must_exist c' c = (refl, refl)
  compose_policies-IsReduced Track.must_exist Track.any c' c = tt
  compose_policies-IsReduced Track.must_exist Track.must_not_exist c' c = tt
  compose_policies-IsReduced Track.must_exist Track.must_exist c' c = tt

  compose_entry-IsReduced : (first second : Entry C) → IsReduced (compose_entry first second)
  unfolding compose_entry compose_track
  compose_entry-IsReduced (inl first) (inl second) =
      compose_policies-IsReduced second.policy first.policy second.config first.config
  compose_entry-IsReduced (inl first) (inr untrack) = tt
  compose_entry-IsReduced (inr untrack) (inl second) = tt
  compose_entry-IsReduced (inr first) (inr second) = tt

  must_not_exist-simple :
      (p' p : Track) (c' c : C)
      → p ≡ Track.must_not_exist
      → (w : WithConfig C) × (compose_policies p' p c' c ≡ simple w)
  unfolding compose_policies
  must_not_exist-simple Track.any p c' c e = (_, refl)
  must_not_exist-simple Track.must_not_exist Track.any c' c e = absurd (cc)
  must_not_exist-simple Track.must_not_exist Track.must_not_exist c' c e = (_, refl)
  must_not_exist-simple Track.must_not_exist Track.must_exist c' c e = absurd (cc)
  must_not_exist-simple Track.must_exist Track.any c' c e = absurd (cc)
  must_not_exist-simple Track.must_exist Track.must_not_exist c' c e = (_, refl)
  must_not_exist-simple Track.must_exist Track.must_exist c' c e = absurd (cc)

  Reduction-cases :
      (r : Reduction (Entry C))
      → ((e : Entry C) × (r ≡ simple e)) ⊎ ((a : Entry C) × (b : Entry C) × (r ≡ stuck a b))
  Reduction-cases (simple e) = inl (e, refl)
  Reduction-cases (stuck a b) = inr (a, b, refl)

  first_keeps :
      (first : WithConfig C) (new : Entry C)
      → first.policy ≡ Track.must_exist
      → KeepsConfig (inl first) new
  first_keeps first (inl second) h = λ e. h
  first_keeps first (inr second) h = tt

  pub compose_reduction_total :
      (r : Reduction (Entry C)) (e : Entry C)
      → IsReduced r
      → (r' : Reduction (Entry C)) × (compose_reduction compose_entry r e ≡ some r') × IsReduced r'
  unfolding compose_reduction compose_entry compose_track
  compose_reduction_total (simple s) e h = (compose_entry s e, refl, compose_entry-IsReduced s e)
  compose_reduction_total (stuck (inl first) (inl second)) (inl w) h =
      let (w', eq) = must_not_exist-simple w.policy second.policy w.config second.config h.1 in
      (
        compose_entry (inl first) (inl w'),
        ap (λ r. compose_stuck compose_entry (inl first) (lift_reduction r)) eq,
        compose_entry-IsReduced (inl first) (inl w'),
      )
  compose_reduction_total (stuck (inl first) (inl second)) (inr u) h = (_, refl, tt)
  compose_reduction_total (stuck (inl first) (inr second)) e h = absurd h
  compose_reduction_total (stuck (inr first) second) e h = absurd h

  fuse_entries_reaches :
      (r : Reduction (Entry C)) (es : List (Entry C))
      → IsReduced r
      → (r' : Reduction (Entry C)) × (fuse_entries r es ≡ some r')
  fuse_entries_reaches r [] h = (r, refl)
  fuse_entries_reaches r (e ∷ es) h =
      let (next, step, reduced) = compose_reduction_total r e h in
      let (last, rest) = fuse_entries_reaches next es reduced in
      (last, rw (step, fuse_entries) rest)

  -- Fusing any list of actions on a reference never comes to the arm that the source calls
  -- unreachable.
  pub fuse_entries_total :
      (e : Entry C) (es : List (Entry C))
      → (r : Reduction (Entry C)) × (fuse_entries (simple e) es ≡ some r)
  fuse_entries_total e es = fuse_entries_reaches (simple e) es tt

  forced-KeepsConfig : (s e : Entry C) → IsForced e → KeepsConfig s e
  forced-KeepsConfig (inl first) (inl second) h = λ e. absurd (h e)
  forced-KeepsConfig (inl first) (inr second) h = tt
  forced-KeepsConfig (inr first) e h = tt

  pub compose_reduction_run :
      (r : Reduction (Entry C)) (e : Entry C) (next : Reduction (Entry C)) (s : Option C)
      → IsReduced r
      → IsForced e
      → compose_reduction compose_entry r e ≡ some next
      → run_reduction next s ≡ run_entry e (run_reduction r s)
  unfolding compose_reduction
  compose_reduction_run (simple first) e next s reduced forced h =
      subst (λ n. run_reduction n s ≡ run_entry e (run_entry first s)) (some-injective _ _ h)
        (compose_entry_run first e s (forced-KeepsConfig first e forced))
  compose_reduction_run (stuck (inl first) (inl second)) e next s reduced forced h =
      elim (Reduction-cases (compose_entry (inl second) e)) [
        | inl (new, eq) ↦
            let h' = rw eq at h in
            let keeps = compose_entry_run (inl first) new s (first_keeps first new reduced.0) in
            let after =
              compose_entry_run (inl second) e (run_entry (inl first) s)
                (forced-KeepsConfig (inl second) e forced) in
            subst
              (λ n.
                run_reduction n s ≡ run_entry e (run_reduction (stuck (inl first) (inl second)) s))
              (some-injective _ _ h') (keeps ∙ (rw eq at after))
        | inr (a, b, eq) ↦ absurd (none-ne-some (rw eq at h))
      ]
  compose_reduction_run (stuck (inl first) (inr second)) e next s reduced forced h = absurd reduced
  compose_reduction_run (stuck (inr first) second) e next s reduced forced h = absurd reduced

  fuse_reduction_run :
      (r : Reduction (Entry C)) (es : List (Entry C)) (r' : Reduction (Entry C)) (s : Option C)
      → IsReduced r
      → All IsForced es
      → fuse_entries r es ≡ some r'
      → run_reduction r' s ≡ run_all es (run_reduction r s)
  fuse_reduction_run r [] r' s reduced forced h = rw (sym (some-injective _ _ h)) refl
  fuse_reduction_run r (e ∷ es) r' s reduced forced h =
      let (next, step, reduced') = compose_reduction_total r e reduced in
      fuse_reduction_run next es r' s reduced' forced.1 (rw (step, fuse_entries) at h)
      ∙ ap (run_all es) (compose_reduction_run r e next s reduced forced.0 step)

  -- Fusing a list of actions of which none after the first is a `track MustExist`, and running the
  -- result, leaves what the actions leave one after the other.
  pub fuse_entries_run :
      (e : Entry C) (es : List (Entry C)) (r : Reduction (Entry C)) (s : Option C)
      → All IsForced es
      → fuse_entries (simple e) es ≡ some r
      → run_reduction r s ≡ run_all (e ∷ es) s
  fuse_entries_run e es r s = fuse_reduction_run (simple e) es r s tt
