-- ===== src/Tracking/Policy.antt =====
-- link-tracking/src/git/tracking/policy.rs and refdb/previous_value.rs: the policies of tracking
-- actions, their composition, and what they require of the previous value of a reference.
pub mod Fusion
use radicle_link.Prelude.{
  ℕ, ◌⊎◌, inl, inr, Bool, true, false, Option, none, some, List, [], ◌∷◌, ◌==◌, if◌then◌else◌,
}

-- Object ids are numbers.
abbrev pub Oid : Type 0
Oid = ℕ

pub data Track : Type 0 where
  any must_not_exist must_exist : Track

pub data Untrack : Type 0 where
  any must_exist : Untrack

pub data UntrackAll : Type 0 where
  any must_exist_and_match : UntrackAll

pub data PreviousValue : Type 0 where
  any must_exist must_not_exist : PreviousValue
  must_exist_and_match if_exists_must_match : Oid → PreviousValue

pub data PreviousError : Type 0 where
  did_not_exist did_exist : PreviousError
  did_not_match : Oid → Oid → PreviousError

-- `PreviousValue::guard`, without the callback: the error, or `none` where the callback runs.
unfoldable pub guard : PreviousValue → Option Oid → Option PreviousError
guard PreviousValue.any previous = none
guard PreviousValue.must_exist none = some did_not_exist
guard PreviousValue.must_exist (some actual) = none
guard PreviousValue.must_not_exist none = none
guard PreviousValue.must_not_exist (some actual) = some did_exist
guard (must_exist_and_match expected) none = some did_not_exist
guard (must_exist_and_match expected) (some actual) =
    if expected == actual then none else some (did_not_match expected actual)
guard (if_exists_must_match expected) none = none
guard (if_exists_must_match expected) (some actual) =
    if expected == actual then none else some (did_not_match expected actual)

-- `From<Track> for PreviousValue<Oid>`
abbrev pub track_previous : Track → PreviousValue
track_previous Track.any = PreviousValue.any
track_previous Track.must_not_exist = PreviousValue.must_not_exist
track_previous Track.must_exist = PreviousValue.must_exist

-- `From<Untrack> for PreviousValue<Oid>`
abbrev pub untrack_previous : Untrack → PreviousValue
untrack_previous Untrack.any = PreviousValue.any
untrack_previous Untrack.must_exist = PreviousValue.must_exist

-- `UntrackAll::into_previous_value`
abbrev pub into_previous_value : UntrackAll → Oid → PreviousValue
into_previous_value UntrackAll.any oid = PreviousValue.any
into_previous_value UntrackAll.must_exist_and_match oid = must_exist_and_match oid

pub data Reduction (T : Type 0) : Type 0 where
  simple : T → Reduction T
  stuck : T → T → Reduction T

-- `IntoIterator for Reduction`
abbrev pub reduction_list : {T : Type 0} → Reduction T → List T
reduction_list (simple one) = one ∷ []
reduction_list (stuck first second) = first ∷ second ∷ []

pub record WithConfig (C : Type 0) : Type 0 where
  pub policy : Track
  pub config : C

module _ {C : Type 0} where
  -- The `match` of `compose_track`, on the policies of the second and of the first.
  unfoldable pub compose_policies : Track → Track → C → C → Reduction (WithConfig C)
  compose_policies Track.any x c' c = simple (record { policy = Track.any; config = c' })
  compose_policies Track.must_not_exist Track.any c' c =
      simple (record { policy = Track.any; config = c })
  compose_policies Track.must_not_exist Track.must_not_exist c' c =
      simple (record { policy = Track.must_not_exist; config = c })
  compose_policies Track.must_not_exist Track.must_exist c' c =
      stuck (record { policy = Track.must_exist; config = c })
        (record { policy = Track.must_not_exist; config = c' })
  compose_policies Track.must_exist Track.any c' c =
      simple (record { policy = Track.any; config = c })
  compose_policies Track.must_exist Track.must_not_exist c' c =
      simple (record { policy = Track.any; config = c })
  compose_policies Track.must_exist Track.must_exist c' c =
      simple (record { policy = Track.must_exist; config = c' })

  -- `Compose<WithConfig> for WithConfig`: the first argument is `self`.
  unfoldable pub compose_track : WithConfig C → WithConfig C → Reduction (WithConfig C)
  unfolding compose_policies
  compose_track self other = compose_policies other.policy self.policy other.config self.config

-- `Compose<Untrack> for Track`
abbrev pub compose_track_untrack : Track → Untrack → Untrack
compose_track_untrack self other = Untrack.any

-- `Compose<Untrack> for Untrack`
unfoldable pub compose_untrack : Untrack → Untrack → Untrack
compose_untrack self Untrack.any = Untrack.any
compose_untrack Untrack.any Untrack.must_exist = Untrack.any
compose_untrack Untrack.must_exist Untrack.must_exist = Untrack.must_exist

-- `Compose<Track> for Untrack`
unfoldable pub compose_untrack_track : Untrack → Track → Track ⊎ Untrack
compose_untrack_track self Track.any = inl Track.any
compose_untrack_track self Track.must_not_exist = inl Track.any
compose_untrack_track self Track.must_exist = inr self

-- `Either<WithConfig, Untrack>`
abbrev pub Entry : Type 0 → Type 0
Entry C = WithConfig C ⊎ Untrack

module _ {C : Type 0} where
  abbrev pub lift_reduction : Reduction (WithConfig C) → Reduction (Entry C)
  lift_reduction (simple w) = simple (inl w)
  lift_reduction (stuck first second) = stuck (inl first) (inl second)

  abbrev pub with_config : C → Track ⊎ Untrack → Entry C
  with_config config (inl track) = inl (record { policy = track; config = config })
  with_config config (inr untrack) = inr untrack

  -- `Compose<Either<WithConfig, Untrack>> for Either<WithConfig, Untrack>`
  unfoldable pub compose_entry : Entry C → Entry C → Reduction (Entry C)
  compose_entry (inl first) (inl second) = lift_reduction (compose_track first second)
  compose_entry (inr untrack) (inl w) =
      simple (with_config w.config (compose_untrack_track untrack w.policy))
  compose_entry (inl w) (inr untrack) = simple (inr (compose_track_untrack w.policy untrack))
  compose_entry (inr first) (inr second) = simple (inr (compose_untrack first second))

module _ {T : Type 0} (compose : T → T → Reduction T) where
  -- The arm for `Stuck`: `none` stands for `unreachable!()`.
  abbrev pub compose_stuck : T → Reduction T → Option (Reduction T)
  compose_stuck first (simple new) = some (compose first new)
  compose_stuck first (stuck a b) = none

  -- `Compose<T> for Reduction<T>`
  unfoldable pub compose_reduction : Reduction T → T → Option (Reduction T)
  compose_reduction (simple s) other = some (compose s other)
  compose_reduction (stuck first second) other = compose_stuck first (compose second other)
