-- ===== src/Net/Membership/Hpv/Run.antt =====
-- Histories of calls on the HyParView state machine, as the lock of librad/src/net/protocol/membership/hpv.rs
-- serialises them.
use radicle_link.Prelude.{
  refl, Option, none, some, List, [], ◌∷◌, arith, Eq, get, contains_key, if◌then◌else◌,
}
use radicle_link.Net.Info.{PeerId, PartialPeerInfo}
use radicle_link.Net.Membership.Rng.{Rng}
use radicle_link.Net.Membership.View.{PartialView, is_active}
use radicle_link.Net.Membership.View
use radicle_link.Net.Membership.Rpc.{Message}
use radicle_link.Net.Membership.Hpv.{Params, HpvInner, new}
use radicle_link.Net.Membership.Hpv.Ops.{
  shuffle_view, choose_passive_to_promote, connection_lost, connection_established, apply,
}
use radicle_link.Net.Membership.Hpv.Invariant.{IsValid, after}

-- One use of `Hpv`'s interface that may change the state.
pub data Call (A : Type 0) : Type 0 where
  receives : PeerId → A → Message A → Call A
  loses : PeerId → Call A
  establishes : PartialPeerInfo A → Call A
  shuffles : Call A
  promotes : Call A

-- `none` if a debug assertion of the view has failed.
abbrev pub asserted : {S A : Type 0} → HpvInner S A → Option (HpvInner S A)
asserted h = if h.view.asserts_hold then some h else none

module _ {S A : Type 0} (r : Rng S A) ⦃e : Eq A⦄ where
  -- The state after a call; `none` if an assertion fails, be it the one of `choose_passive_to_promote` or
  -- the debug assertion of `add_active`.
  pub step : HpvInner S A → Call A → Option (HpvInner S A)
  step h (receives p a m) = asserted (after h (apply r h p a m))
  step h (loses p) = elim (connection_lost r h p) [ none ↦ none | some (h', tnt) ↦ asserted h' ]
  step h (establishes i) = asserted (connection_established r h i).0
  step h shuffles = asserted (shuffle_view r h).0
  step h promotes = elim (choose_passive_to_promote r h) [
    | none ↦ none
    | some (h', infos) ↦ asserted h'
  ]

  pub run : HpvInner S A → List (Call A) → Option (HpvInner S A)
  run h [] = some h
  run h (c ∷ cs) = elim (step h c) [ none ↦ none | some h' ↦ run h' cs ]

module _ {S A : Type 0} where
  pub new-IsValid : (id : PeerId) (s : S) (params : Params) → IsValid {A = A} (new id s params)
  unfolding new View.new View.is_active View.is_passive get contains_key
  new-IsValid id s params = record {
    view_valid = record {
      active_sorted = tt;
      passive_sorted = tt;
      active_keys = λ p i h. ground arith;
      passive_keys = λ p i h. ground arith;
      active_local = refl;
      passive_local = refl;
      disjoint = λ p h. refl;
      active_bound = omega arith;
      passive_bound = omega arith;
      asserted = refl;
    };
    local = refl;
    active_size = refl;
    passive_size = refl;
  }
