-- ===== src/Net/Membership/Hpv.antt =====
-- librad/src/net/protocol/membership/hpv.rs and params.rs: the HyParView state machine. The lock
-- around `HpvInner` makes each operation atomic, so an operation is a function from state to state.
pub mod Ops
pub mod Invariant
pub mod Run
pub mod Messages
pub mod Limits
use radicle_link.Prelude.{
  ℕ, zero, suc, ◌-◌, ◌≡◌, Bool, true, false, not, ◌&&◌, ◌||◌, Option, none, some, List, [], ◌∷◌,
  ◌++◌, map, ◌==◌, ltb, leb, if◌then◌else◌, length, filter, Eq, keys, values,
}
use radicle_link.Data.Bounded.{Bounded, singleton, extend_fill}
use radicle_link.Net.Info.{
  PeerId, PeerAdvertisement, PeerInfo, PartialPeerInfo, sequence, partial_from,
}
use radicle_link.Net.Membership.Rng.{Rng}
use radicle_link.Net.Membership.View.{
  PartialView, Transition, num_active, num_passive, is_active, is_active_full, add_active,
  add_passive, demote,
}
use radicle_link.Net.Membership.View
use radicle_link.Net.Membership.Rpc.{
  Priority, normal, high, Message, join, forward_join, neighbour, shuffle, shuffle_reply,
  disconnect, Tick, all, reply, try, connect, forget, tick_of,
}

-- Durations are in seconds.
pub record Params : Type 0 where
  pub max_active : ℕ
  pub max_passive : ℕ
  pub active_random_walk_length : ℕ
  pub passive_random_walk_length : ℕ
  pub shuffle_sample_size : ℕ
  pub shuffle_interval : ℕ
  pub promote_interval : ℕ

abbrev pub default_params : Params
default_params = record {
  max_active = 5;
  max_passive = 30;
  active_random_walk_length = 6;
  passive_random_walk_length = 3;
  shuffle_sample_size = 7;
  shuffle_interval = 30;
  promote_interval = 30;
}

pub record Shuffle (A : Type 0) : Type 0 where
  pub recipient : PeerId
  pub sample : List (PeerInfo A)
  pub ttl : ℕ

pub record TnT (A : Type 0) : Type 0 where
  pub trans : List (Transition A)
  pub ticks : List (Tick A)

abbrev pub to_list : {A : Type 0} → Option A → List A
to_list none = []
to_list (some a) = a ∷ []

module _ {A : Type 0} where
  abbrev pub empty : TnT A
  empty = record { trans = []; ticks = [] }

  abbrev pub with_tick : TnT A → Tick A → TnT A
  with_tick tnt tick = record tnt { ticks = tick ∷ [] }

  abbrev pub mul : TnT A → TnT A → TnT A
  mul a b = record { trans = a.trans ++ b.trans; ticks = a.ticks ++ b.ticks }

  unfoldable pub ticks_of : List (Transition A) → List (Tick A)
  ticks_of [] = []
  ticks_of (t ∷ ts) = to_list (tick_of t) ++ ticks_of ts

  -- `FromIterator<Transition<A>>`
  abbrev pub from_transitions : List (Transition A) → TnT A
  from_transitions ts = record { trans = ts; ticks = ticks_of ts }

  -- `FromIterator<Tick<A>>`
  abbrev pub from_ticks : List (Tick A) → TnT A
  from_ticks ticks = record { trans = []; ticks = ticks }

  -- `Extend<Tick<A>>`
  abbrev pub extend : TnT A → List (Tick A) → TnT A
  extend tnt ticks = record tnt { ticks = tnt.ticks ++ ticks }

  unfoldable pub peer_info_from : PeerId → PeerAdvertisement A → A → PeerInfo A
  unfolding singleton
  peer_info_from remote_peer advertised remote_addr = record {
    peer_id = remote_peer;
    advertised_info = advertised;
    seen_addrs = singleton remote_addr;
  }

  -- `filter_map(|info| info.sequence())`
  unfoldable pub sequence_all : List (PartialPeerInfo A) → List (PeerInfo A)
  sequence_all [] = []
  sequence_all (i ∷ is) = to_list (sequence i) ++ sequence_all is

pub record HpvInner (S A : Type 0) : Type 0 where
  pub local_id : PeerId
  pub params : Params
  pub rng : S
  pub view : PartialView S A

abbrev pub peer_is_not : Option PeerId → PeerId → Bool
peer_is_not none peer = true
peer_is_not (some ex) peer = not (ex == peer)

-- The result of `apply`: `Error::JoinWhileConnected`, or the state and what is left to do.
pub data Applied (S A : Type 0) : Type 0 where
  join_while_connected : Applied S A
  applied : HpvInner S A → TnT A → Applied S A

module _ {S A : Type 0} where
  -- `rng.clone()` gives the view a copy of the generator's state.
  unfoldable pub new : PeerId → S → Params → HpvInner S A
  unfolding View.new
  new local_id rng params = record {
    local_id = local_id;
    params = params;
    rng = rng;
    view = View.new local_id rng params.max_active params.max_passive;
  }

  unfoldable pub broadcast_recipients : HpvInner S A → Option PeerId → List PeerId
  broadcast_recipients h exclude = filter (peer_is_not exclude) (keys h.view.active)

  -- `Hpv::hello`
  unfoldable pub hello : HpvInner S A → PeerAdvertisement A → Message A
  hello h info =
      if num_active h.view == 0 && num_passive h.view == 0
      then join info
      else neighbour info (if num_active h.view == 0 then high else normal)
