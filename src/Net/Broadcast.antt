-- ===== src/Net/Broadcast.antt =====
-- librad/src/net/protocol/broadcast.rs and broadcast/: the messages of the gossip, its state, and
-- what it uses of the storage, the metrics, the crate bloom_filters and the generator of numbers.
pub mod Apply
pub mod Seen
pub mod Relays
pub mod Tests
use radicle_link.Prelude.{
  ℕ, ◌+◌, ◌-◌, ◌^◌, ◌≡◌, Bool, true, false, Option, none, some, List, ltb, if◌then◌else◌,
}
use radicle_link.Net.Info.{PeerId, PeerInfo}

-- `seqno` is a `u64`, `hop` a `usize` of 64 bits; a signature is opaque.
pub record Ext : Type 0 where
  pub seqno : ℕ
  pub hop : ℕ
  pub sig : Option ℕ

pub data GossipMessage (A P : Type 0) : Type 0 where
  have want : PeerInfo A → P → Option Ext → GossipMessage A P

pub data PutResult (P : Type 0) : Type 0 where
  put_applied : P → PutResult P
  stale uninteresting put_error : PutResult P

pub data Limit : Type 0 where
  errors : Limit
  wants : PeerId → Limit

-- `event::upstream::Gossip::Put`
pub record GossipEvent (A P : Type 0) : Type 0 where
  pub provider : PeerInfo A
  pub payload : P
  pub result : PutResult P

pub data BroadcastError (A P : Type 0) : Type 0 where
  unsolicited : PeerId → GossipMessage A P → BroadcastError A P

-- What `Hash` feeds to a hasher: the discriminant, the origin's id, and the sequence number or else
-- the payload.
pub data Digest (P : Type 0) : Type 0 where
  of_seqno : Bool → PeerId → ℕ → Digest P
  of_payload : Bool → PeerId → P → Digest P

abbrev pub usize_max : ℕ
usize_max = 2 ^ 64 - 1

-- `self.hop.saturating_add(1)`
unfoldable pub next_hop : Ext → Ext
next_hop e = record e { hop = if ltb e.hop usize_max then e.hop + 1 else usize_max }

module _ {A P : Type 0} where
  abbrev pub origin : GossipMessage A P → PeerInfo A
  origin (have o p e) = o
  origin (want o p e) = o

  abbrev pub payload : GossipMessage A P → P
  payload (have o p e) = p
  payload (want o p e) = p

  abbrev pub ext : GossipMessage A P → Option Ext
  ext (have o p e) = e
  ext (want o p e) = e

  abbrev pub hop_count : GossipMessage A P → Option ℕ
  hop_count m = elim (ext m) [ none ↦ none | some x ↦ some x.hop ]

  abbrev pub discriminant : GossipMessage A P → Bool
  discriminant (have o p e) = false
  discriminant (want o p e) = true

  abbrev pub hash : GossipMessage A P → Digest P
  hash m = elim (ext m) [
    | none ↦ of_payload (discriminant m) (origin m).peer_id (payload m)
    | some x ↦ of_seqno (discriminant m) (origin m).peer_id x.seqno
  ]

-- The trait `Membership`.
pub record Members : Type 0 where
  pub members : Option PeerId → List PeerId
  pub is_member : PeerId → Bool

-- The traits `LocalStorage` and `RateLimited`; the storage and the limiters are one state.
pub record LocalStorage (A P S : Type 0) : Type 0 where
  pub put : PeerInfo A → P → S → PutResult P × S
  pub ask : P → S → Bool × S
  pub is_rate_limit_breached : Limit → S → Bool × S

-- The trait `Metrics`.
pub record Metrics (T : Type 0) : Type 0 where
  pub record_message : Option ℕ → T → T
  pub record_seen : T → T

-- `StableBloomFilter`
pub record BloomFilter (F P : Type 0) : Type 0 where
  pub contains : F → Digest P → Bool
  pub add : F → Digest P → F

-- What was just added is contained.
abbrev pub IsBloomFilter : {F P : Type 0} → BloomFilter F P → Type 0
IsBloomFilter {F} {P} b = (f : F) (d : Digest P) → b.contains (b.add f d) d ≡ true

-- `rand::random::<u64>()`
pub record Random (R : Type 0) : Type 0 where
  pub random : R → ℕ × R

pub record Services (A P S T F R : Type 0) : Type 0 where
  pub storage : LocalStorage A P S
  pub metrics : Metrics T
  pub filter : BloomFilter F P
  pub rand : Random R

-- `State`, with the state of the generator.
pub record GossipState (S T F R : Type 0) : Type 0 where
  pub storage : S
  pub seen : F
  pub stats : T
  pub rng : R
