-- ===== src/Net/Membership/Rpc.antt =====
-- librad/src/net/protocol/membership/rpc.rs and tick.rs: the messages between peers, and the
-- deferred actions that an operation hands to its caller.
use radicle_link.Prelude.{ℕ, Option, none, some, List}
use radicle_link.Net.Info.{PeerId, PeerInfo, PeerAdvertisement}
use radicle_link.Net.Membership.View.{Transition, promoted, demoted, evicted}

pub data Priority : Type 0 where
  normal high : Priority

pub data Message (A : Type 0) : Type 0 where
  join : PeerAdvertisement A → Message A
  forward_join : PeerInfo A → ℕ → Message A
  neighbour : PeerAdvertisement A → Priority → Message A
  shuffle : PeerInfo A → List (PeerInfo A) → ℕ → Message A
  shuffle_reply : List (PeerInfo A) → Message A
  disconnect : Message A

pub data Tick (A : Type 0) : Type 0 where
  all : List PeerId → Message A → Tick A
  reply : PeerId → Message A → Tick A
  try : PeerInfo A → Message A → Tick A
  connect : PeerInfo A → Tick A
  forget : PeerId → Tick A

-- `impl From<Transition<A>> for Option<Tick<A>>`
abbrev pub tick_of : {A : Type 0} → Transition A → Option (Tick A)
tick_of (demoted info) = some (try info disconnect)
tick_of (evicted info) = some (forget info.peer_id)
tick_of (promoted info) = none
