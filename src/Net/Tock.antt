-- ===== src/Net/Tock.antt =====
-- librad/src/net/protocol/tick.rs, io/send/rpc.rs and membership.rs: what is left to be sent, and
-- how the ticks of the membership turn into it.
use radicle_link.Prelude.{List, [], ◌∷◌, map, ◌++◌}
use radicle_link.Net.Info.{PeerId, PeerInfo, PeerAdvertisement}
use radicle_link.Net.Membership.Rpc.{Message, Tick, all, reply, try, forget}
use radicle_link.Net.Membership.Rpc
use radicle_link.Net.Membership.Hpv.{HpvInner, hello, broadcast_recipients}
use radicle_link.Net.Membership.View.{is_known}
use radicle_link.Net.Broadcast.{GossipMessage, Members}

pub data RpcMessage (A P : Type 0) : Type 0 where
  membership : Message A → RpcMessage A P
  gossip : GossipMessage A P → RpcMessage A P

pub data Tock (A P : Type 0) : Type 0 where
  send_connected : PeerId → RpcMessage A P → Tock A P
  attempt_send : PeerInfo A → RpcMessage A P → Tock A P
  connect : PeerInfo A → RpcMessage A P → Tock A P
  disconnect : PeerId → Tock A P

module _ {S A P : Type 0} where
  unfoldable pub into_tocks : HpvInner S A → PeerAdvertisement A → Tick A → List (Tock A P)
  into_tocks h info (forget peer) = disconnect peer ∷ []
  into_tocks h info (Rpc.connect to) = connect to (membership (hello h info)) ∷ []
  into_tocks h info (reply to message) = send_connected to (membership message) ∷ []
  into_tocks h info (try recipient message) = attempt_send recipient (membership message) ∷ []
  into_tocks h info (all recipients message) =
      map (λ to. send_connected to (membership message)) recipients

  unfoldable pub collect_tocks :
      HpvInner S A → PeerAdvertisement A → List (Tick A) → List (Tock A P)
  collect_tocks h info [] = []
  collect_tocks h info (t ∷ ts) = into_tocks h info t ++ collect_tocks h info ts

-- protocol.rs: `impl broadcast::Membership for membership::Hpv`
unfoldable pub members_of : {S A : Type 0} → HpvInner S A → Members
members_of h = record { members = broadcast_recipients h; is_member = λ peer. is_known h.view peer }
