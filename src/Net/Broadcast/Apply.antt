-- ===== src/Net/Broadcast/Apply.antt =====
-- `apply` of librad/src/net/protocol/broadcast.rs: the answer to a message.
use radicle_link.Prelude.{
  Bool, true, false, Option, none, some, List, [], ◌∷◌, ◌++◌, map, ◌==◌, if◌then◌else◌, Result, ok,
  err,
}
use radicle_link.Net.Info.{PeerId, PeerInfo}
use radicle_link.Net.Tock.{Tock, send_connected, gossip}
use radicle_link.Net.Broadcast.{
  Ext, GossipMessage, have, want, PutResult, put_applied, stale, uninteresting, put_error, errors,
  wants, GossipEvent, BroadcastError, unsolicited, next_hop, hash, hop_count, Members, Services,
  GossipState,
}

-- What `apply` returns.
abbrev pub Outcome : Type 0 → Type 0 → Type 0
Outcome A P = Result (BroadcastError A P) (Option (GossipEvent A P) × List (Tock A P))

module _ {A P : Type 0} (mem : Members) where
  -- The closure `broadcast`.
  unfoldable pub broadcast : GossipMessage A P → Option PeerId → List (Tock A P)
  broadcast msg exclude = map (λ to. send_connected to (gossip msg)) (mem.members exclude)

module _ {A P S T F R : Type 0} (svc : Services A P S T F R) where
  -- `Ext::new`
  unfoldable pub new_ext : GossipState S T F R → Ext × GossipState S T F R
  new_ext st =
      let (seqno, rng) = svc.rand.random st.rng in
      (record { seqno = seqno; hop = 0; sig = none }, record st { rng = rng })

  -- `ext.unwrap_or_default().next_hop()`
  unfoldable pub bump : Option Ext → GossipState S T F R → Ext × GossipState S T F R
  bump none st = let (e, st') = new_ext st in (next_hop e, st')
  bump (some e) st = (next_hop e, st)

  -- `State::seen`
  unfoldable pub seen : GossipState S T F R → GossipMessage A P → Bool × GossipState S T F R
  seen st m =
      if svc.filter.contains st.seen (hash m)
      then (true, record st { stats = svc.metrics.record_seen st.stats })
      else (false, record st { seen = svc.filter.add st.seen (hash m) })

module _ {A P S T F R : Type 0} (svc : Services A P S T F R) (mem : Members) (info : PeerInfo A)
    (remote_id : PeerId) where
  unfoldable pub retransmit :
      P → List (Tock A P) → Bool → GossipState S T F R → List (Tock A P) × GossipState S T F R
  retransmit val tocks true st = (tocks, st)
  retransmit val tocks false st =
      let (e, st') = new_ext svc st in (tocks ++ broadcast mem (want info val (some e)) none, st')

  unfoldable pub have_tocks :
      PeerInfo A
      → P
      → Option Ext
      → PutResult P
      → GossipState S T F R
      → List (Tock A P) × GossipState S T F R
  have_tocks origin val ext (put_applied ap) st =
      let (e, st') = new_ext svc st in (broadcast mem (have info ap (some e)) (some remote_id), st')
  have_tocks origin val ext put_error st =
      let (e, st1) = bump svc ext st in
      let tocks = broadcast mem (have origin val (some e)) (some remote_id) in
      let (breached, storage) = svc.storage.is_rate_limit_breached errors st1.storage in
      retransmit val tocks breached (record st1 { storage = storage })
  have_tocks origin val ext uninteresting st =
      let (e, st') = bump svc ext st in
      (broadcast mem (have origin val (some e)) (some remote_id), st')
  have_tocks origin val ext stale st = ([], st)

  unfoldable pub on_have :
      PeerInfo A → P → Option Ext → GossipState S T F R → Outcome A P × GossipState S T F R
  on_have origin val ext st =
      let (res, storage) = svc.storage.put origin val st.storage in
      let event : GossipEvent A P = record { provider = origin; payload = val; result = res } in
      let (tocks, st') = have_tocks origin val ext res (record st { storage = storage }) in
      (ok (some event, tocks), st')

  unfoldable pub answer_want :
      PeerInfo A → P → Option Ext → Bool → GossipState S T F R → Outcome A P × GossipState S T F R
  answer_want origin val ext true st =
      let (e, st') = new_ext svc st in
      let reply = have info val (some e) in
      (
        ok (
          none,
          if origin.peer_id == remote_id
              then send_connected remote_id (gossip reply) ∷ []
              else broadcast mem reply (some remote_id),
        ),
        st',
      )
  answer_want origin val ext false st =
      let (e, st') = bump svc ext st in
      (ok (none, broadcast mem (want origin val (some e)) (some remote_id)), st')

  unfoldable pub ask_storage :
      PeerInfo A → P → Option Ext → Bool → GossipState S T F R → Outcome A P × GossipState S T F R
  ask_storage origin val ext true st = (ok (none, []), st)
  ask_storage origin val ext false st =
      let (has, storage) = svc.storage.ask val st.storage in
      answer_want origin val ext has (record st { storage = storage })

  unfoldable pub on_want :
      PeerInfo A → P → Option Ext → GossipState S T F R → Outcome A P × GossipState S T F R
  on_want origin val ext st =
      let (breached, storage) =
        svc.storage.is_rate_limit_breached (wants origin.peer_id) st.storage in
      ask_storage origin val ext breached (record st { storage = storage })

  unfoldable pub handle :
      GossipMessage A P → GossipState S T F R → Outcome A P × GossipState S T F R
  handle (have origin val ext) st = on_have origin val ext st
  handle (want origin val ext) st = on_want origin val ext st

  -- From the check of the membership on; the Boolean tells if the message was seen before.
  unfoldable pub apply_unseen :
      GossipMessage A P → Bool × GossipState S T F R → Outcome A P × GossipState S T F R
  apply_unseen message (true, st) = (ok (none, []), st)
  apply_unseen message (false, st) =
      if mem.is_member remote_id
      then handle message st
      else (err (unsolicited remote_id message), st)

  unfoldable pub apply_gossip :
      GossipMessage A P → GossipState S T F R → Outcome A P × GossipState S T F R
  apply_gossip message st = apply_unseen message (
      seen svc (record st { stats = svc.metrics.record_message (hop_count message) st.stats })
        message)
