-- ===== src/Net/Broadcast/Seen.antt =====
-- What librad/src/net/protocol/broadcast.rs makes of messages that it has seen before.
use radicle_link.Prelude.{
  ◌≡◌, refl, ap, ◌∙◌, inl, inr, Bool, true, false, Option, none, some, List, [], ok, err,
  Bool-cases,
}
use radicle_link.Net.Info.{PeerId, PeerInfo}
use radicle_link.Net.Broadcast.{
  Ext, GossipMessage, have, want, PutResult, put_applied, stale, uninteresting, put_error,
  unsolicited, hash, hop_count, Members, Services, IsBloomFilter, GossipState,
}
use radicle_link.Net.Broadcast.Apply.{
  new_ext, bump, seen, retransmit, have_tocks, on_have, answer_want, ask_storage, on_want, handle,
  apply_unseen, apply_gossip,
}

module _ {A P S T F R : Type 0} (svc : Services A P S T F R) (mem : Members) (info : PeerInfo A)
    (remote_id : PeerId) where
  bump-seen : (e : Option Ext) (st : GossipState S T F R) → (bump svc e st).1.seen ≡ st.seen
  unfolding bump new_ext
  bump-seen none st = refl
  bump-seen (some e) st = refl

  retransmit-seen :
      (val : P) (tocks : List _) (b : Bool) (st : GossipState S T F R)
      → (retransmit svc mem info remote_id val tocks b st).1.seen ≡ st.seen
  unfolding retransmit new_ext
  retransmit-seen val tocks true st = refl
  retransmit-seen val tocks false st = refl

  have_tocks-seen :
      (origin : PeerInfo A) (val : P) (e : Option Ext) (r : PutResult P) (st : GossipState S T F R)
      → (have_tocks svc mem info remote_id origin val e r st).1.seen ≡ st.seen
  unfolding have_tocks new_ext
  have_tocks-seen origin val e (put_applied p) st = refl
  have_tocks-seen origin val e stale st = refl
  have_tocks-seen origin val e uninteresting st = bump-seen e st
  have_tocks-seen origin val e put_error st = retransmit-seen val _ _ _ ∙ bump-seen e st

  answer_want-seen :
      (origin : PeerInfo A) (val : P) (e : Option Ext) (b : Bool) (st : GossipState S T F R)
      → (answer_want svc mem info remote_id origin val e b st).1.seen ≡ st.seen
  unfolding answer_want new_ext
  answer_want-seen origin val e true st = refl
  answer_want-seen origin val e false st = bump-seen e st

  ask_storage-seen :
      (origin : PeerInfo A) (val : P) (e : Option Ext) (b : Bool) (st : GossipState S T F R)
      → (ask_storage svc mem info remote_id origin val e b st).1.seen ≡ st.seen
  unfolding ask_storage
  ask_storage-seen origin val e true st = refl
  ask_storage-seen origin val e false st = answer_want-seen origin val e _ _

  handle-seen :
      (m : GossipMessage A P) (st : GossipState S T F R)
      → (handle svc mem info remote_id m st).1.seen ≡ st.seen
  unfolding handle on_have on_want
  handle-seen (have origin val e) st = have_tocks-seen origin val e _ _
  handle-seen (want origin val e) st = ask_storage-seen origin val e _ _

  -- A message that the filter contains is answered with nothing, and changes neither the storage nor
  -- the filter; it is only counted.
  pub apply_gossip_seen :
      (m : GossipMessage A P) (st : GossipState S T F R)
      → svc.filter.contains st.seen (hash m) ≡ true
      → apply_gossip svc mem info remote_id m st ≡ (
        ok (none, []),
        record st {
          stats = svc.metrics.record_seen (svc.metrics.record_message (hop_count m) st.stats);
        },
      )
  unfolding apply_gossip apply_unseen seen
  apply_gossip_seen m st h = rw (h, apply_gossip) refl

  -- Whatever `apply` returns, errors included, the filter contains the message afterwards.
  pub apply_gossip-contains :
      IsBloomFilter svc.filter
      → (m : GossipMessage A P) (st : GossipState S T F R)
      → svc.filter.contains (apply_gossip svc mem info remote_id m st).1.seen (hash m) ≡ true
  unfolding apply_gossip apply_unseen seen
  apply_gossip-contains law m st = elim (Bool-cases (svc.filter.contains st.seen (hash m))) [
    | inl before ↦ rw (before, apply_gossip) before
    | inr fresh ↦ elim (Bool-cases (mem.is_member remote_id)) [
      | inl member ↦
          rw (fresh, apply_gossip)
            (rw (member, apply_unseen)
              (ap (λ f. svc.filter.contains f (hash m)) (handle-seen m _) ∙ law st.seen (hash m)))
      | inr stranger ↦ rw (fresh, apply_gossip) (rw (stranger, apply_unseen) (law st.seen (hash m)))
    ]
  ]

module _ {A P S T F R : Type 0} (svc : Services A P S T F R) (law : IsBloomFilter svc.filter) where
  -- When a message has been applied, whatever came of it, and the very next one, applied to the state
  -- right after, has the same digest, then that is answered with nothing, whoever sends it and whoever the
  -- members are.
  pub apply_gossip_twice :
      (mem mem' : Members) (info info' : PeerInfo A) (first second : PeerId)
      (m m' : GossipMessage A P) (st : GossipState S T F R)
      → hash m ≡ hash m'
      → (apply_gossip svc mem' info' second m' (apply_gossip svc mem info first m st).1).0
        ≡ ok (none, [])
  apply_gossip_twice mem mem' info info' first second m m' st same =
      ap (λ out. out.0)
        (apply_gossip_seen svc mem' info' second m' (apply_gossip svc mem info first m st).1
          (rw same at (apply_gossip-contains svc mem info first law m st)))

  -- A fresh message from a peer that is not a member is refused, and touches no storage; but when a
  -- member then delivers the same message, that is answered with nothing.
  pub unsolicited_suppresses :
      (mem : Members) (info : PeerInfo A) (stranger member : PeerId) (m : GossipMessage A P)
      (st : GossipState S T F R)
      → svc.filter.contains st.seen (hash m) ≡ false
      → mem.is_member stranger ≡ false
      → ((apply_gossip svc mem info stranger m st).0 ≡ err (unsolicited stranger m))
        × ((apply_gossip svc mem info stranger m st).1.storage ≡ st.storage)
        × ((apply_gossip svc mem info member m (apply_gossip svc mem info stranger m st).1).0
            ≡ ok (none, []))
  unfolding apply_gossip apply_unseen seen
  unsolicited_suppresses mem info stranger member m st fresh unknown = (
    rw (fresh, apply_gossip) (rw (unknown, apply_unseen) refl),
    rw (fresh, apply_gossip) (rw (unknown, apply_unseen) refl),
    apply_gossip_twice mem mem info info stranger member m m st refl,
  )
