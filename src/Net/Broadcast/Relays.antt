-- ===== src/Net/Broadcast/Relays.antt =====
-- To whom librad/src/net/protocol/broadcast.rs sends what.
use radicle_link.Prelude.{
  All-append, ℕ, ◌+◌, ◌≤◌, ◌<◌, ◌≡◌, ◌≢◌, refl, ◌⊎◌, inl, inr, Bool, true, false, Option, none,
  some, List, [], ◌∷◌, map, if◌then◌else◌, ◌==◌, ltb, arith, ok, err, In, All, Bool-cases,
}
use radicle_link.Net.Info.{PeerId, PeerInfo}
use radicle_link.Net.Tock.{Tock, send_connected, gossip, members_of}
use radicle_link.Net.Membership.Hpv.{HpvInner, broadcast_recipients}
use radicle_link.Net.Membership.Hpv.Messages.{broadcast_recipients-others}
use radicle_link.Net.Broadcast.{
  Ext, GossipMessage, have, want, PutResult, put_applied, stale, uninteresting, put_error, hash,
  next_hop, usize_max, Members, Services, GossipState,
}
use radicle_link.Net.Broadcast.Apply.{
  Outcome, broadcast, new_ext, bump, seen, retransmit, have_tocks, on_have, answer_want,
  ask_storage, on_want, handle, apply_unseen, apply_gossip,
}

-- The tocks that a message leaves to be sent.
abbrev pub tocks_of : {A P : Type 0} → Outcome A P → List (Tock A P)
tocks_of (ok (event, tocks)) = tocks
tocks_of (err e) = []

-- `members` leaves out whom it is told to exclude.
abbrev pub IsMembers : Members → Type 0
IsMembers mem = (x to : PeerId) → In to (mem.members (some x)) → to ≢ x

All-In : {X : Type 0} (Q : X → Type 0) (xs : List X) (x : X) → All Q xs → In x xs → Q x
All-In Q [] x h m = absurd m
All-In Q (y ∷ xs) x h (inl e) = rw e h.0
All-In Q (y ∷ xs) x h (inr m) = All-In Q xs x h.1 m

-- The views of HyParView serve as the members that the gossip asks for.
pub members_of-IsMembers : {S A : Type 0} (h : HpvInner S A) → IsMembers (members_of h)
unfolding members_of
members_of-IsMembers h x to m =
    (All-In _ (broadcast_recipients h (some x)) to (broadcast_recipients-others h x) m).1

-- A relayed message counts one more hop, up to the maximum, and keeps its number if it has one.
abbrev pub IsNextHop : Option Ext → Ext → Type 0
IsNextHop none e = e.hop ≡ 1
IsNextHop (some x) e =
    (e.seqno ≡ x.seqno)
    × (e.sig ≡ x.sig)
    × (((x.hop < usize_max) × (e.hop ≡ x.hop + 1)) ⊎ ((usize_max ≤ x.hop) × (e.hop ≡ usize_max)))

abbrev pub own : ℕ → Option Ext
own n = some (record { seqno = n; hop = 0; sig = none })

-- What a message may lead to: it is relayed, unchanged but for its hops, or the local peer announces
-- a payload, requests a retransmission, or replies to a request. Nothing but requests, and replies to
-- a request of the sender's own, goes back to the sender.
pub data IsAnswer {A P : Type 0} (info : PeerInfo A) (remote : PeerId)
    : GossipMessage A P → Tock A P → Type 0 where
  relay_have :
      (o : PeerInfo A) (p : P) (e : Option Ext) (e' : Ext) (to : PeerId)
      → IsNextHop e e'
      → to ≢ remote
      → IsAnswer info remote (have o p e) (send_connected to (gossip (have o p (some e'))))
  relay_want :
      (o : PeerInfo A) (p : P) (e : Option Ext) (e' : Ext) (to : PeerId)
      → IsNextHop e e'
      → to ≢ remote
      → IsAnswer info remote (want o p e) (send_connected to (gossip (want o p (some e'))))
  announce :
      (o : PeerInfo A) (p ap : P) (e : Option Ext) (n : ℕ) (to : PeerId)
      → to ≢ remote
      → IsAnswer info remote (have o p e) (send_connected to (gossip (have info ap (own n))))
  request :
      (o : PeerInfo A) (p : P) (e : Option Ext) (n : ℕ) (to : PeerId)
      → IsAnswer info remote (have o p e) (send_connected to (gossip (want info p (own n))))
  replied :
      (o : PeerInfo A) (p : P) (e : Option Ext) (n : ℕ) (to : PeerId)
      → (to ≢ remote) ⊎ ((to ≡ remote) × (o.peer_id ≡ remote))
      → IsAnswer info remote (want o p e) (send_connected to (gossip (have info p (own n))))

next_hop-IsNextHop : (x : Ext) → IsNextHop (some x) (next_hop x)
unfolding next_hop
next_hop-IsNextHop x = elim (Bool-cases (ltb x.hop usize_max)) [
  | inl below ↦ (refl, refl, inl (ground arith, rw below refl))
  | inr above ↦ (refl, refl, inr (ground arith, rw above refl))
]

map-All :
    {X Y : Type 0} (P : Y → Type 0) (f : X → Y) (xs : List X)
    → ((x : X) → In x xs → P (f x))
    → All P (map f xs)
map-All P f [] h = tt
map-All P f (x ∷ xs) h = (h x (inl refl), map-All P f xs (λ y m. h y (inr m)))

module _ {A P S T F R : Type 0} (svc : Services A P S T F R) (mem : Members) (info : PeerInfo A)
    (remote_id : PeerId) where
  bump-IsNextHop : (e : Option Ext) (st : GossipState S T F R) → IsNextHop e (bump svc e st).0
  unfolding bump new_ext next_hop
  bump-IsNextHop none st = refl
  bump-IsNextHop (some x) st = next_hop-IsNextHop x

  broadcast-All :
      (Q : Tock A P → Type 0) (msg : GossipMessage A P) (exclude : Option PeerId)
      → ((to : PeerId) → In to (mem.members exclude) → Q (send_connected to (gossip msg)))
      → All Q (broadcast mem msg exclude)
  unfolding broadcast
  broadcast-All Q msg exclude h = map-All Q _ (mem.members exclude) h

  retransmit-IsAnswer :
      (o : PeerInfo A) (val : P) (e : Option Ext) (tocks : List (Tock A P)) (b : Bool)
      (st : GossipState S T F R)
      → All (IsAnswer info remote_id (have o val e)) tocks
      → All
          (IsAnswer info remote_id (have o val e))
          (retransmit svc mem info remote_id val tocks b st).0
  unfolding retransmit new_ext
  retransmit-IsAnswer o val e tocks true st h = h
  retransmit-IsAnswer o val e tocks false st h =
      All-append _ tocks _ h (broadcast-All _ _ _ (λ to m. request o val e _ to))

  have_tocks-IsAnswer :
      IsMembers mem
      → (o : PeerInfo A) (val : P) (e : Option Ext) (r : PutResult P) (st : GossipState S T F R)
      → All
          (IsAnswer info remote_id (have o val e))
          (have_tocks svc mem info remote_id o val e r st).0
  unfolding have_tocks new_ext
  have_tocks-IsAnswer law o val e (put_applied p) st =
      broadcast-All _ _ _ (λ to m. announce o val p e _ to (law remote_id to m))
  have_tocks-IsAnswer law o val e stale st = tt
  have_tocks-IsAnswer law o val e uninteresting st =
      broadcast-All _ _ _
        (λ to m. relay_have o val e _ to (bump-IsNextHop e st) (law remote_id to m))
  have_tocks-IsAnswer law o val e put_error st = retransmit-IsAnswer o val e _ _ _ (
      broadcast-All _ _ _
        (λ to m. relay_have o val e _ to (bump-IsNextHop e st) (law remote_id to m)))

  reply-IsAnswer :
      IsMembers mem
      → (o : PeerInfo A) (val : P) (e : Option Ext) (n : ℕ)
      → All (IsAnswer info remote_id (want o val e)) (
          if o.peer_id == remote_id
          then send_connected remote_id (gossip (have info val (own n))) ∷ []
          else broadcast mem (have info val (own n)) (some remote_id))
  reply-IsAnswer law o val e n = elim (Bool-cases (o.peer_id == remote_id)) [
    | inl same ↦ rw same (replied o val e n remote_id (inr (refl, ground arith)), tt)
    | inr other ↦
        rw other (broadcast-All _ _ _ (λ to m. replied o val e n to (inl (law remote_id to m))))
  ]

  answer_want-IsAnswer :
      IsMembers mem
      → (o : PeerInfo A) (val : P) (e : Option Ext) (b : Bool) (st : GossipState S T F R)
      → All
          (IsAnswer info remote_id (want o val e))
          (tocks_of (answer_want svc mem info remote_id o val e b st).0)
  unfolding answer_want new_ext
  answer_want-IsAnswer law o val e true st = reply-IsAnswer law o val e _
  answer_want-IsAnswer law o val e false st =
      broadcast-All _ _ _
        (λ to m. relay_want o val e _ to (bump-IsNextHop e st) (law remote_id to m))

  ask_storage-IsAnswer :
      IsMembers mem
      → (o : PeerInfo A) (val : P) (e : Option Ext) (b : Bool) (st : GossipState S T F R)
      → All
          (IsAnswer info remote_id (want o val e))
          (tocks_of (ask_storage svc mem info remote_id o val e b st).0)
  unfolding ask_storage
  ask_storage-IsAnswer law o val e true st = tt
  ask_storage-IsAnswer law o val e false st = answer_want-IsAnswer law o val e _ _

  handle-IsAnswer :
      IsMembers mem
      → (m : GossipMessage A P) (st : GossipState S T F R)
      → All (IsAnswer info remote_id m) (tocks_of (handle svc mem info remote_id m st).0)
  unfolding handle on_have on_want
  handle-IsAnswer law (have o val e) st = have_tocks-IsAnswer law o val e _ _
  handle-IsAnswer law (want o val e) st = ask_storage-IsAnswer law o val e _ _

  -- All that a message leads to is an answer to it: a relay of it with the hops counted, an
  -- announcement, a request or a reply; only requests, and a reply to a request of the sender's own,
  -- go back to the sender.
  pub apply_gossip-IsAnswer :
      IsMembers mem
      → (m : GossipMessage A P) (st : GossipState S T F R)
      → All (IsAnswer info remote_id m) (tocks_of (apply_gossip svc mem info remote_id m st).0)
  unfolding apply_gossip apply_unseen seen
  apply_gossip-IsAnswer law m st = elim (Bool-cases (svc.filter.contains st.seen (hash m))) [
    | inl before ↦ rw (before, apply_gossip) tt
    | inr fresh ↦ elim (Bool-cases (mem.is_member remote_id)) [
      | inl member ↦ rw (fresh, apply_gossip) (rw (member, apply_unseen) (handle-IsAnswer law m _))
      | inr stranger ↦ rw (fresh, apply_gossip) (rw (stranger, apply_unseen) tt)
    ]
  ]
