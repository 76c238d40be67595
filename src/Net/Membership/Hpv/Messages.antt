-- ===== src/Net/Membership/Hpv/Messages.antt =====
-- What the HyParView state machine tells others to do.
use radicle_link.Prelude.{
  ◌-◌, ◌≡◌, refl, ◌≢◌, ◌⊎◌, inl, inr, true, some, List, [], ◌∷◌, arith, In, All, In-filter, In-keys,
  keys,
}
use radicle_link.Net.Info.{PeerId, PeerInfo}
use radicle_link.Net.Membership.Rng.{Rng}
use radicle_link.Net.Membership.View.{PartialView, is_active}
use radicle_link.Net.Membership.Rpc.{
  Message, join, forward_join, shuffle, shuffle_reply, disconnect, Tick, all, reply, try, connect,
  forget,
}
use radicle_link.Net.Membership.Hpv.{
  HpvInner, Applied, join_while_connected, applied, broadcast_recipients, peer_is_not,
}

-- What may be relayed of a message: a join as a forward join of the advertised peer, and a forward join or
-- a shuffle as itself, with one hop less.
abbrev pub Relays : {A : Type 0} → Message A → Message A → Type 0
Relays (join info) (forward_join joined ttl) = joined.advertised_info ≡ info
Relays (forward_join i n) (forward_join joined ttl) = (joined ≡ i) × (ttl ≡ n - 1)
Relays (shuffle o is n) (shuffle origin peers ttl) =
    (origin.peer_id ≡ o.peer_id) × (peers ≡ is) × (ttl ≡ n - 1)
Relays m message = ⊥

-- What is sent to a peer on a connection of its own: the answer to the origin of a shuffle.
abbrev pub Answers : {A : Type 0} → Message A → PeerInfo A → Message A → Type 0
Answers (shuffle origin peers ttl) recipient (shuffle_reply is) = recipient ≡ origin
Answers m recipient message = ⊥

-- Whom to connect to: the peer of a forward join.
abbrev pub Connects : {A : Type 0} → Message A → PeerInfo A → Type 0
Connects (forward_join joined ttl) peer = peer ≡ joined
Connects m peer = ⊥

-- The ticks that a message from a peer may lead to. A `forget` sends nothing and may name any peer.
abbrev pub IsRelay : {S A : Type 0} → PartialView S A → PeerId → Message A → Tick A → Type 0
IsRelay v from m (all recipients message) =
    All (λ p. (is_active v p ≡ true) × (p ≢ from)) recipients × Relays m message
IsRelay v from m (reply to message) = (to ≡ from) × (message ≡ disconnect)
IsRelay v from m (try recipient message) = (message ≡ disconnect) ⊎ Answers m recipient message
IsRelay v from m (connect to) = Connects m to
IsRelay v from m (forget peer) = Unit {0}

abbrev pub ticks_after : {S A : Type 0} → Applied S A → List (Tick A)
ticks_after join_while_connected = []
ticks_after (applied h tnt) = tnt.ticks

All-of-In : {X : Type 0} (P : X → Type 0) (xs : List X) → ((x : X) → In x xs → P x) → All P xs
All-of-In P [] h = tt
All-of-In P (x ∷ xs) h = (h x (inl refl), All-of-In P xs (λ y m. h y (inr m)))

module _ {S A : Type 0} where
  -- `broadcast_recipients` names active peers only, and not the one that is excluded.
  pub broadcast_recipients-others :
      (h : HpvInner S A) (p : PeerId)
      → All (λ q. (is_active h.view q ≡ true) × (q ≢ p)) (broadcast_recipients h (some p))
  unfolding broadcast_recipients is_active
  broadcast_recipients-others h p =
      All-of-In (λ q. (is_active h.view q ≡ true) × (q ≢ p)) (broadcast_recipients h (some p))
        (λ q m.
          let (held, other) = In-filter q (peer_is_not (some p)) (keys h.view.active) m in
          (In-keys q h.view.active held, λ same. ground arith))
