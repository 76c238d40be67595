-- ===== src/Net/Membership/Hpv/Ops.antt =====
-- The operations of librad/src/net/protocol/membership/hpv.rs. Each takes the state and returns the
-- new one; a failed assertion is `none`.
use radicle_link.Prelude.{
  ℕ, ◌-◌, Bool, true, false, not, ◌&&◌, ◌||◌, Option, none, some, List, [], ◌∷◌, ◌++◌, map, ◌==◌,
  ltb, leb, if◌then◌else◌, length, filter, Eq, keys, values,
}
use radicle_link.Data.Bounded.{singleton, extend_fill}
use radicle_link.Net.Info.{PeerId, PeerInfo, PartialPeerInfo, PeerAdvertisement, partial_from}
use radicle_link.Net.Membership.Rng.{Rng}
use radicle_link.Net.Membership.View.{
  PartialView, num_active, is_active, is_active_full, add_active, add_passive, demote,
}
use radicle_link.Net.Membership.Rpc.{
  Priority, normal, high, Message, join, forward_join, neighbour, shuffle, shuffle_reply,
  disconnect, all, reply, try, connect,
}
use radicle_link.Net.Membership.Hpv.{
  Shuffle, TnT, to_list, empty, with_tick, mul, from_transitions, from_ticks, extend,
  peer_info_from, sequence_all, HpvInner, Applied, join_while_connected, applied,
  broadcast_recipients,
}

abbrev pub is_high : Priority → Bool
is_high high = true
is_high normal = false

abbrev pub is_empty : {A : Type 0} → List A → Bool
is_empty [] = true
is_empty (x ∷ xs) = false

module _ {S A : Type 0} (r : Rng S A) where
  unfoldable pub random_active : HpvInner S A → HpvInner S A × Option PeerId
  random_active h =
      let (peer, rng) = r.choose h.rng (keys h.view.active) in (record h { rng = rng }, peer)

  -- `self.view.active().filter(|peer| peer != &remote_peer).choose(&mut self.rng)`
  unfoldable pub next_hop : HpvInner S A → PeerId → HpvInner S A × Option PeerId
  next_hop h remote_peer =
      let (peer, rng) =
        r.choose h.rng (filter (λ p. not (p == remote_peer)) (keys h.view.active)) in
      (record h { rng = rng }, peer)

  unfoldable pub sample : HpvInner S A → ℕ → HpvInner S A × List (PeerInfo A)
  sample h sz =
      let (chosen, rng) = r.choose_multiple h.rng (sequence_all (values h.view.active)) sz in
      if ltb (length chosen) h.params.shuffle_sample_size
      then (let (more, rng') = r.choose_multiple rng (values h.view.passive) (sz - length chosen) in
          (record h { rng = rng' }, chosen ++ more))
      else (record h { rng = rng }, chosen)

  -- `HpvInner::shuffle`, for a recipient
  unfoldable pub shuffle_with : HpvInner S A → PeerId → HpvInner S A × Option (Shuffle A)
  shuffle_with h recipient =
      let (h', infos) = sample h h.params.shuffle_sample_size in
      let chosen = filter (λ info. not (info.peer_id == recipient)) infos in
      if is_empty chosen then (h', none) else (
        h',
        some (record {
          recipient = recipient;
          sample = chosen;
          ttl = h.params.active_random_walk_length;
        }),
      )

  unfoldable pub shuffle_view : HpvInner S A → HpvInner S A × Option (Shuffle A)
  shuffle_view h =
      let (h', recipient) = random_active h in
      elim recipient [ none ↦ (h', none) | some peer ↦ shuffle_with h' peer ]

  -- The assertion makes `checked_sub` succeed.
  unfoldable pub choose_passive_to_promote :
      HpvInner S A → Option (HpvInner S A × List (PeerInfo A))
  choose_passive_to_promote h =
      if leb (num_active h.view) h.params.max_active
      then (let (infos, rng) =
            r.choose_multiple h.rng (values h.view.passive)
              (h.params.max_active - num_active h.view) in
          some (record h { rng = rng }, infos))
      else none

module _ {S A : Type 0} (r : Rng S A) ⦃e : Eq A⦄ where
  unfoldable pub connection_lost : HpvInner S A → PeerId → Option (HpvInner S A × TnT A)
  connection_lost h remote_peer =
      let (view, demoted) = demote r h.view remote_peer in
      let h' = record h { view = view } in
      if is_empty demoted then some (h', empty) else elim (choose_passive_to_promote r h') [
        | none ↦ none
        | some (h'', infos) ↦ some (h'', record { trans = demoted; ticks = map connect infos })
      ]

  unfoldable pub connection_established : HpvInner S A → PartialPeerInfo A → HpvInner S A × TnT A
  connection_established h info =
      let (view, ts) = add_active r h.view info in (record h { view = view }, from_transitions ts)

  -- `peers.into_iter().fold(tnt, |acc, info| acc * self.view.add_passive(info)…)`
  unfoldable pub add_all_passive :
      PartialView S A → TnT A → List (PeerInfo A) → PartialView S A × TnT A
  add_all_passive v acc [] = (v, acc)
  add_all_passive v acc (info ∷ infos) =
      add_all_passive (add_passive r v info).0 (mul acc (from_transitions (add_passive r v info).1))
        infos

  unfoldable pub on_join : HpvInner S A → PeerId → A → PeerAdvertisement A → Applied S A
  on_join h remote_peer remote_addr info =
      if is_active h.view remote_peer
      then join_while_connected
      else (let info' = peer_info_from remote_peer info remote_addr in
          let (view, ts) = add_active r h.view (partial_from info') in
          let h' = record h { view = view } in
          let fwd = broadcast_recipients h' (some remote_peer) in
          let tnt = from_transitions ts in
          applied h' (
            if is_empty fwd
            then tnt
            else extend tnt (all fwd (forward_join info' h.params.active_random_walk_length) ∷ [])))

  -- At the end of its walk a `ForwardJoin` leaves the joined peer in the passive view.
  unfoldable pub expire : PartialView S A → PeerInfo A → ℕ → PartialView S A × TnT A
  expire v joined ttl =
      if ttl == 0
      then (let (v', ts) = add_passive r v joined in (v', from_transitions ts))
      else (v, empty)

  unfoldable pub on_forward_join : HpvInner S A → PeerId → PeerInfo A → ℕ → Applied S A
  on_forward_join h remote_peer joined ttl =
      if (ttl == 0 || not (is_active_full h.view))
        && not (is_active h.view joined.peer_id)
        && not (joined.peer_id == h.local_id)
      then applied h (with_tick empty (connect joined))
      else (let (view, tnt) = expire h.view joined ttl in
          let (h', peer) = next_hop r (record h { view = view }) remote_peer in
          applied h'
            (extend tnt (map (λ p. all (p ∷ []) (forward_join joined (ttl - 1))) (to_list peer))))

  unfoldable pub on_neighbour :
      HpvInner S A → PeerId → A → PeerAdvertisement A → Priority → Applied S A
  on_neighbour h remote_peer remote_addr info prio =
      if is_high prio || not (is_active_full h.view)
      then (let (view, ts) =
            add_active r h.view (partial_from (peer_info_from remote_peer info remote_addr)) in
          applied (record h { view = view }) (from_transitions ts))
      else applied h (with_tick empty (reply remote_peer disconnect))

  unfoldable pub on_disconnect : HpvInner S A → PeerId → Applied S A
  on_disconnect h remote_peer =
      let (view, ts) = demote r h.view remote_peer in
      applied (record h { view = view }) (from_transitions ts)

  -- `Shuffle` with its walk at an end: answer with a sample, keep the peers received.
  unfoldable pub shuffle_here : HpvInner S A → PeerInfo A → List (PeerInfo A) → Applied S A
  shuffle_here h origin peers =
      let (h', chosen) = sample r h (length peers) in
      let tnt =
        if is_empty chosen then empty else from_ticks (try origin (shuffle_reply chosen) ∷ []) in
      let (view, tnt') = add_all_passive h'.view tnt peers in
      applied (record h' { view = view }) tnt'

  -- The first hop adds the address that it sees to those of the origin.
  unfoldable pub seen_origin : PeerId → A → PeerInfo A → PeerInfo A
  unfolding singleton extend_fill
  seen_origin remote_peer remote_addr origin =
      if origin.peer_id == remote_peer
      then record origin {
        seen_addrs =
            extend_fill (singleton remote_addr)
              (filter (λ addr. not (e.equals addr remote_addr)) origin.seen_addrs.inner);
      }
      else origin

  unfoldable pub shuffle_on :
      HpvInner S A → PeerId → A → PeerInfo A → List (PeerInfo A) → ℕ → Applied S A
  shuffle_on h remote_peer remote_addr origin peers ttl =
      let origin' = seen_origin remote_peer remote_addr origin in
      let (h', peer) = next_hop r h remote_peer in
      applied h'
        (from_ticks (map (λ p. all (p ∷ []) (shuffle origin' peers (ttl - 1))) (to_list peer)))

  unfoldable pub on_shuffle :
      HpvInner S A → PeerId → A → PeerInfo A → List (PeerInfo A) → ℕ → Applied S A
  on_shuffle h remote_peer remote_addr origin peers ttl =
      if ttl == 0 && not (origin.peer_id == h.local_id)
      then shuffle_here h origin peers
      else if ltb 0 ttl
      then shuffle_on h remote_peer remote_addr origin peers ttl
      else applied h empty

  unfoldable pub apply : HpvInner S A → PeerId → A → Message A → Applied S A
  apply h remote_peer remote_addr (join info) = on_join h remote_peer remote_addr info
  apply h remote_peer remote_addr (forward_join joined ttl) =
      on_forward_join h remote_peer joined ttl
  apply h remote_peer remote_addr (neighbour info prio) =
      on_neighbour h remote_peer remote_addr info prio
  apply h remote_peer remote_addr disconnect = on_disconnect h remote_peer
  apply h remote_peer remote_addr (shuffle origin peers ttl) =
      on_shuffle h remote_peer remote_addr origin peers ttl
  apply h remote_peer remote_addr (shuffle_reply peers) =
      (let (view, tnt) = add_all_passive h.view empty peers in
        applied (record h { view = view }) tnt)
