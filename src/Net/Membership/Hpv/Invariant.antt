-- ===== src/Net/Membership/Hpv/Invariant.antt =====
-- Every operation of the HyParView state machine keeps its state well formed.
use radicle_link.Prelude.{
  ℕ, ◌≡◌, refl, not, ◌&&◌, ◌||◌, some, List, [], ◌∷◌, arith, ◌==◌, ltb, length, Option-cases,
  Bool-cases, inl, inr, Eq, keys,
}
use radicle_link.Net.Info.{PeerId, PeerInfo, PartialPeerInfo, PeerAdvertisement, partial_from}
use radicle_link.Net.Membership.Rng.{Rng, IsRng}
use radicle_link.Net.Membership.View.{PartialView, is_active, is_active_full, add_passive, demote}
use radicle_link.Net.Membership.View.Preserve.{
  KeepsConfig, add_passive-KeepsConfig, demote-KeepsConfig, add_active-KeepsConfig,
  add_active-IsValid, add_passive-IsValid, demote-IsValid,
}
use radicle_link.Net.Membership.View.Invariant
use radicle_link.Net.Membership.Rpc.{
  Priority, Message, join, forward_join, neighbour, shuffle, shuffle_reply, disconnect,
}
use radicle_link.Net.Membership.Hpv.{
  TnT, empty, mul, from_transitions, HpvInner, Applied, join_while_connected, applied,
  peer_info_from,
}
use radicle_link.Net.Membership.Hpv.Ops.{
  is_high, random_active, next_hop, sample, shuffle_with, shuffle_view, choose_passive_to_promote,
  connection_lost, connection_established, add_all_passive, on_join, expire, on_forward_join,
  on_neighbour, on_disconnect, shuffle_here, shuffle_on, on_shuffle, apply,
}

module _ {S A : Type 0} where
  -- The view is well formed, and it is configured as the parameters say.
  pub record IsValid (h : HpvInner S A) : Type 0 where
    pub view_valid : Invariant.IsValid h.view
    pub local : h.view.local_id ≡ h.local_id
    pub active_size : h.view.max_active ≡ h.params.max_active
    pub passive_size : h.view.max_passive ≡ h.params.max_passive

  -- Only the generator differs.
  pub record IsQuiet (h h' : HpvInner S A) : Type 0 where
    pub same_view : h'.view ≡ h.view
    pub same_id : h'.local_id ≡ h.local_id
    pub same_params : h'.params ≡ h.params

  pub quiet-IsValid : {h h' : HpvInner S A} → IsQuiet h h' → IsValid h → IsValid h'
  quiet-IsValid q v = record {
    view_valid = rw q.same_view v.view_valid;
    local = ground arith;
    active_size = ground arith;
    passive_size = ground arith;
  }

  pub with_view-IsValid :
      (h : HpvInner S A) (w : PartialView S A)
      → IsValid h
      → Invariant.IsValid w
      → KeepsConfig h.view w
      → IsValid (record h { view = w })
  with_view-IsValid h w v valid c = record {
    view_valid = valid;
    local = ground arith;
    active_size = ground arith;
    passive_size = ground arith;
  }

  -- The state after `apply`, which an error leaves as it was.
  abbrev pub after : HpvInner S A → Applied S A → HpvInner S A
  after h join_while_connected = h
  after h (applied h' tnt) = h'

module _ {S A : Type 0} (r : Rng S A) where
  pub sample-IsQuiet : (h : HpvInner S A) (n : ℕ) → IsQuiet h (sample r h n).0
  unfolding sample
  sample-IsQuiet h n = ground arith

  pub next_hop-IsQuiet : (h : HpvInner S A) (p : PeerId) → IsQuiet h (next_hop r h p).0
  unfolding next_hop
  next_hop-IsQuiet h p = ground arith

  shuffle_with-IsQuiet : (h : HpvInner S A) (p : PeerId) → IsQuiet h (shuffle_with r h p).0
  unfolding shuffle_with
  shuffle_with-IsQuiet h p = ground (arith, sample-IsQuiet h h.params.shuffle_sample_size)

  pub shuffle_view-IsQuiet : (h : HpvInner S A) → IsQuiet h (shuffle_view r h).0
  unfolding shuffle_view random_active
  shuffle_view-IsQuiet h = elim (Option-cases (r.choose h.rng (keys h.view.active)).0) [
    | inl none_active ↦
        rw (none_active, shuffle_view)
          (record { same_view = refl; same_id = refl; same_params = refl })
    | inr (p, chosen) ↦
        rw (chosen, shuffle_view)
          (let q : IsQuiet (record h { rng = (r.choose h.rng (keys h.view.active)).1 }) _ =
              shuffle_with-IsQuiet (record h { rng = (r.choose h.rng (keys h.view.active)).1 }) p in
            record { same_view = q.same_view; same_id = q.same_id; same_params = q.same_params })
  ]

  pub choose_passive_to_promote-IsQuiet :
      (h h' : HpvInner S A) (infos : List (PeerInfo A))
      → choose_passive_to_promote r h ≡ some (h', infos)
      → IsQuiet h h'
  unfolding choose_passive_to_promote
  choose_passive_to_promote-IsQuiet h h' infos e = ground arith

module _ {S A : Type 0} (r : Rng S A) ⦃e : Eq A⦄ (law : IsRng r) where
  add_all_passive-KeepsConfig :
      (v : PartialView S A) (acc : TnT A) (peers : List (PeerInfo A))
      → KeepsConfig v (add_all_passive r v acc peers).0
  unfolding add_all_passive
  add_all_passive-KeepsConfig v acc [] = ground arith
  add_all_passive-KeepsConfig v acc (i ∷ is) = ground (
    arith,
    add_passive-KeepsConfig r v i,
    add_all_passive-KeepsConfig (add_passive r v i).0
        (mul acc (from_transitions (add_passive r v i).1)) is,
  )

  add_all_passive-IsValid :
      (v : PartialView S A) (acc : TnT A) (peers : List (PeerInfo A))
      → Invariant.IsValid v
      → Invariant.IsValid (add_all_passive r v acc peers).0
  unfolding add_all_passive
  add_all_passive-IsValid v acc [] h = h
  add_all_passive-IsValid v acc (i ∷ is) h =
      add_all_passive-IsValid (add_passive r v i).0
        (mul acc (from_transitions (add_passive r v i).1)) is (add_passive-IsValid r law v i h)

  pub connection_established-IsValid :
      (h : HpvInner S A) (i : PartialPeerInfo A)
      → IsValid h
      → IsValid (connection_established r h i).0
  unfolding connection_established
  connection_established-IsValid h i v =
      with_view-IsValid h _ v (add_active-IsValid r law h.view i v.view_valid)
        (add_active-KeepsConfig r law h.view i v.view_valid)

  pub demoted-IsValid :
      (h : HpvInner S A) (p : PeerId)
      → IsValid h
      → IsValid (record h { view = (demote r h.view p).0 })
  demoted-IsValid h p v =
      with_view-IsValid h _ v (demote-IsValid r law h.view p v.view_valid)
        (demote-KeepsConfig r h.view p)

  pub connection_lost-IsQuiet :
      (h h' : HpvInner S A) (p : PeerId) (tnt : TnT A)
      → connection_lost r h p ≡ some (h', tnt)
      → IsQuiet (record h { view = (demote r h.view p).0 }) h'
  unfolding connection_lost choose_passive_to_promote
  connection_lost-IsQuiet h h' p tnt lost = ground arith

  pub connection_lost-IsValid :
      (h h' : HpvInner S A) (p : PeerId) (tnt : TnT A)
      → IsValid h
      → connection_lost r h p ≡ some (h', tnt)
      → IsValid h'
  connection_lost-IsValid h h' p tnt v lost =
      quiet-IsValid (connection_lost-IsQuiet h h' p tnt lost) (demoted-IsValid h p v)

  on_join-IsValid :
      (h : HpvInner S A) (p : PeerId) (a : A) (info : PeerAdvertisement A)
      → IsValid h
      → IsValid (after h (on_join r h p a info))
  unfolding on_join connection_established
  on_join-IsValid h p a info v = elim (Bool-cases (is_active h.view p)) [
    | inl joined ↦ rw joined v
    | inr new ↦ rw new (connection_established-IsValid h (partial_from (peer_info_from p info a)) v)
  ]

  expired-IsValid :
      (h : HpvInner S A) (i : PeerInfo A) (ttl : ℕ)
      → IsValid h
      → IsValid (record h { view = (expire r h.view i ttl).0 })
  unfolding expire
  expired-IsValid h i ttl v = elim (Bool-cases (ttl == 0)) [
    | inl over ↦ rw over (
        with_view-IsValid h _ v (add_passive-IsValid r law h.view i v.view_valid)
          (add_passive-KeepsConfig r h.view i))
    | inr left ↦ rw left v
  ]

  on_forward_join-IsValid :
      (h : HpvInner S A) (p : PeerId) (i : PeerInfo A) (ttl : ℕ)
      → IsValid h
      → IsValid (after h (on_forward_join r h p i ttl))
  unfolding on_forward_join
  on_forward_join-IsValid h p i ttl v =
      elim (Bool-cases (
        (ttl == 0 || not (is_active_full h.view))
        && not (is_active h.view i.peer_id)
        && not (i.peer_id == h.local_id))) [
          | inl connects ↦ rw connects v
          | inr walks ↦ rw walks (
              quiet-IsValid (next_hop-IsQuiet r (record h { view = (expire r h.view i ttl).0 }) p)
                (expired-IsValid h i ttl v))
        ]

  on_neighbour-IsValid :
      (h : HpvInner S A) (p : PeerId) (a : A) (info : PeerAdvertisement A) (prio : Priority)
      → IsValid h
      → IsValid (after h (on_neighbour r h p a info prio))
  unfolding on_neighbour connection_established
  on_neighbour-IsValid h p a info prio v =
      elim (Bool-cases (is_high prio || not (is_active_full h.view))) [
        | inl accepts ↦
            rw accepts (connection_established-IsValid h (partial_from (peer_info_from p info a)) v)
        | inr refuses ↦ rw refuses v
      ]

  on_disconnect-IsValid :
      (h : HpvInner S A) (p : PeerId) → IsValid h → IsValid (after h (on_disconnect r h p))
  unfolding on_disconnect
  on_disconnect-IsValid h p v = demoted-IsValid h p v

  shuffle_here-IsValid :
      (h : HpvInner S A) (origin : PeerInfo A) (peers : List (PeerInfo A))
      → IsValid h
      → IsValid (after h (shuffle_here r h origin peers))
  unfolding shuffle_here
  shuffle_here-IsValid h origin peers v =
      let h' = (sample r h (length peers)).0 in
      let v' : IsValid h' = quiet-IsValid (sample-IsQuiet r h (length peers)) v in
      with_view-IsValid h' _ v' (add_all_passive-IsValid h'.view _ peers v'.view_valid)
        (add_all_passive-KeepsConfig h'.view _ peers)

  on_shuffle-IsValid :
      (h : HpvInner S A) (p : PeerId) (a : A) (origin : PeerInfo A) (peers : List (PeerInfo A))
      (ttl : ℕ)
      → IsValid h
      → IsValid (after h (on_shuffle r h p a origin peers ttl))
  unfolding on_shuffle shuffle_on
  on_shuffle-IsValid h p a origin peers ttl v =
      elim (Bool-cases (ttl == 0 && not (origin.peer_id == h.local_id))) [
        | inl here ↦ rw here (shuffle_here-IsValid h origin peers v)
        | inr on ↦ rw on (elim (Bool-cases (ltb 0 ttl)) [
          | inl left ↦ rw left (quiet-IsValid (next_hop-IsQuiet r h p) v)
          | inr over ↦ rw over v
        ])
      ]

  -- Whatever message a peer sends, the state stays well formed: the views keep apart, exclude the
  -- local peer and stay within their sizes. An error leaves the state as it was.
  pub apply-IsValid :
      (h : HpvInner S A) (p : PeerId) (a : A) (m : Message A)
      → IsValid h
      → IsValid (after h (apply r h p a m))
  unfolding apply
  apply-IsValid h p a (join info) v = on_join-IsValid h p a info v
  apply-IsValid h p a (forward_join joined ttl) v = on_forward_join-IsValid h p joined ttl v
  apply-IsValid h p a (neighbour info prio) v = on_neighbour-IsValid h p a info prio v
  apply-IsValid h p a disconnect v = on_disconnect-IsValid h p v
  apply-IsValid h p a (shuffle origin peers ttl) v = on_shuffle-IsValid h p a origin peers ttl v
  apply-IsValid h p a (shuffle_reply peers) v =
      with_view-IsValid h _ v (add_all_passive-IsValid h.view empty peers v.view_valid)
        (add_all_passive-KeepsConfig h.view empty peers)
