-- ===== src/Net/Membership/View/Effects.antt =====
-- What the methods of the partial view achieve, and where a reported eviction is not one.
use radicle_link.Prelude.{
  ◌≤◌, ◌≡◌, ◌≢◌, true, false, some, none, [], ◌∷◌, arith, Eq, get, contains_key, remove, keys,
  get-insert, get-remove,
}
use radicle_link.Net.Info.{PeerId, PeerInfo, PartialPeerInfo, sequence, partial_from}
use radicle_link.Net.Membership.Rng.{Rng, IsRng}
use radicle_link.Net.Membership.View.{
  PartialView, promoted, demoted, evicted, is_active, is_passive, is_active_full, num_passive,
  evict, evict_random, room_passive, add_passive, demote, demote_random, make_room, add_active,
}
use radicle_link.Net.Membership.View.Invariant.{IsValid}
use radicle_link.Net.Membership.View.Preserve.{IsRoom, make_room-IsRoom}
use radicle_link.Net.Membership.View.Reports.{reports_eviction, sequence-peer_id}

module _ {S A : Type 0} (r : Rng S A) ⦃e : Eq A⦄ where
  -- Adding a peer that is neither the local one nor active, to a well-formed view: the entry that
  -- `add_active` writes is vacant, as its debug assertion wants; the peer is active and no longer
  -- passive; and its promotion is the first transition reported.
  pub add_active_lem :
      IsRng r
      → (v : PartialView S A) (i : PartialPeerInfo A) → IsValid v
      → i.peer_id ≢ v.local_id
      → is_active v i.peer_id ≡ false
      → (get i.peer_id (make_room r v i.peer_id).0.active ≡ none)
        × (get i.peer_id (add_active r v i).0.active ≡ some i)
        × (is_passive (add_active r v i).0 i.peer_id ≡ false)
        × ((add_active r v i).1 ≡ promoted i ∷ (make_room r v i.peer_id).1)
  unfolding add_active is_active is_passive contains_key
  add_active_lem law v i h other absent =
      let w : IsRoom r v (make_room r v i.peer_id).0 i.peer_id =
        make_room-IsRoom r law v i.peer_id h absent in
      ground (
        arith,
        w.not_active,
        w.not_passive,
        get-insert i.peer_id i.peer_id i (make_room r v i.peer_id).0.active,
      )

  -- The view that `demote` hands to `add_passive`.
  abbrev without : PartialView S A → PeerId → PartialView S A
  without v d = record v { active = remove d v.active; rng = (r.choose v.rng (keys v.active)).1 }

  add_passive_evicts :
      (v : PartialView S A) (i : PeerInfo A) (p : PeerId) (x : PeerInfo A)
      → i.peer_id ≢ v.local_id
      → is_active v i.peer_id ≡ false
      → v.max_passive ≤ num_passive v
      → (r.choose v.rng (keys v.passive)).0 ≡ some p
      → get p v.passive ≡ some x
      → (add_passive r v i).1 ≡ evicted (partial_from x) ∷ []
  unfolding add_passive room_passive evict_random evict
  add_passive_evicts v i p x other absent full chosen held = ground arith

  demote_random_evicts :
      (v : PartialView S A) (d p : PeerId) (g : PartialPeerInfo A) (i x : PeerInfo A)
      → IsValid v
      → (r.choose v.rng (keys v.active)).0 ≡ some d
      → get d v.active ≡ some g
      → sequence g ≡ some i
      → v.max_passive ≤ num_passive v
      → (r.choose (r.choose v.rng (keys v.active)).1 (keys v.passive)).0 ≡ some p
      → get p v.passive ≡ some x
      → (demote_random r v).1 ≡ demoted i ∷ evicted (partial_from x) ∷ []
  unfolding demote_random demote is_active contains_key
  demote_random_evicts v d p g i x h chosen held full crowded next there = ground (
    arith,
    add_passive_evicts (without v d) i p x,
    get-remove d d v.active h.active_sorted,
    h.active_keys d g held,
    sequence-peer_id r g i full,
    h.active_local,
  )

  -- Promoting a passive peer while both views are full may report the promoted peer itself as
  -- evicted, although it is active in the resulting view. It happens whenever the peer chosen to be
  -- demoted is fully known and the peer then chosen to leave the passive view is the promoted one.
  pub add_active_evicts_promoted :
      IsRng r
      → (v : PartialView S A) (i : PartialPeerInfo A) (d : PeerId) (g : PartialPeerInfo A)
        (info x : PeerInfo A)
      → IsValid v
      → i.peer_id ≢ v.local_id
      → is_active v i.peer_id ≡ false
      → is_active_full v ≡ true
      → (r.choose v.rng (keys v.active)).0 ≡ some d
      → get d v.active ≡ some g
      → sequence g ≡ some info
      → v.max_passive ≤ num_passive v
      → (r.choose (r.choose v.rng (keys v.active)).1 (keys v.passive)).0 ≡ some i.peer_id
      → get i.peer_id v.passive ≡ some x
      → (get i.peer_id (add_active r v i).0.active ≡ some i)
        × (reports_eviction i.peer_id (add_active r v i).1 ≡ true)
  unfolding make_room partial_from
  add_active_evicts_promoted law v i d g info x h other absent full chosen held seq crowded next
        there =
      let new = add_active_lem law v i h other absent in
      (
        new.1,
        ground (
          arith,
          new.3,
          demote_random_evicts v d i.peer_id g info x h chosen held seq crowded next there,
          h.passive_keys i.peer_id x there,
        ),
      )
