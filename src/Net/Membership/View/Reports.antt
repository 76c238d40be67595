-- ===== src/Net/Membership/View/Reports.antt =====
-- The transitions that the methods of the partial view return, against what happened to the view.
use radicle_link.Prelude.{
  ◌≡◌, sym, ◌∙◌, ◌≢◌, Bool, true, false, ◌||◌, some, List, arith, ◌==◌, leb, if◌then◌else◌, any,
  Option-cases, Bool-cases, inl, inr, Eq, get, contains_key, remove, keys, get-insert, get-remove,
}
use radicle_link.Net.Info.{PeerId, PeerInfo, PartialPeerInfo, sequence}
use radicle_link.Net.Membership.Rng.{Rng, IsRng}
use radicle_link.Net.Membership.View.{
  PartialView, Transition, promoted, demoted, evicted, is_active, is_passive, is_known,
  is_active_full, num_passive, evict, evict_random, merge, room_passive, put_passive, add_passive,
  demote, demote_random, make_room, add_active,
}
use radicle_link.Net.Membership.View.Invariant.{IsValid, set_rng-IsValid, drop_active-IsValid}
use radicle_link.Net.Membership.View.Preserve.{demote_random-IsValid}

module _ {A : Type 0} where
  abbrev pub is_eviction_of : PeerId → Transition A → Bool
  is_eviction_of p (promoted i) = false
  is_eviction_of p (demoted i) = false
  is_eviction_of p (evicted i) = i.peer_id == p

  abbrev pub reports_eviction : PeerId → List (Transition A) → Bool
  reports_eviction p = any (is_eviction_of p)

-- Whoever was known in `v` and is not in `w` is reported as evicted.
abbrev pub Accounts :
    {S A : Type 0} → PartialView S A → PartialView S A × List (Transition A) → Type 0
Accounts v (w, ts) =
    (q : PeerId) → is_known v q ≡ true → is_known w q ≡ false → reports_eviction q ts ≡ true

module _ {S A : Type 0} where
  pub evict-Accounts : (v : PartialView S A) (p : PeerId) → IsValid v → Accounts v (evict v p)
  unfolding evict is_known is_active is_passive contains_key
  evict-Accounts v p h q = elim (Option-cases (get p v.passive)) [
    | inl e ↦ rw (e, evict) (λ a b. ground arith)
    | inr (i, e) ↦
        rw (e, evict)
          (λ a b. ground (arith, get-remove p q v.passive h.passive_sorted, h.passive_keys p i e))
  ]

module _ {S A : Type 0} (r : Rng S A) where
  pub evict_random-Accounts : (v : PartialView S A) → IsValid v → Accounts v (evict_random r v)
  unfolding evict_random is_known is_active is_passive
  evict_random-Accounts v h q = elim (Option-cases (r.choose v.rng (keys v.passive)).0) [
    | inl e ↦ rw (e, evict_random) (λ a b. ground arith)
    | inr (p, e) ↦ rw (e, evict_random) (evict-Accounts _ p (set_rng-IsValid v _ h) q)
  ]

module _ {S A : Type 0} (r : Rng S A) ⦃e : Eq A⦄ where
  room_passive-Accounts : (v : PartialView S A) → IsValid v → Accounts v (room_passive r v)
  unfolding room_passive
  room_passive-Accounts v h q = elim (Bool-cases (leb v.max_passive (num_passive v))) [
    | inl full ↦ rw full (evict_random-Accounts r v h q)
    | inr room ↦ rw room (λ a b. ground arith)
  ]

  -- `put_passive` makes its peer passive, and changes nothing for the others.
  is_passive-put_passive :
      (v : PartialView S A) (i : PeerInfo A) (q : PeerId)
      → is_passive (put_passive r v i) q ≡ (i.peer_id == q || is_passive v q)
  unfolding put_passive is_passive contains_key
  is_passive-put_passive v i q = elim (Option-cases (get i.peer_id v.passive)) [
    | inl e ↦ rw (e, put_passive) (ground (arith, get-insert i.peer_id q i v.passive))
    | inr (prev, e) ↦
        rw (e, put_passive) (ground (arith, get-insert i.peer_id q (merge prev i) v.passive))
  ]

  is_active-put_passive :
      (v : PartialView S A) (i : PeerInfo A) (q : PeerId)
      → is_active (put_passive r v i) q ≡ is_active v q
  unfolding put_passive is_active
  is_active-put_passive v i q = ground arith

  -- A peer that is added to the passive view is known afterwards, unless it is the local one.
  pub is_known-add_passive :
      (v : PartialView S A) (i : PeerInfo A)
      → i.peer_id ≢ v.local_id
      → is_known (add_passive r v i).0 i.peer_id ≡ true
  unfolding add_passive is_known
  is_known-add_passive v i other =
      ground (arith, is_passive-put_passive (room_passive r v).0 i i.peer_id)

  pub add_passive-Accounts :
      (v : PartialView S A) (i : PeerInfo A) → IsValid v → Accounts v (add_passive r v i)
  unfolding add_passive is_known
  add_passive-Accounts v i h q =
      elim (Bool-cases (i.peer_id == v.local_id || is_active v i.peer_id)) [
        | inl skip ↦ rw skip (λ a b. ground arith)
        | inr go ↦ rw go (λ a b. room_passive-Accounts v h q a (
            ground (
              arith,
              is_passive-put_passive (room_passive r v).0 i q,
              is_active-put_passive (room_passive r v).0 i q,
            )))
      ]

  pub sequence-peer_id :
      (g : PartialPeerInfo A) (i : PeerInfo A) → sequence g ≡ some i → i.peer_id ≡ g.peer_id
  unfolding sequence
  sequence-peer_id g i h = ground arith

  demote_full-Accounts :
      (v : PartialView S A) (p : PeerId) (i : PeerInfo A)
      → IsValid v
      → i.peer_id ≡ p
      → is_active v p ≡ true
      → Accounts v (add_passive r (record v { active = remove p v.active }) i)
  unfolding is_known is_active is_passive contains_key
  demote_full-Accounts v p i h own held q a b = elim (Bool-cases (p == q)) [
    | inl same ↦
        ground
          (arith, is_known-add_passive (record v { active = remove p v.active }) i, h.active_local)
    | inr other ↦
        add_passive-Accounts (record v { active = remove p v.active }) i (drop_active-IsValid v p h)
          q (ground (arith, get-remove p q v.active h.active_sorted)) b
  ]

  pub demote-Accounts : (v : PartialView S A) (p : PeerId) → IsValid v → Accounts v (demote r v p)
  unfolding demote is_known is_active is_passive contains_key
  demote-Accounts v p h q = elim (Option-cases (get p v.active)) [
    | inl e ↦ rw (e, demote) (λ a b. ground arith)
    | inr (gone, e) ↦
        rw (e, demote)
          (elim (Option-cases (sequence gone)) [
            | inl e' ↦
                rw (e', demote)
                  (λ a b.
                    ground (arith, get-remove p q v.active h.active_sorted, h.active_keys p gone e))
            | inr (i, e') ↦
                rw (e', demote)
                  (λ a b.
                    demote_full-Accounts v p i h
                      (sequence-peer_id gone i e' ∙ h.active_keys p gone e) (ground arith) q a b)
          ])
  ]

  demote_random-Accounts : (v : PartialView S A) → IsValid v → Accounts v (demote_random r v)
  unfolding demote_random is_known is_active is_passive
  demote_random-Accounts v h q = elim (Option-cases (r.choose v.rng (keys v.active)).0) [
    | inl e ↦ rw (e, demote_random) (λ a b. ground arith)
    | inr (p, e) ↦ rw (e, demote_random) (demote-Accounts _ p (set_rng-IsValid v _ h) q)
  ]

  dropped_known :
      (w : PartialView S A) (p q : PeerId)
      → IsValid w
      → p ≢ q
      → is_known (if is_passive w p then record w { passive = remove p w.passive } else w) q
        ≡ is_known w q
  unfolding is_known is_active is_passive contains_key
  dropped_known w p q h other = ground (arith, get-remove p q w.passive h.passive_sorted)

  -- `make_room` may also drop the peer that is about to be made active.
  make_room-Accounts :
      (v : PartialView S A) (p q : PeerId)
      → IsRng r
      → IsValid v
      → p ≢ q
      → is_known v q ≡ true
      → is_known (make_room r v p).0 q ≡ false
      → reports_eviction q (make_room r v p).1 ≡ true
  unfolding make_room
  make_room-Accounts v p q law h other a = elim (Bool-cases (is_active_full v)) [
    | inl full ↦ rw full (λ b.
        demote_random-Accounts v h q a (
          sym (dropped_known (demote_random r v).0 p q (demote_random-IsValid r law v h) other)
          ∙ b))
    | inr room ↦ rw room (λ b. ground (arith, dropped_known v p q h other))
  ]

  pub add_active-Accounts :
      IsRng r
      → (v : PartialView S A) (i : PartialPeerInfo A) → IsValid v
      → Accounts v (add_active r v i)
  unfolding add_active is_known is_active is_passive contains_key
  add_active-Accounts law v i h q a =
      elim (Bool-cases (i.peer_id == v.local_id || contains_key i.peer_id v.active)) [
        | inl skip ↦ rw skip (λ b. ground arith)
        | inr go ↦ rw go (λ b. ground (
          arith,
          get-insert i.peer_id q i (make_room r v i.peer_id).0.active,
          make_room-Accounts v i.peer_id q law h,
        ))
      ]
