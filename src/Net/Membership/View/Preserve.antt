-- ===== src/Net/Membership/View/Preserve.antt =====
-- The methods of the partial view keep it well formed, and what each leaves alone.
use radicle_link.Prelude.{
  ◌+◌, ◌≤◌, ◌<◌, max, ◌≡◌, refl, ap, sym, ◌≢◌, true, false, ◌||◌, [], ◌∷◌, arith, ◌==◌, leb,
  if◌then◌else◌, length, Option-cases, Bool-cases, inl, inr, Eq, Map, get, contains_key, remove,
  keys, get-remove, length-remove, In-keys, remove_absent,
}
use radicle_link.Net.Info.{PeerId, PeerInfo, PartialPeerInfo, sequence}
use radicle_link.Net.Membership.Rng.{Rng, IsRng}
use radicle_link.Net.Membership.View.{
  PartialView, is_active, is_passive, is_active_full, num_active, num_passive, evict, evict_random,
  merge, put_passive, add_passive, demote, demote_random, make_room, add_active, room_passive,
}
use radicle_link.Net.Membership.View.Invariant.{
  IsValid, set_rng-IsValid, drop_passive-IsValid, drop_active-IsValid, put_active-IsValid,
  put_passive-IsValid,
}

-- `w` has the active view, the local id and the sizes of `v`.
pub record IsSameActive {S A : Type 0} (v w : PartialView S A) : Type 0 where
  pub same_active : w.active ≡ v.active
  pub same_local : w.local_id ≡ v.local_id
  pub same_max_active : w.max_active ≡ v.max_active
  pub same_max_passive : w.max_passive ≡ v.max_passive

keys-nil : {V : Type 0} (m : Map V) → keys m ≡ [] → m ≡ []
keys-nil [] h = refl
keys-nil ((k, v) ∷ m) h = ground arith

module _ {S A : Type 0} where
  pub evict-IsValid : (v : PartialView S A) (p : PeerId) → IsValid v → IsValid (evict v p).0
  unfolding evict
  evict-IsValid v p h = elim (Option-cases (get p v.passive)) [
    | inl e ↦ rw (e, evict) h
    | inr (i, e) ↦ rw (e, evict) (drop_passive-IsValid v p h)
  ]

  pub evict-IsSameActive : (v : PartialView S A) (p : PeerId) → IsSameActive v (evict v p).0
  unfolding evict
  evict-IsSameActive v p = ground arith

  evict_makes_room :
      (v : PartialView S A) (p : PeerId)
      → contains_key p v.passive ≡ true
      → num_passive (evict v p).0 + 1 ≡ num_passive v
  unfolding evict contains_key
  evict_makes_room v p h = ground (arith, length-remove p v.passive)

module _ {S A : Type 0} (r : Rng S A) where
  pub evict_random-IsValid : (v : PartialView S A) → IsValid v → IsValid (evict_random r v).0
  unfolding evict_random
  evict_random-IsValid v h = elim (Option-cases (r.choose v.rng (keys v.passive)).0) [
    | inl e ↦ rw (e, evict_random) (set_rng-IsValid v _ h)
    | inr (p, e) ↦ rw (e, evict_random) (evict-IsValid _ p (set_rng-IsValid v _ h))
  ]

  pub evict_random-IsSameActive : (v : PartialView S A) → IsSameActive v (evict_random r v).0
  unfolding evict_random evict
  evict_random-IsSameActive v = ground arith

  pub evict_random_makes_room :
      IsRng r
      → (v : PartialView S A) → num_passive v ≤ max 1 v.max_passive
      → num_passive (evict_random r v).0 < max 1 v.max_passive
  unfolding evict_random
  evict_random_makes_room law v b = elim (Option-cases (r.choose v.rng (keys v.passive)).0) [
    | inl e ↦
        rw (e, evict_random)
          (omega (arith, ap length (keys-nil v.passive (law.choose_none v.rng (keys v.passive) e))))
    | inr (p, e) ↦
        rw (e, evict_random)
          (omega (
            arith,
            evict_makes_room (record v { rng = (r.choose v.rng (keys v.passive)).1 }) p
                (In-keys p v.passive (law.choose_in v.rng (keys v.passive) p e)),
          ))
  ]

module _ {S A : Type 0} (r : Rng S A) ⦃e : Eq A⦄ where
  put_passive-IsSameActive :
      (v : PartialView S A) (i : PeerInfo A) → IsSameActive v (put_passive r v i)
  unfolding put_passive
  put_passive-IsSameActive v i = ground arith

  pub room_passive-IsSameActive : (v : PartialView S A) → IsSameActive v (room_passive r v).0
  unfolding room_passive
  room_passive-IsSameActive v = ground (arith, evict_random-IsSameActive r v)

  room_passive-IsValid : (v : PartialView S A) → IsValid v → IsValid (room_passive r v).0
  unfolding room_passive
  room_passive-IsValid v h = elim (Bool-cases (leb v.max_passive (num_passive v))) [
    | inl full ↦ rw full (evict_random-IsValid r v h)
    | inr room ↦ rw room h
  ]

  room_passive_makes_room :
      IsRng r
      → (v : PartialView S A) → IsValid v
      → num_passive (room_passive r v).0 < max 1 v.max_passive
  unfolding room_passive
  room_passive_makes_room law v h = ground (arith, evict_random_makes_room r law v h.passive_bound)

  -- Adding to the passive view leaves the active one and the configuration alone.
  pub add_passive-IsSameActive :
      (v : PartialView S A) (i : PeerInfo A) → IsSameActive v (add_passive r v i).0
  unfolding add_passive
  add_passive-IsSameActive v i =
      ground (arith, room_passive-IsSameActive v, put_passive-IsSameActive (room_passive r v).0 i)

  put_passive_entry-IsValid :
      (v : PartialView S A) (i : PeerInfo A)
      → IsValid v
      → i.peer_id ≢ v.local_id
      → is_active v i.peer_id ≡ false
      → num_passive v < max 1 v.max_passive
      → IsValid (put_passive r v i)
  unfolding put_passive merge
  put_passive_entry-IsValid v i h other absent room =
      elim (Option-cases (get i.peer_id v.passive)) [
        | inl e ↦
            rw (e, put_passive) (put_passive-IsValid v i.peer_id i h refl other absent (λ _. room))
        | inr (prev, e) ↦
            rw (e, put_passive)
              (put_passive-IsValid v i.peer_id (merge prev i) h (h.passive_keys i.peer_id prev e)
                other absent (λ _. room))
      ]

  pub add_passive-IsValid :
      IsRng r → (v : PartialView S A) (i : PeerInfo A) → IsValid v → IsValid (add_passive r v i).0
  unfolding add_passive is_active
  add_passive-IsValid law v i h =
      elim (Bool-cases (i.peer_id == v.local_id || is_active v i.peer_id)) [
        | inl skip ↦ rw skip h
        | inr go ↦ rw go (
            put_passive_entry-IsValid (room_passive r v).0 i (room_passive-IsValid v h)
              (λ q. ground (arith, room_passive-IsSameActive v))
              (ground (arith, room_passive-IsSameActive v))
              (ground (arith, room_passive-IsSameActive v, room_passive_makes_room law v h)))
      ]

  pub demote-IsValid :
      IsRng r → (v : PartialView S A) (p : PeerId) → IsValid v → IsValid (demote r v p).0
  unfolding demote
  demote-IsValid law v p h = elim (Option-cases (get p v.active)) [
    | inl e ↦ rw (e, demote) h
    | inr (gone, e) ↦
        rw (e, demote)
          (elim (Option-cases (sequence gone)) [
            | inl e' ↦ rw (e', demote) (drop_active-IsValid v p h)
            | inr (i, e') ↦
                rw (e', demote) (add_passive-IsValid law _ i (drop_active-IsValid v p h))
          ])
  ]

  -- What `demote` does to the active view, whichever the branch.
  pub active-demote :
      (v : PartialView S A) (p : PeerId)
      → ((demote r v p).0.active ≡ remove p v.active)
        × ((demote r v p).0.local_id ≡ v.local_id)
        × ((demote r v p).0.max_active ≡ v.max_active)
        × ((demote r v p).0.max_passive ≡ v.max_passive)
  unfolding demote
  active-demote v p = elim (Option-cases (get p v.active)) [
    | inl e ↦ rw (e, demote) (sym (remove_absent p v.active e), refl, refl, refl)
    | inr (gone, e) ↦
        rw (e, demote)
          (elim (Option-cases (sequence gone)) [
            | inl e' ↦ rw (e', demote) (refl, refl, refl, refl)
            | inr (i, e') ↦
                rw (e', demote)
                  (let same : IsSameActive (record v { active = remove p v.active }) _ =
                      add_passive-IsSameActive (record v { active = remove p v.active }) i in
                    (
                      same.same_active, same.same_local, same.same_max_active,
                      same.same_max_passive,
                    ))
          ])
  ]

  pub demote_random-IsValid :
      IsRng r → (v : PartialView S A) → IsValid v → IsValid (demote_random r v).0
  unfolding demote_random
  demote_random-IsValid law v h = elim (Option-cases (r.choose v.rng (keys v.active)).0) [
    | inl e ↦ rw (e, demote_random) (set_rng-IsValid v _ h)
    | inr (p, e) ↦ rw (e, demote_random) (demote-IsValid law _ p (set_rng-IsValid v _ h))
  ]

  -- Demoting a peer chosen at random from a full active view leaves room for one, whatever the
  -- configured size, and makes nobody active.
  pub demote_random_makes_room :
      IsRng r
      → (v : PartialView S A) → IsValid v
      → num_active (demote_random r v).0 < max 1 v.max_active
  unfolding demote_random
  demote_random_makes_room law v h = elim (Option-cases (r.choose v.rng (keys v.active)).0) [
    | inl e ↦
        rw (e, demote_random)
          (omega (arith, ap length (keys-nil v.active (law.choose_none v.rng (keys v.active) e))))
    | inr (p, e) ↦
        rw (e, demote_random)
          (ground (
            arith,
            active-demote (record v { rng = (r.choose v.rng (keys v.active)).1 }) p,
            length-remove p v.active,
            In-keys p v.active (law.choose_in v.rng (keys v.active) p e),
            h.active_bound,
          ))
  ]

  pub demote_random_keeps :
      (v : PartialView S A)
      → IsValid v
      → ((demote_random r v).0.local_id ≡ v.local_id)
        × ((demote_random r v).0.max_active ≡ v.max_active)
        × ((demote_random r v).0.max_passive ≡ v.max_passive)
        × ((q : PeerId) → is_active v q ≡ false → is_active (demote_random r v).0 q ≡ false)
  unfolding demote_random is_active contains_key
  demote_random_keeps v h = elim (Option-cases (r.choose v.rng (keys v.active)).0) [
    | inl e ↦ rw (e, demote_random) (refl, refl, refl, λ q a. a)
    | inr (p, e) ↦
        rw (e, demote_random)
          (let frame = active-demote (record v { rng = (r.choose v.rng (keys v.active)).1 }) p in
            (
              frame.1,
              frame.2,
              frame.3,
              λ q a. ground (arith, frame.0, get-remove p q v.active h.active_sorted),
            ))
  ]

  -- What `make_room` gives to `add_active`.
  pub record IsRoom (v w : PartialView S A) (p : PeerId) : Type 0 where
    pub valid : IsValid w
    pub same_local : w.local_id ≡ v.local_id
    pub same_max_active : w.max_active ≡ v.max_active
    pub same_max_passive : w.max_passive ≡ v.max_passive
    pub not_active : is_active w p ≡ false
    pub not_passive : is_passive w p ≡ false
    pub room : num_active w < max 1 v.max_active

  out_of_passive-IsRoom :
      (v w : PartialView S A) (p : PeerId)
      → IsValid w
      → w.local_id ≡ v.local_id
      → w.max_active ≡ v.max_active
      → w.max_passive ≡ v.max_passive
      → is_active w p ≡ false
      → num_active w < max 1 v.max_active
      → IsRoom v (if is_passive w p then record w { passive = remove p w.passive } else w) p
  unfolding is_passive is_active contains_key
  out_of_passive-IsRoom v w p h a b c d k = elim (Bool-cases (is_passive w p)) [
    | inl held ↦ rw held (record {
      valid = drop_passive-IsValid w p h;
      same_local = a;
      same_max_active = b;
      same_max_passive = c;
      not_active = d;
      not_passive = ground (arith, get-remove p p w.passive h.passive_sorted);
      room = k;
    })
    | inr absent ↦ rw absent (record {
      valid = h;
      same_local = a;
      same_max_active = b;
      same_max_passive = c;
      not_active = d;
      not_passive = absent;
      room = k;
    })
  ]

  pub make_room-IsRoom :
      IsRng r
      → (v : PartialView S A) (p : PeerId) → IsValid v
      → is_active v p ≡ false
      → IsRoom v (make_room r v p).0 p
  unfolding make_room
  make_room-IsRoom law v p h absent = elim (Bool-cases (is_active_full v)) [
    | inl full ↦ rw full (
        let keeps = demote_random_keeps v h in
        out_of_passive-IsRoom v (demote_random r v).0 p (demote_random-IsValid law v h) keeps.0
          keeps.1 keeps.2 (keeps.3 p absent) (demote_random_makes_room law v h))
    | inr room ↦
        rw room
          (out_of_passive-IsRoom v v p h refl refl refl absent (ground (arith, h.active_bound)))
  ]

  pub add_active-IsValid :
      IsRng r
      → (v : PartialView S A) (i : PartialPeerInfo A) → IsValid v
      → IsValid (add_active r v i).0
  unfolding add_active
  add_active-IsValid law v i h =
      elim (Bool-cases (i.peer_id == v.local_id || is_active v i.peer_id)) [
        | inl skip ↦ rw skip h
        | inr go ↦ rw go (
            let w : IsRoom v (make_room r v i.peer_id).0 i.peer_id =
              make_room-IsRoom law v i.peer_id h (ground arith) in
            put_active-IsValid (make_room r v i.peer_id).0 i w.valid
              (λ q. ground (arith, w.same_local)) w.not_active w.not_passive
              (ground (arith, w.room, w.same_max_active)))
      ]

-- `w` belongs to the same peer as `v`, with the same sizes.
pub record KeepsConfig {S A : Type 0} (v w : PartialView S A) : Type 0 where
  pub same_local : w.local_id ≡ v.local_id
  pub same_max_active : w.max_active ≡ v.max_active
  pub same_max_passive : w.max_passive ≡ v.max_passive

module _ {S A : Type 0} (r : Rng S A) ⦃e : Eq A⦄ where
  pub add_passive-KeepsConfig :
      (v : PartialView S A) (i : PeerInfo A) → KeepsConfig v (add_passive r v i).0
  add_passive-KeepsConfig v i = ground (arith, add_passive-IsSameActive r v i)

  pub demote-KeepsConfig : (v : PartialView S A) (p : PeerId) → KeepsConfig v (demote r v p).0
  demote-KeepsConfig v p = ground (arith, active-demote r v p)

  pub add_active-KeepsConfig :
      IsRng r
      → (v : PartialView S A) (i : PartialPeerInfo A) → IsValid v
      → KeepsConfig v (add_active r v i).0
  unfolding add_active
  add_active-KeepsConfig law v i h = ground (arith, make_room-IsRoom r law v i.peer_id h)
