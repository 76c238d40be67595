-- ===== src/Net/Membership/View/Invariant.antt =====
-- The well-formedness of a partial view, and the changes to its two maps that keep it.
use radicle_link.Prelude.{
  ◌≤◌, ◌<◌, max, ◌≡◌, refl, ◌≢◌, true, false, some, arith, get, contains_key, insert, remove,
  IsSorted, get-insert, get-remove, insert-IsSorted, remove-IsSorted, length-insert, length-remove,
}
use radicle_link.Net.Info.{PeerId, PeerInfo, PartialPeerInfo}
use radicle_link.Net.Membership.View.{
  PartialView, put_active, is_active, is_passive, num_active, num_passive,
}

module _ {S A : Type 0} where
  -- The maps are sorted and hold each peer under its own id; no peer is in both views, the local one
  -- in neither; neither view outgrows its configured size, or one entry where that size is 0;
  -- and no assertion has failed.
  pub record IsValid (v : PartialView S A) : Type 0 where
    pub active_sorted : IsSorted v.active
    pub passive_sorted : IsSorted v.passive
    pub active_keys : (p : PeerId) (i : PartialPeerInfo A) → get p v.active ≡ some i → i.peer_id ≡ p
    pub passive_keys : (p : PeerId) (i : PeerInfo A) → get p v.passive ≡ some i → i.peer_id ≡ p
    pub active_local : is_active v v.local_id ≡ false
    pub passive_local : is_passive v v.local_id ≡ false
    pub disjoint : (p : PeerId) → is_active v p ≡ true → is_passive v p ≡ false
    pub active_bound : num_active v ≤ max 1 v.max_active
    pub passive_bound : num_passive v ≤ max 1 v.max_passive
    pub asserted : v.asserts_hold ≡ true

  pub set_rng-IsValid : (v : PartialView S A) (s : S) → IsValid v → IsValid (record v { rng = s })
  unfolding is_active is_passive
  set_rng-IsValid v s h = record {
    active_sorted = h.active_sorted;
    passive_sorted = h.passive_sorted;
    active_keys = h.active_keys;
    passive_keys = h.passive_keys;
    active_local = h.active_local;
    passive_local = h.passive_local;
    disjoint = h.disjoint;
    active_bound = h.active_bound;
    passive_bound = h.passive_bound;
    asserted = h.asserted;
  }

  pub drop_passive-IsValid :
      (v : PartialView S A) (p : PeerId)
      → IsValid v
      → IsValid (record v { passive = remove p v.passive })
  unfolding is_active is_passive contains_key
  drop_passive-IsValid v p h = record {
    active_sorted = h.active_sorted;
    passive_sorted = remove-IsSorted p v.passive h.passive_sorted;
    active_keys = h.active_keys;
    passive_keys =
        λ q i e. ground (arith, get-remove p q v.passive h.passive_sorted, h.passive_keys q i);
    active_local = h.active_local;
    passive_local =
        ground (arith, get-remove p v.local_id v.passive h.passive_sorted, h.passive_local);
    disjoint = λ q a. ground (arith, get-remove p q v.passive h.passive_sorted, h.disjoint q a);
    active_bound = h.active_bound;
    passive_bound = ground (arith, length-remove p v.passive, h.passive_bound);
    asserted = h.asserted;
  }

  pub drop_active-IsValid :
      (v : PartialView S A) (p : PeerId)
      → IsValid v
      → IsValid (record v { active = remove p v.active })
  unfolding is_active is_passive contains_key
  drop_active-IsValid v p h = record {
    active_sorted = remove-IsSorted p v.active h.active_sorted;
    passive_sorted = h.passive_sorted;
    active_keys =
        λ q i e. ground (arith, get-remove p q v.active h.active_sorted, h.active_keys q i);
    passive_keys = h.passive_keys;
    active_local = ground (arith, get-remove p v.local_id v.active h.active_sorted, h.active_local);
    passive_local = h.passive_local;
    disjoint = λ q a. ground (arith, get-remove p q v.active h.active_sorted, h.disjoint q);
    active_bound = ground (arith, length-remove p v.active, h.active_bound);
    passive_bound = h.passive_bound;
    asserted = h.asserted;
  }

  pub put_active-IsValid :
      (v : PartialView S A) (i : PartialPeerInfo A)
      → IsValid v
      → i.peer_id ≢ v.local_id
      → is_active v i.peer_id ≡ false
      → is_passive v i.peer_id ≡ false
      → num_active v < max 1 v.max_active
      → IsValid (put_active v i)
  unfolding is_active is_passive contains_key
  put_active-IsValid v i h other vacant absent room = record {
    active_sorted = insert-IsSorted i.peer_id i v.active h.active_sorted;
    passive_sorted = h.passive_sorted;
    active_keys = λ q j e. ground (arith, get-insert i.peer_id q i v.active, h.active_keys q j);
    passive_keys = h.passive_keys;
    active_local = ground (arith, get-insert i.peer_id v.local_id i v.active, h.active_local);
    passive_local = h.passive_local;
    disjoint = λ q a. ground (arith, get-insert i.peer_id q i v.active, h.disjoint q);
    active_bound = ground (arith, length-insert i.peer_id i v.active h.active_sorted);
    passive_bound = h.passive_bound;
    asserted = rw (h.asserted, vacant) refl;
  }

  -- `j` is the entry's new value, `i` the info that is added.
  pub put_passive-IsValid :
      (v : PartialView S A) (p : PeerId) (j : PeerInfo A)
      → IsValid v
      → j.peer_id ≡ p
      → p ≢ v.local_id
      → is_active v p ≡ false
      → (is_passive v p ≡ false → num_passive v < max 1 v.max_passive)
      → IsValid (record v { passive = insert p j v.passive })
  unfolding is_active is_passive contains_key
  put_passive-IsValid v p j h own other absent room = record {
    active_sorted = h.active_sorted;
    passive_sorted = insert-IsSorted p j v.passive h.passive_sorted;
    active_keys = h.active_keys;
    passive_keys = λ q k e. ground (arith, get-insert p q j v.passive, h.passive_keys q k);
    active_local = h.active_local;
    passive_local = ground (arith, get-insert p v.local_id j v.passive, h.passive_local);
    disjoint = λ q a. ground (arith, get-insert p q j v.passive, h.disjoint q);
    active_bound = h.active_bound;
    passive_bound =
        ground (arith, length-insert p j v.passive h.passive_sorted, h.passive_bound, room);
    asserted = h.asserted;
  }
