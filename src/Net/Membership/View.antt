-- ===== src/Net/Membership/View.antt =====
-- librad/src/net/protocol/membership/partial_view.rs: the active and the passive view of the
-- network. A `&mut self` method returns the view with its result.
pub mod Invariant
pub mod Preserve
pub mod Reports
pub mod Effects
use radicle_link.Prelude.{
  ℕ, ◌≡◌, Bool, true, false, not, ◌&&◌, ◌||◌, Option, none, some, List, [], ◌∷◌, ◌++◌, ◌==◌, ltb,
  leb, if◌then◌else◌, length, filter, any, Eq, Map, get, contains_key, insert, remove, keys, values,
}
use radicle_link.Data.Bounded.{extend_fill}
use radicle_link.Net.Info.{
  PeerId, PeerAdvertisement, PeerInfo, PartialPeerInfo, sequence, partial_from,
}
use radicle_link.Net.Membership.Rng.{Rng}

pub data Transition (A : Type 0) : Type 0 where
  promoted : PartialPeerInfo A → Transition A
  demoted : PeerInfo A → Transition A
  evicted : PartialPeerInfo A → Transition A

-- `asserts_hold` is no field of the source: it becomes false, and stays so, when a `debug_assert!` fails.
pub record PartialView (S A : Type 0) : Type 0 where
  pub local_id : PeerId
  pub rng : S
  pub max_active : ℕ
  pub max_passive : ℕ
  pub active : Map (PartialPeerInfo A)
  pub passive : Map (PeerInfo A)
  pub asserts_hold : Bool

module _ {S A : Type 0} where
  unfoldable pub new : PeerId → S → ℕ → ℕ → PartialView S A
  new local_id rng max_active max_passive = record {
    local_id = local_id;
    rng = rng;
    max_active = max_active;
    max_passive = max_passive;
    active = [];
    passive = [];
    asserts_hold = true;
  }

  unfoldable pub is_active : PartialView S A → PeerId → Bool
  is_active v peer = contains_key peer v.active

  unfoldable pub is_passive : PartialView S A → PeerId → Bool
  is_passive v peer = contains_key peer v.passive

  unfoldable pub is_known : PartialView S A → PeerId → Bool
  is_known v peer = is_active v peer || is_passive v peer

  unfoldable pub known : PartialView S A → List PeerId
  known v = keys v.active ++ keys v.passive

  abbrev pub num_active : PartialView S A → ℕ
  num_active v = length v.active

  abbrev pub num_passive : PartialView S A → ℕ
  num_passive v = length v.passive

  abbrev pub is_active_full : PartialView S A → Bool
  is_active_full v = leb v.max_active (num_active v)

  -- `self.active.insert`, with the debug assertion that it replaces nothing.
  abbrev pub put_active : PartialView S A → PartialPeerInfo A → PartialView S A
  put_active v info = record v {
    active = insert info.peer_id info v.active;
    asserts_hold = v.asserts_hold && not (is_active v info.peer_id);
  }

  -- `BTreeMap::remove` hands the value out; what it held decides the transitions.
  unfoldable pub evict : PartialView S A → PeerId → PartialView S A × List (Transition A)
  unfolding partial_from
  evict v peer = elim (get peer v.passive) [
    | none ↦ (v, [])
    | some info ↦ (record v { passive = remove peer v.passive }, evicted (partial_from info) ∷ [])
  ]

module _ {S A : Type 0} (r : Rng S A) where
  unfoldable pub evict_random : PartialView S A → PartialView S A × List (Transition A)
  evict_random v =
      let (chosen, rng) = r.choose v.rng (keys v.passive) in
      let v = record v { rng = rng } in elim chosen [ none ↦ (v, []) | some peer ↦ evict v peer ]

module _ {A : Type 0} ⦃e : Eq A⦄ where
  -- The entry's new value where `passive` holds the peer already: the new info, its addresses
  -- followed by those seen before and not again, as far as they fit.
  unfoldable pub merge : PeerInfo A → PeerInfo A → PeerInfo A
  unfolding extend_fill
  merge prev info =
      let prev_addrs =
        filter (λ addr. not (any (λ a. e.equals a addr) info.seen_addrs.inner))
          prev.seen_addrs.inner in
      record prev {
        advertised_info = info.advertised_info;
        seen_addrs = extend_fill info.seen_addrs prev_addrs;
      }

module _ {S A : Type 0} (r : Rng S A) ⦃e : Eq A⦄ where
  -- `match self.passive.entry(info.peer_id)`
  unfoldable pub put_passive : PartialView S A → PeerInfo A → PartialView S A
  put_passive v info = elim (get info.peer_id v.passive) [
    | none ↦ record v { passive = insert info.peer_id info v.passive }
    | some prev ↦ record v { passive = insert info.peer_id (merge prev info) v.passive }
  ]

  -- `if self.num_passive() >= self.max_passive { self.evict_random() } else { vec![] }`
  unfoldable pub room_passive : PartialView S A → PartialView S A × List (Transition A)
  room_passive v = if leb v.max_passive (num_passive v) then evict_random r v else (v, [])

  unfoldable pub add_passive : PartialView S A → PeerInfo A → PartialView S A × List (Transition A)
  add_passive v info =
      if info.peer_id == v.local_id || is_active v info.peer_id
      then (v, [])
      else (let (v', ts) = room_passive v in (put_passive v' info, ts))

  unfoldable pub demote : PartialView S A → PeerId → PartialView S A × List (Transition A)
  demote v peer = elim (get peer v.active) [
    | none ↦ (v, [])
    | some gone ↦
        let v' = record v { active = remove peer v.active } in
        elim (sequence gone) [
          | none ↦ (v', evicted gone ∷ [])
          | some info ↦ let (v'', ts) = add_passive v' info in (v'', demoted info ∷ ts)
        ]
  ]

  unfoldable pub demote_random : PartialView S A → PartialView S A × List (Transition A)
  demote_random v =
      let (chosen, rng) = r.choose v.rng (keys v.active) in
      let v = record v { rng = rng } in elim chosen [ none ↦ (v, []) | some peer ↦ demote v peer ]

  -- The first half of `add_active`: room in the active view, and the peer out of the passive one.
  unfoldable pub make_room : PartialView S A → PeerId → PartialView S A × List (Transition A)
  make_room v peer =
      let (v', ts) = if is_active_full v then demote_random v else (v, []) in
      (if is_passive v' peer then record v' { passive = remove peer v'.passive } else v', ts)

  unfoldable pub add_active :
      PartialView S A → PartialPeerInfo A → PartialView S A × List (Transition A)
  add_active v info =
      if info.peer_id == v.local_id || is_active v info.peer_id
      then (v, [])
      else (let (v', ts) = make_room v info.peer_id in (put_active v' info, promoted info ∷ ts))
