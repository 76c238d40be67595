-- ===== src/Net/Membership/Tests.antt =====
-- Runs of the membership protocol, and its theorems at concrete inputs. Addresses are numbers, and
-- the generator takes what comes first.
use radicle_link.Prelude.{
  ℕ, ◌≤◌, ◌≡◌, refl, true, some, List, [], ◌∷◌, arith, get, contains_key, nat_eq, length,
}
use radicle_link.Net.Info.{PeerId, PeerAdvertisement, PeerInfo, PartialPeerInfo, sequence}
use radicle_link.Net.Membership.Rng.{Rng, IsRng, first_rng, first_rng-IsRng}
use radicle_link.Net.Membership.View.{PartialView, is_active, is_passive, add_active}
use radicle_link.Net.Membership.View.Invariant
use radicle_link.Net.Membership.View.Reports.{Accounts, reports_eviction, add_active-Accounts}
use radicle_link.Net.Membership.View.Effects.{add_active_evicts_promoted}
use radicle_link.Net.Membership.Rpc.{join, neighbour, high}
use radicle_link.Net.Membership.Hpv.{Params, default_params, HpvInner, Shuffle}
use radicle_link.Net.Membership.Hpv.Ops.{sample}
use radicle_link.Net.Membership.Hpv.Invariant.{IsValid}
use radicle_link.Net.Membership.Hpv.Run.{Call, receives, loses, shuffles, promotes}
use radicle_link.Net.Membership.Hpv.Limits.{length-sample}

abbrev rng : Rng ℕ ℕ
rng = first_rng

abbrev law : IsRng rng
law = first_rng-IsRng

abbrev advert : ℕ → PeerAdvertisement ℕ
advert addr = record { listen_addrs = record { inner = addr ∷ [] }; capabilities = [] }

abbrev info : PeerId → PeerInfo ℕ
info p = record { peer_id = p; advertised_info = advert p; seen_addrs = record { inner = p ∷ [] } }

abbrev full_info : PeerId → PartialPeerInfo ℕ
full_info p = record {
  peer_id = p;
  advertised_info = some (advert p);
  seen_addrs = record { inner = p ∷ [] };
}

-- Peer 5 is active, peer 7 passive, and both views are full.
abbrev crowded : PartialView ℕ ℕ
crowded = record {
  local_id = 0;
  rng = 0;
  max_active = 1;
  max_passive = 1;
  active = (5, full_info 5) ∷ [];
  passive = (7, info 7) ∷ [];
  asserts_hold = true;
}

crowded-IsValid : Invariant.IsValid crowded
unfolding get is_active is_passive contains_key
crowded-IsValid = record {
  active_sorted = tt;
  passive_sorted = tt;
  active_keys = λ p i h. ground arith;
  passive_keys = λ p i h. ground arith;
  active_local = refl;
  passive_local = refl;
  disjoint = λ p h. ground arith;
  active_bound = omega arith;
  passive_bound = omega arith;
  asserted = refl;
}

abbrev small : Params
small = record default_params { max_active = 1; max_passive = 1 }

abbrev busy : HpvInner ℕ ℕ
busy = record { local_id = 0; params = small; rng = 0; view = crowded }

busy-IsValid : IsValid busy
busy-IsValid = record {
  view_valid = crowded-IsValid;
  local = refl;
  active_size = refl;
  passive_size = refl;
}

add_active-Accounts_example : Accounts crowded (add_active rng crowded (full_info 9))
add_active-Accounts_example = add_active-Accounts rng law crowded (full_info 9) crowded-IsValid

add_active_evicts_promoted_example :
    (get 7 (add_active rng crowded (full_info 7)).0.active ≡ some (full_info 7))
    × (reports_eviction 7 (add_active rng crowded (full_info 7)).1 ≡ true)
unfolding is_active contains_key get sequence
add_active_evicts_promoted_example =
    add_active_evicts_promoted rng law crowded (full_info 7) 5 (full_info 5) (info 5) (info 7)
      crowded-IsValid (omega arith) refl refl refl refl refl (omega arith) refl refl

abbrev history : List (Call ℕ)
history =
    receives 5 5 (join (advert 5))
    ∷ receives 7 7 (neighbour (advert 7) high)
    ∷ loses 7
    ∷ promotes
    ∷ shuffles
    ∷ []

-- The shuffle of `busy`: its recipient is peer 5, and it offers peer 7.
abbrev offer : Shuffle ℕ
offer = record { recipient = 5; sample = info 7 ∷ []; ttl = 6 }

sample_of_busy : length (sample rng busy 1).1 ≤ 1
sample_of_busy = length-sample rng law busy 1
