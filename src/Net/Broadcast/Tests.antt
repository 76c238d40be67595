-- ===== src/Net/Broadcast/Tests.antt =====
-- Runs of the gossip of librad/src/net/protocol/broadcast.rs with a small storage.
use radicle_link.Prelude.{
  ℕ, suc, ◌≡◌, refl, Bool, true, false, none, some, List, [], ◌∷◌, ◌==◌, All, arith, ok, err,
  contains_key, get, ◌||◌, ◌&&◌, not,
}
use radicle_link.Net.Info.{PeerId, PeerInfo, partial_from}
use radicle_link.Net.Membership.View.{is_known, is_active, is_passive}
use radicle_link.Net.Membership.Hpv.{HpvInner, default_params, broadcast_recipients}
use radicle_link.Net.Tock.{send_connected, gossip, members_of}
use radicle_link.Net.Broadcast.{
  GossipMessage, have, uninteresting, Digest, of_seqno, of_payload, unsolicited, next_hop, Services,
  IsBloomFilter, GossipState,
}
use radicle_link.Net.Broadcast.Apply.{
  broadcast, bump, seen, have_tocks, on_have, handle, apply_unseen, apply_gossip,
}
use radicle_link.Net.Broadcast.Seen.{apply_gossip_twice, unsolicited_suppresses}
use radicle_link.Net.Broadcast.Relays.{
  IsAnswer, tocks_of, apply_gossip-IsAnswer, members_of-IsMembers,
}

abbrev same_bool : Bool → Bool → Bool
same_bool true y = y
same_bool false y = not y

abbrev same_digest : Digest ℕ → Digest ℕ → Bool
same_digest (of_seqno a b c) (of_seqno x y z) = same_bool a x && (b == y && c == z)
same_digest (of_seqno a b c) (of_payload x y z) = false
same_digest (of_payload a b c) (of_seqno x y z) = false
same_digest (of_payload a b c) (of_payload x y z) = same_bool a x && (b == y && c == z)

abbrev holds : List (Digest ℕ) → Digest ℕ → Bool
holds [] d = false
holds (x ∷ xs) d = same_digest x d || holds xs d

-- A filter that forgets nothing, a storage that finds odd payloads of interest, and a counter.
abbrev services : Services ℕ ℕ ℕ ℕ (List (Digest ℕ)) ℕ
services = record {
  storage = record {
    put = λ provider payload s. (uninteresting, suc s);
    ask = λ payload s. (payload == 1, s);
    is_rate_limit_breached = λ limit s. (false, s);
  };
  metrics = record { record_message = λ hops n. suc n; record_seen = λ n. n };
  filter = record { contains = holds; add = λ f d. d ∷ f };
  rand = record { random = λ r. (r, suc r) };
}

same_digest_refl : (d : Digest ℕ) → same_digest d d ≡ true
same_digest_refl (of_seqno true b c) = ground arith
same_digest_refl (of_seqno false b c) = ground arith
same_digest_refl (of_payload true b c) = ground arith
same_digest_refl (of_payload false b c) = ground arith

services-IsBloomFilter : IsBloomFilter services.filter
services-IsBloomFilter f d = rw (same_digest_refl d) refl

abbrev info : PeerId → PeerInfo ℕ
info p = record {
  peer_id = p;
  advertised_info = record { listen_addrs = record { inner = p ∷ [] }; capabilities = [] };
  seen_addrs = record { inner = [] };
}

-- Peers 5 and 6 are active.
abbrev local : HpvInner ℕ ℕ
local = record {
  local_id = 0;
  params = default_params;
  rng = 0;
  view = record {
    local_id = 0;
    rng = 0;
    max_active = 5;
    max_passive = 30;
    active = (5, partial_from (info 5)) ∷ (6, partial_from (info 6)) ∷ [];
    passive = [];
    asserts_hold = true;
  };
}

abbrev idle : GossipState ℕ ℕ (List (Digest ℕ)) ℕ
idle = record { storage = 0; seen = []; stats = 0; rng = 77 }

abbrev news : GossipMessage ℕ ℕ
news = have (info 9) 3 (some (record { seqno = 42; hop = 2; sig = none }))

abbrev relayed : GossipMessage ℕ ℕ
relayed = have (info 9) 3 (some (record { seqno = 42; hop = 3; sig = none }))

news-relayed :
    tocks_of (apply_gossip services (members_of local) (info 0) 5 news idle).0
    ≡ send_connected 6 (gossip relayed) ∷ []
unfolding apply_gossip apply_unseen seen handle on_have have_tocks bump next_hop broadcast
    members_of broadcast_recipients is_known is_active is_passive contains_key get
news-relayed = refl

apply_gossip-IsAnswer_example :
    All
      (IsAnswer (info 0) 5 news)
      (tocks_of (apply_gossip services (members_of local) (info 0) 5 news idle).0)
apply_gossip-IsAnswer_example =
    apply_gossip-IsAnswer services (members_of local) (info 0) 5 (members_of-IsMembers local) news
      idle

apply_gossip_twice_example :
    (apply_gossip services
      (members_of local)
      (info 0)
      6
      relayed
      (apply_gossip services (members_of local) (info 0) 5 news idle).1).0
    ≡ ok (none, [])
apply_gossip_twice_example =
    apply_gossip_twice services services-IsBloomFilter (members_of local) (members_of local)
      (info 0) (info 0) 5 6 news relayed idle refl

unsolicited_suppresses_example :
    ((apply_gossip services (members_of local) (info 0) 9 news idle).0 ≡ err (unsolicited 9 news))
    × ((apply_gossip services (members_of local) (info 0) 9 news idle).1.storage ≡ idle.storage)
    × ((apply_gossip services
          (members_of local)
          (info 0)
          5
          news
          (apply_gossip services (members_of local) (info 0) 9 news idle).1).0
        ≡ ok (none, []))
unfolding members_of is_known is_active is_passive contains_key get
unsolicited_suppresses_example =
    unsolicited_suppresses services services-IsBloomFilter (members_of local) (info 0) 9 5 news idle
      refl refl
