-- ===== src/Net/Info.antt =====
-- librad/src/net/protocol/info.rs: what a peer knows of another. A `PeerId` is a public key, read as
-- the number that its bytes spell, so that `Ord` on keys is the order of the numbers.
use radicle_link.Prelude.{ℕ, Option, none, some, List, [], ◌++◌}
use radicle_link.Data.Bounded.{Bounded, singleton}

abbrev pub PeerId : Type 0
PeerId = ℕ

pub data Capability : Type 0 where
  reserved : Capability

pub record PeerAdvertisement (A : Type 0) : Type 0 where
  pub listen_addrs : Bounded 16 A
  pub capabilities : List Capability

pub record GenericPeerInfo (A T : Type 0) : Type 0 where
  pub peer_id : PeerId
  pub advertised_info : T
  pub seen_addrs : Bounded 16 A

abbrev pub PeerInfo : Type 0 → Type 0
PeerInfo A = GenericPeerInfo A (PeerAdvertisement A)

abbrev pub PartialPeerInfo : Type 0 → Type 0
PartialPeerInfo A = GenericPeerInfo A (Option (PeerAdvertisement A))

module _ {A : Type 0} where
  unfoldable pub sequence : PartialPeerInfo A → Option (PeerInfo A)
  sequence i = elim i.advertised_info [
    | none ↦ none
    | some ad ↦
        some (record { peer_id = i.peer_id; advertised_info = ad; seen_addrs = i.seen_addrs })
  ]

  unfoldable pub partial_from : PeerInfo A → PartialPeerInfo A
  partial_from i = record {
    peer_id = i.peer_id;
    advertised_info = some i.advertised_info;
    seen_addrs = i.seen_addrs;
  }

  -- `PeerAdvertisement::new`
  unfoldable pub advertise : A → PeerAdvertisement A
  unfolding singleton
  advertise listen_addr = record { listen_addrs = singleton listen_addr; capabilities = [] }

  -- `GenericPeerInfo::addrs`: the addresses seen come first.
  unfoldable pub addrs : PeerInfo A → List A
  addrs i = i.seen_addrs.inner ++ i.advertised_info.listen_addrs.inner
