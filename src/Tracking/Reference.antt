-- ===== src/Tracking/Reference.antt =====
-- link-tracking/src/git/tracking/reference.rs: the names of tracking references. A urn without its
-- path is a number.
pub mod Text
use radicle_link.Prelude.{
  ℕ, ◌≡◌, refl, ◌↔◌, Bool, true, false, ◌&&◌, Option, none, some, ◌==◌, arith,
}
use radicle_link.Net.Info.{PeerId}

-- `Urn`, of which `RefName::new` drops the path.
pub record Urn : Type 0 where
  pub id : ℕ
  pub path : Option ℕ

pub data Remote : Type 0 where
  default : Remote
  peer : PeerId → Remote

-- `From<Option<PeerId>> for Remote`
abbrev pub remote_from : Option PeerId → Remote
remote_from none = default
remote_from (some p) = peer p

-- `From<Remote> for Option<PeerId>`
abbrev pub remote_peer : Remote → Option PeerId
remote_peer default = none
remote_peer (peer p) = some p

pub record RefName : Type 0 where
  pub remote : Remote
  pub urn : ℕ

-- `RefName::new`
abbrev pub ref_name : Urn → Option PeerId → RefName
ref_name urn p = record { remote = remote_from p; urn = urn.id }

-- `PartialEq` for the names.
abbrev pub same_remote : Remote → Remote → Bool
same_remote default default = true
same_remote default (peer q) = false
same_remote (peer p) default = false
same_remote (peer p) (peer q) = p == q

abbrev pub same_name : RefName → RefName → Bool
same_name a b = a.urn == b.urn && same_remote a.remote b.remote

same_remote_iff : (a b : Remote) → (same_remote a b ≡ true) ↔ (a ≡ b)
same_remote_iff default default = (λ h. refl, λ h. refl)
same_remote_iff default (peer q) = (λ h. ground arith, λ h. ground arith)
same_remote_iff (peer p) default = (λ h. ground arith, λ h. ground arith)
same_remote_iff (peer p) (peer q) = (λ h. ground arith, λ h. ground arith)

pub same_name_iff : (a b : RefName) → (same_name a b ≡ true) ↔ (a ≡ b)
same_name_iff a b = (
  λ h. ground (arith, (same_remote_iff a.remote b.remote).0),
  λ h. ground (arith, (same_remote_iff a.remote b.remote).1),
)
