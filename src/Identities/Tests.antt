-- ===== src/Identities/Tests.antt =====
-- Runs of the verification of link-identities/src/generic.rs on small identities.
use radicle_link.Prelude.{
  Result, List, All, ℕ, ◌≡◌, refl, ◌↔◌, inl, inr, Bool, Option, none, some, [], ◌∷◌, arith, ◌==◌,
  ok, Map, ◌+◌, contains_key, get, insert,
}
use radicle_link.Identities.Document.{PublicKey, Revision, Doc, Identity}
use radicle_link.Identities.Delegation.{
  Direct, direct, voted, Indirect, indirect, indirect_from, indirect_of_identity,
  IndirectlyDelegating, collect, insert_key, insert_keys,
}
use radicle_link.Identities.Delegation.Votes.{
  IsSharedVote, direct_quorums_overlap, indirect_eligible_iff, indirect_of_identity_no_quorum,
  Distinct, owners,
}
use radicle_link.Identities.Verify.{
  Verifying, untrusted, verified, coerce, key_set, all_valid, Folded, to_signed, to_quorum,
  to_verified, from_untrusted_verified, verify, fold_history, fold_step, fold_signed, fold_quorum,
  with_parent, parent_votes,
}
use radicle_link.Identities.Verify.Accept.{
  HasQuorum, IsSigned, IsSuccessor, from_untrusted_verified_iff,
}
use radicle_link.Identities.Verify.Root.{SameRoot, verify_keeps_root}
use radicle_link.Identities.Verify.History.{Chain, Yields, verify-Chain}

-- Two of three keys delegate.
abbrev three_keys : Direct
three_keys = record { set = (1, tt) ∷ (2, tt) ∷ (3, tt) ∷ [] }

-- A signature is valid when it is the key.
abbrev check : ℕ → Revision → PublicKey → Bool
check sig revision key = sig == key

abbrev doc_after : Option Revision → Doc ℕ Direct
doc_after r = record { version = 0; replaces = r; payload = 7; delegations = three_keys }

abbrev person : Revision → Option Revision → Map ℕ → Identity ℕ (Doc ℕ Direct)
person revision replaces signatures = record {
  content_id = 40 + revision;
  root = 10;
  revision = revision;
  doc = doc_after replaces;
  signatures = signatures;
}

abbrev signers : Map ℕ
signers = (1, 1) ∷ (3, 3) ∷ []

abbrev others : Map ℕ
others = (2, 2) ∷ (3, 3) ∷ []

abbrev base : Verifying ℕ (Doc ℕ Direct) verified
base = record { inner = person 10 none signers }

abbrev next : Verifying ℕ (Doc ℕ Direct) untrusted
next = record { inner = person 11 (some 10) others }

-- The other quorum signs the base's revision.
abbrev confirmation : Verifying ℕ (Doc ℕ Direct) untrusted
confirmation = record { inner = person 10 none others }

abbrev proposal : Verifying ℕ (Doc ℕ Direct) untrusted
proposal = record { inner = person 12 (some 11) ((2, 2) ∷ []) }

signers-HasQuorum : HasQuorum direct three_keys signers
unfolding voted key_set contains_key get
signers-HasQuorum = ((1, tt) ∷ (3, tt) ∷ [], refl, omega arith, omega arith)

others-HasQuorum : HasQuorum direct three_keys others
unfolding voted key_set contains_key get
others-HasQuorum = ((2, tt) ∷ (3, tt) ∷ [], refl, omega arith, omega arith)

next_accepted : from_untrusted_verified ℕ check direct next (some base) ≡ ok (coerce verified next)
unfolding from_untrusted_verified to_signed to_quorum to_verified with_parent parent_votes all_valid
    voted key_set contains_key get
next_accepted = refl

from_untrusted_verified_iff_example :
    (from_untrusted_verified ℕ check direct next (some base) ≡ ok (coerce verified next)) ↔ (
      ((coerce verified next).inner ≡ next.inner)
      × IsSigned check next.inner
      × HasQuorum direct next.inner.doc.delegations next.inner.signatures
      × IsSuccessor direct next.inner (some base))
from_untrusted_verified_iff_example =
    from_untrusted_verified_iff ℕ check direct next (some base) (coerce verified next)

abbrev progeny : List (Result ℕ (Verifying ℕ (Doc ℕ Direct) untrusted))
progeny = ok confirmation ∷ ok next ∷ ok proposal ∷ []

abbrev succeeded : Folded ℕ (Doc ℕ Direct)
succeeded = record { head = coerce verified next; parent = some (coerce verified confirmation) }

verify-base : verify ℕ check direct base progeny ≡ ok succeeded
unfolding verify fold_history fold_step fold_signed fold_quorum to_signed to_quorum to_verified
    with_parent parent_votes all_valid voted key_set contains_key get
verify-base = refl

-- Equal revisions to the base's have the root of the base.
abbrev FollowsBase : Identity ℕ (Doc ℕ Direct) → Type 0
FollowsBase i = SameRoot base i

progeny_follows : All (Yields FollowsBase) progeny
progeny_follows = ((λ e. refl), ((λ e. refl), ((λ e. refl), tt)))

verify-Chain_example : Chain ℕ check direct FollowsBase base succeeded
verify-Chain_example =
    verify-Chain ℕ check direct FollowsBase base progeny succeeded progeny_follows verify-base

verify_keeps_root_example : succeeded.head.inner.root ≡ base.inner.root
verify_keeps_root_example =
    verify_keeps_root ℕ check direct base progeny succeeded progeny_follows verify-base

direct_quorums_overlap_example :
    (k : PublicKey) × IsSharedVote three_keys.set (key_set signers) (key_set others) k
direct_quorums_overlap_example =
    direct_quorums_overlap three_keys signers others signers-HasQuorum others-HasQuorum

abbrev owned : IndirectlyDelegating ℕ ℕ
owned = person 10 none signers

-- A project of one identity and a key.
abbrev project : Indirect ℕ ℕ
project = record {
  identities = owned ∷ [];
  delegations = (1, some 0) ∷ (2, some 0) ∷ (3, some 0) ∷ (4, none) ∷ [];
}

project_from : indirect_from (inl 4 ∷ inr owned ∷ []) ≡ ok project
unfolding indirect_from collect insert_keys insert_key contains_key get insert
project_from = refl

indirect_eligible_iff_example :
    (indirect.eligible project ((1, tt) ∷ (4, tt) ∷ []) ≡ ok ((1, tt) ∷ (4, tt) ∷ [])) ↔ (
      ((1, tt) ∷ (4, tt) ∷ [] ≡ voted project.delegations ((1, tt) ∷ (4, tt) ∷ []))
      × Distinct (owners project.delegations ((1, tt) ∷ (4, tt) ∷ [])))
indirect_eligible_iff_example =
    indirect_eligible_iff project ((1, tt) ∷ (4, tt) ∷ []) ((1, tt) ∷ (4, tt) ∷ [])

indirect_of_identity_no_quorum_example : ¬ HasQuorum indirect (indirect_of_identity owned) signers
indirect_of_identity_no_quorum_example = indirect_of_identity_no_quorum owned signers
