-- ===== src/Identities/Delegation.antt =====
-- link-identities/src/delegation.rs and below: who may sign an identity. A `BTreeSet` of keys is a
-- map of keys to nothing, so it lists its keys in order, each once.
pub mod Votes
use radicle_link.Prelude.{
  ℕ, zero, suc, ◌+◌, ◌/◌, Bool, true, false, Option, none, some, List, [], ◌∷◌, ◌++◌, ◌⊎◌, inl, inr,
  if◌then◌else◌, length, Result, ok, err, ◌>>=◌, Map, contains_key, insert, get, keys,
}
use radicle_link.Identities.Document.{PublicKey, Revision, Doc, Identity}

abbrev pub KeySet : Type 0
KeySet = Map (Unit {0})

-- The trait `Delegations`, with its error type.
pub record Delegations (X D : Type 0) : Type 0 where
  pub eligible : D → KeySet → Result X KeySet
  pub quorum_threshold : D → ℕ

-- `impl Delegations for Doc`: it forwards to the document's delegations.
abbrev pub doc_delegations : {X T D : Type 0} → Delegations X D → Delegations X (Doc T D)
doc_delegations d = record {
  eligible = λ doc votes. d.eligible doc.delegations votes;
  quorum_threshold = λ doc. d.quorum_threshold doc.delegations;
}

pub record Direct : Type 0 where
  pub set : KeySet

-- `Error` of direct.rs.
pub data DirectError : Type 0 where
  empty_keys : DirectError

-- `error::FromIter` of indirect.rs.
pub data FromIter : Type 0 where
  duplicate_key : PublicKey → FromIter
  duplicate_identity : Revision → FromIter
  empty_delegations : FromIter

pub data DoubleVote : Type 0 where
  double_vote : DoubleVote

unfoldable pub collect_keys : KeySet → List PublicKey → KeySet
collect_keys acc [] = acc
collect_keys acc (k ∷ ks) = collect_keys (insert k tt acc) ks

abbrev pub from_maybe_empty : KeySet → Result DirectError Direct
from_maybe_empty [] = err empty_keys
from_maybe_empty (k ∷ ks) = ok (record { set = k ∷ ks })

unfoldable pub direct_from : List PublicKey → Result DirectError Direct
direct_from ks = from_maybe_empty (collect_keys [] ks)

unfoldable pub direct_new : PublicKey → Direct
direct_new key = record { set = (key, tt) ∷ [] }

unfoldable pub direct_insert : PublicKey → Direct → Direct
direct_insert key d = record { set = insert key tt d.set }

-- `self.0.iter().filter(|pk| votes.contains(pk)).collect()`
unfoldable pub voted : {V : Type 0} → Map V → KeySet → KeySet
voted [] votes = []
voted ((k, v) ∷ m) votes =
    let rest = voted m votes in if contains_key k votes then (k, tt) ∷ rest else rest

abbrev pub direct : Delegations ⊥ Direct
direct = record {
  eligible = λ d votes. ok (voted d.set votes);
  quorum_threshold = λ d. length d.set / 2;
}

-- `generic::Identity<generic::Doc<T, Direct, R>, R, C>`
abbrev pub IndirectlyDelegating : Type 0 → Type 0 → Type 0
IndirectlyDelegating G T = Identity G (Doc T Direct)

pub record Indirect (G T : Type 0) : Type 0 where
  pub identities : List (IndirectlyDelegating G T)
  pub delegations : Map (Option ℕ)

-- The closure `insert` of `try_from_iter`.
unfoldable pub insert_key : PublicKey → Option ℕ → Map (Option ℕ) → Result FromIter (Map (Option ℕ))
insert_key key pos dels =
    if contains_key key dels then err (duplicate_key key) else ok (insert key pos dels)

unfoldable pub insert_keys :
    List PublicKey → Option ℕ → Map (Option ℕ) → Result FromIter (Map (Option ℕ))
insert_keys [] pos dels = ok dels
insert_keys (k ∷ ks) pos dels = do dels' ← insert_key k pos dels; insert_keys ks pos dels'

module _ {G T : Type 0} where
  abbrev pub finish :
      List (IndirectlyDelegating G T) → Map (Option ℕ) → Result FromIter (Indirect G T)
  finish [] [] = err empty_delegations
  finish ids dels = ok (record { identities = ids; delegations = dels })

  unfoldable pub collect :
      List (IndirectlyDelegating G T)
      → Map (Option ℕ)
      → KeySet
      → List (PublicKey ⊎ IndirectlyDelegating G T)
      → Result FromIter (Indirect G T)
  collect ids dels roots [] = finish ids dels
  collect ids dels roots (inl key ∷ rest) = do
    dels' ← insert_key key none dels
    collect ids dels' roots rest
  collect ids dels roots (inr id ∷ rest) =
      if contains_key id.root roots then err (duplicate_identity id.root) else (do
        dels' ← insert_keys (keys id.doc.delegations.set) (some (length ids)) dels
        collect (ids ++ id ∷ []) dels' (insert id.root tt roots) rest)

  unfoldable pub indirect_from :
      List (PublicKey ⊎ IndirectlyDelegating G T) → Result FromIter (Indirect G T)
  indirect_from iter = collect [] [] [] iter

  -- `impl From<PublicKey>` and `impl From<IndirectlyDelegating>`
  unfoldable pub indirect_of_key : PublicKey → Indirect G T
  indirect_of_key pk = record { identities = []; delegations = (pk, none) ∷ [] }

  unfoldable pub indirect_of_identity : IndirectlyDelegating G T → Indirect G T
  indirect_of_identity id = record { identities = id ∷ []; delegations = [] }

abbrev pub nth {ℓ} : {A : Type ℓ} → List A → ℕ → Option A
nth [] i = none
nth (x ∷ xs) zero = some x
nth (x ∷ xs) (suc i) = nth xs i

module _ {G T : Type 0} where
  -- `delegations.get(key).and_then(|idx| idx.map(|idx| &self.identities[idx]))`: the source indexes,
  -- and so panics where `nth` is `none`.
  unfoldable pub owner : Indirect G T → PublicKey → Option (IndirectlyDelegating G T)
  owner d key = elim (get key d.delegations) [
    | none ↦ none
    | some idx ↦ elim idx [ none ↦ none | some i ↦ nth d.identities i ]
  ]

-- The fold of `eligible` over the delegations that voted. `id_votes` are the positions of the
-- identities that have voted.
unfoldable pub eligible_votes : KeySet → KeySet → Map (Option ℕ) → Result DoubleVote KeySet
eligible_votes votes id_votes [] = ok []
eligible_votes votes id_votes ((k, none) ∷ m) =
    let rest = eligible_votes votes id_votes m in
    if contains_key k votes then (do acc ← rest; ok ((k, tt) ∷ acc)) else rest
eligible_votes votes id_votes ((k, some id) ∷ m) =
    let skip = eligible_votes votes id_votes m in
    let vote = eligible_votes votes (insert id tt id_votes) m in
    if contains_key k votes
    then if contains_key id id_votes then err double_vote else (do acc ← vote; ok ((k, tt) ∷ acc))
    else skip

unfoldable pub count_direct : Map (Option ℕ) → ℕ
count_direct [] = 0
count_direct ((k, none) ∷ m) = suc (count_direct m)
count_direct ((k, some id) ∷ m) = count_direct m

-- How many may vote: the direct keys, and each identity once.
abbrev pub electorate : {G T : Type 0} → Indirect G T → ℕ
electorate d = count_direct d.delegations + length d.identities

abbrev pub indirect : {G T : Type 0} → Delegations DoubleVote (Indirect G T)
indirect = record {
  eligible = λ d votes. eligible_votes votes [] d.delegations;
  quorum_threshold = λ d. electorate d / 2;
}
