-- ===== src/Identities/Delegation/Votes.antt =====
-- Which votes the delegations of link-identities/src/delegation admit.
use radicle_link.Prelude.{
  ℕ, ◌≤◌, ◌+◌, ◌≡◌, ◌≢◌, refl, ◌↔◌, ◌⊎◌, inl, inr, true, false, Option, none, some, List, [], ◌∷◌,
  All, arith, if◌then◌else◌, length, ok, Result-cases, Bool-cases, Map, contains_key, insert, get,
  get-insert,
}
use radicle_link.Identities.Document.{PublicKey}
use radicle_link.Identities.Delegation.{
  KeySet, Direct, direct, voted, Indirect, indirect, indirect_of_identity, IndirectlyDelegating,
  eligible_votes,
}
use radicle_link.Identities.Verify.{key_set}
use radicle_link.Identities.Verify.Accept.{HasQuorum}

-- A delegation that voted in both sets of votes.
abbrev pub IsSharedVote : {V : Type 0} → Map V → KeySet → KeySet → PublicKey → Type 0
IsSharedVote m a b k =
    (contains_key k m ≡ true) × (contains_key k a ≡ true) × (contains_key k b ≡ true)

contains_key-tail :
    {V : Type 0} (j k : PublicKey) (v : V) (m : Map V)
    → contains_key k m ≡ true
    → contains_key k ((j, v) ∷ m) ≡ true
unfolding contains_key get
contains_key-tail j k v m h = ground arith

contains_key-head :
    {V : Type 0} (k : PublicKey) (v : V) (m : Map V) → contains_key k ((k, v) ∷ m) ≡ true
unfolding contains_key get
contains_key-head k v m = ground arith

voted_overlap :
    {V : Type 0} (m : Map V) (a b : KeySet)
    → ((k : PublicKey) × IsSharedVote m a b k)
      ⊎ (length (voted m a) + length (voted m b) ≤ length m)
unfolding voted
voted_overlap [] a b = inr (omega arith)
voted_overlap ((k, v) ∷ m) a b = elim (voted_overlap m a b) [
  | inl (j, (in_m, in_a, in_b)) ↦ inl (j, (contains_key-tail k j v m in_m, in_a, in_b))
  | inr few ↦ elim (Bool-cases (contains_key k a)) [
    | inl in_a ↦ elim (Bool-cases (contains_key k b)) [
      | inl in_b ↦ inl (k, (contains_key-head k v m, in_a, in_b))
      | inr out_b ↦ inr (ground arith)
    ]
    | inr out_a ↦ inr (ground arith)
  ]
]

-- Any two sets of signatures that reach a quorum of the same direct delegations share a signer who
-- is a delegate.
pub direct_quorums_overlap :
    {G : Type 0} (d : Direct) (first second : Map G)
    → HasQuorum direct d first
    → HasQuorum direct d second
    → (k : PublicKey) × IsSharedVote d.set (key_set first) (key_set second) k
direct_quorums_overlap d first second (e, counted, pos, over) (e', counted', pos', over') =
    elim (voted_overlap d.set (key_set first) (key_set second)) [
      | inl shared ↦ shared
      | inr few ↦ absurd (ground arith)
    ]

-- The positions of the identities whose keys voted.
unfoldable pub owners : Map (Option ℕ) → KeySet → List ℕ
owners [] votes = []
owners ((k, none) ∷ m) votes = owners m votes
owners ((k, some id) ∷ m) votes =
    let rest = owners m votes in if contains_key k votes then id ∷ rest else rest

abbrev pub Distinct : List ℕ → Type 0
Distinct [] = Unit {0}
Distinct (id ∷ ids) = All (λ other. id ≢ other) ids × Distinct ids

-- Nobody of `ids` has voted yet.
abbrev pub Fresh : Map (Unit {0}) → List ℕ → Type 0
Fresh id_votes ids = All (λ id. contains_key id id_votes ≡ false) ids

Fresh-insert :
    (id : ℕ) (id_votes : KeySet) (ids : List ℕ)
    → Fresh (insert id tt id_votes) ids ↔ (All (λ other. id ≢ other) ids × Fresh id_votes ids)
unfolding contains_key
Fresh-insert id id_votes [] = (λ h. (tt, tt), λ h. tt)
Fresh-insert id id_votes (other ∷ ids) = (
  λ h. ground (arith, get-insert id other tt id_votes, (Fresh-insert id id_votes ids).0),
  λ h. ground (arith, get-insert id other tt id_votes, (Fresh-insert id id_votes ids).1),
)

eligible_votes_lem :
    (votes id_votes : KeySet) (m : Map (Option ℕ)) (e : KeySet)
    → (eligible_votes votes id_votes m ≡ ok e)
      ↔ ((e ≡ voted m votes) × Distinct (owners m votes) × Fresh id_votes (owners m votes))
unfolding eligible_votes voted owners
eligible_votes_lem votes id_votes [] e = (λ h. ground arith, λ h. ground arith)
eligible_votes_lem votes id_votes ((k, none) ∷ m) e =
    elim (Result-cases (eligible_votes votes id_votes m)) [
      | inl (acc, counts) ↦ ground (arith, (eligible_votes_lem votes id_votes m acc).0 counts)
      | inr (x, doubles) ↦ ground (arith, (eligible_votes_lem votes id_votes m (voted m votes)).1)
    ]
eligible_votes_lem votes id_votes ((k, some id) ∷ m) e =
    let fresh = Fresh-insert id id_votes (owners m votes) in
    elim (Bool-cases (contains_key k votes)) [
      | inl in_votes ↦ elim (Result-cases (eligible_votes votes (insert id tt id_votes) m)) [
        | inl (acc, counts) ↦
            let (eq, distinct, f) =
              (eligible_votes_lem votes (insert id tt id_votes) m acc).0 counts in
            ground (arith, fresh.0 f)
        | inr (x, doubles) ↦
            ground (
              arith,
              (eligible_votes_lem votes (insert id tt id_votes) m (voted m votes)).1,
              fresh.1,
            )
      ]
      | inr out ↦ rw out (eligible_votes_lem votes id_votes m e)
    ]

nobody : (ids : List ℕ) → Fresh [] ids
unfolding contains_key get
nobody [] = tt
nobody (id ∷ ids) = (refl, nobody ids)

-- Indirect delegations admit votes exactly when no two of the voting keys belong to the same
-- identity; the eligible votes are then all delegations that voted.
pub indirect_eligible_iff :
    {G T : Type 0} (d : Indirect G T) (votes e : KeySet)
    → (indirect.eligible d votes ≡ ok e)
      ↔ ((e ≡ voted d.delegations votes) × Distinct (owners d.delegations votes))
unfolding contains_key get
indirect_eligible_iff d votes e =
    let counts = eligible_votes_lem votes [] d.delegations e in
    (
      λ h. let (eq, distinct, f) = counts.0 h in (eq, distinct),
      λ h. counts.1 (h.0, h.1, nobody (owners d.delegations votes)),
    )

-- The delegations made from a single identity never have a quorum, whoever signs.
pub indirect_of_identity_no_quorum :
    {G T H : Type 0} (id : IndirectlyDelegating G T) (signatures : Map H)
    → ¬ HasQuorum indirect (indirect_of_identity id) signatures
unfolding indirect_of_identity eligible_votes
indirect_of_identity_no_quorum id signatures (e, counted, pos, over) = ground arith
