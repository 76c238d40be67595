-- ===== src/Replication/Eval.antt =====
-- link-replication/src/eval/pull.rs and eval/rad.rs: the parts of a pull that decide, between its phases.
pub mod Laws
pub mod Pending
use radicle_link.Prelude.{
  ℕ, zero, suc, inl, inr, Bool, true, false, not, ◌&&◌, ◌||◌, ◌==◌, Option, none, some, is_some,
  List, [], ◌∷◌, ◌++◌, length, if◌then◌else◌, Result, ok, err, ◌>>=◌, map_err, Map, get, insert,
  any, contains_key, ◌⊎◌,
}
use radicle_link.Net.Info.{PeerId}
use radicle_link.Refs.{ends_with}
use radicle_link.Refs.Name.{Name, strip, push, join}
use radicle_link.Refs.Qualified.{refs}
use radicle_link.Tracking.Policy.{Oid}
use radicle_link.Tracking.Reference.Text.{rad}
use radicle_link.Replication.Names.{id_name}
use radicle_link.Replication.Refdb.{Update, direct, symbolic, prune}
use radicle_link.Replication.Sigrefs.{Sigrefs}
use radicle_link.Replication.Peek.{DataPolicy, deny, allowed}
use radicle_link.Replication.Peek.Fetch.{Spec}

-- What a peer tracks that the delegates do not: `tracked` of `pull`, over the tracked peers and then the
-- delegates.
unfoldable pub add_tracked : List PeerId → List (PeerId × DataPolicy) → Map Spec → Map Spec
add_tracked delegates [] m = m
add_tracked delegates ((peer, policy) ∷ rest) m =
    if any (λ x. x == peer) delegates
    then add_tracked delegates rest m
    else add_tracked delegates rest
        (insert peer (record { is_delegate = false; policy = policy }) m)

unfoldable pub add_delegates : List PeerId → Map Spec → Map Spec
add_delegates [] m = m
add_delegates (peer ∷ peers) m =
    add_delegates peers (insert peer (record { is_delegate = true; policy = allowed }) m)

abbrev pub tracked : List PeerId → List (PeerId × DataPolicy) → Map Spec
tracked delegates policies = add_delegates delegates (add_tracked delegates policies [])

-- `Ord for DataPolicy`
abbrev pub lt_policy : DataPolicy → DataPolicy → Bool
lt_policy deny deny = false
lt_policy deny allowed = true
lt_policy allowed other = false

-- `entry`, `and_modify` and `or_insert`
abbrev pub merged : Spec → Option DataPolicy → DataPolicy
merged spec none = spec.policy
merged spec (some v) = if not spec.is_delegate && lt_policy spec.policy v then spec.policy else v

abbrev pub remotes_of : Option Sigrefs → List PeerId
remotes_of none = []
remotes_of (some s) = s.remotes

module _ (local : PeerId) (delegates : List PeerId) (all : Map Spec) where
  abbrev pub is_direct : PeerId → Bool
  is_direct peer = (peer == local) || (any (λ x. x == peer) delegates || contains_key peer all)

  unfoldable pub add_remotes : Spec → List PeerId → Map DataPolicy → Map DataPolicy
  add_remotes spec [] m = m
  add_remotes spec (peer ∷ peers) m =
      if is_direct peer
      then add_remotes spec peers m
      else add_remotes spec peers (insert peer (merged spec (get peer m)) m)

  -- The loop that fills `transitive`.
  unfoldable pub transitive : Map Sigrefs → Map Spec → Map DataPolicy → Map DataPolicy
  transitive signed [] m = m
  transitive signed ((peer, spec) ∷ rest) m =
      transitive signed rest (add_remotes spec (remotes_of (get peer signed)) m)

-- `refs/rad/id`
abbrev pub rad_id : Name
rad_id = push (join refs rad) id_name

abbrev pub is_id_update : Update → Bool
is_id_update (direct name target policy) = ends_with rad_id name
is_id_update (symbolic name target policy) = ends_with rad_id target.name
is_id_update (prune name prev) = false

-- What `swap_remove` leaves in the place of the removed element and after it: the last one comes first.
abbrev pub last_before : Update → List Update → List Update
last_before x [] = x ∷ []
last_before x (z ∷ zs) = z ∷ x ∷ zs

unfoldable pub last_first : List Update → List Update
last_first [] = []
last_first (x ∷ []) = x ∷ []
last_first (x ∷ y ∷ xs) = last_before x (last_first (y ∷ xs))

-- The loop over the pending updates, split at `i`: those before it are kept. The loop ends within as many
-- rounds as there are pending updates.
unfoldable pub drain :
    ℕ → List Update → List Update → List Update → Option (List Update × List Update)
drain fuel kept [] tips = some (tips, kept)
drain zero kept (up ∷ rest) tips = none
drain (suc fuel) kept (up ∷ rest) tips =
    let removed = drain fuel kept (last_first rest) (tips ++ up ∷ []) in
    let passed = drain fuel (kept ++ up ∷ []) rest tips in
    if is_id_update up then removed else passed

abbrev pub take_tips : List Update → Option (List Update × List Update)
take_tips pending = drain (length pending) [] pending []

-- What is used of `VerifiedIdentity` and `Identities::newer`.
pub record Histories (E I : Type 0) : Type 0 where
  pub delegate_ids : I → List PeerId
  pub revision : I → ℕ
  pub content_id : I → Oid
  pub newer : I → I → Result E I

pub data ConfirmationRequired : Type 0 where
  confirmation_required : ConfirmationRequired

module _ {E I : Type 0} (cx : Histories E I) where
  abbrev pub compare_newer : Oid → I → Result ConfirmationRequired (I ⊎ I)
  compare_newer tip found =
      if cx.content_id found == tip then ok (inl found) else err confirmation_required

  -- `newer` of eval/rad.rs
  unfoldable pub newer : PeerId → Option I → I → Result E (Result ConfirmationRequired (I ⊎ I))
  newer local none theirs = ok (ok (inr theirs))
  newer local (some ours) theirs =
      if any (λ x. x == local) (cx.delegate_ids ours)
        && not (cx.revision ours == cx.revision theirs)
      then cx.newer ours theirs >>= (λ found. ok (compare_newer (cx.content_id ours) found))
      else ok (ok (inr theirs))
