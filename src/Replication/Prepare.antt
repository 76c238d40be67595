-- ===== src/Replication/Prepare.antt =====
-- link-replication/src/prepare.rs and the updates of transmit.rs: the updates of the refs that a peer's
-- identity is verified by. The identities of the storage are a parameter.
pub mod Laws
use radicle_link.Prelude.{
  ℕ, inl, inr, Bool, true, false, ◌==◌, Option, none, some, List, [], ◌∷◌, ◌++◌, if◌then◌else◌,
  Result, ok, err, ◌>>=◌, map_err, Map, get, insert,
}
use radicle_link.Net.Info.{PeerId}
use radicle_link.Refs.Name.{Name, push, join}
use radicle_link.Refs.Qualified.{refs, namespaces}
use radicle_link.Tracking.Policy.{Oid}
use radicle_link.Replication.Names.{Texts, Rad, id, selv, signed_refs, ids, rad_name}
use radicle_link.Replication.Refdb.{Policy, abort, allow, SymrefTarget, Update, direct, symbolic}
use radicle_link.Replication.Wants.{FilteredRef, to_remote_tracking}
use radicle_link.Replication.State.{Urn, Rel, self_ref, FetchState, lookup_delegations, Updates}

-- What is used of `Identities`; `get` gives the content id of the identity of a urn.
pub record Identities (E I : Type 0) : Type 0 where
  pub verify : Oid → (Urn → Option Oid) → Result E I
  pub get_content : Urn → Result E (Option Oid)
  pub urn : I → Urn

pub data PrepareError (E : Type 0) : Type 0 where
  verification : E → PrepareError E
  find_ref : E → PrepareError E
  prepare_panicked : PrepareError E

-- `refs/namespaces/<urn>/refs/rad/id`
abbrev pub namespaced_id : Texts Name → Name → Name
namespaced_id t urn = push (push (join refs namespaces) urn) (rad_name t id)

abbrev pub tracked_as : {E : Type 0} → Option (Option Name) → Result (PrepareError E) Name
tracked_as none = err prepare_panicked
tracked_as (some none) = err prepare_panicked
tracked_as (some (some name)) = ok name

abbrev pub rad_update : Texts Name → Oid → Name → Rad Name → Option Update
rad_update t tip name id = some (direct name tip abort)
rad_update t tip name signed_refs = some (direct name tip abort)
rad_update t tip name (ids urn) =
    some (symbolic name (record { name = namespaced_id t urn; target = tip }) allow)
rad_update t tip name selv = none

-- `as_verification_ref_update`
unfoldable pub as_verification_ref_update :
    {E : Type 0} → Texts Name → FilteredRef → Result (PrepareError E) (Option Update)
as_verification_ref_update t r = do
  name ← tracked_as (to_remote_tracking t r)
  ok (elim r.inner [ inl rad ↦ rad_update t r.tip name rad | inr data_name ↦ none ])

-- `filter_map` and `fold` of `verification_refs`: the refs of each peer but the local one, in their order.
abbrev pub or_nil : Option (List FilteredRef) → List FilteredRef
or_nil none = []
or_nil (some rs) = rs

unfoldable pub grouped_into :
    PeerId → List FilteredRef → Map (List FilteredRef) → Map (List FilteredRef)
grouped_into local [] m = m
grouped_into local (r ∷ rs) m =
    if r.remote == local
    then grouped_into local rs m
    else grouped_into local rs (insert r.remote (or_nil (get r.remote m) ++ r ∷ []) m)

abbrev pub add_tip : Option Update → Updates → Updates
add_tip none ups = ups
add_tip (some up) ups = record ups { tips = ups.tips ++ up ∷ [] }

abbrev pub no_updates : Updates
no_updates = record { tips = []; track = [] }

module _ {E I : Type 0} (cx : Identities E I) (t : Texts Name) (u : Texts Urn) where
  abbrev pub self_update : Name → Name → Oid → Option Oid → Update
  self_update name top tip none = direct name tip abort
  self_update name top tip (some oid) = symbolic name (record { name = top; target = oid }) allow

  -- `rad_self`
  unfoldable pub rad_self : I → FilteredRef → Result (PrepareError E) Update
  rad_self identity r = do
    found ← map_err find_ref (cx.get_content (cx.urn identity))
    name ← tracked_as (to_remote_tracking t r)
    ok (self_update name (namespaced_id t (u.encode_id (cx.urn identity))) r.tip found)

  abbrev pub self_verified : FilteredRef → Updates → I → Result (PrepareError E) Updates
  self_verified r ups identity = do
    up ← rad_self identity r
    ok (record { tips = ups.tips ++ up ∷ []; track = ups.track ++ self_ref (cx.urn identity) ∷ [] })

  -- A `rad/self` that is not valid is skipped, unless it is a delegate's.
  abbrev pub see_self : Bool → FilteredRef → Updates → Result E I → Result (PrepareError E) Updates
  see_self is_delegate r ups (ok identity) = self_verified r ups identity
  see_self true r ups (err e) = err (verification e)
  see_self false r ups (err e) = ok ups

  abbrev pub see_ref : FilteredRef → Updates → Result (PrepareError E) Updates
  see_ref r ups = do up ← as_verification_ref_update t r; ok (add_tip up ups)

  -- A `rad/id` that is not valid takes all updates of its peer with it and ends the loop.
  abbrev pub see_id :
      Bool
      → (Updates → Result (PrepareError E) Updates)
      → FilteredRef
      → Updates
      → Result E I
      → Result (PrepareError E) Updates
  see_id is_delegate rest r ups (ok identity) = see_ref r ups >>= rest
  see_id true rest r ups (err e) = err (verification e)
  see_id false rest r ups (err e) = ok no_updates

  abbrev pub see_rad :
      Bool
      → (Urn → Option Oid)
      → (Updates → Result (PrepareError E) Updates)
      → FilteredRef
      → Updates
      → Rad Name
      → Result (PrepareError E) Updates
  see_rad is_delegate resolve rest r ups selv =
      see_self is_delegate r ups (cx.verify r.tip (λ urn. none)) >>= rest
  see_rad is_delegate resolve rest r ups id =
      see_id is_delegate rest r ups (cx.verify r.tip resolve)
  see_rad is_delegate resolve rest r ups signed_refs = see_ref r ups >>= rest
  see_rad is_delegate resolve rest r ups (ids urn) = see_ref r ups >>= rest

  -- The inner loop, over the refs of one peer.
  unfoldable pub peer_updates :
      Bool → (Urn → Option Oid) → List FilteredRef → Updates → Result (PrepareError E) Updates
  peer_updates is_delegate resolve [] ups = ok ups
  peer_updates is_delegate resolve (r ∷ rs) ups = elim r.inner [
    | inl rad ↦ see_rad is_delegate resolve (peer_updates is_delegate resolve rs) r ups rad
    | inr name ↦ peer_updates is_delegate resolve rs ups
  ]

  unfoldable pub all_updates :
      FetchState → (PeerId → Bool) → Map (List FilteredRef) → Result (PrepareError E) Updates
  all_updates s is_delegate [] = ok no_updates
  all_updates s is_delegate ((peer, rs) ∷ m) = do
    first ← peer_updates (is_delegate peer) (lookup_delegations s peer) rs no_updates
    rest ← all_updates s is_delegate m
    ok (record { tips = first.tips ++ rest.tips; track = first.track ++ rest.track })

  unfoldable pub verification_refs :
      PeerId → FetchState → List FilteredRef → (PeerId → Bool) → Result (PrepareError E) Updates
  verification_refs local s rs is_delegate = all_updates s is_delegate (grouped_into local rs [])
