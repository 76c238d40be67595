-- ===== src/Replication/Prepare/Laws.antt =====
-- What an identity that is not valid does to the updates of its peer (link-replication/src/prepare.rs).
use radicle_link.Prelude.{
  ◌≡◌, refl, sym, ap, subst, ◌∙◌, ◌⊎◌, inl, inr, Bool, true, false, Option, none, List, [], ◌∷◌,
  Result, ok, err, ok-injective, err-ne-ok, >>=-eq-ok, In,
}
use radicle_link.Refs.Name.{Name}
use radicle_link.Tracking.Policy.{Oid}
use radicle_link.Replication.Names.{Texts, Rad, id, selv, signed_refs, ids}
use radicle_link.Replication.Wants.{FilteredRef}
use radicle_link.Replication.State.{Urn, Updates}
use radicle_link.Replication.Prepare.{
  Identities, PrepareError, no_updates, see_self, see_ref, see_id, see_rad, peer_updates,
}

module _ {E I : Type 0} (cx : Identities E I) (t : Texts Name) (u : Texts Urn) where
  -- The refs have a `rad/id` that is not valid.
  abbrev pub HasInvalidId : (Urn → Option Oid) → List FilteredRef → Type 0
  HasInvalidId resolve rs =
      (r : FilteredRef) × In r rs
      × (r.inner ≡ inl id)
      × ((e : E) × (cx.verify r.tip resolve ≡ err e))

  see_id_invalid :
      (is_delegate : Bool) (rest : Updates → Result (PrepareError E) Updates) (r : FilteredRef)
      (ups out : Updates) (e : E)
      → see_id cx t u is_delegate rest r ups (err e) ≡ ok out
      → (is_delegate ≡ false) × (out ≡ no_updates)
  see_id_invalid true rest r ups out e h = absurd (err-ne-ok h)
  see_id_invalid false rest r ups out e h = (refl, sym (ok-injective h))

  -- What a peer's loop yields in the end, for the ref it stands at and those after it.
  see_id_goes_on :
      (is_delegate : Bool) (rest : Updates → Result (PrepareError E) Updates) (r : FilteredRef)
      (ups out : Updates) (res : Result E I)
      → ((mid : Updates) → rest mid ≡ ok out → (is_delegate ≡ false) × (out ≡ no_updates))
      → see_id cx t u is_delegate rest r ups res ≡ ok out
      → (is_delegate ≡ false) × (out ≡ no_updates)
  see_id_goes_on is_delegate rest r ups out (err e) later h =
      see_id_invalid is_delegate rest r ups out e h
  see_id_goes_on is_delegate rest r ups out (ok identity) later h =
      let (mid, first, next) = >>=-eq-ok (see_ref cx t u r ups) rest h in later mid next

  see_rad_goes_on :
      (is_delegate : Bool) (resolve : Urn → Option Oid)
      (rest : Updates → Result (PrepareError E) Updates) (r : FilteredRef) (ups out : Updates)
      (rad : Rad Name)
      → ((mid : Updates) → rest mid ≡ ok out → (is_delegate ≡ false) × (out ≡ no_updates))
      → see_rad cx t u is_delegate resolve rest r ups rad ≡ ok out
      → (is_delegate ≡ false) × (out ≡ no_updates)
  see_rad_goes_on is_delegate resolve rest r ups out selv later h =
      let (mid, first, next) =
        >>=-eq-ok (see_self cx t u is_delegate r ups (cx.verify r.tip (λ urn. none))) rest h in
      later mid next
  see_rad_goes_on is_delegate resolve rest r ups out id later h =
      see_id_goes_on is_delegate rest r ups out (cx.verify r.tip resolve) later h
  see_rad_goes_on is_delegate resolve rest r ups out signed_refs later h =
      let (mid, first, next) = >>=-eq-ok (see_ref cx t u r ups) rest h in later mid next
  see_rad_goes_on is_delegate resolve rest r ups out (ids urn) later h =
      let (mid, first, next) = >>=-eq-ok (see_ref cx t u r ups) rest h in later mid next

  inner_goes_on :
      (is_delegate : Bool) (resolve : Urn → Option Oid) (tip remote : Oid) (inner : Rad Name ⊎ Name)
      (rs : List FilteredRef) (ups out : Updates)
      → ((mid : Updates)
          → peer_updates cx t u is_delegate resolve rs mid ≡ ok out
          → (is_delegate ≡ false) × (out ≡ no_updates))
      → peer_updates cx t u is_delegate resolve
          (record { tip = tip; remote = remote; inner = inner } ∷ rs)
          ups
        ≡ ok out
      → (is_delegate ≡ false) × (out ≡ no_updates)
  unfolding peer_updates
  inner_goes_on is_delegate resolve tip remote (inl rad) rs ups out later h =
      see_rad_goes_on is_delegate resolve (peer_updates cx t u is_delegate resolve rs)
        (record { tip = tip; remote = remote; inner = inl rad }) ups out rad later h
  inner_goes_on is_delegate resolve tip remote (inr name) rs ups out later h = later ups h

  inner_invalid :
      (is_delegate : Bool) (resolve : Urn → Option Oid) (r : FilteredRef) (rs : List FilteredRef)
      (ups out : Updates) (e : E)
      → r.inner ≡ inl id
      → cx.verify r.tip resolve ≡ err e
      → peer_updates cx t u is_delegate resolve (r ∷ rs) ups ≡ ok out
      → (is_delegate ≡ false) × (out ≡ no_updates)
  unfolding peer_updates
  inner_invalid is_delegate resolve r rs ups out e same failed h =
      see_id_invalid is_delegate (peer_updates cx t u is_delegate resolve rs)
        (record { tip = r.tip; remote = r.remote; inner = inl id }) ups out e
        (subst
          (λ (res : Result E I).
            see_id cx t u is_delegate (peer_updates cx t u is_delegate resolve rs)
              (record { tip = r.tip; remote = r.remote; inner = inl id }) ups res
            ≡ ok out)
          failed
          (subst
            (λ (inner : Rad Name ⊎ Name).
              peer_updates cx t u is_delegate resolve
                (record { tip = r.tip; remote = r.remote; inner = inner } ∷ rs) ups
              ≡ ok out)
            same h))

  -- Where one of a peer's refs is a `rad/id` that is not valid, its refs are prepared only if the peer is
  -- no delegate, and then none of them is updated and nothing is tracked, whichever refs come before it.
  pub peer_updates_invalid :
      (is_delegate : Bool) (resolve : Urn → Option Oid) (rs : List FilteredRef) (ups out : Updates)
      → HasInvalidId resolve rs
      → peer_updates cx t u is_delegate resolve rs ups ≡ ok out
      → (is_delegate ≡ false) × (out ≡ no_updates)
  peer_updates_invalid is_delegate resolve [] ups out (r, m, same, (e, failed)) h = absurd m
  peer_updates_invalid is_delegate resolve (x ∷ rs) ups out (r, inl eq, same, (e, failed)) h =
      inner_invalid is_delegate resolve x rs ups out e
        (ap (λ (y : FilteredRef). y.inner) (sym eq) ∙ same)
        (ap (λ (y : FilteredRef). cx.verify y.tip resolve) (sym eq) ∙ failed) h
  peer_updates_invalid is_delegate resolve (x ∷ rs) ups out (r, inr m, same, (e, failed)) h =
      inner_goes_on is_delegate resolve x.tip x.remote x.inner rs ups out
        (λ mid next.
          peer_updates_invalid is_delegate resolve rs mid out (r, m, same, (e, failed)) next)
        h
