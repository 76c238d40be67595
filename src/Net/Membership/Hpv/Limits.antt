-- ===== src/Net/Membership/Hpv/Limits.antt =====
-- How much a shuffle of the HyParView state machine sends, and where a limit of zero is not one.
use radicle_link.Prelude.{
  ℕ, ◌-◌, ◌≤◌, ◌≡◌, refl, ◌≢◌, inl, inr, true, false, not, none, some, List, [], ◌∷◌, arith, ◌==◌,
  length, length-append, length-filter-le, subst, filter, All, In-keys, Option-cases, Bool-cases,
  keys, values,
}
use mathlib.Core.Option.{some-injective}
use radicle_link.Net.Info.{PeerId, PeerInfo}
use radicle_link.Net.Membership.Rng.{Rng, IsRng}
use radicle_link.Net.Membership.View.{
  PartialView, num_active, num_passive, is_active, is_passive, is_active_full, add_active,
  add_passive, make_room, demote_random,
}
use radicle_link.Net.Membership.View
use radicle_link.Net.Membership.Hpv.{Shuffle, HpvInner, sequence_all}
use radicle_link.Net.Membership.Hpv.Ops.{
  is_empty, random_active, sample, shuffle_with, shuffle_view,
}

none-ne-some : {X : Type 0} {x : X} → none ≡ some x → ⊥
none-ne-some e = cc

module _ {S A : Type 0} (r : Rng S A) (law : IsRng r) where
  -- A sample has at most the number of peers that were asked for.
  pub length-sample : (h : HpvInner S A) (n : ℕ) → length (sample r h n).1 ≤ n
  unfolding sample
  length-sample h n =
      let first = r.choose_multiple h.rng (sequence_all (values h.view.active)) n in
      let more = r.choose_multiple first.1 (values h.view.passive) (n - length first.0) in
      ground (
        arith,
        law.length-choose_multiple h.rng (sequence_all (values h.view.active)) n,
        law.length-choose_multiple first.1 (values h.view.passive) (n - length first.0),
        length-append first.0 more.0,
      )

  All-filter :
      (p : PeerId) (xs : List (PeerInfo A))
      → All (λ i. i.peer_id ≢ p) (filter (λ i. not (i.peer_id == p)) xs)
  All-filter p [] = tt
  All-filter p (x ∷ xs) = elim (Bool-cases (x.peer_id == p)) [
    | inl same ↦ rw same (All-filter p xs)
    | inr other ↦ rw other (λ e. ground arith, All-filter p xs)
  ]

  pos_of_is_empty : (xs : List (PeerInfo A)) → is_empty xs ≡ false → 1 ≤ length xs
  pos_of_is_empty [] h = ground arith
  pos_of_is_empty (x ∷ xs) h = omega arith

  abbrev Offers : HpvInner S A → Shuffle A → Type 0
  Offers h s =
      (1 ≤ length s.sample)
      × (length s.sample ≤ h.params.shuffle_sample_size)
      × All (λ i. i.peer_id ≢ s.recipient) s.sample
      × (s.ttl ≡ h.params.active_random_walk_length)

  shuffle_with_lem :
      (h : HpvInner S A) (p : PeerId) (s : Shuffle A)
      → (shuffle_with r h p).1 ≡ some s
      → (s.recipient ≡ p) × Offers h s
  unfolding shuffle_with
  shuffle_with_lem h p s e =
      let infos = (sample r h h.params.shuffle_sample_size).1 in
      let chosen = filter (λ i. not (i.peer_id == p)) infos in
      elim (Bool-cases (is_empty chosen)) [
        | inl nothing ↦ absurd (none-ne-some (rw nothing at e))
        | inr there ↦
            subst (λ t. (t.recipient ≡ p) × Offers h t) (some-injective _ _ (rw there at e))
              (
                refl,
                (
                  pos_of_is_empty chosen there,
                  omega (
                    arith,
                    length-filter-le (λ (i : PeerInfo A). not (i.peer_id == p)) infos,
                    length-sample h h.params.shuffle_sample_size,
                  ),
                  All-filter p infos,
                  refl,
                ),
              )
      ]

  -- A shuffle goes to an active peer, offers at least one peer and at most as many as the parameters
  -- say, none of them the recipient, and sets out with the configured walk length.
  pub shuffle_view_lem :
      (h : HpvInner S A) (s : Shuffle A)
      → (shuffle_view r h).1 ≡ some s
      → (is_active h.view s.recipient ≡ true)
        × (1 ≤ length s.sample)
        × (length s.sample ≤ h.params.shuffle_sample_size)
        × All (λ i. i.peer_id ≢ s.recipient) s.sample
        × (s.ttl ≡ h.params.active_random_walk_length)
  unfolding shuffle_view random_active is_active
  shuffle_view_lem h s = elim (Option-cases (r.choose h.rng (keys h.view.active)).0) [
    | inl alone ↦ rw (alone, shuffle_view) (λ e. absurd (none-ne-some e))
    | inr (p, chosen) ↦
        rw (chosen, shuffle_view)
          (λ e.
            let (to, offers) =
              shuffle_with_lem (record h { rng = (r.choose h.rng (keys h.view.active)).1 }) p s e in
            (
              rw to (In-keys p h.view.active (law.choose_in h.rng (keys h.view.active) p chosen)),
              offers.0,
              offers.1,
              offers.2,
              offers.3,
            ))
  ]
