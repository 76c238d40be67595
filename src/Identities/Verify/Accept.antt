-- ===== src/Identities/Verify/Accept.antt =====
-- Exactly which identities link-identities/src/generic.rs accepts as verified.
use radicle_link.Prelude.{
  ◌<◌, ◌≡◌, refl, ◌↔◌, ◌≢◌, inl, inr, Bool, true, false, Option, none, some, [], ◌∷◌, All, arith,
  length, ok, >>=-eq-ok, ◌∙◌, Result-cases, Map,
}
use radicle_link.Identities.Document.{PublicKey, Revision, Doc, Identity}
use radicle_link.Identities.Delegation.{Delegations, KeySet}
use radicle_link.Identities.Verify.{
  Verifying, untrusted, signed, quorum, verified, is_empty, key_set, coerce, all_valid, to_signed,
  to_quorum, to_verified, parent_votes, with_parent, without_parent, from_untrusted_verified,
}

-- A quorum of `delegations` is among the keys that signed.
abbrev pub HasQuorum : {G D X : Type 0} → Delegations X D → D → Map G → Type 0
HasQuorum dels delegations signatures =
    (e : KeySet) × (dels.eligible delegations (key_set signatures) ≡ ok e)
    × (0 < length e)
    × (dels.quorum_threshold delegations < length e)

-- Somebody signed, and all signatures are valid over the revision.
abbrev pub IsSigned : {G I : Type 0} → (G → Revision → PublicKey → Bool) → Identity G I → Type 0
IsSigned check i =
    (i.signatures ≢ []) × All (λ (k, sig). check sig i.revision k ≡ true) i.signatures

-- The parent that an identity names is the one at hand, shares the root, and has a quorum too.
abbrev pub IsSuccessor :
    {G T D X : Type 0}
    → Delegations X D
    → Identity G (Doc T D)
    → Option (Verifying G (Doc T D) verified)
    → Type 0
IsSuccessor dels i none = i.doc.replaces ≡ none
IsSuccessor dels i (some p) =
    (p.inner.root ≡ i.root)
    × (i.doc.replaces ≡ some p.inner.revision)
    × HasQuorum dels p.inner.doc.delegations i.signatures

module _ {G : Type 0} (check : G → Revision → PublicKey → Bool) where
  all_valid-All :
      (revision : Revision) (m : Map G)
      → (all_valid check revision m ≡ true) ↔ All (λ (k, sig). check sig revision k ≡ true) m
  unfolding all_valid
  all_valid-All revision [] = (λ h. tt, λ h. refl)
  all_valid-All revision ((k, sig) ∷ m) = (
    λ h. (ground arith, (all_valid-All revision m).0 (ground arith)),
    λ h. ground (arith, h.0, (all_valid-All revision m).1 h.1),
  )

is_empty_iff : {V : Type 0} (m : Map V) → (is_empty m ≡ false) ↔ (m ≢ [])
is_empty_iff [] = (λ h. ground arith, λ h. absurd (h refl))
is_empty_iff (x ∷ m) = (λ h e. ground arith, λ h. refl)

module _ {G T D X : Type 0} (E : Type 0) (check : G → Revision → PublicKey → Bool)
    (dels : Delegations X D) where
  to_signed_ok :
      (v : Verifying G (Doc T D) untrusted) (w : Verifying G (Doc T D) signed)
      → (to_signed E check dels v ≡ ok w) ↔ (
          (w.inner ≡ v.inner)
          × (is_empty v.inner.signatures ≡ false)
          × (all_valid check v.inner.revision v.inner.signatures ≡ true))
  unfolding to_signed
  to_signed_ok v w = (λ h. ground arith, λ h. ground arith)

  pub to_signed-IsSigned :
      (v : Verifying G (Doc T D) untrusted) (w : Verifying G (Doc T D) signed)
      → (to_signed E check dels v ≡ ok w) ↔ ((w.inner ≡ v.inner) × IsSigned check v.inner)
  to_signed-IsSigned v w =
      let valid = all_valid-All check v.inner.revision v.inner.signatures in
      let someone = is_empty_iff v.inner.signatures in
      (
        λ h. let (same, a, b) = (to_signed_ok v w).0 h in (same, (someone.0 a, valid.0 b)),
        λ h. (to_signed_ok v w).1 (h.0, someone.1 h.1.0, valid.1 h.1.1),
      )

  pub to_quorum-HasQuorum :
      (v : Verifying G (Doc T D) signed) (w : Verifying G (Doc T D) quorum)
      → (to_quorum E check dels v ≡ ok w)
        ↔ ((w.inner ≡ v.inner) × HasQuorum dels v.inner.doc.delegations v.inner.signatures)
  unfolding to_quorum
  to_quorum-HasQuorum v w =
      elim (Result-cases (dels.eligible v.inner.doc.delegations (key_set v.inner.signatures))) [
        | inl (e, counted) ↦ (
          λ h. (ground arith, (e, ground arith, ground arith, ground arith)),
          λ (same, (e', counted', pos, over)). ground arith,
        )
        | inr (x, refused) ↦ (λ h. ground arith, λ (same, (e', counted', pos, over)). ground arith)
      ]

  parent_votes-HasQuorum :
      (v : Verifying G (Doc T D) quorum) (p w : Verifying G (Doc T D) verified)
      → (parent_votes E check dels v p ≡ ok w)
        ↔ ((w.inner ≡ v.inner) × HasQuorum dels p.inner.doc.delegations v.inner.signatures)
  unfolding parent_votes
  parent_votes-HasQuorum v p w =
      elim (Result-cases (dels.eligible p.inner.doc.delegations (key_set v.inner.signatures))) [
        | inl (e, counted) ↦ (
          λ h. (ground arith, (e, ground arith, ground arith, ground arith)),
          λ (same, (e', counted', pos, over)). ground arith,
        )
        | inr (x, refused) ↦ (λ h. ground arith, λ (same, (e', counted', pos, over)). ground arith)
      ]

  with_parent_ok :
      (v : Verifying G (Doc T D) quorum) (p w : Verifying G (Doc T D) verified)
      (r : Option Revision)
      → (with_parent E check dels v p r ≡ ok w) ↔ (
          (p.inner.root ≡ v.inner.root)
          × (r ≡ some p.inner.revision)
          × (parent_votes E check dels v p ≡ ok w))
  unfolding with_parent
  with_parent_ok v p w none = (λ h. ground arith, λ h. ground arith)
  with_parent_ok v p w (some r) = (λ h. ground arith, λ h. ground arith)

  without_parent_ok :
      (v : Verifying G (Doc T D) quorum) (w : Verifying G (Doc T D) verified) (r : Option Revision)
      → (without_parent E check dels v r ≡ ok w) ↔ ((w.inner ≡ v.inner) × (r ≡ none))
  without_parent_ok v w none = (λ h. ground arith, λ h. ground arith)
  without_parent_ok v w (some r) = (λ h. ground arith, λ h. ground arith)

  -- `to_verified` accepts exactly the successors of the parent that it is given.
  pub to_verified-IsSuccessor :
      (v : Verifying G (Doc T D) quorum) (parent : Option (Verifying G (Doc T D) verified))
      (w : Verifying G (Doc T D) verified)
      → (to_verified E check dels v parent ≡ ok w)
        ↔ ((w.inner ≡ v.inner) × IsSuccessor dels v.inner parent)
  unfolding to_verified
  to_verified-IsSuccessor v none w = without_parent_ok v w v.inner.doc.replaces
  to_verified-IsSuccessor v (some p) w = (
    λ h.
        let (same_root, named, voted) = (with_parent_ok v p w v.inner.doc.replaces).0 h in
        let (same, votes) = (parent_votes-HasQuorum v p w).0 voted in
        (same, (same_root, named, votes)),
    λ (same, (same_root, named, votes)).
        (with_parent_ok v p w v.inner.doc.replaces).1
          (same_root, named, (parent_votes-HasQuorum v p w).1 (same, votes)),
  )

  -- An untrusted identity is accepted as verified, and passed on unchanged, exactly when it carries
  -- signatures that are all valid over its revision, a quorum of its own delegations is among the
  -- signers, and it succeeds the parent at hand: without a parent it must not name one; a parent must
  -- share the root, be the revision that the identity names, and have a quorum among the signers too.
  pub from_untrusted_verified_iff :
      (v : Verifying G (Doc T D) untrusted) (parent : Option (Verifying G (Doc T D) verified))
      (w : Verifying G (Doc T D) verified)
      → (from_untrusted_verified E check dels v parent ≡ ok w) ↔ (
          (w.inner ≡ v.inner)
          × IsSigned check v.inner
          × HasQuorum dels v.inner.doc.delegations v.inner.signatures
          × IsSuccessor dels v.inner parent)
  unfolding from_untrusted_verified
  from_untrusted_verified_iff v parent w = (
    λ h.
        let (s, signs, rest) = >>=-eq-ok (to_signed E check dels v) _ h in
        let (q, counts, last) = >>=-eq-ok (to_quorum E check dels s) _ rest in
        let (same_s, is_signed) = (to_signed-IsSigned v s).0 signs in
        let (same_q, votes) = (to_quorum-HasQuorum s q).0 counts in
        let (same_w, succeeds) = (to_verified-IsSuccessor q parent w).0 last in
        (
          same_w ∙ same_q ∙ same_s,
          is_signed,
          (rw same_s at votes),
          (rw (same_q ∙ same_s) at succeeds),
        ),
    λ (same, is_signed, votes, succeeds).
        let signs = (to_signed-IsSigned v (coerce signed v)).1 (refl, is_signed) in
        let counts = (to_quorum-HasQuorum (coerce signed v) (coerce quorum v)).1 (refl, votes) in
        rw (signs, from_untrusted_verified)
          (rw counts ((to_verified-IsSuccessor (coerce quorum v) parent w).1 (same, succeeds))),
  )
