-- ===== src/Identities/Verify/History.antt =====
-- What the fold over a history in link-identities/src/generic.rs establishes.
use radicle_link.Prelude.{
  ◌≡◌, refl, subst, inl, inr, Bool, true, ◌&&◌, Option, none, some, List, [], ◌∷◌, All, arith, ◌==◌,
  Result, ok, err, >>=-eq-ok, ok-injective, err-ne-ok, Result-cases, Bool-cases,
}
use radicle_link.Identities.Document.{PublicKey, Revision, Doc, Identity}
use radicle_link.Identities.Delegation.{Delegations}
use radicle_link.Identities.Verify.{
  Verifying, untrusted, signed, quorum, verified, VerifyError, history, coerce, same_replaces,
  to_signed, to_quorum, to_verified, Folded, fold_quorum, fold_signed, fold_step, fold_history,
  verify,
}
use radicle_link.Identities.Verify.Accept.{
  IsSigned, HasQuorum, IsSuccessor, to_signed-IsSigned, to_quorum-HasQuorum,
  to_verified-IsSuccessor,
}

module _ {G T D X : Type 0} (E : Type 0) (check : G → Revision → PublicKey → Bool)
    (dels : Delegations X D) (Q : Identity G (Doc T D) → Type 0) where
  -- `i` has the property `Q`, and is signed, with a quorum of its own delegations.
  abbrev pub IsAttested : Identity G (Doc T D) → Type 0
  IsAttested i = Q i × IsSigned check i × HasQuorum dels i.doc.delegations i.signatures

  -- How a head may come about: from the base, by succeeding the head so far, or by confirming it.
  pub data Chain (base : Verifying G (Doc T D) verified) : Folded G (Doc T D) → Type 0 where
    start : Chain base (record { head = base; parent = none })
    succeed :
        (f : Folded G (Doc T D)) (v : Verifying G (Doc T D) verified)
        → Chain base f
        → IsAttested v.inner
        → IsSuccessor dels v.inner (some f.head)
        → Chain base (record { head = v; parent = some f.head })
    confirm :
        (f : Folded G (Doc T D)) (v : Verifying G (Doc T D) verified)
        → Chain base f
        → IsAttested v.inner
        → v.inner.revision ≡ f.head.inner.revision
        → v.inner.doc.replaces ≡ f.head.inner.doc.replaces
        → IsSuccessor dels v.inner f.parent
        → Chain base (record { head = v; parent = f.parent })

-- What the iterator yields is an error, or has the property `Q`.
abbrev pub Yields :
    {G I E : Type 0} → (Identity G I → Type 0) → Result E (Verifying G I untrusted) → Type 0
Yields Q (err e) = Unit {0}
Yields Q (ok u) = Q u.inner

same_replaces-eq : (a b : Option Revision) → same_replaces a b ≡ true → a ≡ b
same_replaces-eq none none h = refl
same_replaces-eq none (some b) h = ground arith
same_replaces-eq (some a) none h = ground arith
same_replaces-eq (some a) (some b) h = ground arith

module _ {G T D X : Type 0} (E : Type 0) (check : G → Revision → PublicKey → Bool)
    (dels : Delegations X D) (Q : Identity G (Doc T D) → Type 0)
    (base : Verifying G (Doc T D) verified) where
  fold_quorum-Chain :
      (f f' : Folded G (Doc T D)) (q : Verifying G (Doc T D) quorum)
      → Chain E check dels Q base f
      → IsAttested E check dels Q q.inner
      → fold_quorum E check dels f q ≡ ok f'
      → Chain E check dels Q base f'
  unfolding fold_quorum
  fold_quorum-Chain f f' q c (good, sig, votes) =
      elim (Bool-cases (
        q.inner.revision == f.head.inner.revision
        && same_replaces q.inner.doc.replaces f.head.inner.doc.replaces)) [
          | inl same ↦ rw same (elim (Result-cases (to_verified E check dels q f.parent)) [
            | inl (v, accepts) ↦
                rw (accepts, fold_quorum)
                  (λ h.
                    let (eq, succeeds) =
                      (to_verified-IsSuccessor E check dels q f.parent v).0 accepts in
                    subst (Chain E check dels Q base) (ok-injective h) (
                      confirm f v c (rw eq good, rw eq sig, rw eq votes) (rw eq (ground arith))
                        (rw eq (
                          same_replaces-eq q.inner.doc.replaces f.head.inner.doc.replaces
                            (ground arith)))
                        (rw eq succeeds)))
            | inr (x, refuses) ↦
                rw (refuses, fold_quorum)
                  (λ h. subst (Chain E check dels Q base) (ok-injective h) c)
          ])
          | inr other ↦ rw other (elim (Result-cases (to_verified E check dels q (some f.head))) [
            | inl (v, accepts) ↦
                rw (accepts, fold_quorum)
                  (λ h.
                    let (eq, succeeds) =
                      (to_verified-IsSuccessor E check dels q (some f.head) v).0 accepts in
                    subst (Chain E check dels Q base) (ok-injective h)
                      (succeed f v c (rw eq good, rw eq sig, rw eq votes) (rw eq succeeds)))
            | inr (x, refuses) ↦ rw (refuses, fold_quorum) (λ h. absurd (err-ne-ok h))
          ])
        ]

  fold_signed-Chain :
      (f f' : Folded G (Doc T D)) (s : Verifying G (Doc T D) signed)
      → Chain E check dels Q base f
      → Q s.inner
      → IsSigned check s.inner
      → fold_signed E check dels f s ≡ ok f'
      → Chain E check dels Q base f'
  unfolding fold_signed
  fold_signed-Chain f f' s c good is_signed = elim (Result-cases (to_quorum E check dels s)) [
    | inl (q, counts) ↦
        rw (counts, fold_signed)
          (λ h.
            let (same, votes) = (to_quorum-HasQuorum E check dels s q).0 counts in
            fold_quorum-Chain f f' q c (rw same good, rw same is_signed, rw same votes) h)
    | inr (x, proposal) ↦
        rw (proposal, fold_signed) (λ h. subst (Chain E check dels Q base) (ok-injective h) c)
  ]

  fold_step-Chain :
      (f f' : Folded G (Doc T D)) (cur : Result E (Verifying G (Doc T D) untrusted))
      → Chain E check dels Q base f
      → Yields Q cur
      → fold_step E check dels f cur ≡ ok f'
      → Chain E check dels Q base f'
  unfolding fold_step
  fold_step-Chain f f' (err e) c good h = absurd (err-ne-ok h)
  fold_step-Chain f f' (ok u) c good h =
      let (s, signs, rest) = >>=-eq-ok (to_signed E check dels u) _ h in
      let (same, is_signed) = (to_signed-IsSigned E check dels u s).0 signs in
      fold_signed-Chain f f' s c (rw same good) (rw same is_signed) rest

  fold_history-Chain :
      (f f' : Folded G (Doc T D)) (progeny : List (Result E (Verifying G (Doc T D) untrusted)))
      → Chain E check dels Q base f
      → All (Yields Q) progeny
      → fold_history E check dels f progeny ≡ ok f'
      → Chain E check dels Q base f'
  unfolding fold_history
  fold_history-Chain f f' [] c good h = subst (Chain E check dels Q base) (ok-injective h) c
  fold_history-Chain f f' (cur ∷ progeny) c good h =
      let (next, steps, rest) = >>=-eq-ok (fold_step E check dels f cur) _ h in
      fold_history-Chain next f' progeny (fold_step-Chain f next cur c good.0 steps) good.1 rest

  -- When all identities of the progeny have the property `Q`, whatever head `verify` returns has come
  -- about from the base by steps each of which has `Q`, is signed, has a quorum of its own
  -- delegations, and either succeeds the head before it with a quorum of that head's delegations, or
  -- confirms its revision against the same parent.
  pub verify-Chain :
      (progeny : List (Result E (Verifying G (Doc T D) untrusted))) (f : Folded G (Doc T D))
      → All (Yields Q) progeny
      → verify E check dels base progeny ≡ ok f
      → Chain E check dels Q base f
  unfolding verify
  verify-Chain progeny f good h =
      fold_history-Chain (record { head = base; parent = none }) f progeny start good h

module _ {G T D X : Type 0} (E : Type 0) (check : G → Revision → PublicKey → Bool)
    (dels : Delegations X D) where
  fold_step_skips_signed :
      (f : Folded G (Doc T D)) (u : Verifying G (Doc T D) untrusted)
      → IsSigned check u.inner
      → ¬ HasQuorum dels u.inner.doc.delegations u.inner.signatures
      → fold_step E check dels f (ok u) ≡ ok f
  unfolding fold_step fold_signed
  fold_step_skips_signed f u sig nope =
      let signs = (to_signed-IsSigned E check dels u (coerce signed u)).1 (refl, sig) in
      elim (Result-cases (to_quorum E check dels (coerce signed u))) [
        | inl (q, counts) ↦
            absurd (nope ((to_quorum-HasQuorum E check dels (coerce signed u) q).0 counts).1)
        | inr (x, proposal) ↦ rw (signs, fold_step) (rw (proposal, fold_signed) refl)
      ]

  fold_step_fails_unsigned :
      (f : Folded G (Doc T D)) (u : Verifying G (Doc T D) untrusted)
      → ¬ IsSigned check u.inner
      → (x : VerifyError X E) × (fold_step E check dels f (ok u) ≡ err x)
  unfolding fold_step
  fold_step_fails_unsigned f u unsigned = elim (Result-cases (to_signed E check dels u)) [
    | inl (s, signs) ↦ absurd (unsigned ((to_signed-IsSigned E check dels u s).0 signs).1)
    | inr (x, refuses) ↦ (x, rw (refuses, fold_step) refl)
  ]

  -- An identity that is signed, but by no quorum of its own delegations, leaves the fold as it was;
  -- one that is not signed, or an error of the iterator, ends it with an error.
  pub fold_step_skips :
      (f : Folded G (Doc T D)) (u : Verifying G (Doc T D) untrusted)
      → (IsSigned check u.inner
          → ¬ HasQuorum dels u.inner.doc.delegations u.inner.signatures
          → fold_step E check dels f (ok u) ≡ ok f)
        × (¬ IsSigned check u.inner
            → (x : VerifyError X E) × (fold_step E check dels f (ok u) ≡ err x))
        × ((e : E) → fold_step E check dels f (err e) ≡ err (history e))
  unfolding fold_step
  fold_step_skips f u = (fold_step_skips_signed f u, fold_step_fails_unsigned f u, λ e. refl)
