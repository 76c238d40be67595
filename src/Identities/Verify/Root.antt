-- ===== src/Identities/Verify/Root.antt =====
-- The root of the head that `verify` of link-identities/src/generic.rs returns.
use radicle_link.Prelude.{◌≡◌, refl, sym, ◌∙◌, Bool, Option, none, some, List, All, Result, ok}
use radicle_link.Identities.Document.{PublicKey, Revision, Doc, Identity}
use radicle_link.Identities.Delegation.{Delegations}
use radicle_link.Identities.Verify.{Verifying, untrusted, verified, Folded, verify}
use radicle_link.Identities.Verify.Accept.{IsSuccessor}
use radicle_link.Identities.Verify.History.{Chain, start, succeed, confirm, Yields, verify-Chain}

-- An attestation of the base's revision, which is the hash of its content, has the base's root.
abbrev pub SameRoot : {G I : Type 0} → Verifying G I verified → Identity G I → Type 0
SameRoot base i = i.revision ≡ base.inner.revision → i.root ≡ base.inner.root

-- As long as there is no parent, the head is an attestation of the base's revision.
abbrev ParentRooted :
    {G I : Type 0}
    → Verifying G I verified
    → Verifying G I verified
    → Option (Verifying G I verified)
    → Type 0
ParentRooted base head none = head.inner.revision ≡ base.inner.revision
ParentRooted base head (some p) = p.inner.root ≡ base.inner.root

module _ {G T D X : Type 0} (E : Type 0) (check : G → Revision → PublicKey → Bool)
    (dels : Delegations X D) (base : Verifying G (Doc T D) verified) where
  abbrev IsRooted : Folded G (Doc T D) → Type 0
  IsRooted f = (f.head.inner.root ≡ base.inner.root) × ParentRooted base f.head f.parent

  confirm-IsRooted :
      (head v : Verifying G (Doc T D) verified) (parent : Option (Verifying G (Doc T D) verified))
      → SameRoot base v.inner
      → v.inner.revision ≡ head.inner.revision
      → IsSuccessor dels v.inner parent
      → ParentRooted base head parent
      → (v.inner.root ≡ base.inner.root) × ParentRooted base v parent
  confirm-IsRooted head v none same eq succeeds rooted = (same (eq ∙ rooted), eq ∙ rooted)
  confirm-IsRooted head v (some p) same eq (root, named, votes) rooted = (sym root ∙ rooted, rooted)

  Chain-IsRooted : (f : Folded G (Doc T D)) → Chain E check dels (SameRoot base) base f → IsRooted f
  Chain-IsRooted f start = (refl, refl)
  Chain-IsRooted f (succeed g v c attested (root, named, votes)) =
      let (rooted, parent) = Chain-IsRooted g c in (sym root ∙ rooted, rooted)
  Chain-IsRooted f (confirm g v c (same, is_signed, votes) eq replaces succeeds) =
      confirm-IsRooted g.head v g.parent same eq succeeds (Chain-IsRooted g c).1

  -- When every identity of the progeny that attests the base's revision has the base's root, the head
  -- that `verify` returns has the base's root, too.
  pub verify_keeps_root :
      (progeny : List (Result E (Verifying G (Doc T D) untrusted))) (f : Folded G (Doc T D))
      → All (Yields (SameRoot base)) progeny
      → verify E check dels base progeny ≡ ok f
      → f.head.inner.root ≡ base.inner.root
  verify_keeps_root progeny f same h =
      (Chain-IsRooted f (verify-Chain E check dels (SameRoot base) base progeny f same h)).0
