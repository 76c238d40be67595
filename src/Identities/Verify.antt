-- ===== src/Identities/Verify.antt =====
-- link-identities/src/generic.rs: the verification of identities. The type-level state of a
-- `Verifying` is its index.
pub mod Accept
pub mod History
pub mod Root
use radicle_link.Prelude.{
  ℕ, Bool, true, false, not, ◌&&◌, Option, none, some, List, [], ◌∷◌, ltb, ◌==◌, if◌then◌else◌,
  length, Result, ok, err, ◌>>=◌, map_err, Map, keys, get,
}
use radicle_link.Identities.Document.{PublicKey, Revision, ContentId, Doc, Identity}
use radicle_link.Identities.Delegation.{Delegations, KeySet}

pub data Stage : Type 0 where
  untrusted signed quorum verified : Stage

pub record Verifying (G I : Type 0) (s : Stage) : Type 0 where
  pub inner : Identity G I

pub data VerifyError (X E : Type 0) : Type 0 where
  signature_verification : VerifyError X E
  no_signatures : VerifyError X E
  no_quorum : VerifyError X E
  parent_quorum : VerifyError X E
  parent_mismatch : Revision → Revision → VerifyError X E
  dangling_parent : ContentId → ContentId → VerifyError X E
  missing_parent : Revision → VerifyError X E
  root_mismatch : Revision → Revision → VerifyError X E
  eligibility : X → VerifyError X E
  empty_history : VerifyError X E
  history : E → VerifyError X E

abbrev pub is_empty : {V : Type 0} → Map V → Bool
is_empty [] = true
is_empty (x ∷ m) = false

-- The keys of a map, as a set.
unfoldable pub key_set : {V : Type 0} → Map V → KeySet
key_set [] = []
key_set ((k, v) ∷ m) = (k, tt) ∷ key_set m

abbrev pub same_replaces : Option Revision → Option Revision → Bool
same_replaces none none = true
same_replaces none (some b) = false
same_replaces (some a) none = false
same_replaces (some a) (some b) = a == b

abbrev pub coerce : {G I : Type 0} {s : Stage} (t : Stage) → Verifying G I s → Verifying G I t
coerce t v = record { inner = v.inner }

-- `votes > 0 && votes > threshold`
abbrev pub is_quorum : ℕ → ℕ → Bool
is_quorum votes threshold = ltb 0 votes && ltb threshold votes

-- `self.signatures.iter().all(|(pk, sig)| sig.verify(self.revision.as_ref(), pk))`, where `check` is
-- the verification of a signature over a revision.
unfoldable pub all_valid :
    {G : Type 0} → (G → Revision → PublicKey → Bool) → Revision → Map G → Bool
all_valid check revision [] = true
all_valid check revision ((pk, sig) ∷ m) =
    let rest = all_valid check revision m in check sig revision pk && rest

-- `E` is the error of the iterator that yields a history.
module _ {G T D X : Type 0} (E : Type 0) (check : G → Revision → PublicKey → Bool)
    (dels : Delegations X D) where
  unfoldable pub to_signed :
      Verifying G (Doc T D) untrusted → Result (VerifyError X E) (Verifying G (Doc T D) signed)
  to_signed v =
      if is_empty v.inner.signatures
      then err no_signatures
      else if not (all_valid check v.inner.revision v.inner.signatures)
      then err signature_verification
      else ok (coerce signed v)

  unfoldable pub to_quorum :
      Verifying G (Doc T D) signed → Result (VerifyError X E) (Verifying G (Doc T D) quorum)
  to_quorum v = do
    eligible ←
        map_err eligibility (dels.eligible v.inner.doc.delegations (key_set v.inner.signatures))
    if is_quorum (length eligible) (dels.quorum_threshold v.inner.doc.delegations)
        then ok (coerce quorum v)
        else err no_quorum

  unfoldable pub parent_votes :
      Verifying G (Doc T D) quorum
      → Verifying G (Doc T D) verified
      → Result (VerifyError X E) (Verifying G (Doc T D) verified)
  parent_votes v parent = do
    votes ←
        map_err eligibility
          (dels.eligible parent.inner.doc.delegations (key_set v.inner.signatures))
    if is_quorum (length votes) (dels.quorum_threshold parent.inner.doc.delegations)
        then ok (coerce verified v)
        else err parent_quorum

  -- The arms with a parent, whose root is compared first.
  unfoldable pub with_parent :
      Verifying G (Doc T D) quorum
      → Verifying G (Doc T D) verified
      → Option Revision
      → Result (VerifyError X E) (Verifying G (Doc T D) verified)
  with_parent v parent none =
      if parent.inner.root == v.inner.root
      then err (dangling_parent v.inner.content_id parent.inner.content_id)
      else err (root_mismatch v.inner.root parent.inner.root)
  with_parent v parent (some replaces) =
      if parent.inner.root == v.inner.root
      then if replaces == parent.inner.revision
        then parent_votes v parent
        else err (parent_mismatch replaces parent.inner.revision)
      else err (root_mismatch v.inner.root parent.inner.root)

  abbrev pub without_parent :
      Verifying G (Doc T D) quorum
      → Option Revision
      → Result (VerifyError X E) (Verifying G (Doc T D) verified)
  without_parent v none = ok (coerce verified v)
  without_parent v (some replaces) = err (missing_parent replaces)

  unfoldable pub to_verified :
      Verifying G (Doc T D) quorum
      → Option (Verifying G (Doc T D) verified)
      → Result (VerifyError X E) (Verifying G (Doc T D) verified)
  to_verified v none = without_parent v v.inner.doc.replaces
  to_verified v (some parent) = with_parent v parent v.inner.doc.replaces

  -- `Verifying<_, Untrusted>::verified`: straight from `Untrusted`.
  unfoldable pub from_untrusted_verified :
      Verifying G (Doc T D) untrusted
      → Option (Verifying G (Doc T D) verified)
      → Result (VerifyError X E) (Verifying G (Doc T D) verified)
  from_untrusted_verified v parent = do s ← to_signed v; q ← to_quorum s; to_verified q parent

pub record Folded (G I : Type 0) : Type 0 where
  pub head : Verifying G I verified
  pub parent : Option (Verifying G I verified)

module _ {G T D X : Type 0} (E : Type 0) (check : G → Revision → PublicKey → Bool)
    (dels : Delegations X D) where
  -- What the closure of `verify` makes of an identity that has a quorum.
  unfoldable pub fold_quorum :
      Folded G (Doc T D)
      → Verifying G (Doc T D) quorum
      → Result (VerifyError X E) (Folded G (Doc T D))
  fold_quorum acc q =
      if q.inner.revision == acc.head.inner.revision
        && same_replaces q.inner.doc.replaces acc.head.inner.doc.replaces
      then elim (to_verified E check dels q acc.parent) [
        | err e ↦ ok acc
        | ok v ↦ ok (record { head = v; parent = acc.parent })
      ]
      else elim (to_verified E check dels q (some acc.head)) [
        | err e ↦ err e
        | ok v ↦ ok (record { head = v; parent = some acc.head })
      ]

  -- `match signed.quorum()`: what does not reach a quorum is skipped.
  unfoldable pub fold_signed :
      Folded G (Doc T D)
      → Verifying G (Doc T D) signed
      → Result (VerifyError X E) (Folded G (Doc T D))
  fold_signed acc s = elim (to_quorum E check dels s) [ err e ↦ ok acc | ok q ↦ fold_quorum acc q ]

  unfoldable pub fold_step :
      Folded G (Doc T D)
      → Result E (Verifying G (Doc T D) untrusted)
      → Result (VerifyError X E) (Folded G (Doc T D))
  fold_step acc cur = do u ← map_err history cur; s ← to_signed E check dels u; fold_signed acc s

  unfoldable pub fold_history :
      Folded G (Doc T D)
      → List (Result E (Verifying G (Doc T D) untrusted))
      → Result (VerifyError X E) (Folded G (Doc T D))
  fold_history acc [] = ok acc
  fold_history acc (cur ∷ progeny) = do acc' ← fold_step acc cur; fold_history acc' progeny

  unfoldable pub verify :
      Verifying G (Doc T D) verified
      → List (Result E (Verifying G (Doc T D) untrusted))
      → Result (VerifyError X E) (Folded G (Doc T D))
  verify base progeny = fold_history (record { head = base; parent = none }) progeny
