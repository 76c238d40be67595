-- ===== src/Tracking/Refdb/Laws.antt =====
-- What a transaction of librad/src/git/tracking/refdb.rs leaves, when the calls of git2 succeed.
use radicle_link.Prelude.{
  ◌≡◌, ◌≢◌, refl, sym, ap, ◌∙◌, inl, inr, Bool, true, false, Option, none, some, List, [], ◌∷◌, any,
  arith, if◌then◌else◌, ok, Bool-cases,
}
use radicle_link.Tracking.Policy.{Oid, PreviousValue, PreviousError, did_not_exist, guard}
use radicle_link.Tracking.Reference.{RefName, same_name, same_name_iff}
use radicle_link.Tracking.Refdb.{
  write, delete, written, deleted, Git, Refs, lookup_ref, remove_ref, set_ref, commit_staged,
  target_of, lock_ref, set_target, remove_target, delete_missing, update_one, update_each, update,
}

-- Calls succeed; a lock is had unless the transaction holds it.
pub record IsReliable (git : Git) : Type 0 where
  pub transaction : git.transaction ≡ true
  pub lock_ref :
      (held : List RefName) (n : RefName)
      → any (λ m. same_name m n) held ≡ false
      → git.lock_ref held n ≡ true
  pub reference : (n : RefName) → git.reference n ≡ true
  pub set_target : (n : RefName) (oid : Oid) → git.set_target n oid ≡ true
  pub remove : (n : RefName) → git.remove n ≡ true
  pub commit_ok : git.commit_ok ≡ true

true-ne-false : true ≢ false
true-ne-false h = cc

same_name_refl : (n : RefName) → same_name n n ≡ true
same_name_refl n = (same_name_iff n n).1 refl

different : (k n m : RefName) → same_name k n ≡ false → same_name k m ≡ true → same_name n m ≡ false
different k n m other here = elim (Bool-cases (same_name n m)) [
  | inl same ↦ absurd (
      true-ne-false (
        sym ((same_name_iff k n).1 ((same_name_iff k m).0 here ∙ sym ((same_name_iff n m).0 same)))
        ∙ other))
  | inr apart ↦ apart
]

same_name_trans : (k n m : RefName) → same_name k n ≡ true → same_name k m ≡ same_name n m
same_name_trans k n m h = ap (λ x. same_name x m) ((same_name_iff k n).0 h)

if_same :
    (v : Option Oid) (w : Option (Option Oid)) (b : Bool)
    → (if b then none else w) ≡ (if b then none else (if b then some v else w))
if_same v w true = refl
if_same v w false = refl

lookup-other :
    (n m k : RefName) (v : Option Oid) (refs : Refs)
    → same_name k n ≡ false
    → lookup_ref m (remove_ref n refs) ≡ (if same_name n m then none else lookup_ref m refs)
    → lookup_ref m ((k, v) ∷ remove_ref n refs)
      ≡ (if same_name n m then none else lookup_ref m ((k, v) ∷ refs))
unfolding lookup_ref
lookup-other n m k v refs other ih = elim (Bool-cases (same_name k m)) [
  | inl here ↦ rw here (rw (different k n m other here) refl)
  | inr there ↦ rw there ih
]

pub lookup_ref-remove_ref :
    (n m : RefName) (refs : Refs)
    → lookup_ref m (remove_ref n refs) ≡ (if same_name n m then none else lookup_ref m refs)
unfolding lookup_ref remove_ref
lookup_ref-remove_ref n m [] = ground arith
lookup_ref-remove_ref n m ((k, v) ∷ refs) = elim (Bool-cases (same_name k n)) [
  | inl same ↦ rw same (
      lookup_ref-remove_ref n m refs
      ∙ (rw (same_name_trans k n m same) (if_same v (lookup_ref m refs) (same_name n m))))
  | inr other ↦ rw other (lookup-other n m k v refs other (lookup_ref-remove_ref n m refs))
]

pub lookup_ref-set_ref :
    (n m : RefName) (oid : Oid) (refs : Refs)
    → lookup_ref m (set_ref n oid refs)
      ≡ (if same_name n m then some (some oid) else lookup_ref m refs)
unfolding lookup_ref
lookup_ref-set_ref n m oid refs = elim (Bool-cases (same_name n m)) [
  | inl same ↦ rw same refl
  | inr other ↦ rw other (lookup_ref-remove_ref n m refs ∙ (rw other refl))
]

module _ (git : Git) (reliable : IsReliable git) where
  pub update-write :
      (n : RefName) (target : Oid) (previous : PreviousValue) (refs : Refs)
      → guard previous (target_of (lookup_ref n refs)) ≡ none
      → update git refs (write n target previous ∷ [])
        ≡ ok (record { updates = written n target ∷ []; rejections = [] }, set_ref n target refs)
  unfolding update update_each update_one lock_ref set_target commit_staged
  update-write n target previous refs h =
      rw (reliable.transaction, update)
        (rw (reliable.lock_ref [] n refl) (
          rw (reliable.reference n)
            (rw h (rw (reliable.set_target n target, set_target) (rw reliable.commit_ok refl)))))

  pub update-write_rejected :
      (n : RefName) (target : Oid) (previous : PreviousValue) (refs : Refs) (e : PreviousError)
      → guard previous (target_of (lookup_ref n refs)) ≡ some e
      → update git refs (write n target previous ∷ [])
        ≡ ok (record { updates = []; rejections = e ∷ [] }, refs)
  unfolding update update_each update_one lock_ref commit_staged
  update-write_rejected n target previous refs e h =
      rw (reliable.transaction, update)
        (rw (reliable.lock_ref [] n refl)
          (rw (reliable.reference n) (rw h (rw reliable.commit_ok refl))))

  pub update-delete :
      (n : RefName) (previous : PreviousValue) (refs : Refs) (oid : Oid)
      → lookup_ref n refs ≡ some (some oid)
      → guard previous (some oid) ≡ none
      → update git refs (delete n previous ∷ [])
        ≡ ok (record { updates = deleted n oid ∷ []; rejections = [] }, remove_ref n refs)
  unfolding update update_each update_one lock_ref remove_target commit_staged
  update-delete n previous refs oid found h =
      rw (reliable.transaction, update)
        (rw (reliable.lock_ref [] n refl) (
          rw (reliable.reference n)
            (rw found (rw h (rw (reliable.remove n, remove_target) (rw reliable.commit_ok refl))))))

  pub update-delete_rejected :
      (n : RefName) (previous : PreviousValue) (refs : Refs) (oid : Oid) (e : PreviousError)
      → lookup_ref n refs ≡ some (some oid)
      → guard previous (some oid) ≡ some e
      → update git refs (delete n previous ∷ [])
        ≡ ok (record { updates = []; rejections = e ∷ [] }, refs)
  unfolding update update_each update_one lock_ref commit_staged
  update-delete_rejected n previous refs oid e found h =
      rw (reliable.transaction, update)
        (rw (reliable.lock_ref [] n refl)
          (rw (reliable.reference n) (rw found (rw h (rw reliable.commit_ok refl)))))

  -- Without the reference, a policy that needs it is rejected, and another does nothing.
  pub update-delete_missing :
      (n : RefName) (refs : Refs)
      → lookup_ref n refs ≡ none
      → (update git refs (delete n PreviousValue.any ∷ [])
          ≡ ok (record { updates = []; rejections = [] }, refs))
        × (update git refs (delete n PreviousValue.must_exist ∷ [])
            ≡ ok (record { updates = []; rejections = did_not_exist ∷ [] }, refs))
  unfolding update update_each update_one lock_ref delete_missing commit_staged
  update-delete_missing n refs missing = (
    rw (reliable.transaction, update)
        (rw (reliable.lock_ref [] n refl)
          (rw (reliable.reference n) (rw missing (rw reliable.commit_ok refl)))),
    rw (reliable.transaction, update)
        (rw (reliable.lock_ref [] n refl)
          (rw (reliable.reference n) (rw missing (rw reliable.commit_ok refl)))),
  )
