-- ===== src/Tracking/Refdb.antt =====
-- link-tracking/src/git/refdb.rs and its implementation librad/src/git/tracking/refdb.rs: a
-- transaction of updates to the tracking references. A reference is direct, to an object, or
-- symbolic. A transaction of git2 applies what is staged on its commit; whether its calls succeed is a
-- parameter.
pub mod Laws
use radicle_link.Prelude.{
  ℕ, Bool, true, false, not, Option, none, some, List, [], ◌∷◌, ◌++◌, if◌then◌else◌, ◌==◌, Result,
  ok, err, ◌>>=◌, ◌>>◌,
}
use radicle_link.Tracking.Policy.{
  Oid, PreviousValue, PreviousError, did_not_exist, guard, must_exist_and_match,
  if_exists_must_match,
}
use radicle_link.Tracking.Reference.{RefName, same_name}

pub data Update : Type 0 where
  write : RefName → Oid → PreviousValue → Update
  delete : RefName → PreviousValue → Update

pub data Updated : Type 0 where
  written : RefName → Oid → Updated
  deleted : RefName → Oid → Updated

pub record Applied : Type 0 where
  pub updates : List Updated
  pub rejections : List PreviousError

pub data TxnError : Type 0 where
  acquire commit read symbolic_ref : TxnError
  lock_failed delete_failed write_failed : RefName → TxnError

-- Whether the calls of git2 succeed; a lock also depends on the locks that the transaction holds.
pub record Git : Type 0 where
  pub transaction : Bool
  pub lock_ref : List RefName → RefName → Bool
  pub reference : RefName → Bool
  pub set_target : RefName → Oid → Bool
  pub remove : RefName → Bool
  pub commit_ok : Bool

-- `none` is a symbolic reference.
abbrev pub Refs : Type 0
Refs = List (RefName × Option Oid)

unfoldable pub lookup_ref : RefName → Refs → Option (Option Oid)
lookup_ref n [] = none
lookup_ref n ((m, v) ∷ refs) =
    let rest = lookup_ref n refs in if same_name m n then some v else rest

unfoldable pub remove_ref : RefName → Refs → Refs
remove_ref n [] = []
remove_ref n ((m, v) ∷ refs) =
    let rest = remove_ref n refs in if same_name m n then rest else (m, v) ∷ rest

abbrev pub set_ref : RefName → Oid → Refs → Refs
set_ref n oid refs = (n, some oid) ∷ remove_ref n refs

pub data Staged : Type 0 where
  set : RefName → Oid → Staged
  removed : RefName → Staged

unfoldable pub commit_staged : List Staged → Refs → Refs
commit_staged [] refs = refs
commit_staged (set n oid ∷ staged) refs = commit_staged staged (set_ref n oid refs)
commit_staged (removed n ∷ staged) refs = commit_staged staged (remove_ref n refs)

-- The transaction, and `applied`.
pub record Txn : Type 0 where
  pub held : List RefName
  pub staged : List Staged
  pub updates : List Updated
  pub rejections : List PreviousError

abbrev pub check : Bool → TxnError → Result TxnError (Unit {0})
check true e = ok tt
check false e = err e

-- `r.target()`
abbrev pub target_of : Option (Option Oid) → Option Oid
target_of none = none
target_of (some v) = v

module _ (git : Git) where
  unfoldable pub lock_ref : RefName → Txn → Result TxnError Txn
  lock_ref n txn = do
    check (git.lock_ref txn.held n) (lock_failed n)
    ok (record txn { held = n ∷ txn.held })

  abbrev pub reject : PreviousError → Txn → Txn
  reject e txn = record txn { rejections = txn.rejections ++ e ∷ [] }

  unfoldable pub set_target : RefName → Oid → Txn → Result TxnError Txn
  set_target n target txn = do
    check (git.set_target n target) (write_failed n)
    ok (record txn {
      staged = txn.staged ++ set n target ∷ [];
      updates = txn.updates ++ written n target ∷ [];
    })

  -- The reference is removed before it turns out to be symbolic, which ends the transaction.
  unfoldable pub remove_target : RefName → Option Oid → Txn → Result TxnError Txn
  remove_target n none txn = do check (git.remove n) (delete_failed n); err symbolic_ref
  remove_target n (some target) txn = do
    check (git.remove n) (delete_failed n)
    ok (record txn {
      staged = txn.staged ++ removed n ∷ [];
      updates = txn.updates ++ deleted n target ∷ [];
    })

  unfoldable pub delete_missing : PreviousValue → Txn → Txn
  delete_missing PreviousValue.any txn = txn
  delete_missing PreviousValue.must_not_exist txn = txn
  delete_missing (if_exists_must_match oid) txn = txn
  delete_missing PreviousValue.must_exist txn = reject did_not_exist txn
  delete_missing (must_exist_and_match oid) txn = reject did_not_exist txn

  -- `reject_or_update` of the guard's result.
  abbrev pub write_guarded : RefName → Oid → Option PreviousError → Txn → Result TxnError Txn
  write_guarded n target none txn = set_target n target txn
  write_guarded n target (some e) txn = ok (reject e txn)

  abbrev pub delete_guarded :
      RefName → Option Oid → Option PreviousError → Txn → Result TxnError Txn
  delete_guarded n v none txn = remove_target n v txn
  delete_guarded n v (some e) txn = ok (reject e txn)

  abbrev pub delete_found :
      RefName → PreviousValue → Option (Option Oid) → Txn → Result TxnError Txn
  delete_found n previous none txn = ok (delete_missing previous txn)
  delete_found n previous (some v) txn = delete_guarded n v (guard previous v) txn

  -- The body of the loop of `update`; `refs` are the references before the transaction.
  unfoldable pub update_one : Refs → Update → Txn → Result TxnError Txn
  update_one refs (write n target previous) txn = do
    txn' ← lock_ref n txn
    check (git.reference n) read
    write_guarded n target (guard previous (target_of (lookup_ref n refs))) txn'
  update_one refs (delete n previous) txn = do
    txn' ← lock_ref n txn
    check (git.reference n) read
    delete_found n previous (lookup_ref n refs) txn'

  unfoldable pub update_each : Refs → List Update → Txn → Result TxnError Txn
  update_each refs [] txn = ok txn
  update_each refs (u ∷ us) txn = do txn' ← update_one refs u txn; update_each refs us txn'

  abbrev pub empty_txn : Txn
  empty_txn = record { held = []; staged = []; updates = []; rejections = [] }

  abbrev pub applied_of : Txn → Applied
  applied_of txn = record { updates = txn.updates; rejections = txn.rejections }

  -- `Write::update for Storage`, with the references after it.
  unfoldable pub update : Refs → List Update → Result TxnError (Applied × Refs)
  update refs updates = do
    check git.transaction acquire
    txn ← update_each refs updates empty_txn
    check git.commit_ok commit
    ok (applied_of txn, commit_staged txn.staged refs)
