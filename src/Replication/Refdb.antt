-- ===== src/Replication/Refdb.antt =====
-- link-replication/src/refdb.rs and refdb/mem.rs: updates of refs, and the refs in memory. A HashMap is
-- the list of its entries, in the order of its iteration.
pub mod Laws
use radicle_link.Prelude.{
  ℕ, ◌⊎◌, inl, inr, Bool, true, false, Option, none, some, List, [], ◌∷◌, ◌++◌, if◌then◌else◌,
}
use radicle_link.Refs.{same_chars}
use radicle_link.Refs.Name.{Name, strip}
use radicle_link.Tracking.Policy.{Oid}

pub data Policy : Type 0 where
  abort reject allow : Policy

pub record SymrefTarget : Type 0 where
  pub name : Name
  pub target : Oid

pub data Update : Type 0 where
  direct : Name → Oid → Policy → Update
  symbolic : Name → SymrefTarget → Policy → Update
  prune : Name → Oid ⊎ Name → Update

-- `refname`
abbrev pub refname : Update → Name
refname (direct name target policy) = name
refname (symbolic name target policy) = name
refname (prune name prev) = name

pub data Updated : Type 0 where
  updated_direct : Name → Oid → Updated
  updated_symbolic : Name → Name → Updated
  pruned : Name → Updated

pub record Applied : Type 0 where
  pub rejected : List Update
  pub updated : List Updated

-- `Applied::append`
abbrev pub append : Applied → Applied → Applied
append a b = record { rejected = a.rejected ++ b.rejected; updated = a.updated ++ b.updated }

abbrev pub Mem : Type 0
Mem = List (Name × Oid)

-- `refname_to_id`
unfoldable pub find : Name → Mem → Option Oid
find name [] = none
find name ((n, oid) ∷ mem) =
    let rest = find name mem in if same_chars n name then some oid else rest

-- `HashMap::remove` and `insert`
unfoldable pub without : Name → Mem → Mem
without name [] = []
without name ((n, oid) ∷ mem) =
    let rest = without name mem in if same_chars n name then rest else (n, oid) ∷ rest

abbrev pub with_ref : Name → Oid → Mem → Mem
with_ref name oid mem = (name, oid) ∷ without name mem

abbrev pub prune_applied : Name → Option Oid → List Updated
prune_applied name none = []
prune_applied name (some oid) = pruned name ∷ []

-- The body of the loop of `update`.
abbrev pub update_one : Update → Mem → List Updated × Mem
update_one (direct name target policy) mem =
    (updated_direct name target ∷ [], with_ref name target mem)
update_one (symbolic name target policy) mem =
    (updated_symbolic name target.name ∷ [], with_ref name target.target mem)
update_one (prune name prev) mem = (prune_applied name (find name mem), without name mem)

unfoldable pub update : List Update → Mem → Applied × Mem
update [] mem = (record { rejected = []; updated = [] }, mem)
update (up ∷ ups) mem =
    let (done, mem') = update_one up mem in
    let (rest, mem2) = update ups mem' in
    (append (record { rejected = []; updated = done }) rest, mem2)

abbrev pub starts_with : Name → Name → Bool
starts_with prefix name = elim (strip prefix name) [ none ↦ false | some rest ↦ true ]

-- The items of `Scan`: the iterator ends at the first ref that does not start with the prefix.
unfoldable pub scan : Option Name → Mem → List (Name × Oid)
scan none [] = []
scan none (r ∷ mem) = r ∷ scan none mem
scan (some prefix) [] = []
scan (some prefix) ((n, oid) ∷ mem) =
    let rest = scan (some prefix) mem in if starts_with prefix n then (n, oid) ∷ rest else []
