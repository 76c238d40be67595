-- ===== src/Prelude/Maps.antt =====
-- `BTreeMap` keyed by numbers: an association list in ascending order of the keys.
use radicle_link.Prelude.Tests.{ltb, ◌==◌, if◌then◌else◌, is_some}
use radicle_link.Prelude.Lists.{length, In}
use Prim.Native.Nat.{ℕ, suc, ◌+◌, ◌≤◌, ◌<◌}
use mathlib.Core.Path.{◌≡◌, refl}
use mathlib.Core.Bool.{Bool, true}
use mathlib.Core.List.{List, [], ◌∷◌}
use mathlib.Core.Option.{Option, none, some}
use native.Mathlib.Omega.{arith}

abbrev pub Map : Type 0 → Type 0
Map V = List (ℕ × V)

module _ {V : Type 0} where
  unfoldable pub get : ℕ → Map V → Option V
  get k [] = none
  get k ((j, v) ∷ m) = if j == k then some v else get k m

  unfoldable pub contains_key : ℕ → Map V → Bool
  contains_key k m = is_some (get k m)

  unfoldable pub insert : ℕ → V → Map V → Map V
  insert k v [] = (k, v) ∷ []
  insert k v ((j, w) ∷ m) =
      let rest = insert k v m in
      if ltb k j then (k, v) ∷ (j, w) ∷ m else if j == k then (k, v) ∷ m else (j, w) ∷ rest

  unfoldable pub remove : ℕ → Map V → Map V
  remove k [] = []
  remove k ((j, w) ∷ m) = let rest = remove k m in if j == k then m else (j, w) ∷ rest

  abbrev pub keys : Map V → List ℕ
  keys [] = []
  keys ((k, v) ∷ m) = k ∷ keys m

  abbrev pub values : Map V → List V
  values [] = []
  values ((k, v) ∷ m) = v ∷ values m

  -- Every key is above the bound, and the keys ascend.
  abbrev pub Above : ℕ → Map V → Type 0
  Above b [] = Unit {0}
  Above b ((k, v) ∷ m) = (b < k) × Above k m

  abbrev pub IsSorted : Map V → Type 0
  IsSorted [] = Unit {0}
  IsSorted ((k, v) ∷ m) = Above k m

module _ {V : Type 0} where
  pub get-Above : (b k : ℕ) (m : Map V) → Above b m → k ≤ b → get k m ≡ none
  unfolding get
  get-Above b k [] h l = refl
  get-Above b k ((j, v) ∷ m) h l = ground (arith, get-Above j k m)

  pub get-insert :
      (k j : ℕ) (v : V) (m : Map V) → get j (insert k v m) ≡ (if k == j then some v else get j m)
  unfolding get insert
  get-insert k j v [] = refl
  get-insert k j v ((i, w) ∷ m) = ground (arith, get-insert k j v m)

  Above-imp : (b c : ℕ) (m : Map V) → c ≤ b → Above b m → Above c m
  Above-imp b c [] l h = tt
  Above-imp b c ((j, w) ∷ m) l h = (omega arith, h.1)

  Above-IsSorted : (b : ℕ) (m : Map V) → Above b m → IsSorted m
  Above-IsSorted b [] h = tt
  Above-IsSorted b ((j, w) ∷ m) h = h.1

  Above-remove : (b k : ℕ) (m : Map V) → Above b m → Above b (remove k m)
  unfolding remove
  Above-remove b k [] h = tt
  Above-remove b k ((j, w) ∷ m) h = ground (arith, Above-remove j k m h.1, Above-imp j b m)

  pub remove-IsSorted : (k : ℕ) (m : Map V) → IsSorted m → IsSorted (remove k m)
  unfolding remove
  remove-IsSorted k [] h = tt
  remove-IsSorted k ((j, w) ∷ m) h = ground (arith, Above-IsSorted j m h, Above-remove j k m h)

  Above-insert : (b k : ℕ) (v : V) (m : Map V) → b < k → Above b m → Above b (insert k v m)
  unfolding insert
  Above-insert b k v [] l h = (l, tt)
  Above-insert b k v ((j, w) ∷ m) l h = ground (arith, Above-insert j k v m, Above-imp j k m)

  pub insert-IsSorted : (k : ℕ) (v : V) (m : Map V) → IsSorted m → IsSorted (insert k v m)
  unfolding insert
  insert-IsSorted k v [] h = tt
  insert-IsSorted k v ((j, w) ∷ m) h = ground (arith, Above-insert j k v m)

  pub get-remove :
      (k j : ℕ) (m : Map V) → IsSorted m → get j (remove k m) ≡ (if k == j then none else get j m)
  unfolding get remove
  get-remove k j [] h = ground arith
  get-remove k j ((i, w) ∷ m) h =
      ground (arith, get-remove k j m (Above-IsSorted i m h), get-Above i j m h)

  pub length-remove :
      (k : ℕ) (m : Map V) → length (remove k m) + (if contains_key k m then 1 else 0) ≡ length m
  unfolding contains_key get remove
  length-remove k [] = refl
  length-remove k ((i, w) ∷ m) = ground (arith, length-remove k m)

  pub length-insert :
      (k : ℕ) (v : V) (m : Map V)
      → IsSorted m
      → length (insert k v m) ≡ (if contains_key k m then length m else suc (length m))
  unfolding contains_key get insert
  length-insert k v [] h = refl
  length-insert k v ((i, w) ∷ m) h =
      ground (arith, length-insert k v m (Above-IsSorted i m h), get-Above i k m h)

  pub In-keys : (k : ℕ) (m : Map V) → In k (keys m) → contains_key k m ≡ true
  unfolding contains_key get
  In-keys k [] h = absurd h
  In-keys k ((i, w) ∷ m) h = ground (arith, In-keys k m)

  pub keys-In : (k : ℕ) (m : Map V) → contains_key k m ≡ true → In k (keys m)
  unfolding contains_key get
  keys-In k [] h = ground arith
  keys-In k ((i, w) ∷ m) h = ground (arith, keys-In k m)

  pub remove_absent : (k : ℕ) (m : Map V) → get k m ≡ none → remove k m ≡ m
  unfolding get remove
  remove_absent k [] h = refl
  remove_absent k ((i, w) ∷ m) h = ground (arith, remove_absent k m)
