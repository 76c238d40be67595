-- ===== src/Prelude/Results.antt =====
-- `Result`, with `?` as the bind of `do` blocks.
use mathlib.Core.Path.{◌≡◌, refl, ap}
use mathlib.Core.Logic.{◌⊎◌, inl, inr}

-- The error type comes first, so that a chain can fix it.
pub data Result (E A : Type 0) : Type 0 where
  err : E → Result E A
  ok : A → Result E A

module _ {E A B : Type 0} where
  infixl 5 ◌>>=◌
  abbrev pub ◌>>=◌ : Result E A → (A → Result E B) → Result E B
  err failed >>= next = err failed
  ok value >>= next = next value

module _ {E B : Type 0} where
  infixl 5 ◌>>◌
  abbrev pub ◌>>◌ : Result E (Unit {0}) → Result E B → Result E B
  checked >> next = checked >>= λ done. next

abbrev pub map_err : {E F A : Type 0} → (E → F) → Result E A → Result F A
map_err convert (err failed) = err (convert failed)
map_err convert (ok value) = ok value

module _ {E A : Type 0} where
  pub Result-cases :
      (r : Result E A) → ((value : A) × (r ≡ ok value)) ⊎ ((failed : E) × (r ≡ err failed))
  Result-cases (err failed) = inr (failed, refl)
  Result-cases (ok value) = inl (value, refl)

  pub ok-injective : {x y : A} → ◌≡◌ {A = Result E A} (ok x) (ok y) → x ≡ y
  ok-injective same = cc

  pub err-injective : {e f : E} → ◌≡◌ {A = Result E A} (err e) (err f) → e ≡ f
  err-injective same = cc

  pub err-ne-ok : {failed : E} {x : A} → ◌≡◌ {A = Result E A} (err failed) (ok x) → ⊥
  err-ne-ok same = cc

module _ {E A B : Type 0} where
  -- A chain that succeeds, taken apart.
  pub >>=-eq-ok :
      (r : Result E A) (next : A → Result E B) {y : B}
      → (r >>= next) ≡ ok y
      → (value : A) × (r ≡ ok value) × (next value ≡ ok y)
  >>=-eq-ok (err failed) next chain = absurd (err-ne-ok chain)
  >>=-eq-ok (ok value) next chain = (value, refl, chain)

  -- A chain that fails, at its first step or after it.
  pub >>=-eq-err :
      (r : Result E A) (next : A → Result E B) {failed : E}
      → (r >>= next) ≡ err failed
      → (r ≡ err failed) ⊎ ((value : A) × (r ≡ ok value) × (next value ≡ err failed))
  >>=-eq-err (err e) next chain = inl (ap err (err-injective chain))
  >>=-eq-err (ok value) next chain = inr (value, refl, chain)
