-- ===== src/Data/Bounded.antt =====
-- data/src/bounded.rs: sequences whose length is within a range. The type-level bounds `N` and `M`
-- are the indices of `Within`; `T` is a sequence.
pub mod Laws
use radicle_link.Prelude.{
  Result, ok, err, ℕ, ◌+◌, ◌-◌, ◌^◌, ◌≤◌, List, [], ◌∷◌, ◌++◌, Option, none, some, ltb, leb,
  if◌then◌else◌, length, take,
}

pub data LengthError : Type 0 where
  too_small too_large : ℕ → ℕ → LengthError

pub data DecodeError : Type 0 where
  min_not_reached max_exceeded : DecodeError

pub record Within (lo hi : ℕ) (A : Type 0) : Type 0 where
  pub inner : List A

abbrev pub Bounded : ℕ → Type 0 → Type 0
Bounded hi A = Within 0 hi A

-- `max - len` on `usize`, with the wrap of a release build.
abbrev pub sub_usize : ℕ → ℕ → ℕ
sub_usize a b = if leb b a then a - b else a + 2 ^ 64 - b

module _ {A : Type 0} (lo hi : ℕ) where
  pub try_from_length : List A → Result LengthError (Within lo hi A)
  try_from_length t =
      let len = length t in
      if ltb len lo
      then err (too_small lo len)
      else if ltb hi len
      then err (too_large hi len)
      else ok (record { inner = t })

  -- After `T::decode(d)?`, which yields `t`.
  unfoldable pub decode_any : List A → Result DecodeError (Within lo hi A)
  decode_any t =
      if ltb (length t) lo
      then err min_not_reached
      else if ltb hi (length t)
      then err max_exceeded
      else ok (record { inner = t })

  -- `header` is what `d.probe().array()?` or `d.probe().map()?` yields.
  pub decode_array : Option ℕ → List A → Result DecodeError (Within lo hi A)
  decode_array none t = decode_any t
  decode_array (some len) t =
      if ltb len lo
      then err min_not_reached
      else if ltb hi len
      then err max_exceeded
      else decode_any t

module _ {A : Type 0} {lo hi : ℕ} where
  unfoldable pub extend_fill : Within lo hi A → List A → Within lo hi A
  extend_fill w iter = record { inner = w.inner ++ take (sub_usize hi (length w.inner)) iter }

unfoldable pub singleton : {lo hi : ℕ} {A : Type 0} → A → Within lo hi A
singleton v = record { inner = v ∷ [] }

module _ {A : Type 0} (hi : ℕ) where
  pub decode_truncate : List A → Bounded hi A
  decode_truncate t = record { inner = take hi t }

abbrev pub IsWithin : {lo hi : ℕ} {A : Type 0} → Within lo hi A → Type 0
IsWithin {lo} {hi} w = (lo ≤ length w.inner) × (length w.inner ≤ hi)
