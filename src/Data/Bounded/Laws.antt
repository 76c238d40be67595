-- ===== src/Data/Bounded/Laws.antt =====
-- Which lengths the constructors of data/src/bounded.rs let through.
use radicle_link.Prelude.{
  ok, err, ℕ, ◌+◌, ◌-◌, ◌≤◌, ◌<◌, min, ◌≡◌, refl, ◌⊎◌, List, ◌++◌, none, some, arith, length,
  length-append, length-take, take,
}
use radicle_link.Data.Bounded.{
  Within, IsWithin, too_small, too_large, try_from_length, decode_any, decode_array, extend_fill,
  decode_truncate,
}

-- `try_from_length` answers on every input: a value within the bounds is passed on unchanged, a
-- shorter one is refused as too small and a longer one as too large, each with the lengths at hand.
pub try_from_length_cases :
    {A : Type 0} (lo hi : ℕ) (t : List A)
    → ((lo ≤ length t) × (length t ≤ hi) × (try_from_length lo hi t ≡ ok (record { inner = t })))
      ⊎ ((length t < lo) × (try_from_length lo hi t ≡ err (too_small lo (length t))))
      ⊎ ((hi < length t) × (try_from_length lo hi t ≡ err (too_large hi (length t))))
unfolding try_from_length
try_from_length_cases lo hi t = ground arith

-- `extend_fill` on a value within its bounds keeps it within them, keeps the old elements as a
-- prefix and takes as many of the new ones as fit: the length is the smaller of the maximum and the
-- sum of the lengths.
pub extend_fill_lem :
    {A : Type 0} {lo hi : ℕ} (w : Within lo hi A) (xs : List A)
    → IsWithin w
    → IsWithin (extend_fill w xs)
      × ((extend_fill w xs).inner ≡ w.inner ++ take (hi - length w.inner) xs)
      × (length (extend_fill w xs).inner ≡ min hi (length w.inner + length xs))
unfolding extend_fill
extend_fill_lem {hi = hi} w xs h = ground (
  arith,
  length-append w.inner (take (hi - length w.inner) xs),
  length-take (hi - length w.inner) xs,
)

-- An array header that announces the true number of elements decides as the decoded value would,
-- so `decode_array` with such a header, or with none, is `decode_any`, and whatever it yields is
-- within the bounds.
pub decode_array_lem :
    {A : Type 0} (lo hi : ℕ) (t : List A)
    → (decode_array lo hi (some (length t)) t ≡ decode_any lo hi t)
      × (decode_array lo hi none t ≡ decode_any lo hi t)
      × ((w : Within lo hi A) → decode_any lo hi t ≡ ok w → IsWithin w × (w.inner ≡ t))
unfolding decode_array decode_any
decode_array_lem lo hi t = (ground arith, refl, λ w e. ground arith)

-- Truncating decoding gives a value within the bounds, which is a prefix of the input.
pub decode_truncate_lem : {A : Type 0} (hi : ℕ) (t : List A) → IsWithin (decode_truncate hi t)
unfolding decode_truncate
decode_truncate_lem hi t = omega (arith, length-take hi t)
