-- ===== src/Data/Tests.antt =====
-- The theorems on bounded sequences at concrete inputs.
use radicle_link.Prelude.{ℕ, ◌≡◌, List, [], ◌∷◌, length, arith}
use radicle_link.Data.Bounded.{Within, IsWithin, extend_fill}
use radicle_link.Data.Bounded.Laws.{extend_fill_lem}

abbrev two_of_three : Within 0 3 ℕ
two_of_three = record { inner = 1 ∷ 2 ∷ [] }

extend_fill_lem_example :
    IsWithin (extend_fill two_of_three (7 ∷ 8 ∷ []))
    × ((extend_fill two_of_three (7 ∷ 8 ∷ [])).inner ≡ 1 ∷ 2 ∷ 7 ∷ [])
    × (length (extend_fill two_of_three (7 ∷ 8 ∷ [])).inner ≡ 3)
extend_fill_lem_example = extend_fill_lem two_of_three (7 ∷ 8 ∷ []) (omega arith)

abbrev long : List ℕ
long = 1 ∷ 2 ∷ 3 ∷ []
