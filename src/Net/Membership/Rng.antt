-- ===== src/Net/Membership/Rng.antt =====
-- The crate `rand`, as far as librad/src/net/protocol/membership uses it: a generator's state, and
-- the choices that `IteratorRandom` makes with it. `IsRng` states what its documentation promises.
use radicle_link.Prelude.{
  ℕ, zero, suc, ◌≡◌, refl, min, Option, none, some, List, [], ◌∷◌, length, In, take, inl, inr,
  arith, length-take,
}
use radicle_link.Net.Info.{PeerId, PeerInfo}

pub record Rng (S A : Type 0) : Type 0 where
  pub choose : S → List PeerId → Option PeerId × S
  pub choose_multiple : S → List (PeerInfo A) → ℕ → List (PeerInfo A) × S

pub record IsRng {S A : Type 0} (r : Rng S A) : Type 0 where
  pub choose_in : (s : S) (xs : List PeerId) (x : PeerId) → (r.choose s xs).0 ≡ some x → In x xs
  pub choose_none : (s : S) (xs : List PeerId) → (r.choose s xs).0 ≡ none → xs ≡ []
  pub choose_multiple_in :
      (s : S) (xs : List (PeerInfo A)) (n : ℕ) (x : PeerInfo A)
      → In x (r.choose_multiple s xs n).0
      → In x xs
  pub length-choose_multiple :
      (s : S) (xs : List (PeerInfo A)) (n : ℕ)
      → length (r.choose_multiple s xs n).0 ≡ min n (length xs)

-- A generator that always takes what comes first shows that the promises can be kept.
abbrev first : List PeerId → Option PeerId
first [] = none
first (x ∷ xs) = some x

first-In : (xs : List PeerId) (x : PeerId) → first xs ≡ some x → In x xs
first-In [] x h = ground arith
first-In (y ∷ xs) x h = ground arith

first-none : (xs : List PeerId) → first xs ≡ none → xs ≡ []
first-none [] h = refl
first-none (y ∷ xs) h = ground arith

module _ {A : Type 0} where
  abbrev pub first_rng : Rng ℕ A
  first_rng = record { choose = λ s xs. (first xs, s); choose_multiple = λ s xs n. (take n xs, s) }

  take-In : (n : ℕ) (xs : List (PeerInfo A)) (x : PeerInfo A) → In x (take n xs) → In x xs
  take-In zero xs x h = absurd h
  take-In (suc n) [] x h = absurd h
  take-In (suc n) (y ∷ xs) x (inl e) = inl e
  take-In (suc n) (y ∷ xs) x (inr h) = inr (take-In n xs x h)

  pub first_rng-IsRng : IsRng first_rng
  first_rng-IsRng = record {
    choose_in = λ s. first-In;
    choose_none = λ s. first-none;
    choose_multiple_in = λ s xs n x. take-In n xs x;
    length-choose_multiple = λ s xs n. length-take n xs;
  }
