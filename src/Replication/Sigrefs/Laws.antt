-- ===== src/Replication/Sigrefs/Laws.antt =====
-- The join of signed refs, of those that `combined` returns (link-replication/src/sigrefs.rs).
use radicle_link.Prelude.{
  ℕ, ◌≡◌, refl, ap, subst, ◌∙◌, Bool, true, false, ◌||◌, ◌==◌, ==_iff, Option, none, some, List, [],
  ◌∷◌, if◌then◌else◌, Result, ok, err, ok-injective, err-ne-ok, >>=-eq-ok, Map, get, insert,
  get-insert, get-Above, Above, contains_key, IsSorted, insert-IsSorted, arith,
}
use radicle_link.Net.Info.{PeerId}
use radicle_link.Replication.Sigrefs.{
  Sigrefs, Select, required, optional, combine_must, combine_may, combined, SignedAt, Flattened,
  extend, flatten_one, flatten_into, flattened,
}
use radicle_link.Replication.Sigrefs.Combined.{has}

-- The signed refs of a peer without its remotes.
abbrev pub signed_at : Option Sigrefs → Option SignedAt
signed_at none = none
signed_at (some s) = some (record { at = s.at; refs = s.refs })

abbrev pub or_old : Option SignedAt → Option SignedAt → Option SignedAt
or_old none old = old
or_old (some s) old = some s

extend-key :
    (x : PeerId) (xs : List PeerId) (set : Map (Unit {0}))
    → contains_key x (extend xs set) ≡ (has x xs || contains_key x set)
unfolding extend contains_key
extend-key x [] set = refl
extend-key x (y ∷ ys) set =
    extend-key x ys (insert y tt set) ∙ (rw (get-insert y x tt set) (ground arith))

-- A peer is a remote of one of the signed refs.
abbrev pub tracked : PeerId → Map Sigrefs → Bool
tracked x [] = false
tracked x ((peer, s) ∷ m) = let rest = tracked x m in has x s.remotes || rest

or_swap : (a b c : Bool) → (a || (b || c)) ≡ ((b || a) || c)
or_swap true true c = refl
or_swap true false c = refl
or_swap false true c = refl
or_swap false false c = refl

flatten_into-remotes :
    (x : PeerId) (m : Map Sigrefs) (f : Flattened)
    → contains_key x (flatten_into m f).remotes ≡ (tracked x m || contains_key x f.remotes)
unfolding flatten_into
flatten_into-remotes x [] f = refl
flatten_into-remotes x ((peer, s) ∷ m) f =
    flatten_into-remotes x m (flatten_one peer s f)
    ∙ ap (λ (b : Bool). tracked x m || b) (extend-key x s.remotes f.remotes)
    ∙ or_swap (tracked x m) (has x s.remotes) (contains_key x f.remotes)

flatten_step :
    (b : Bool) (s : Sigrefs) (found : Option Sigrefs) (old : Option SignedAt)
    → (b ≡ true → found ≡ none)
    → or_old (signed_at found) (if b then some (record { at = s.at; refs = s.refs }) else old)
      ≡ or_old (signed_at (if b then some s else found)) old
flatten_step true s found old h = rw (h refl) refl
flatten_step false s found old h = refl

Above-IsSorted : (b : PeerId) (m : Map Sigrefs) → Above b m → IsSorted m
Above-IsSorted b [] h = tt
Above-IsSorted b ((j, w) ∷ m) h = h.1

flatten_into-refs :
    (id : PeerId) (m : Map Sigrefs) (f : Flattened)
    → IsSorted m
    → get id (flatten_into m f).refs ≡ or_old (signed_at (get id m)) (get id f.refs)
unfolding flatten_into get
flatten_into-refs id [] f h = refl
flatten_into-refs id ((peer, s) ∷ m) f h =
    flatten_into-refs id m (flatten_one peer s f) (Above-IsSorted peer m h)
    ∙ ap (or_old (signed_at (get id m)))
        (get-insert peer id (record { at = s.at; refs = s.refs }) f.refs)
    ∙ flatten_step (peer == id) s (get id m) (get id f.refs)
        (λ same. get-Above peer id m h (omega (arith, (==_iff peer id).0 same)))

or_old-none : (o : Option SignedAt) → or_old o none ≡ o
or_old-none none = refl
or_old-none (some s) = refl

or_false : (b : Bool) → (b || false) ≡ b
or_false true = refl
or_false false = refl

-- The join of signed refs keeps, for each peer, the refs and where they were read, and its remotes are
-- exactly those that some of the signed refs have.
pub flattened_lem :
    (m : Map Sigrefs)
    → IsSorted m
    → ((id : PeerId) → get id (flattened m).refs ≡ signed_at (get id m))
      × ((x : PeerId) → contains_key x (flattened m).remotes ≡ tracked x m)
unfolding flattened get contains_key
flattened_lem m h =
    let nothing : Flattened = record { refs = []; remotes = [] } in
    (
      λ id. flatten_into-refs id m nothing h ∙ or_old-none (signed_at (get id m)),
      λ x. flatten_into-remotes x m nothing ∙ or_false (tracked x m),
    )

module _ {E : Type 0} (load : PeerId → ℕ → Result E (Option Sigrefs)) where
  required-IsSorted :
      (cutoff : ℕ) (peer : PeerId) (r : Result E (Option Sigrefs)) (m m' : Map Sigrefs)
      → required load cutoff peer r m ≡ ok m'
      → IsSorted m
      → IsSorted m'
  required-IsSorted cutoff peer (err e) m m' h w = absurd (err-ne-ok h)
  required-IsSorted cutoff peer (ok none) m m' h w = absurd (err-ne-ok h)
  required-IsSorted cutoff peer (ok (some s)) m m' h w =
      subst IsSorted (ok-injective h) (insert-IsSorted peer s m w)

  optional-IsSorted :
      (cutoff : ℕ) (peer : PeerId) (r : Result E (Option Sigrefs)) (m m' : Map Sigrefs)
      → optional load cutoff peer r m ≡ ok m'
      → IsSorted m
      → IsSorted m'
  optional-IsSorted cutoff peer (err e) m m' h w = absurd (err-ne-ok h)
  optional-IsSorted cutoff peer (ok none) m m' h w = subst IsSorted (ok-injective h) w
  optional-IsSorted cutoff peer (ok (some s)) m m' h w =
      subst IsSorted (ok-injective h) (insert-IsSorted peer s m w)

  combine_must-IsSorted :
      (cutoff : ℕ) (peers : List PeerId) (m m' : Map Sigrefs)
      → combine_must load cutoff peers m ≡ ok m'
      → IsSorted m
      → IsSorted m'
  unfolding combine_must
  combine_must-IsSorted cutoff [] m m' h w = subst IsSorted (ok-injective h) w
  combine_must-IsSorted cutoff (peer ∷ peers) m m' h w =
      let (u, first, next) =
        >>=-eq-ok (required load cutoff peer (load peer cutoff) m)
          (λ (u : Map Sigrefs). combine_must load cutoff peers u) h in
      combine_must-IsSorted cutoff peers u m' next
        (required-IsSorted cutoff peer (load peer cutoff) m u first w)

  combine_may-IsSorted :
      (cutoff : ℕ) (peers : List PeerId) (m m' : Map Sigrefs)
      → combine_may load cutoff peers m ≡ ok m'
      → IsSorted m
      → IsSorted m'
  unfolding combine_may
  combine_may-IsSorted cutoff [] m m' h w = subst IsSorted (ok-injective h) w
  combine_may-IsSorted cutoff (peer ∷ peers) m m' h w =
      let (u, first, next) =
        >>=-eq-ok (optional load cutoff peer (load peer cutoff) m)
          (λ (u : Map Sigrefs). combine_may load cutoff peers u) h in
      combine_may-IsSorted cutoff peers u m' next
        (optional-IsSorted cutoff peer (load peer cutoff) m u first w)

  -- What `combined` returns has its peers in order, so that `flattened_lem` applies to it.
  pub combined-IsSorted :
      (select : Select) (m : Map Sigrefs) → combined load select ≡ ok m → IsSorted m
  unfolding combined
  combined-IsSorted select m h =
      let (u, first, next) =
        >>=-eq-ok (combine_must load select.cutoff select.must [])
          (λ (u : Map Sigrefs). combine_may load select.cutoff select.may u) h in
      combine_may-IsSorted select.cutoff select.may u m next
        (combine_must-IsSorted select.cutoff select.must [] u first tt)
