-- ===== src/Replication/Sigrefs/Combined.antt =====
-- The signed refs that `combined` loads (link-replication/src/sigrefs.rs).
use radicle_link.Prelude.{
  ℕ, ◌≡◌, refl, sym, ap, subst, ◌∙◌, ◌⊎◌, inl, inr, Bool, true, false, ◌||◌, ◌==◌, any, ==_iff,
  Option, is_some, none, some, List, [], ◌∷◌, if◌then◌else◌, Result, ok, err, ok-injective,
  err-injective, err-ne-ok, >>=-eq-ok, >>=-eq-err, Bool-cases, Map, get, get-insert, In,
}
use radicle_link.Net.Info.{PeerId}
use radicle_link.Replication.Sigrefs.{
  CombineError, not_found, load_failed, Sigrefs, Select, required, optional, combine_must,
  combine_may, combined,
}

false-ne-true : ◌≡◌ {A = Bool} false true → ⊥
false-ne-true h = cc

if_same : (b : Bool) (v : Option Sigrefs) → (if b then v else v) ≡ v
if_same true v = refl
if_same false v = refl

abbrev pub has : PeerId → List PeerId → Bool
has peer peers = any (λ x. x == peer) peers

-- What a load gives.
abbrev pub loaded : {E : Type 0} → Result E (Option Sigrefs) → Option Sigrefs
loaded (err e) = none
loaded (ok found) = found

-- Which signed refs a load leaves for a peer, of what it had.
abbrev pub kept : {E : Type 0} → Result E (Option Sigrefs) → Option Sigrefs → Option Sigrefs
kept (err e) old = old
kept (ok none) old = old
kept (ok (some s)) old = some s

kept-none : {E : Type 0} (r : Result E (Option Sigrefs)) → kept r none ≡ loaded r
kept-none (err e) = refl
kept-none (ok none) = refl
kept-none (ok (some s)) = refl

kept_twice :
    {E : Type 0} (r : Result E (Option Sigrefs)) (old : Option Sigrefs)
    → kept r (kept r old) ≡ kept r old
kept_twice (err e) old = refl
kept_twice (ok none) old = refl
kept_twice (ok (some s)) old = refl

kept_again :
    {E : Type 0} (r : Result E (Option Sigrefs)) (b c : Bool) (old : Option Sigrefs)
    → (let before = (if b then kept r old else old) in if c then kept r before else before)
      ≡ (if b || c then kept r old else old)
kept_again r true true old = kept_twice r old
kept_again r true false old = refl
kept_again r false true old = refl
kept_again r false false old = refl

module _ {E : Type 0} (load : PeerId → ℕ → Result E (Option Sigrefs)) (cutoff : ℕ) where
  abbrev kept_at : PeerId → Option Sigrefs → Option Sigrefs
  kept_at id old = kept (load id cutoff) old

  kept_if :
      (peer id : PeerId) (old : Option Sigrefs)
      → (if peer == id then kept_at peer old else old)
        ≡ (if peer == id then kept_at id old else old)
  kept_if peer id old = elim (Bool-cases (peer == id)) [
    | inl same ↦ rw (same, (==_iff peer id).0 same) refl
    | inr differs ↦ rw differs refl
  ]

  get-required :
      (peer id : PeerId) (r : Result E (Option Sigrefs)) (m m' : Map Sigrefs)
      → required load cutoff peer r m ≡ ok m'
      → get id m' ≡ (if peer == id then kept r (get id m) else get id m)
  get-required peer id (err e) m m' h = absurd (err-ne-ok h)
  get-required peer id (ok none) m m' h = absurd (err-ne-ok h)
  get-required peer id (ok (some s)) m m' h =
      sym (ap (get id) (ok-injective h)) ∙ get-insert peer id s m

  get-optional :
      (peer id : PeerId) (r : Result E (Option Sigrefs)) (m m' : Map Sigrefs)
      → optional load cutoff peer r m ≡ ok m'
      → get id m' ≡ (if peer == id then kept r (get id m) else get id m)
  get-optional peer id (err e) m m' h = absurd (err-ne-ok h)
  get-optional peer id (ok none) m m' h =
      sym (ap (get id) (ok-injective h)) ∙ sym (if_same (peer == id) (get id m))
  get-optional peer id (ok (some s)) m m' h =
      sym (ap (get id) (ok-injective h)) ∙ get-insert peer id s m

  -- One more peer in front of the fold.
  get_step :
      (peer id : PeerId) (peers : List PeerId) (m m' m2 : Map Sigrefs)
      → get id m' ≡ (if peer == id then kept_at peer (get id m) else get id m)
      → get id m2 ≡ (if has id peers then kept_at id (get id m') else get id m')
      → get id m2 ≡ (if has id (peer ∷ peers) then kept_at id (get id m) else get id m)
  get_step peer id peers m m' m2 here rest =
      let now = here ∙ kept_if peer id (get id m) in
      rest
      ∙ ap (λ (o : Option Sigrefs). if has id peers then kept_at id o else o) now
      ∙ kept_again (load id cutoff) (peer == id) (has id peers) (get id m)

  get-combine_must :
      (id : PeerId) (peers : List PeerId) (m m' : Map Sigrefs)
      → combine_must load cutoff peers m ≡ ok m'
      → get id m' ≡ (if has id peers then kept_at id (get id m) else get id m)
  unfolding combine_must
  get-combine_must id [] m m' h = sym (ap (get id) (ok-injective h))
  get-combine_must id (peer ∷ peers) m m' h =
      let (u, first, next) =
        >>=-eq-ok (required load cutoff peer (load peer cutoff) m)
          (λ (u : Map Sigrefs). combine_must load cutoff peers u) h in
      get_step peer id peers m u m' (get-required peer id (load peer cutoff) m u first)
        (get-combine_must id peers u m' next)

  get-combine_may :
      (id : PeerId) (peers : List PeerId) (m m' : Map Sigrefs)
      → combine_may load cutoff peers m ≡ ok m'
      → get id m' ≡ (if has id peers then kept_at id (get id m) else get id m)
  unfolding combine_may
  get-combine_may id [] m m' h = sym (ap (get id) (ok-injective h))
  get-combine_may id (peer ∷ peers) m m' h =
      let (u, first, next) =
        >>=-eq-ok (optional load cutoff peer (load peer cutoff) m)
          (λ (u : Map Sigrefs). combine_may load cutoff peers u) h in
      get_step peer id peers m u m' (get-optional peer id (load peer cutoff) m u first)
        (get-combine_may id peers u m' next)

  required-loaded :
      (peer : PeerId) (r : Result E (Option Sigrefs)) (m m' : Map Sigrefs)
      → required load cutoff peer r m ≡ ok m'
      → is_some (loaded r) ≡ true
  required-loaded peer (err e) m m' h = absurd (err-ne-ok h)
  required-loaded peer (ok none) m m' h = absurd (err-ne-ok h)
  required-loaded peer (ok (some s)) m m' h = refl

  must-loaded :
      (id : PeerId) (peers : List PeerId) (m m' : Map Sigrefs)
      → combine_must load cutoff peers m ≡ ok m'
      → has id peers ≡ true
      → is_some (loaded (load id cutoff)) ≡ true
  unfolding combine_must
  must-loaded id [] m m' h k = absurd (false-ne-true k)
  must-loaded id (peer ∷ peers) m m' h k =
      let (u, first, next) =
        >>=-eq-ok (required load cutoff peer (load peer cutoff) m)
          (λ (u : Map Sigrefs). combine_must load cutoff peers u) h in
      elim (Bool-cases (peer == id)) [
        | inl same ↦
            subst (λ (p : PeerId). is_some (loaded (load p cutoff)) ≡ true)
              ((==_iff peer id).0 same) (required-loaded peer (load peer cutoff) m u first)
        | inr differs ↦ must-loaded id peers u m' next (sym (rw differs refl) ∙ k)
      ]

-- What the combined signed refs are: those of the required and of the optional peers that have them,
-- which each required peer does.
pub record Combines {E : Type 0} (load : PeerId → ℕ → Result E (Option Sigrefs)) (select : Select)
    (m : Map Sigrefs) : Type 0 where
  pub at :
      (id : PeerId)
      → get id m
        ≡ (if has id select.must || has id select.may then loaded (load id select.cutoff) else none)
  pub present : (id : PeerId) → has id select.must ≡ true → is_some (get id m) ≡ true

kept_or :
    {E : Type 0} (r : Result E (Option Sigrefs)) (b c : Bool)
    → (let before = (if b then kept r none else none) in if c then kept r before else before)
      ≡ (if b || c then loaded r else none)
kept_or r b c =
    kept_again r b c none ∙ ap (λ (o : Option Sigrefs). if b || c then o else none) (kept-none r)

module _ {E : Type 0} (load : PeerId → ℕ → Result E (Option Sigrefs)) where
  combined_at :
      (select : Select) (m m' : Map Sigrefs)
      → combine_must load select.cutoff select.must [] ≡ ok m
      → combine_may load select.cutoff select.may m ≡ ok m'
      → (id : PeerId)
      → get id m'
        ≡ (if has id select.must || has id select.may then loaded (load id select.cutoff) else none)
  unfolding get
  combined_at select m m' first next id =
      get-combine_may load select.cutoff id select.may m m' next
      ∙ ap
          (λ (o : Option Sigrefs). if has id select.may then kept_at load select.cutoff id o else o)
          (get-combine_must load select.cutoff id select.must [] m first)
      ∙ kept_or (load id select.cutoff) (has id select.must) (has id select.may)

  -- When `combined` succeeds, a peer has signed refs in the result exactly when it is in `must` or in `may`
  -- and has some to load, which are then those loaded; and each peer of `must` has some.
  pub combined_lem :
      (select : Select) (m : Map Sigrefs) → combined load select ≡ ok m → Combines load select m
  unfolding combined
  combined_lem select m h =
      let (u, first, next) =
        >>=-eq-ok (combine_must load select.cutoff select.must [])
          (λ (u : Map Sigrefs). combine_may load select.cutoff select.may u) h in
      record {
        at = combined_at select u m first next;
        present = λ id k.
            rw (combined_at select u m first next id, k)
              (must-loaded load select.cutoff id select.must [] u first k);
      }

  -- Why a load fails.
  abbrev pub Fails : Select → CombineError E → Type 0
  Fails select (not_found id) = In id select.must × (load id select.cutoff ≡ ok none)
  Fails select (load_failed e) =
      (id : PeerId) × (In id select.must ⊎ In id select.may) × (load id select.cutoff ≡ err e)

module _ {E : Type 0} (load : PeerId → ℕ → Result E (Option Sigrefs)) (cutoff : ℕ) where
  abbrev FailsAmong : List PeerId → CombineError E → Type 0
  FailsAmong peers (not_found id) = In id peers × (load id cutoff ≡ ok none)
  FailsAmong peers (load_failed e) = (id : PeerId) × In id peers × (load id cutoff ≡ err e)

  FailsAmong-cons :
      (peer : PeerId) (peers : List PeerId) (e : CombineError E)
      → FailsAmong peers e
      → FailsAmong (peer ∷ peers) e
  FailsAmong-cons peer peers (not_found id) h = (inr h.0, h.1)
  FailsAmong-cons peer peers (load_failed e) (id, m, h) = (id, inr m, h)

  required-Fails :
      (peer : PeerId) (peers : List PeerId) (r : Result E (Option Sigrefs)) (m : Map Sigrefs)
      (e : CombineError E)
      → load peer cutoff ≡ r
      → required load cutoff peer r m ≡ err e
      → FailsAmong (peer ∷ peers) e
  required-Fails peer peers (err e) m f l h =
      subst (FailsAmong (peer ∷ peers)) (err-injective h) (peer, inl refl, l)
  required-Fails peer peers (ok none) m f l h =
      subst (FailsAmong (peer ∷ peers)) (err-injective h) (inl refl, l)
  required-Fails peer peers (ok (some s)) m f l h = absurd (err-ne-ok (sym h))

  optional-Fails :
      (peer : PeerId) (peers : List PeerId) (r : Result E (Option Sigrefs)) (m : Map Sigrefs)
      (e : CombineError E)
      → load peer cutoff ≡ r
      → optional load cutoff peer r m ≡ err e
      → (x : E) × (e ≡ load_failed x) × FailsAmong (peer ∷ peers) (load_failed x)
  optional-Fails peer peers (err x) m f l h = (x, sym (err-injective h), (peer, inl refl, l))
  optional-Fails peer peers (ok none) m f l h = absurd (err-ne-ok (sym h))
  optional-Fails peer peers (ok (some s)) m f l h = absurd (err-ne-ok (sym h))

  combine_must-Fails :
      (peers : List PeerId) (m : Map Sigrefs) (e : CombineError E)
      → combine_must load cutoff peers m ≡ err e
      → FailsAmong peers e
  unfolding combine_must
  combine_must-Fails [] m e h = absurd (err-ne-ok (sym h))
  combine_must-Fails (peer ∷ peers) m e h =
      elim (>>=-eq-err (required load cutoff peer (load peer cutoff) m)
        (λ (u : Map Sigrefs). combine_must load cutoff peers u) h) [
          | inl here ↦ required-Fails peer peers (load peer cutoff) m e refl here
          | inr (u, first, next) ↦ FailsAmong-cons peer peers e (combine_must-Fails peers u e next)
        ]

  combine_may-Fails :
      (peers : List PeerId) (m : Map Sigrefs) (e : CombineError E)
      → combine_may load cutoff peers m ≡ err e
      → (x : E) × (e ≡ load_failed x) × FailsAmong peers (load_failed x)
  unfolding combine_may
  combine_may-Fails [] m e h = absurd (err-ne-ok (sym h))
  combine_may-Fails (peer ∷ peers) m e h =
      elim (>>=-eq-err (optional load cutoff peer (load peer cutoff) m)
        (λ (u : Map Sigrefs). combine_may load cutoff peers u) h) [
          | inl here ↦ optional-Fails peer peers (load peer cutoff) m e refl here
          | inr (u, first, next) ↦
              let (x, same, (id, place, failed)) = combine_may-Fails peers u e next in
              (x, same, (id, inr place, failed))
        ]

module _ {E : Type 0} (load : PeerId → ℕ → Result E (Option Sigrefs)) where
  must-Fails :
      (select : Select) (e : CombineError E)
      → FailsAmong load select.cutoff select.must e
      → Fails load select e
  must-Fails select (not_found id) h = h
  must-Fails select (load_failed e) (id, m, h) = (id, inl m, h)

  -- When `combined` fails, it is for a peer of `must` that has no signed refs, or for a peer of `must` or
  -- `may` whose load fails, with the error of that load.
  pub combined-Fails :
      (select : Select) (e : CombineError E) → combined load select ≡ err e → Fails load select e
  unfolding combined
  combined-Fails select e h =
      elim (>>=-eq-err (combine_must load select.cutoff select.must [])
        (λ (u : Map Sigrefs). combine_may load select.cutoff select.may u) h) [
          | inl here ↦
              must-Fails select e (combine_must-Fails load select.cutoff select.must [] e here)
          | inr (u, first, next) ↦
              let (x, same, (id, place, failed)) =
                combine_may-Fails load select.cutoff select.may u e next in
              subst (Fails load select) (sym same) (id, inr place, failed)
        ]
