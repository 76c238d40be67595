-- ===== src/Tracking/Batch/Entries.antt =====
-- The maps of link-tracking/src/git/tracking/batch.rs, read as actions on the reference of each key.
use radicle_link.Prelude.{
  ◌≡◌, ◌≢◌, refl, sym, ap, subst, ◌∙◌, ◌↔◌, inl, inr, Bool, true, false, Option, none, some, List,
  [], ◌∷◌, All, if◌then◌else◌, Bool-cases, Option-cases,
}
use mathlib.Core.Option.{some-injective}
use radicle_link.Tracking.Policy.{Reduction, simple, compose_reduction}
use radicle_link.Tracking.Reference.{RefName, same_name, same_name_iff}
use radicle_link.Tracking.Batch.{get_entry, replace_entry, add_entry, upsert}

-- `name` is the reference of a key, `run` and `run_t` what a reduction and an action leave at it.
true-ne-false : true ≢ false
true-ne-false h = cc

some-ne-none : {A : Type 0} {a : A} → ◌≢◌ {A = Option A} (some a) none
some-ne-none h = cc

module _ {K T C : Type 0} (lt same : K → K → Bool) (name : K → RefName)
    (run : Reduction T → Option C → Option C) (IsReduced : Reduction T → Type 0)
    (P : K → Type 0) where
  abbrev pub run_entries : List (K × Reduction T) → RefName → Option C → Option C
  run_entries [] n s = s
  run_entries ((k, r) ∷ m) n s = run_entries m n (if same_name (name k) n then run r s else s)

  -- The keys are well formed, no two have the same name, and the reductions are reduced.
  abbrev pub IsEntries : List (K × Reduction T) → Type 0
  IsEntries [] = Unit {0}
  IsEntries ((k, r) ∷ m) = P k × IsReduced r × All (λ (j, r'). name j ≢ name k) m × IsEntries m

  abbrev NoName : RefName → List (K × Reduction T) → Type 0
  NoName n m = All (λ (j, r). name j ≢ n) m

  test_ne : (a b : RefName) → a ≢ b → same_name a b ≡ false
  test_ne a b h = elim (Bool-cases (same_name a b)) [
    | inl same ↦ absurd (h ((same_name_iff a b).0 same))
    | inr apart ↦ apart
  ]

  run_entries-NoName :
      (m : List (K × Reduction T)) (n : RefName) (s : Option C) → NoName n m → run_entries m n s ≡ s
  run_entries-NoName [] n s h = refl
  run_entries-NoName ((k, r) ∷ m) n s h = rw (test_ne (name k) n h.0) (run_entries-NoName m n s h.1)

  module _ (name_same : (j k : K) → P j → P k → (same j k ≡ true) ↔ (name j ≡ name k)) where
    get_entry-NoName :
        (k : K) (m : List (K × Reduction T))
        → P k
        → IsEntries m
        → get_entry lt same k m ≡ none
        → NoName (name k) m
    unfolding get_entry
    get_entry-NoName k [] p h g = tt
    get_entry-NoName k ((j, r) ∷ m) p (pj, red, names, h) g = elim (Bool-cases (same j k)) [
      | inl here ↦ absurd (some-ne-none (rw (here, get_entry) at g))
      | inr apart ↦ (
        λ e. true-ne-false (sym ((name_same j k pj p).1 e) ∙ apart),
        get_entry-NoName k m p h (rw (apart, get_entry) at g),
      )
    ]

    add_entry-NoName :
        (n : RefName) (k : K) (r : Reduction T) (m : List (K × Reduction T))
        → name k ≢ n
        → NoName n m
        → NoName n (add_entry lt same k r m)
    unfolding add_entry
    add_entry-NoName n k r [] d h = (d, tt)
    add_entry-NoName n k r ((j, q) ∷ m) d h = elim (Bool-cases (lt k j)) [
      | inl before ↦ rw before (d, h)
      | inr after ↦ rw after (h.0, add_entry-NoName n k r m d h.1)
    ]

    add_entry-IsEntries :
        (k : K) (r : Reduction T) (m : List (K × Reduction T))
        → P k
        → IsReduced r
        → NoName (name k) m
        → IsEntries m
        → IsEntries (add_entry lt same k r m)
    unfolding add_entry
    add_entry-IsEntries k r [] p red d h = (p, red, tt, tt)
    add_entry-IsEntries k r ((j, q) ∷ m) p red d (pj, redj, names, h) = elim (Bool-cases (lt k j)) [
      | inl before ↦ rw before (p, red, d, (pj, redj, names, h))
      | inr after ↦ rw after (
        pj,
        redj,
        add_entry-NoName (name j) k r m (λ e. d.0 (sym e)) names,
        add_entry-IsEntries k r m p red d.1 h,
      )
    ]

    run_entries-add_entry :
        (k : K) (r : Reduction T) (m : List (K × Reduction T)) (n : RefName) (s : Option C)
        → NoName (name k) m
        → run_entries (add_entry lt same k r m) n s
          ≡ (if same_name (name k) n then run r (run_entries m n s) else run_entries m n s)
    unfolding add_entry
    run_entries-add_entry k r [] n s d = refl
    run_entries-add_entry k r ((j, q) ∷ m) n s d = elim (Bool-cases (lt k j)) [
      | inl before ↦ rw before (elim (Bool-cases (same_name (name k) n)) [
        | inl here ↦
            let none_there : NoName n ((j, q) ∷ m) =
              subst (λ x. NoName x ((j, q) ∷ m)) ((same_name_iff (name k) n).0 here) d in
            rw (here, run_entries)
              (run_entries-NoName ((j, q) ∷ m) n (run r s) none_there
                ∙ ap (run r) (sym (run_entries-NoName ((j, q) ∷ m) n s none_there)))
        | inr there ↦ rw (there, run_entries) refl
      ])
      | inr after ↦ rw after (run_entries-add_entry k r m n _ d.1)
    ]

    replace_entry-NoName :
        (n : RefName) (k : K) (r : Reduction T) (m : List (K × Reduction T))
        → NoName n m
        → NoName n (replace_entry lt same k r m)
    unfolding replace_entry
    replace_entry-NoName n k r [] h = tt
    replace_entry-NoName n k r ((j, q) ∷ m) h = elim (Bool-cases (same j k)) [
      | inl here ↦ rw here (h.0, replace_entry-NoName n k r m h.1)
      | inr apart ↦ rw apart (h.0, replace_entry-NoName n k r m h.1)
    ]

    replace_entry-IsEntries :
        (k : K) (r : Reduction T) (m : List (K × Reduction T))
        → IsReduced r
        → IsEntries m
        → IsEntries (replace_entry lt same k r m)
    unfolding replace_entry
    replace_entry-IsEntries k r [] red h = tt
    replace_entry-IsEntries k r ((j, q) ∷ m) red (pj, redj, names, h) =
        let names' = replace_entry-NoName (name j) k r m names in
        let rest = replace_entry-IsEntries k r m red h in
        elim (Bool-cases (same j k)) [
          | inl here ↦ rw here (pj, red, names', rest)
          | inr apart ↦ rw apart (pj, redj, names', rest)
        ]

    get_entry-IsReduced :
        (k : K) (r : Reduction T) (m : List (K × Reduction T))
        → IsEntries m
        → get_entry lt same k m ≡ some r
        → IsReduced r
    unfolding get_entry
    get_entry-IsReduced k r [] h g = absurd (some-ne-none (sym g))
    get_entry-IsReduced k r ((j, q) ∷ m) (pj, red, names, h) g = elim (Bool-cases (same j k)) [
      | inl here ↦ subst IsReduced (some-injective _ _ (rw (here, get_entry) at g)) red
      | inr apart ↦ get_entry-IsReduced k r m h (rw (apart, get_entry) at g)
    ]

    replace_entry-absent :
        (k : K) (new : Reduction T) (m : List (K × Reduction T))
        → P k
        → IsEntries m
        → NoName (name k) m
        → replace_entry lt same k new m ≡ m
    unfolding replace_entry
    replace_entry-absent k new [] p h d = refl
    replace_entry-absent k new ((j, q) ∷ m) p (pj, red, names, h) d = elim (Bool-cases (same j k)) [
      | inl here ↦ absurd (d.0 ((name_same j k pj p).0 here))
      | inr apart ↦ rw apart (ap (λ x. (j, q) ∷ x) (replace_entry-absent k new m p h d.1))
    ]

    -- `step` is what a reduction and its successor leave.
    run_entries-replace_entry :
        (step : Option C → Option C) (k : K) (r new : Reduction T) (m : List (K × Reduction T))
        (n : RefName) (s : Option C)
        → ((x : Option C) → run new x ≡ step (run r x))
        → P k
        → IsEntries m
        → get_entry lt same k m ≡ some r
        → run_entries (replace_entry lt same k new m) n s
          ≡ (if same_name (name k) n then step (run_entries m n s) else run_entries m n s)
    unfolding replace_entry get_entry
    run_entries-replace_entry step k r new [] n s law p h g = absurd (some-ne-none (sym g))
    run_entries-replace_entry step k r new ((j, q) ∷ m) n s law p (pj, red, names, h) g =
        elim (Bool-cases (same j k)) [
          | inl here ↦
              let eq = (name_same j k pj p).0 here in
              let names' : NoName (name k) m = subst (λ x. NoName x m) eq names in
              let q_is_r = some-injective _ _ (rw (here, get_entry) at g) in
              rw (here, replace_entry)
                (rw (replace_entry-absent k new m p h names')
                  (elim (Bool-cases (same_name (name k) n)) [
                    | inl at_n ↦
                        let gone : NoName n m =
                          subst (λ x. NoName x m) ((same_name_iff (name k) n).0 at_n) names' in
                        rw eq (
                          rw (at_n, run_entries)
                            (run_entries-NoName m n (run new s) gone
                              ∙ law s
                              ∙ (rw (sym q_is_r)
                                  (ap step (sym (run_entries-NoName m n (run q s) gone))))))
                    | inr elsewhere ↦ rw eq (rw (elsewhere, run_entries) refl)
                  ]))
          | inr apart ↦
              rw (apart, replace_entry)
                (run_entries-replace_entry step k r new m n _ law p h (rw (apart, get_entry) at g))
        ]

    module _ (compose : T → T → Reduction T) (run_one : T → Option C → Option C)
        (IsGood : T → Type 0) (run_simple : (t : T) (x : Option C) → run (simple t) x ≡ run_one t x)
        (simple_reduced : (t : T) → IsReduced (simple t))
        (total : (r : Reduction T) (t : T)
          → IsReduced r
          → (new : Reduction T) × (compose_reduction compose r t ≡ some new) × IsReduced new)
        (run_step : (r : Reduction T) (t : T) (new : Reduction T) (x : Option C)
          → IsReduced r
          → IsGood t
          → compose_reduction compose r t ≡ some new
          → run new x ≡ run_one t (run r x)) where
      -- What `upsert` does not fail to make of an entry, and what that leaves at each reference.
      pub upsert_lem :
          (k : K) (t : T) (m : List (K × Reduction T))
          → P k
          → IsEntries m
          → (m' : List (K × Reduction T)) × (upsert lt same compose k t m ≡ some m')
            × IsEntries m'
            × (IsGood t
                → (n : RefName) (s : Option C)
                → run_entries m' n s ≡ (
                    if same_name (name k) n
                    then run_one t (run_entries m n s)
                    else run_entries m n s))
      unfolding upsert
      upsert_lem k t m p h = elim (Option-cases (get_entry lt same k m)) [
        | inl absent ↦
            let d = get_entry-NoName k m p h absent in
            (
              add_entry lt same k (simple t) m,
              (rw (absent, upsert) refl),
              add_entry-IsEntries k (simple t) m p (simple_reduced t) d h,
              λ good n s.
                  run_entries-add_entry k (simple t) m n s d
                  ∙ ap (λ x. if same_name (name k) n then x else run_entries m n s)
                      (run_simple t (run_entries m n s)),
            )
        | inr (r, present) ↦
            let red = get_entry-IsReduced k r m h present in
            let (new, composes, red') = total r t red in
            (
              replace_entry lt same k new m,
              (rw (present, upsert) (rw composes refl)),
              replace_entry-IsEntries k new m red' h,
              λ good n s.
                  run_entries-replace_entry (run_one t) k r new m n s
                    (λ x. run_step r t new x red good composes) p h present,
            )
      ]
