-- ===== src/Replication/Eval/Laws.antt =====
-- What a pull decides (link-replication/src/eval/pull.rs and eval/rad.rs).
use radicle_link.Prelude.{
  ◌≡◌, refl, sym, ap, ◌∙◌, ◌⊎◌, inl, inr, Bool, true, false, ◌||◌, ◌==◌, ==_iff, Option, none, some,
  List, [], ◌∷◌, if◌then◌else◌, Bool-cases, Map, get, insert, get-insert, any, ltb,
}
use radicle_link.Net.Info.{PeerId}
use radicle_link.Replication.Sigrefs.{Sigrefs}
use radicle_link.Replication.Peek.{DataPolicy, deny, allowed}
use radicle_link.Replication.Peek.Fetch.{Spec}
use radicle_link.Replication.Eval.{
  add_tracked, add_delegates, tracked, lt_policy, merged, is_direct, add_remotes, remotes_of,
  transitive,
}

false-ne-true : ◌≡◌ {A = Bool} false true → ⊥
false-ne-true h = cc

-- The data of the delegates is allowed.
abbrev pub AllowsDelegates : Map Spec → Type 0
AllowsDelegates [] = Unit {0}
AllowsDelegates ((peer, spec) ∷ m) =
    ((spec.is_delegate ≡ false) ⊎ (spec.policy ≡ allowed)) × AllowsDelegates m

-- The stricter of a policy and what there was.
abbrev pub stricter : DataPolicy → Option DataPolicy → DataPolicy
stricter p none = p
stricter deny (some v) = deny
stricter allowed (some v) = v

stricter_twice :
    (p : DataPolicy) (old : Option DataPolicy) → stricter p (some (stricter p old)) ≡ stricter p old
stricter_twice deny none = refl
stricter_twice allowed none = refl
stricter_twice deny (some v) = refl
stricter_twice allowed (some v) = refl

abbrev pub tracks : PeerId → List PeerId → Bool
tracks r peers = any (λ x. x == r) peers

-- The strictest policy of the tracked peers that track a peer.
abbrev pub strictest : PeerId → Map Sigrefs → Map Spec → Option DataPolicy → Option DataPolicy
strictest r signed [] old = old
strictest r signed ((peer, spec) ∷ m) old =
    strictest r signed m
      (if tracks r (remotes_of (get peer signed)) then some (stricter spec.policy old) else old)

if_deny : (v : DataPolicy) → (if lt_policy deny v then deny else v) ≡ deny
if_deny deny = refl
if_deny allowed = refl

merged_cases :
    (b : Bool) (p : DataPolicy) (old : Option DataPolicy)
    → (b ≡ false) ⊎ (p ≡ allowed)
    → merged (record { is_delegate = b; policy = p }) old ≡ stricter p old
merged_cases b p none h = refl
merged_cases true allowed (some v) h = refl
merged_cases false allowed (some v) h = refl
merged_cases false deny (some v) h = if_deny v
merged_cases true deny (some v) (inl h) = cc
merged_cases true deny (some v) (inr h) = cc

strict_again :
    (p : DataPolicy) (b c : Bool) (old : Option DataPolicy)
    → (let first = (if b then some (stricter p old) else old) in
        if c then some (stricter p first) else first)
      ≡ (if b || c then some (stricter p old) else old)
strict_again p true true old = ap some (stricter_twice p old)
strict_again p true false old = refl
strict_again p false true old = refl
strict_again p false false old = refl

module _ (local : PeerId) (delegates : List PeerId) (all : Map Spec) where
  insert_if :
      (peer r : PeerId) (spec : Spec) (m : Map DataPolicy)
      → (spec.is_delegate ≡ false) ⊎ (spec.policy ≡ allowed)
      → get r (insert peer (merged spec (get peer m)) m)
        ≡ (if peer == r then some (stricter spec.policy (get r m)) else get r m)
  insert_if peer r spec m h =
      get-insert peer r (merged spec (get peer m)) m ∙ elim (Bool-cases (peer == r)) [
        | inl same ↦
            rw (same, (==_iff peer r).0 same)
              (ap some (merged_cases spec.is_delegate spec.policy (get r m) h))
        | inr differs ↦ rw differs refl
      ]

  get-add_remotes :
      (r : PeerId) (spec : Spec) (peers : List PeerId) (m : Map DataPolicy)
      → is_direct local delegates all r ≡ false
      → (spec.is_delegate ≡ false) ⊎ (spec.policy ≡ allowed)
      → get r (add_remotes local delegates all spec peers m)
        ≡ (if tracks r peers then some (stricter spec.policy (get r m)) else get r m)
  unfolding add_remotes
  get-add_remotes r spec [] m far h = refl
  get-add_remotes r spec (peer ∷ peers) m far h =
      elim (Bool-cases (is_direct local delegates all peer)) [
        | inl near ↦ elim (Bool-cases (peer == r)) [
          | inl same ↦ absurd (
              false-ne-true (
                sym far ∙ ap (is_direct local delegates all) (sym ((==_iff peer r).0 same)) ∙ near))
          | inr differs ↦ rw (near, differs) (get-add_remotes r spec peers m far h)
        ]
        | inr away ↦ rw away (
            get-add_remotes r spec peers (insert peer (merged spec (get peer m)) m) far h
            ∙ ap
                (λ (o : Option DataPolicy).
                  if tracks r peers then some (stricter spec.policy o) else o)
                (insert_if peer r spec m h)
            ∙ strict_again spec.policy (peer == r) (tracks r peers) (get r m))
      ]

  apart :
      (peer r : PeerId)
      → is_direct local delegates all peer ≡ false
      → is_direct local delegates all r ≡ true
      → (peer == r) ≡ false
  apart peer r away near = elim (Bool-cases (peer == r)) [
    | inl same ↦ absurd (
        false-ne-true
          (sym away ∙ ap (is_direct local delegates all) ((==_iff peer r).0 same) ∙ near))
    | inr differs ↦ differs
  ]

  get-add_remotes_direct :
      (r : PeerId) (spec : Spec) (peers : List PeerId) (m : Map DataPolicy)
      → is_direct local delegates all r ≡ true
      → get r (add_remotes local delegates all spec peers m) ≡ get r m
  unfolding add_remotes
  get-add_remotes_direct r spec [] m near = refl
  get-add_remotes_direct r spec (peer ∷ peers) m near =
      elim (Bool-cases (is_direct local delegates all peer)) [
        | inl here ↦ rw here (get-add_remotes_direct r spec peers m near)
        | inr away ↦ rw away (
            get-add_remotes_direct r spec peers (insert peer (merged spec (get peer m)) m) near
            ∙ get-insert peer r (merged spec (get peer m)) m
            ∙ (rw (apart peer r away near) refl))
      ]

  get-transitive :
      (r : PeerId) (signed : Map Sigrefs) (m : Map Spec) (old : Map DataPolicy)
      → is_direct local delegates all r ≡ false
      → AllowsDelegates m
      → get r (transitive local delegates all signed m old) ≡ strictest r signed m (get r old)
  unfolding transitive
  get-transitive r signed [] old far h = refl
  get-transitive r signed ((peer, spec) ∷ m) old far h =
      get-transitive r signed m
        (add_remotes local delegates all spec (remotes_of (get peer signed)) old) far h.1
      ∙ ap (strictest r signed m)
          (get-add_remotes r spec (remotes_of (get peer signed)) old far h.0)

  get-transitive_direct :
      (r : PeerId) (signed : Map Sigrefs) (m : Map Spec) (old : Map DataPolicy)
      → is_direct local delegates all r ≡ true
      → get r (transitive local delegates all signed m old) ≡ get r old
  unfolding transitive
  get-transitive_direct r signed [] old near = refl
  get-transitive_direct r signed ((peer, spec) ∷ m) old near =
      get-transitive_direct r signed m
        (add_remotes local delegates all spec (remotes_of (get peer signed)) old) near
      ∙ get-add_remotes_direct r spec (remotes_of (get peer signed)) old near

  -- Where the data of delegates is allowed, the transitively tracked peers are those that a tracked peer
  -- tracks by its signed refs and that are neither local, delegates nor tracked; each has the strictest
  -- policy of the peers that track it.
  pub transitive_lem :
      (r : PeerId) (signed : Map Sigrefs) (m : Map Spec)
      → AllowsDelegates m
      → get r (transitive local delegates all signed m [])
        ≡ (if is_direct local delegates all r then none else strictest r signed m none)
  unfolding get
  transitive_lem r signed m h = elim (Bool-cases (is_direct local delegates all r)) [
    | inl near ↦ get-transitive_direct r signed m [] near ∙ (rw near refl)
    | inr far ↦ get-transitive r signed m [] far h ∙ (rw far refl)
  ]

AllowsDelegates-insert :
    (k : PeerId) (spec : Spec) (m : Map Spec)
    → (spec.is_delegate ≡ false) ⊎ (spec.policy ≡ allowed)
    → AllowsDelegates m
    → AllowsDelegates (insert k spec m)
unfolding insert
AllowsDelegates-insert k spec [] h a = (h, tt)
AllowsDelegates-insert k spec ((j, w) ∷ m) h a = elim (Bool-cases (ltb k j)) [
  | inl before ↦ rw before (h, a)
  | inr later ↦ elim (Bool-cases (j == k)) [
    | inl same ↦ rw (later, same) (h, a.1)
    | inr differs ↦ rw (later, differs) (a.0, AllowsDelegates-insert k spec m h a.1)
  ]
]

add_tracked-AllowsDelegates :
    (delegates : List PeerId) (policies : List (PeerId × DataPolicy)) (m : Map Spec)
    → AllowsDelegates m
    → AllowsDelegates (add_tracked delegates policies m)
unfolding add_tracked
add_tracked-AllowsDelegates delegates [] m a = a
add_tracked-AllowsDelegates delegates ((peer, policy) ∷ rest) m a =
    elim (Bool-cases (any (λ x. x == peer) delegates)) [
      | inl one ↦ rw one (add_tracked-AllowsDelegates delegates rest m a)
      | inr other ↦ rw other (
          add_tracked-AllowsDelegates delegates rest
            (insert peer (record { is_delegate = false; policy = policy }) m)
            (AllowsDelegates-insert peer (record { is_delegate = false; policy = policy }) m
              (inl refl) a))
    ]

add_delegates-AllowsDelegates :
    (peers : List PeerId) (m : Map Spec)
    → AllowsDelegates m
    → AllowsDelegates (add_delegates peers m)
unfolding add_delegates
add_delegates-AllowsDelegates [] m a = a
add_delegates-AllowsDelegates (peer ∷ peers) m a =
    add_delegates-AllowsDelegates peers
      (insert peer (record { is_delegate = true; policy = allowed }) m)
      (AllowsDelegates-insert peer (record { is_delegate = true; policy = allowed }) m (inr refl) a)

-- The peers that `pull` tracks allow the data of the delegates, so that `transitive_lem` applies to them.
pub tracked-AllowsDelegates :
    (delegates : List PeerId) (policies : List (PeerId × DataPolicy))
    → AllowsDelegates (tracked delegates policies)
tracked-AllowsDelegates delegates policies =
    add_delegates-AllowsDelegates delegates (add_tracked delegates policies [])
      (add_tracked-AllowsDelegates delegates policies [] tt)
