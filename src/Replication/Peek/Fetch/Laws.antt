-- ===== src/Replication/Peek/Fetch/Laws.antt =====
-- What the first phase of a fetch lets through, and what it requires of delegates (link-replication/src/peek/fetch.rs).
use radicle_link.Prelude.{
  ◌≡◌, ◌≢◌, refl, sym, ap, subst, ◌∙◌, ◌⊎◌, inl, inr, Bool, true, false, not, ◌&&◌, ◌==◌, ==_iff,
  Option, none, some, List, [], ◌∷◌, Result, ok, err, Bool-cases, Map, get, In, In-map,
  In-append_left, In-append_right,
}
use radicle_link.Net.Info.{PeerId}
use radicle_link.Refs.Name.{Name}
use radicle_link.Tracking.Policy.{Oid}
use radicle_link.Replication.Names.{
  Texts, Rad, id, selv, signed_refs, ids, Parsed, ParseError, rad_name, owned_name, scoped, parse,
}
use radicle_link.Replication.Wants.{FilteredRef, filtered_ref, remote_or}
use radicle_link.Replication.Peek.{
  DataPolicy, deny, allowed, also, collect, guard_required, required_refs, wanted_refs, guard_all,
}
use radicle_link.Replication.Peek.Laws.{guard_required_iff}
use radicle_link.Replication.Peek.Fetch.{
  Spec, ForFetch, remote_of, by_policy, only_rad, of_tracked, of_peer, of_parsed, ref_filter,
  all_required, pre_validate,
}

none-ne-some : {A : Type 0} {a : A} → none ≡ some a → ⊥
none-ne-some h = cc

false-ne-true : ◌≡◌ {A = Bool} false true → ⊥
false-ne-true h = cc

nil-ne-cons : {A : Type 0} {x : A} {xs : List A} → [] ≡ x ∷ xs → ⊥
nil-ne-cons h = cc

==_apart : (a b : PeerId) → a ≢ b → (a == b) ≡ false
==_apart a b h = elim (Bool-cases (a == b)) [
  | inl same ↦ absurd (h ((==_iff a b).0 same))
  | inr differs ↦ differs
]

some-inj : {A : Type 0} {a b : A} → some a ≡ some b → a ≡ b
some-inj h = cc

-- What is said of a ref that passes the filter.
pub record Accepted (self : ForFetch) (tip : Oid) (r : FilteredRef) : Type 0 where
  pub same_tip : r.tip ≡ tip
  pub is_rad : (x : Rad Name) × (r.inner ≡ inl x)
  pub is_tracked :
      (spec : Spec) × (get r.remote self.tracked ≡ some spec)
      × (r.inner ≡ inl signed_refs → spec.policy ≡ allowed)
  pub not_local : r.remote ≡ self.local_id → self.remote_id ≡ self.local_id

by_policy_same :
    (policy : DataPolicy) (x : Rad Name) (r s : FilteredRef)
    → by_policy policy x r ≡ some s
    → (r ≡ s) × (x ≡ signed_refs → policy ≡ allowed)
by_policy_same deny id r s h = (some-inj h, λ e. cc)
by_policy_same allowed id r s h = (some-inj h, λ e. refl)
by_policy_same deny selv r s h = (some-inj h, λ e. cc)
by_policy_same allowed selv r s h = (some-inj h, λ e. refl)
by_policy_same deny (ids urn) r s h = (some-inj h, λ e. cc)
by_policy_same allowed (ids urn) r s h = (some-inj h, λ e. refl)
by_policy_same deny signed_refs r s h = absurd (none-ne-some h)
by_policy_same allowed signed_refs r s h = (some-inj h, λ e. refl)

inl-inj : {A B : Type 0} {a b : A} → ◌≡◌ {A = A ⊎ B} (inl a) (inl b) → a ≡ b
inl-inj h = cc

remote_same :
    (self : ForFetch) (o : Option PeerId) (peer : PeerId)
    → remote_of self o ≡ some peer
    → (remote_or o peer ≡ peer) × (peer ≡ self.local_id → self.remote_id ≡ self.local_id)
remote_same self none peer h = (refl, λ e. some-inj h ∙ e)
remote_same self (some p) peer h = elim (Bool-cases (p == self.local_id)) [
  | inl same ↦ absurd (none-ne-some (sym (rw same refl) ∙ h))
  | inr differs ↦
      let eq : p ≡ peer = some-inj (sym (rw differs refl) ∙ h) in
      (eq, λ e. absurd (false-ne-true (sym differs ∙ (==_iff p self.local_id).1 (eq ∙ e))))
]

only_rad-Accepted :
    (self : ForFetch) (tip : Oid) (peer : PeerId) (spec : Spec) (remote : Option PeerId)
    (inner : Rad Name ⊎ Name) (r : FilteredRef)
    → remote_or remote peer ≡ peer
    → (peer ≡ self.local_id → self.remote_id ≡ self.local_id)
    → get peer self.tracked ≡ some spec
    → only_rad tip peer spec.policy (record { remote = remote; inner = inner }) ≡ some r
    → Accepted self tip r
only_rad-Accepted self tip peer spec remote (inr name) r same away there h = absurd (none-ne-some h)
only_rad-Accepted self tip peer spec remote (inl x) r same away there h =
    let passed =
      by_policy_same spec.policy x
        (filtered_ref tip peer (record { remote = remote; inner = inl x })) r h in
    subst (Accepted self tip) passed.0 (record {
      same_tip = refl;
      is_rad = (x, refl);
      is_tracked =
          (spec, ap (λ (p : PeerId). get p self.tracked) same ∙ there, λ e. passed.1 (inl-inj e));
      not_local = λ e. away (sym same ∙ e);
    })

of_tracked-Accepted :
    (self : ForFetch) (tip : Oid) (peer : PeerId) (spec : Option Spec) (parsed : Parsed Name)
    (r : FilteredRef)
    → remote_of self parsed.remote ≡ some peer
    → get peer self.tracked ≡ spec
    → of_tracked tip peer spec parsed ≡ some r
    → Accepted self tip r
of_tracked-Accepted self tip peer none parsed r owner there h = absurd (none-ne-some h)
of_tracked-Accepted self tip peer (some spec) parsed r owner there h =
    let whose = remote_same self parsed.remote peer owner in
    only_rad-Accepted self tip peer spec parsed.remote parsed.inner r whose.0 whose.1 there h

of_peer-Accepted :
    (self : ForFetch) (tip : Oid) (o : Option PeerId) (parsed : Parsed Name) (r : FilteredRef)
    → remote_of self parsed.remote ≡ o
    → of_peer self tip o parsed ≡ some r
    → Accepted self tip r
of_peer-Accepted self tip none parsed r owner h = absurd (none-ne-some h)
of_peer-Accepted self tip (some peer) parsed r owner h =
    of_tracked-Accepted self tip peer (get peer self.tracked) parsed r owner refl h

of_parsed-Accepted :
    (self : ForFetch) (tip : Oid) (p : Result ParseError (Parsed Name)) (r : FilteredRef)
    → of_parsed self tip p ≡ some r
    → Accepted self tip r
of_parsed-Accepted self tip (err e) r h = absurd (none-ne-some h)
of_parsed-Accepted self tip (ok parsed) r h =
    of_peer-Accepted self tip (remote_of self parsed.remote) parsed r refl h

module _ (t : Texts Name) where
  -- A ref that passes the filter of a fetch keeps its tip, is a ref of the rad category of a tracked peer,
  -- which allows its data where the ref is `rad/signed_refs`, and does not belong to the local peer unless
  -- the remote is the local peer itself.
  pub ref_filter-Accepted :
      (self : ForFetch) (name : Name) (tip : Oid) (r : FilteredRef)
      → ref_filter t self (name, tip) ≡ some r
      → Accepted self tip r
  unfolding ref_filter
  ref_filter-Accepted self name tip r h = of_parsed-Accepted self tip (parse t name) r h

also-some :
    (o : Option Name) (rest : Option (List Name)) (ns : List Name)
    → also o rest ≡ some ns
    → (n : Name) × (tail : List Name) × (o ≡ some n) × (rest ≡ some tail) × (ns ≡ n ∷ tail)
also-some none rest ns h = absurd (none-ne-some h)
also-some (some n) none ns h = absurd (none-ne-some h)
also-some (some n) (some tail) ns h = (n, tail, refl, refl, sym (some-inj h))

collect-In :
    (os : List (Option Name)) (ns : List Name) (o : Option Name)
    → collect os ≡ some ns
    → In o os
    → (n : Name) × (o ≡ some n) × In n ns
collect-In [] ns o h m = absurd m
collect-In (x ∷ os) ns o h m =
    let (n, tail, first, rest, same) = also-some x (collect os) ns h in
    elim m [
      | inl e ↦ (n, e ∙ first, subst (In n) (sym same) (inl refl))
      | inr later ↦
          let (k, found, place) = collect-In os tail o rest later in
          (k, found, subst (In k) (sym same) (inr place))
    ]

In-collect :
    (os : List (Option Name)) (ns : List Name) (n : Name)
    → collect os ≡ some ns
    → In n ns
    → In (some n) os
In-collect [] ns n h m = absurd (subst (In n) (sym (some-inj h)) m)
In-collect (x ∷ os) ns n h m =
    let (k, tail, first, rest, same) = also-some x (collect os) ns h in
    elim (subst (In n) same m) [
      | inl e ↦ inl (ap some e ∙ sym first)
      | inr later ↦ inr (In-collect os tail n rest later)
    ]

guard_all-ok :
    (t : Texts Name) (required wanted : Option (List Name))
    → guard_all t required wanted ≡ some (ok tt)
    → (rs : List Name) × (ws : List Name) × (required ≡ some rs)
      × (wanted ≡ some ws)
      × (guard_required rs ws ≡ ok tt)
guard_all-ok t none wanted h = absurd (none-ne-some h)
guard_all-ok t (some rs) none h = absurd (none-ne-some h)
guard_all-ok t (some rs) (some ws) h = (rs, ws, refl, refl, some-inj h)

module _ (t : Texts Name) where
  all_required-In :
      (local remote peer : PeerId) (spec : Spec) (m : Map Spec) (o : Option Name)
      → In (peer, spec) m
      → (peer == local) ≡ false
      → spec.is_delegate ≡ true
      → In o (required_refs t peer remote)
      → In o (all_required t local remote m)
  all_required-In local remote peer spec [] o m differs delegate r = absurd m
  all_required-In local remote peer spec ((k, s) ∷ m) o (inl e) differs delegate r =
      subst (λ (x : PeerId × Spec). In o (all_required t local remote (x ∷ m))) e
        (rw (differs, delegate)
          (In-append_left o (required_refs t peer remote) (all_required t local remote m) r))
  all_required-In local remote peer spec ((k, s) ∷ m) o (inr later) differs delegate r =
      let rest = all_required-In local remote peer spec m o later differs delegate r in
      elim (Bool-cases (not (k == local) && s.is_delegate)) [
        | inl more ↦
            rw more
              (In-append_right o (required_refs t k remote) (all_required t local remote m) rest)
        | inr skip ↦ rw skip rest
      ]

  collect_empty :
      (remote : PeerId) (r : FilteredRef) (rs : List FilteredRef)
      → collect (wanted_refs t remote (r ∷ rs)) ≡ some []
      → ⊥
  collect_empty remote r rs h =
      let (n, tail, first, rest, same) =
        also-some (scoped t r.remote remote (owned_name t r.inner))
          (collect (wanted_refs t remote rs)) [] h in
      nil-ne-cons same

  -- Each required ref is found among the refs that were let through.
  required-found :
      (remote : PeerId) (r : FilteredRef) (rs : List FilteredRef) (required : List (Option Name))
      (o : Option Name)
      → guard_all t (collect required) (collect (wanted_refs t remote (r ∷ rs))) ≡ some (ok tt)
      → In o required
      → (x : FilteredRef) × In x (r ∷ rs) × (scoped t x.remote remote (owned_name t x.inner) ≡ o)
  required-found remote r rs required o h m =
      let (ns, ws, asked, offered, passed) =
        guard_all-ok t (collect required) (collect (wanted_refs t remote (r ∷ rs))) h in
      let (n, same, place) = collect-In required ns o asked m in
      elim ((guard_required_iff ns ws).0 passed) [
        | inl e ↦ absurd (collect_empty remote r rs (offered ∙ ap some e))
        | inr all ↦
            let (x, there, eq) =
              In-map (λ (x : FilteredRef). scoped t x.remote remote (owned_name t x.inner)) (some n)
                (r ∷ rs) (In-collect (wanted_refs t remote (r ∷ rs)) ws n offered (all n place)) in
            (x, there, sym eq ∙ sym same)
      ]

  -- When some refs were let through and the layout passes, then for each tracked delegate other than the
  -- local peer one of the refs is its `rad/id` and one is its `rad/signed_refs`, by their names at the remote.
  pub pre_validate_lem :
      (self : ForFetch) (r : FilteredRef) (rs : List FilteredRef) (peer : PeerId) (spec : Spec)
      → pre_validate t self (r ∷ rs) ≡ some (ok tt)
      → In (peer, spec) self.tracked
      → peer ≢ self.local_id
      → spec.is_delegate ≡ true
      → ((x : FilteredRef) × In x (r ∷ rs)
          × (scoped t x.remote self.remote_id (owned_name t x.inner)
              ≡ scoped t peer self.remote_id (rad_name t id)))
        × ((x : FilteredRef) × In x (r ∷ rs)
            × (scoped t x.remote self.remote_id (owned_name t x.inner)
                ≡ scoped t peer self.remote_id (rad_name t signed_refs)))
  unfolding pre_validate required_refs
  pre_validate_lem self r rs peer spec h m apart delegate =
      let required = all_required t self.local_id self.remote_id self.tracked in
      let inside = λ (o : Option Name) (k : In o (required_refs t peer self.remote_id)).
        all_required-In self.local_id self.remote_id peer spec self.tracked o m
          (==_apart peer self.local_id apart) delegate k in
      (
        required-found self.remote_id r rs required (scoped t peer self.remote_id (rad_name t id)) h
            (inside (scoped t peer self.remote_id (rad_name t id)) (inl refl)),
        required-found self.remote_id r rs required
            (scoped t peer self.remote_id (rad_name t signed_refs)) h
            (inside (scoped t peer self.remote_id (rad_name t signed_refs)) (inr (inl refl))),
      )
