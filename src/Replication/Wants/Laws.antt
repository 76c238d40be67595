-- ===== src/Replication/Wants/Laws.antt =====
-- What is asked of a peer, against what the store has (link-replication/src/transmit.rs and fetch.rs).
use radicle_link.Prelude.{
  ◌≡◌, refl, sym, ap, subst, ◌∙◌, ◌⊎◌, inl, inr, true, false, not, Option, none, some, List, [],
  ◌∷◌, Result, ok, err, ok-injective, err-ne-ok, >>=-eq-ok, Bool-cases, Result-cases, get,
  contains_key, keys, filter, In, In-filter, filter-In, In-keys, keys-In, ◌>>=◌,
}
use radicle_link.Net.Info.{PeerId}
use radicle_link.Refs.Name.{Name}
use radicle_link.Tracking.Policy.{Oid}
use radicle_link.Replication.Names.{Texts}
use radicle_link.Replication.Wants.{
  FilteredRef, WantsError, find_failed, Store, BuildWantsHaves, build, non_empty, want_ref,
  add_tracked, to_remote_tracking, add, tracking_of, signed_tracked, add_signed, add_all_signed,
  nothing_yet, wants_haves,
}
use radicle_link.Replication.Wants.Steps.{
  Asks, Local, all_signed_tips, false-ne-true, filtered_tips, look_up-Asks, not-true, signed_tips,
  wanted,
}

module _ {E : Type 0} (db : Store E) where
  want_ref-Asks :
      (name : Name) (tip : Oid) (seen : List Oid) (w v : BuildWantsHaves)
      → want_ref db name tip w ≡ ok v
      → Asks db seen w
      → Asks db (tip ∷ seen) v
  unfolding want_ref
  want_ref-Asks name tip seen w v h a = elim (Result-cases (db.refname_to_id name)) [
    | inl (found, e) ↦
        subst (Asks db (tip ∷ seen)) (ok-injective (sym (rw (e, want_ref) refl) ∙ h))
          (look_up-Asks db tip found seen w (λ oid same. (name, e ∙ ap ok same)) a)
    | inr (failed, e) ↦
        let chain : ◌≡◌ {A = Result (WantsError E) BuildWantsHaves} (err (find_failed failed))
            (ok v) =
          sym (rw (e, want_ref) refl) ∙ h in
        absurd (err-ne-ok chain)
  ]

  module _ (t : Texts Name) where
    add_tracked-Asks :
        (name : Option (Option Name)) (tip : Oid) (seen : List Oid) (w v : BuildWantsHaves)
        → add_tracked db t name tip w ≡ ok v
        → Asks db seen w
        → Asks db (tip ∷ seen) v
    add_tracked-Asks none tip seen w v h a = absurd (err-ne-ok h)
    add_tracked-Asks (some none) tip seen w v h a = absurd (err-ne-ok h)
    add_tracked-Asks (some (some name)) tip seen w v h a = want_ref-Asks name tip seen w v h a

    add-Asks :
        (rs : List FilteredRef) (seen : List Oid) (w v : BuildWantsHaves)
        → add db t rs w ≡ ok v
        → Asks db seen w
        → Asks db (filtered_tips rs seen) v
    unfolding add
    add-Asks [] seen w v h a = subst (Asks db seen) (ok-injective h) a
    add-Asks (r ∷ rs) seen w v h a =
        let (u, first, next) =
          >>=-eq-ok (add_tracked db t (to_remote_tracking t r) r.tip w)
            (λ (w' : BuildWantsHaves). add db t rs w') h in
        add-Asks rs (r.tip ∷ seen) u v next
          (add_tracked-Asks (to_remote_tracking t r) r.tip seen w u first a)

    signed_tracked-Asks :
        (name : Name) (tracking : Option (Option Name)) (tip : Oid) (seen : List Oid)
        (w v : BuildWantsHaves)
        → signed_tracked db t name tracking tip w ≡ ok v
        → Asks db seen w
        → Asks db (tip ∷ seen) v
    signed_tracked-Asks name none tip seen w v h a = absurd (err-ne-ok h)
    signed_tracked-Asks name (some none) tip seen w v h a = absurd (err-ne-ok h)
    signed_tracked-Asks name (some (some tracking)) tip seen w v h a =
        want_ref-Asks tracking tip seen w v h a

    add_signed-Asks :
        (peer : PeerId) (refs : List (Name × Oid)) (seen : List Oid) (w v : BuildWantsHaves)
        → add_signed db t peer refs w ≡ ok v
        → Asks db seen w
        → Asks db (signed_tips refs seen) v
    unfolding add_signed
    add_signed-Asks peer [] seen w v h a = subst (Asks db seen) (ok-injective h) a
    add_signed-Asks peer ((name, tip) ∷ refs) seen w v h a =
        let (u, first, next) =
          >>=-eq-ok (signed_tracked db t name (tracking_of t peer name) tip w)
            (λ (w' : BuildWantsHaves). add_signed db t peer refs w') h in
        add_signed-Asks peer refs (tip ∷ seen) u v next
          (signed_tracked-Asks name (tracking_of t peer name) tip seen w u first a)

    add_all_signed-Asks :
        (signed : List (PeerId × List (Name × Oid))) (seen : List Oid) (w v : BuildWantsHaves)
        → add_all_signed db t signed w ≡ ok v
        → Asks db seen w
        → Asks db (all_signed_tips signed seen) v
    unfolding add_all_signed
    add_all_signed-Asks [] seen w v h a = subst (Asks db seen) (ok-injective h) a
    add_all_signed-Asks ((peer, refs) ∷ rest) seen w v h a =
        let (u, first, next) =
          >>=-eq-ok (add_signed db t peer refs w)
            (λ (w' : BuildWantsHaves). add_all_signed db t rest w') h in
        add_all_signed-Asks rest (signed_tips refs seen) u v next
          (add_signed-Asks peer refs seen w u first a)

  nothing_yet-Asks : Asks db [] nothing_yet
  unfolding contains_key get
  nothing_yet-Asks = record {
    missing = λ x h. absurd (false-ne-true h);
    local = λ x h. absurd (false-ne-true h);
    covers = λ x h. absurd h;
  }

wanted_eq : (haves wants : List Oid) → wanted (non_empty haves wants) ≡ wants
wanted_eq haves [] = refl
wanted_eq haves (x ∷ wants) = refl

-- The ids to ask for are exactly those that are wanted and no ref of the store points to.
wanted-build :
    (w : BuildWantsHaves) (x : Oid)
    → In x (wanted (build w))
    → (contains_key x w.wants ≡ true) × (contains_key x w.haves ≡ false)
unfolding build
wanted-build w x h =
    let absent = λ (oid : Oid). not (contains_key oid w.haves) in
    let m =
      In-filter x absent (keys w.wants)
        (subst (In x) (wanted_eq (keys w.haves) (filter absent (keys w.wants))) h) in
    (In-keys x w.wants m.0, not-true (contains_key x w.haves) m.1)

build-wanted :
    (w : BuildWantsHaves) (x : Oid)
    → contains_key x w.wants ≡ true
    → contains_key x w.haves ≡ false
    → In x (wanted (build w))
unfolding build
build-wanted w x h n =
    let absent = λ (oid : Oid). not (contains_key oid w.haves) in
    subst (In x) (sym (wanted_eq (keys w.haves) (filter absent (keys w.wants))))
      (filter-In x absent (keys w.wants) (keys-In x w.wants h) (ap not n))

module _ {E : Type 0} (db : Store E) where
  build_covers :
      (x : Oid) (seen : List Oid) (w : BuildWantsHaves)
      → Asks db seen w
      → In x seen
      → In x (wanted (build w)) ⊎ (db.contains x ≡ true) ⊎ Local db x
  build_covers x seen w a m = elim (a.covers x m) [
    | inl k ↦ elim (Bool-cases (contains_key x w.haves)) [
      | inl had ↦ inr (inr (a.local x had))
      | inr absent ↦ inl (build-wanted w x k absent)
    ]
    | inr r ↦ inr r
  ]

  -- The answer to the tips: what is asked for is a tip that is not in the store, and each tip is asked
  -- for, in the store, or what a ref of the store points to.
  pub record Answers (tips : List Oid) (answer : Option (List Oid × List Oid)) : Type 0 where
    pub asked : (x : Oid) → In x (wanted answer) → (db.contains x ≡ false) × In x tips
    pub answered :
        (x : Oid) → In x tips → In x (wanted answer) ⊎ (db.contains x ≡ true) ⊎ Local db x

  build-Answers : (seen : List Oid) (w : BuildWantsHaves) → Asks db seen w → Answers seen (build w)
  build-Answers seen w a = record {
    asked = λ x m. a.missing x (wanted-build w x m).0;
    answered = λ x m. build_covers x seen w a m;
  }

  -- When `wants_haves` succeeds, its answer asks only for tips of the signed and of the filtered refs that
  -- are not in the store; and each of these tips is asked for, or is in the store already, or is the id
  -- that some ref of the store points to.
  pub wants_haves_lem :
      (t : Texts Name) (filtered : List FilteredRef) (signed : List (PeerId × List (Name × Oid)))
      (answer : Option (List Oid × List Oid))
      → wants_haves db t filtered signed ≡ ok answer
      → Answers (filtered_tips filtered (all_signed_tips signed [])) answer
  unfolding wants_haves
  wants_haves_lem t filtered signed answer h =
      let (w, first, next) =
        >>=-eq-ok (add_all_signed db t signed nothing_yet)
          (λ (w : BuildWantsHaves). add db t filtered w >>= (λ (v : BuildWantsHaves). ok (build v)))
          h in
      let (v, second, last) =
        >>=-eq-ok (add db t filtered w) (λ (v : BuildWantsHaves). ok (build v)) next in
      let tips = filtered_tips filtered (all_signed_tips signed []) in
      subst (Answers tips) (ok-injective last) (
        build-Answers tips v (
          add-Asks db t filtered (all_signed_tips signed []) w v second
            (add_all_signed-Asks db t signed [] nothing_yet w first (nothing_yet-Asks db))))
