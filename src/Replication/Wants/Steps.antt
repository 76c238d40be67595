-- ===== src/Replication/Wants/Steps.antt =====
-- What looking at one tip tells of the ids to ask for (link-replication/src/transmit.rs).
use radicle_link.Prelude.{
  ◌≡◌, refl, sym, subst, ◌∙◌, ◌⊎◌, inl, inr, Bool, true, false, not, ◌==◌, Option, none, some, List,
  [], ◌∷◌, if◌then◌else◌, ok, Bool-cases, ==_iff, Map, insert, contains_key, get-insert, In, arith,
}
use radicle_link.Net.Info.{PeerId}
use radicle_link.Refs.Name.{Name}
use radicle_link.Tracking.Policy.{Oid}
use radicle_link.Replication.Wants.{FilteredRef, Store, BuildWantsHaves, want, have, look_up}

-- The tips that are looked at, the last one first.
abbrev pub signed_tips : List (Name × Oid) → List Oid → List Oid
signed_tips [] seen = seen
signed_tips ((name, tip) ∷ refs) seen = signed_tips refs (tip ∷ seen)

abbrev pub all_signed_tips : List (PeerId × List (Name × Oid)) → List Oid → List Oid
all_signed_tips [] seen = seen
all_signed_tips ((peer, refs) ∷ rest) seen = all_signed_tips rest (signed_tips refs seen)

abbrev pub filtered_tips : List FilteredRef → List Oid → List Oid
filtered_tips [] seen = seen
filtered_tips (r ∷ rs) seen = filtered_tips rs (r.tip ∷ seen)

-- The ids that are wanted.
abbrev pub wanted : Option (List Oid × List Oid) → List Oid
wanted none = []
wanted (some (wants, haves)) = wants

pub false-ne-true : ◌≡◌ {A = Bool} false true → ⊥
false-ne-true h = cc

pub not-true : (b : Bool) → not b ≡ true → b ≡ false
not-true true h = sym h
not-true false h = refl

contains_key-insert :
    (k j : Oid) (m : Map (Unit {0}))
    → contains_key j (insert k tt m) ≡ (if k == j then true else contains_key j m)
unfolding contains_key
contains_key-insert k j m = rw (get-insert k j tt m) (ground arith)

insert-key : (k : Oid) (m : Map (Unit {0})) → contains_key k (insert k tt m) ≡ true
insert-key k m = rw (contains_key-insert k k m) (ground arith)

insert_keeps :
    (k j : Oid) (m : Map (Unit {0}))
    → contains_key j m ≡ true
    → contains_key j (insert k tt m) ≡ true
insert_keeps k j m h = rw (contains_key-insert k j m, h) (ground arith)

module _ {E : Type 0} (db : Store E) where
  -- A ref of the store points to the id.
  abbrev pub Local : Oid → Type 0
  Local x = (name : Name) × (db.refname_to_id name ≡ ok (some x))

  -- What holds after some tips are looked at.
  pub record Asks (seen : List Oid) (w : BuildWantsHaves) : Type 0 where
    pub missing : (x : Oid) → contains_key x w.wants ≡ true → (db.contains x ≡ false) × In x seen
    pub local : (x : Oid) → contains_key x w.haves ≡ true → Local x
    pub covers :
        (x : Oid) → In x seen → (contains_key x w.wants ≡ true) ⊎ (db.contains x ≡ true) ⊎ Local x

module _ {E : Type 0} (db : Store E) where
  want_missing :
      (tip : Oid) (seen : List Oid) (w : BuildWantsHaves)
      → db.contains tip ≡ false
      → Asks db seen w
      → (x : Oid) → contains_key x (want tip w).wants ≡ true
      → (db.contains x ≡ false) × In x (tip ∷ seen)
  want_missing tip seen w absent a x h = elim (Bool-cases (tip == x)) [
    | inl here ↦
        let eq = (==_iff tip x).0 here in
        (subst (λ (y : Oid). db.contains y ≡ false) eq absent, inl (sym eq))
    | inr there ↦
        let m = a.missing x (sym (rw (contains_key-insert tip x w.wants, there) refl) ∙ h) in
        (m.0, inr m.1)
  ]

  want_covers :
      (tip : Oid) (seen : List Oid) (w : BuildWantsHaves)
      → Asks db seen w
      → (x : Oid) → In x (tip ∷ seen)
      → (contains_key x (want tip w).wants ≡ true) ⊎ (db.contains x ≡ true) ⊎ Local db x
  want_covers tip seen w a x (inl e) = inl (rw e (insert-key tip w.wants))
  want_covers tip seen w a x (inr m) = elim (a.covers x m) [
    | inl k ↦ inl (insert_keeps tip x w.wants k)
    | inr r ↦ inr r
  ]

  want-Asks :
      (tip : Oid) (seen : List Oid) (w : BuildWantsHaves)
      → db.contains tip ≡ false
      → Asks db seen w
      → Asks db (tip ∷ seen) (want tip w)
  want-Asks tip seen w absent a = record {
    missing = want_missing tip seen w absent a;
    local = a.local;
    covers = want_covers tip seen w a;
  }

  have_local :
      (oid : Oid) (w : BuildWantsHaves)
      → Local db oid
      → ((x : Oid) → contains_key x w.haves ≡ true → Local db x)
      → (x : Oid) → contains_key x (have oid w).haves ≡ true
      → Local db x
  have_local oid w here others x h = elim (Bool-cases (oid == x)) [
    | inl same ↦ subst (Local db) ((==_iff oid x).0 same) here
    | inr differs ↦ others x (sym (rw (contains_key-insert oid x w.haves, differs) refl) ∙ h)
  ]

  have-Asks :
      (oid : Oid) (seen : List Oid) (w : BuildWantsHaves)
      → Local db oid
      → Asks db seen w
      → Asks db seen (have oid w)
  have-Asks oid seen w here a = record {
    missing = a.missing;
    local = have_local oid w here a.local;
    covers = a.covers;
  }

  skip_covers :
      (tip : Oid) (seen : List Oid) (w : BuildWantsHaves)
      → (db.contains tip ≡ true) ⊎ Local db tip
      → Asks db seen w
      → (x : Oid) → In x (tip ∷ seen)
      → (contains_key x w.wants ≡ true) ⊎ (db.contains x ≡ true) ⊎ Local db x
  skip_covers tip seen w there a x (inl e) =
      inr (subst (λ (y : Oid). (db.contains y ≡ true) ⊎ Local db y) (sym e) there)
  skip_covers tip seen w there a x (inr m) = a.covers x m

  skip_missing :
      (tip : Oid) (seen : List Oid) (w : BuildWantsHaves)
      → Asks db seen w
      → (x : Oid) → contains_key x w.wants ≡ true
      → (db.contains x ≡ false) × In x (tip ∷ seen)
  skip_missing tip seen w a x h = ((a.missing x h).0, inr (a.missing x h).1)

  skip-Asks :
      (tip : Oid) (seen : List Oid) (w : BuildWantsHaves)
      → (db.contains tip ≡ true) ⊎ Local db tip
      → Asks db seen w
      → Asks db (tip ∷ seen) w
  skip-Asks tip seen w there a = record {
    missing = skip_missing tip seen w a;
    local = a.local;
    covers = skip_covers tip seen w there a;
  }

  pub look_up-Asks :
      (tip : Oid) (found : Option Oid) (seen : List Oid) (w : BuildWantsHaves)
      → ((oid : Oid) → found ≡ some oid → Local db oid)
      → Asks db seen w
      → Asks db (tip ∷ seen) (look_up db tip found w)
  unfolding look_up
  look_up-Asks tip none seen w here a = elim (Bool-cases (db.contains tip)) [
    | inl there ↦ rw there (skip-Asks tip seen w (inl there) a)
    | inr absent ↦ rw absent (want-Asks tip seen w absent a)
  ]
  look_up-Asks tip (some oid) seen w here a =
      let had = have-Asks oid seen w (here oid refl) a in
      elim (Bool-cases (tip == oid)) [
        | inl same ↦
            let eq = (==_iff tip oid).0 same in
            rw same (
              skip-Asks tip seen (have oid w) (inr (subst (Local db) (sym eq) (here oid refl))) had)
        | inr differs ↦ elim (Bool-cases (db.contains tip)) [
          | inl there ↦ rw (differs, there) (skip-Asks tip seen (have oid w) (inl there) had)
          | inr absent ↦ rw (differs, absent) (want-Asks tip seen (have oid w) absent had)
        ]
      ]
