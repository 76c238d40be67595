-- ===== src/Replication/Validate/Steps.antt =====
-- What a ref tells when nothing is wrong with it (link-replication/src/validation.rs).
use radicle_link.Prelude.{
  ◌≡◌, refl, sym, ap, ◌∙◌, ◌⊎◌, inl, inr, Bool, true, false, ◌==◌, ==_iff, Option, none, some, List,
  [], ◌∷◌, ◌++◌, Result, ok, err, Bool-cases,
}
use radicle_link.Net.Info.{PeerId}
use radicle_link.Refs.{same_chars}
use radicle_link.Refs.Valid.{same_chars_iff}
use radicle_link.Refs.Name.{Name}
use radicle_link.Tracking.Policy.{Oid}
use radicle_link.Replication.Names.{
  Texts, Rad, id, selv, signed_refs, ids, Parsed, ParseError, owned_name,
}
use radicle_link.Replication.Refdb.{find}
use radicle_link.Replication.Peek.{contains}
use radicle_link.Replication.Validate.{
  Scanned, mismatched_tips, SigTree, Progress, same_remote, check_tip, check_data, see_parsed,
  see_result,
}

pub false-ne-true : ◌≡◌ {A = Bool} false true → ⊥
false-ne-true h = cc

pub cons-ne-nil : {A : Type 0} {x : A} {xs : List A} → x ∷ xs ≡ [] → ⊥
cons-ne-nil h = cc

pub append_nil : {A : Type 0} (xs ys : List A) → xs ++ ys ≡ [] → (xs ≡ []) × (ys ≡ [])
append_nil [] ys h = (refl, h)
append_nil (x ∷ xs) ys h = absurd (cons-ne-nil h)

check_tip_nil :
    (expected actual : Oid) (name : Name) → check_tip expected actual name ≡ [] → actual ≡ expected
check_tip_nil expected actual name h = elim (Bool-cases (expected == actual)) [
  | inl same ↦ sym ((==_iff expected actual).0 same)
  | inr differs ↦
      absurd (
        cons-ne-nil {x = mismatched_tips expected actual name} {xs = []}
          (sym (rw differs refl) ∙ h))
]

check_data_nil :
    (found : Option Oid) (actual : Oid) (name : Name)
    → check_data found actual name ≡ []
    → found ≡ some actual
check_data_nil none actual name h = absurd (cons-ne-nil h)
check_data_nil (some tip) actual name h = ap some (sym (check_tip_nil tip actual name h))

module _ (t : Texts Name) (tree : SigTree) where
  -- What is asked of a ref's tip: the signed one of data, and where `rad/signed_refs` was read; the tips
  -- of the other rad refs are not compared.
  abbrev pub TipMatches : Oid → Rad Name ⊎ Name → Type 0
  TipMatches oid (inl id) = Unit {0}
  TipMatches oid (inl selv) = Unit {0}
  TipMatches oid (inl (ids urn)) = Unit {0}
  TipMatches oid (inl signed_refs) = oid ≡ tree.refs.at
  TipMatches oid (inr name) = find name tree.refs.refs ≡ some oid

  -- A ref is read as one of the peer, namely the given one.
  abbrev pub OwnAs : Rad Name ⊎ Name → Result ParseError (Parsed Name) → Type 0
  OwnAs inner (err e) = ⊥
  OwnAs inner (ok parsed) = (same_remote parsed.remote tree.id ≡ true) × (parsed.inner ≡ inner)

  -- A ref is read, and is of another peer or has the tip that is asked of it.
  abbrev pub FineAs : Oid → Result ParseError (Parsed Name) → Type 0
  FineAs oid (err e) = ⊥
  FineAs oid (ok parsed) = (same_remote parsed.remote tree.id ≡ false) ⊎ TipMatches oid parsed.inner

  -- What a step tells of the ref that it sees.
  pub record Tells (s : Scanned) (res : Result ParseError (Parsed Name)) (p q : Progress)
      : Type 0 where
    pub before : p.fail ≡ []
    pub fine : FineAs s.peeled res
    pub rad_id : q.seen_rad_id ≡ true → (p.seen_rad_id ≡ true) ⊎ OwnAs (inl id) res
    pub sigrefs : q.seen_sigrefs ≡ true → (p.seen_sigrefs ≡ true) ⊎ OwnAs (inl signed_refs) res
    pub named :
        (n : Name)
        → contains n q.seen ≡ true
        → (contains n p.seen ≡ true)
          ⊎ ((inner : Rad Name ⊎ Name) × OwnAs inner res × (owned_name t inner ≡ n))

  seen_named :
      (n : Name) (p : Progress) (remote : Option PeerId) (inner : Rad Name ⊎ Name)
      → same_remote remote tree.id ≡ true
      → contains n (owned_name t inner ∷ p.seen) ≡ true
      → (contains n p.seen ≡ true)
        ⊎ ((x : Rad Name ⊎ Name) × OwnAs x (ok (record { remote = remote; inner = inner }))
            × (owned_name t x ≡ n))
  seen_named n p remote inner own h = elim (Bool-cases (same_chars n (owned_name t inner))) [
    | inl same ↦ inr (inner, (own, refl), sym ((same_chars_iff n (owned_name t inner)).0 same))
    | inr differs ↦ inl (sym (rw differs refl) ∙ h)
  ]

  see_parsed-Tells :
      (s : Scanned) (remote : Option PeerId) (inner : Rad Name ⊎ Name) (p : Progress)
      → same_remote remote tree.id ≡ true
      → (see_parsed t tree s.peeled (record { remote = remote; inner = inner }) p).fail ≡ []
      → Tells s
          (ok (record { remote = remote; inner = inner }))
          p
          (see_parsed t tree s.peeled (record { remote = remote; inner = inner }) p)
  see_parsed-Tells s remote (inl id) p own h = record {
    before = h;
    fine = inr tt;
    rad_id = λ e. inr (own, refl);
    sigrefs = λ e. inl e;
    named = λ n k. seen_named n p remote (inl id) own k;
  }
  see_parsed-Tells s remote (inl selv) p own h = record {
    before = h;
    fine = inr tt;
    rad_id = λ e. inl e;
    sigrefs = λ e. inl e;
    named = λ n k. seen_named n p remote (inl selv) own k;
  }
  see_parsed-Tells s remote (inl (ids urn)) p own h = record {
    before = h;
    fine = inr tt;
    rad_id = λ e. inl e;
    sigrefs = λ e. inl e;
    named = λ n k. seen_named n p remote (inl (ids urn)) own k;
  }
  see_parsed-Tells s remote (inl signed_refs) p own h =
      let name = owned_name t (inl signed_refs) in
      let parts = append_nil p.fail (check_tip tree.refs.at s.peeled name) h in
      record {
        before = parts.0;
        fine = inr (check_tip_nil tree.refs.at s.peeled name parts.1);
        rad_id = λ e. inl e;
        sigrefs = λ e. inr (own, refl);
        named = λ n k. seen_named n p remote (inl signed_refs) own k;
      }
  see_parsed-Tells s remote (inr name) p own h =
      let parts = append_nil p.fail (check_data (find name tree.refs.refs) s.peeled name) h in
      record {
        before = parts.0;
        fine = inr (check_data_nil (find name tree.refs.refs) s.peeled name parts.1);
        rad_id = λ e. inl e;
        sigrefs = λ e. inl e;
        named = λ n k. seen_named n p remote (inr name) own k;
      }

  pub see_result-Tells :
      (s : Scanned) (res : Result ParseError (Parsed Name)) (p : Progress)
      → (see_result t tree s res p).fail ≡ []
      → Tells s res p (see_result t tree s res p)
  see_result-Tells s (err e) p h = absurd (cons-ne-nil (append_nil p.fail _ h).1)
  see_result-Tells s (ok parsed) p h = elim (Bool-cases (same_remote parsed.remote tree.id)) [
    | inl own ↦ rw own (see_parsed-Tells s parsed.remote parsed.inner p own (sym (rw own refl) ∙ h))
    | inr other ↦ rw other (record {
      before = sym (rw other refl) ∙ h;
      fine = inl other;
      rad_id = λ e. inl e;
      sigrefs = λ e. inl e;
      named = λ n k. inl k;
    })
  ]
