-- ===== src/Replication/Validate/Laws.antt =====
-- What it means that nothing is wrong with the refs of a peer (link-replication/src/validation.rs).
use radicle_link.Prelude.{
  suc, ◌≡◌, refl, sym, ap, subst, ◌∙◌, ◌⊎◌, inl, inr, Bool, true, false, ◌==◌, List, [], ◌∷◌, ◌++◌,
  if◌then◌else◌, Result, ok, err, ok-injective, err-ne-ok, >>=-eq-ok, Bool-cases, In,
}
use radicle_link.Refs.Name.{Name}
use radicle_link.Tracking.Policy.{Oid}
use radicle_link.Replication.Names.{Texts, Rad, id, signed_refs, parse_qualified, owned_name}
use radicle_link.Replication.Peek.{contains}
use radicle_link.Replication.Validate.{
  Scanned, Validation, missing, no_data, missing_rad_id, missing_sig_refs, SigTree, Progress, see,
  see_all, missing_of, conclude, validate,
}
use radicle_link.Replication.Validate.Steps.{
  false-ne-true, cons-ne-nil, append_nil, OwnAs, FineAs, see_result-Tells,
}

module _ (t : Texts Name) (tree : SigTree) where
  -- One of the scanned refs is read as the given ref of the peer.
  abbrev pub OwnIn : {E : Type 0} → Rad Name ⊎ Name → List (Result E Scanned) → Type 0
  OwnIn inner items =
      (s : Scanned) × In (ok s) items × OwnAs t tree inner (parse_qualified t s.name)

  abbrev NamedIn : {E : Type 0} → Name → List (Result E Scanned) → Type 0
  NamedIn n items = (inner : Rad Name ⊎ Name) × OwnIn inner items × (owned_name t inner ≡ n)

  -- What the loop tells of all the refs that it sees.
  record AllTell {E : Type 0} (items : List (Result E Scanned)) (p q : Progress) : Type 0 where
    before : p.fail ≡ []
    fine : (s : Scanned) → In (ok s) items → FineAs t tree s.peeled (parse_qualified t s.name)
    rad_id : q.seen_rad_id ≡ true → (p.seen_rad_id ≡ true) ⊎ OwnIn (inl id) items
    sigrefs : q.seen_sigrefs ≡ true → (p.seen_sigrefs ≡ true) ⊎ OwnIn (inl signed_refs) items
    named : (n : Name) → contains n q.seen ≡ true → (contains n p.seen ≡ true) ⊎ NamedIn n items

module _ {E : Type 0} (t : Texts Name) (tree : SigTree) where
  one_fine :
      (s x : Scanned) (items : List (Result E Scanned))
      → FineAs t tree s.peeled (parse_qualified t s.name)
      → ((y : Scanned) → In (ok y) items → FineAs t tree y.peeled (parse_qualified t y.name))
      → In (ok x) (ok s ∷ items)
      → FineAs t tree x.peeled (parse_qualified t x.name)
  one_fine s x items here rest (inl e) =
      subst (λ (y : Scanned). FineAs t tree y.peeled (parse_qualified t y.name))
        (sym (ok-injective e)) here
  one_fine s x items here rest (inr m) = rest x m

  own_later :
      (inner : Rad Name ⊎ Name) (s : Scanned) (items : List (Result E Scanned)) (b c : Bool)
      → (c ≡ true → (b ≡ true) ⊎ OwnAs t tree inner (parse_qualified t s.name))
      → (c ≡ true) ⊎ OwnIn t tree inner items
      → (b ≡ true) ⊎ OwnIn t tree inner (ok s ∷ items)
  own_later inner s items b c here (inl e) = elim (here e) [
    | inl old ↦ inl old
    | inr own ↦ inr (s, inl refl, own)
  ]
  own_later inner s items b c here (inr (x, place, own)) = inr (x, inr place, own)

  named_later :
      (n : Name) (s : Scanned) (items : List (Result E Scanned)) (b c : Bool)
      → (c ≡ true
          → (b ≡ true)
            ⊎ ((inner : Rad Name ⊎ Name) × OwnAs t tree inner (parse_qualified t s.name)
                × (owned_name t inner ≡ n)))
      → (c ≡ true) ⊎ NamedIn t tree n items
      → (b ≡ true) ⊎ NamedIn t tree n (ok s ∷ items)
  named_later n s items b c here (inl e) = elim (here e) [
    | inl old ↦ inl old
    | inr (inner, own, eq) ↦ inr (inner, (s, inl refl, own), eq)
  ]
  named_later n s items b c here (inr (inner, (x, place, own), eq)) =
      inr (inner, (x, inr place, own), eq)

  see_all-AllTell :
      (items : List (Result E Scanned)) (p q : Progress)
      → see_all t tree items p ≡ ok q
      → q.fail ≡ []
      → AllTell t tree items p q
  unfolding see_all
  see_all-AllTell [] p q h clean = subst (AllTell t tree [] p) (ok-injective h) (record {
    before = ap (λ (x : Progress). x.fail) (ok-injective h) ∙ clean;
    fine = λ s m. absurd m;
    rad_id = λ e. inl e;
    sigrefs = λ e. inl e;
    named = λ n k. inl k;
  })
  see_all-AllTell (err e ∷ items) p q h clean = absurd (err-ne-ok h)
  see_all-AllTell (ok s ∷ items) p q h clean =
      let rest = see_all-AllTell items (see t tree s p) q h clean in
      let here =
        see_result-Tells t tree s (parse_qualified t s.name) (record p { count = suc p.count })
          rest.before in
      record {
        before = here.before;
        fine = λ x m. one_fine s x items here.fine rest.fine m;
        rad_id = λ e.
            own_later (inl id) s items p.seen_rad_id (see t tree s p).seen_rad_id here.rad_id
              (rest.rad_id e);
        sigrefs = λ e.
            own_later (inl signed_refs) s items p.seen_sigrefs (see t tree s p).seen_sigrefs
              here.sigrefs (rest.sigrefs e);
        named = λ n k.
            named_later n s items (contains n p.seen) (contains n (see t tree s p).seen)
              (here.named n) (rest.named n k);
      }

-- How the refs that were scanned agree with those that the peer signed.
pub record Matches {E : Type 0} (t : Texts Name) (tree : SigTree) (items : List (Result E Scanned))
    : Type 0 where
  pub fine : (s : Scanned) → In (ok s) items → FineAs t tree s.peeled (parse_qualified t s.name)
  pub rad_id : OwnIn t tree (inl id) items
  pub sigrefs : OwnIn t tree (inl signed_refs) items
  pub present :
      (n : Name) (tip : Oid)
      → In (n, tip) tree.refs.refs
      → (inner : Rad Name ⊎ Name) × OwnIn t tree inner items × (owned_name t inner ≡ n)

flag_nil : (b : Bool) (v : Validation) → (if b then [] else v ∷ []) ≡ [] → b ≡ true
flag_nil true v h = refl
flag_nil false v h = absurd (cons-ne-nil h)

missing_of_nil :
    (refs : List (Name × Oid)) (seen : List Name) (n : Name) (tip : Oid)
    → missing_of refs seen ≡ []
    → In (n, tip) refs
    → contains n seen ≡ true
unfolding missing_of
missing_of_nil [] seen n tip h m = absurd m
missing_of_nil ((name, oid) ∷ refs) seen n tip h m = elim (Bool-cases (contains name seen)) [
  | inl had ↦ elim m [
    | inl e ↦ ap (λ (x : Name × Oid). contains x.0 seen) e ∙ had
    | inr later ↦ missing_of_nil refs seen n tip (sym (rw had refl) ∙ h) later
  ]
  | inr absent ↦
      absurd (cons-ne-nil {x = missing name} {xs = missing_of refs seen} (sym (rw absent refl) ∙ h))
]

not_before : {A : Type 0} → (false ≡ true) ⊎ A → A
not_before (inl h) = absurd (false-ne-true h)
not_before (inr a) = a

module _ (t : Texts Name) (tree : SigTree) where
  -- The parts of a conclusion that finds nothing wrong.
  conclude_nil :
      (p : Progress)
      → conclude t tree p ≡ []
      → (p.fail ≡ [])
        × (p.seen_rad_id ≡ true)
        × (p.seen_sigrefs ≡ true)
        × (missing_of tree.refs.refs p.seen ≡ [])
  conclude_nil p h = elim (Bool-cases (p.count == 0)) [
    | inl none_seen ↦ absurd (
        cons-ne-nil {x = no_data} {xs = []}
          (append_nil p.fail (no_data ∷ []) (sym (rw none_seen refl) ∙ h)).1)
    | inr some_seen ↦
        let ids_part : List Validation = if p.seen_rad_id then [] else missing_rad_id ∷ [] in
        let sig_part : List Validation = if p.seen_sigrefs then [] else missing_sig_refs ∷ [] in
        let rest = missing_of tree.refs.refs p.seen in
        let eq : ((p.fail ++ ids_part) ++ sig_part) ++ rest ≡ [] = sym (rw some_seen refl) ∙ h in
        let all = append_nil ((p.fail ++ ids_part) ++ sig_part) rest eq in
        let most = append_nil (p.fail ++ ids_part) sig_part all.0 in
        let first = append_nil p.fail ids_part most.0 in
        (
          first.0,
          flag_nil p.seen_rad_id missing_rad_id first.1,
          flag_nil p.seen_sigrefs missing_sig_refs most.1,
          all.1,
        )
  ]

module _ {E : Type 0} (t : Texts Name) (tree : SigTree) where
  -- When `validate` finds nothing wrong, every scanned ref is well-formed, and one of the peer that is not
  -- a rad ref has the tip that was signed for it, and `rad/signed_refs` the tip at which the signed refs were
  -- read, while the tips of its other rad refs may be any; the peer's `rad/id` and `rad/signed_refs` are
  -- among the refs; and so is, at whatever tip if it is a rad ref, every ref that it signed.
  pub validate-Matches :
      (items : List (Result E Scanned)) → validate t tree items ≡ ok [] → Matches t tree items
  unfolding validate
  validate-Matches items h =
      let start : Progress = record {
        fail = [];
        count = 0;
        seen = [];
        seen_rad_id = false;
        seen_sigrefs = false;
      } in
      let finish : Progress → Result E (List Validation) = λ p. ok (conclude t tree p) in
      let (p, first, last) = >>=-eq-ok (see_all t tree items start) finish h in
      let (clean, has_id, has_sigrefs, complete) = conclude_nil t tree p (ok-injective last) in
      let told = see_all-AllTell t tree items start p first clean in
      record {
        fine = told.fine;
        rad_id = not_before (told.rad_id has_id);
        sigrefs = not_before (told.sigrefs has_sigrefs);
        present = λ n tip m.
            not_before (told.named n (missing_of_nil tree.refs.refs p.seen n tip complete m));
      }
