-- ===== src/Replication/Fetch/Laws.antt =====
-- What the updates of a fetch leave in the refs in memory (link-replication/src/fetch.rs, refdb/mem.rs).
use radicle_link.Prelude.{
  ◌≡◌, refl, sym, ap, ◌∙◌, ◌⊎◌, inl, inr, Bool, true, false, not, ◌&&◌, ◌||◌, Option, none, some,
  List, [], ◌∷◌, ◌++◌, if◌then◌else◌, Result, ok, err, ◌>>=◌, ok-injective, err-ne-ok, >>=-eq-ok,
  Bool-cases, Map,
}
use radicle_link.Net.Info.{PeerId}
use radicle_link.Refs.{same_chars}
use radicle_link.Refs.Valid.{same_chars_iff}
use radicle_link.Refs.Name.{Name}
use radicle_link.Tracking.Policy.{Oid}
use radicle_link.Replication.Names.{Texts}
use radicle_link.Replication.Refdb.{Update, prune, starts_with, Mem, find, update}
use radicle_link.Replication.Refdb.Laws.{effects, find-update, effects-append}
use radicle_link.Replication.Sigrefs.{SignedAt}
use radicle_link.Replication.Peek.{contains}
use radicle_link.Replication.Fetch.{
  Fetch, Known, PrepareError, peer_prefix, rad_prefix, directs, names_of, prune_known, prunes,
  prunes_of, track_all, prepare_peer, prepare_all, prepare,
}

pub false-ne-true : ◌≡◌ {A = Bool} false true → ⊥
false-ne-true h = cc

or_false : (b c : Bool) → (b || c) ≡ false → (b ≡ false) × (c ≡ false)
or_false true c h = absurd (false-ne-true (sym h))
or_false false c h = (refl, h)

-- The last tip that is signed for a name.
abbrev pub latest : Name → List (Name × Oid) → Option Oid → Option Oid
latest m [] old = old
latest m ((name, tip) ∷ tracked) old =
    latest m tracked (if same_chars name m then some tip else old)

-- A scanned ref of the name outside the rad category.
abbrev pub is_known : {E : Type 0} → Name → Name → List (Result E Known) → Bool
is_known rad m [] = false
is_known rad m (err e ∷ items) = is_known rad m items
is_known rad m (ok k ∷ items) =
    let rest = is_known rad m items in (not (starts_with rad k.name) && same_chars k.name m) || rest

-- What the updates for a peer leave at a name: the signed tip, nothing where a known ref is not signed, or
-- what was there.
abbrev pub settled :
    {E : Type 0} → Name → Name → List (Name × Oid) → List (Result E Known) → Option Oid → Option Oid
settled rad m tracked items old =
    if contains m (names_of tracked)
    then latest m tracked none
    else if is_known rad m items
    then none
    else old

pub same_chars_sym : (n m : Name) → same_chars n m ≡ same_chars m n
same_chars_sym n m = elim (Bool-cases (same_chars n m)) [
  | inl same ↦ same ∙ sym ((same_chars_iff m n).1 (sym ((same_chars_iff n m).0 same)))
  | inr differs ↦ elim (Bool-cases (same_chars m n)) [
    | inl back ↦
        absurd
          (false-ne-true (sym differs ∙ (same_chars_iff n m).1 (sym ((same_chars_iff m n).0 back))))
    | inr there ↦ differs ∙ sym there
  ]
]

effects-directs :
    (m : Name) (tracked : List (Name × Oid)) (old : Option Oid)
    → effects m (directs tracked) old ≡ latest m tracked old
effects-directs m [] old = refl
effects-directs m ((name, tip) ∷ tracked) old =
    effects-directs m tracked (if same_chars name m then some tip else old)

pub latest_absent :
    (m : Name) (tracked : List (Name × Oid)) (old : Option Oid)
    → contains m (names_of tracked) ≡ false
    → latest m tracked old ≡ old
latest_absent m [] old h = refl
latest_absent m ((name, tip) ∷ tracked) old h =
    let parts = or_false (same_chars m name) (contains m (names_of tracked)) h in
    ap (λ (b : Bool). latest m tracked (if b then some tip else old))
      (same_chars_sym name m ∙ parts.0)
    ∙ latest_absent m tracked old parts.1

pub latest_present :
    (m : Name) (tracked : List (Name × Oid)) (old other : Option Oid)
    → contains m (names_of tracked) ≡ true
    → latest m tracked old ≡ latest m tracked other
latest_present m [] old other h = absurd (false-ne-true h)
latest_present m ((name, tip) ∷ tracked) old other h = elim (Bool-cases (same_chars m name)) [
  | inl same ↦ rw (same_chars_sym name m, same) refl
  | inr differs ↦
      latest_present m tracked (if same_chars name m then some tip else old)
        (if same_chars name m then some tip else other) (sym (rw differs refl) ∙ h)
]

if_same : (b : Bool) (old : Option Oid) → (if b then old else old) ≡ old
if_same true old = refl
if_same false old = refl

-- With the tests of `prune_known` as they come out.
effects_prune :
    (m name : Name) (target : Oid ⊎ Name) (s c d : Bool) (old : Option Oid)
    → (same_chars name m ≡ true → d ≡ c)
    → effects m (if s then [] else if c then [] else prune name target ∷ []) old
      ≡ (if d then old else if not s && same_chars name m then none else old)
effects_prune m name target true c d old h = sym (if_same d old)
effects_prune m name target false true d old h = elim (Bool-cases (same_chars name m)) [
  | inl same ↦ rw (h same) refl
  | inr differs ↦ rw differs (sym (if_same d old))
]
effects_prune m name target false false d old h = elim (Bool-cases (same_chars name m)) [
  | inl same ↦ rw (h same) refl
  | inr differs ↦ rw differs (sym (if_same d old))
]

effects-prune_known :
    (m rad : Name) (signed : List Name) (known : Known) (old : Option Oid)
    → effects m (prune_known rad signed known) old ≡ (
        if contains m signed
        then old
        else if not (starts_with rad known.name) && same_chars known.name m
        then none
        else old)
effects-prune_known m rad signed known old =
    effects_prune m known.name known.target (starts_with rad known.name)
      (contains known.name signed) (contains m signed) old
      (λ same. ap (λ (n : Name). contains n signed) (sym ((same_chars_iff known.name m).0 same)))

prune_again :
    (s b c : Bool) (old : Option Oid)
    → (let first = (if s then old else if b then none else old) in
        if s then first else if c then none else first)
      ≡ (if s then old else if b || c then none else old)
prune_again true b c old = refl
prune_again false true true old = refl
prune_again false true false old = refl
prune_again false false c old = refl

effects-prunes :
    {E : Type 0} (m rad : Name) (signed : List Name) (items : List (Result E Known))
    (ups : List Update) (old : Option Oid)
    → prunes rad signed items ≡ ok ups
    → effects m ups old
      ≡ (if contains m signed then old else if is_known rad m items then none else old)
unfolding prunes
effects-prunes m rad signed [] ups old h =
    sym (ap (λ (us : List Update). effects m us old) (ok-injective h))
    ∙ sym (if_same (contains m signed) old)
effects-prunes m rad signed (err e ∷ items) ups old h = absurd (err-ne-ok h)
effects-prunes {E} m rad signed (ok known ∷ items) ups old h =
    let join : List Update → Result (PrepareError E) (List Update) =
      λ rest. ok (prune_known rad signed known ++ rest) in
    let (rest, found, last) = >>=-eq-ok (prunes rad signed items) join h in
    let first = effects m (prune_known rad signed known) old in
    sym (ap (λ (us : List Update). effects m us old) (ok-injective last))
    ∙ effects-append m (prune_known rad signed known) rest old
    ∙ effects-prunes m rad signed items rest first found
    ∙ ap
        (λ (o : Option Oid).
          if contains m signed then o else if is_known rad m items then none else o)
        (effects-prune_known m rad signed known old)
    ∙ prune_again (contains m signed) (not (starts_with rad known.name) && same_chars known.name m)
        (is_known rad m items) old

prunes_of_ok :
    {E : Type 0} (rad : Name) (signed : List Name) (r : Result E (List (Result E Known)))
    (ups : List Update)
    → prunes_of rad signed r ≡ ok ups
    → (items : List (Result E Known)) × (r ≡ ok items) × (prunes rad signed items ≡ ok ups)
prunes_of_ok rad signed (err e) ups h = absurd (err-ne-ok h)
prunes_of_ok rad signed (ok items) ups h = (items, refl, h)

settle_join :
    (m : Name) (tracked : List (Name × Oid)) (k : Bool) (old : Option Oid)
    → (let signed = latest m tracked old in
        if contains m (names_of tracked) then signed else if k then none else signed)
      ≡ (if contains m (names_of tracked) then latest m tracked none else if k then none else old)
settle_join m tracked k old = elim (Bool-cases (contains m (names_of tracked))) [
  | inl signed ↦ rw signed (latest_present m tracked old none signed)
  | inr absent ↦
      rw absent
        (ap (λ (o : Option Oid). if k then none else o) (latest_absent m tracked old absent))
]

module _ {E : Type 0} (t : Texts Name) (scan : Name → Result E (List (Result E Known))) where
  -- What the source reads for a peer: its signed refs as they are tracked, and the scan below its prefix.
  abbrev pub ReadFor :
      PeerId → List (Name × Oid) → List (Name × Oid) → List (Result E Known) → Type 0
  ReadFor peer pairs tracked items =
      (track_all t scan peer pairs ≡ ok tracked) × (scan (peer_prefix t peer) ≡ ok items)

  prepare_peer-parts :
      (peer : PeerId) (pairs : List (Name × Oid)) (ups : List Update)
      → prepare_peer t scan peer pairs ≡ ok ups
      → (tracked : List (Name × Oid)) × (items : List (Result E Known)) × ReadFor peer pairs tracked
          items
        × ((m : Name) (old : Option Oid)
            → effects m ups old ≡ settled (rad_prefix t peer) m tracked items old)
  unfolding prepare_peer
  prepare_peer-parts peer pairs ups h =
      let join : List (Name × Oid) → List Update → Result (PrepareError E) (List Update) =
        λ tracked pruned. ok (directs tracked ++ pruned) in
      let (tracked, first, next) =
        >>=-eq-ok (track_all t scan peer pairs)
          (λ (tracked : List (Name × Oid)).
            prunes_of (rad_prefix t peer) (names_of tracked) (scan (peer_prefix t peer))
            >>= join tracked)
          h in
      let (pruned, second, last) =
        >>=-eq-ok (prunes_of (rad_prefix t peer) (names_of tracked) (scan (peer_prefix t peer)))
          (join tracked) next in
      let (items, found, passed) =
        prunes_of_ok (rad_prefix t peer) (names_of tracked) (scan (peer_prefix t peer)) pruned
          second in
      (
        tracked,
        items,
        (first, found),
        λ m old.
            sym (ap (λ (us : List Update). effects m us old) (ok-injective last))
            ∙ effects-append m (directs tracked) pruned old
            ∙ ap (effects m pruned) (effects-directs m tracked old)
            ∙ effects-prunes m (rad_prefix t peer) (names_of tracked) items pruned
                (latest m tracked old) passed
            ∙ settle_join m tracked (is_known (rad_prefix t peer) m items) old,
      )

  -- When `prepare` succeeds for a peer and its updates are applied to the refs in memory, each name has the
  -- last tip that the peer signs for it, where there is one; no ref, where the scan found one outside the
  -- rad category that is not signed; and what it had, anywhere else.
  pub prepare_peer-settled :
      (peer : PeerId) (pairs : List (Name × Oid)) (ups : List Update)
      → prepare_peer t scan peer pairs ≡ ok ups
      → (tracked : List (Name × Oid)) × (items : List (Result E Known)) × ReadFor peer pairs tracked
          items
        × ((m : Name) (mem : Mem)
            → find m (update ups mem).1 ≡ settled (rad_prefix t peer) m tracked items (find m mem))
  prepare_peer-settled peer pairs ups h =
      let (tracked, items, read, eq) = prepare_peer-parts peer pairs ups h in
      (tracked, items, read, λ m mem. find-update m ups mem ∙ eq m (find m mem))

  -- What is settled for a peer when its refs are read, and for all peers in turn.
  abbrev pub settle_read :
      PeerId
      → Name
      → Result (PrepareError E) (List (Name × Oid))
      → Result E (List (Result E Known))
      → Option Oid
      → Option Oid
  settle_read peer m (err e) items old = old
  settle_read peer m (ok tracked) (err e) old = old
  settle_read peer m (ok tracked) (ok items) old = settled (rad_prefix t peer) m tracked items old

  abbrev pub settle_all : Name → Map SignedAt → Option Oid → Option Oid
  settle_all m [] old = old
  settle_all m ((peer, s) ∷ rest) old =
      settle_all m rest
        (settle_read peer m (track_all t scan peer s.refs) (scan (peer_prefix t peer)) old)

  prepare_all-effects :
      (m : Name) (all : Map SignedAt) (ups : List Update) (old : Option Oid)
      → prepare_all t scan all ≡ ok ups
      → effects m ups old ≡ settle_all m all old
  unfolding prepare_all
  prepare_all-effects m [] ups old h =
      sym (ap (λ (us : List Update). effects m us old) (ok-injective h))
  prepare_all-effects m ((peer, s) ∷ all) ups old h =
      let join : List Update → List Update → Result (PrepareError E) (List Update) =
        λ first rest. ok (first ++ rest) in
      let (first, here, next) =
        >>=-eq-ok (prepare_peer t scan peer s.refs)
          (λ (first : List Update). prepare_all t scan all >>= join first) h in
      let (rest, there, last) = >>=-eq-ok (prepare_all t scan all) (join first) next in
      let (tracked, items, read, eq) = prepare_peer-parts peer s.refs first here in
      sym (ap (λ (us : List Update). effects m us old) (ok-injective last))
      ∙ effects-append m first rest old
      ∙ prepare_all-effects m all rest (effects m first old) there
      ∙ ap (settle_all m all) (eq m old ∙ (rw (read.0, read.1) refl))

  -- What the updates of `prepare` leave, in the code's own terms.
  pub prepare-settle_all :
      (self : Fetch) (ups : List Update) (m : Name) (mem : Mem)
      → prepare t scan self ≡ ok ups
      → find m (update ups mem).1 ≡ settle_all m self.signed.refs (find m mem)
  prepare-settle_all self ups m mem h =
      find-update m ups mem ∙ prepare_all-effects m self.signed.refs ups (find m mem) h
