-- ===== src/Replication/Fetch/Signed.antt =====
-- What a fetch leaves of the refs of its peers (link-replication/src/fetch.rs, refdb/mem.rs), in terms of
-- the names as they are written.
use radicle_link.Prelude.{
  ◌≡◌, ◌≢◌, refl, sym, ap, ◌∙◌, inl, inr, Bool, true, false, not, ◌&&◌, ◌||◌, ◌==◌, Option, none,
  some, List, [], ◌∷◌, ◌++◌, if◌then◌else◌, Result, ok, err, Bool-cases, Map, All,
}
use radicle_link.Net.Info.{PeerId}
use radicle_link.Refs.{same_chars, split}
use radicle_link.Refs.Valid.{same_chars_iff}
use radicle_link.Refs.Name.{Name, strip}
use radicle_link.Refs.Name.Laws.{HasNoSlash, append_assoc}
use radicle_link.Refs.Qualified.{
  refs, namespaces, three, from_refstr, qualified_from, non_empty_components,
}
use radicle_link.Tracking.Policy.{Oid}
use radicle_link.Tracking.Reference.Text.{remotes}
use radicle_link.Replication.Names.{
  Texts, refs_name, tracked_name, tracking_from, tracking_loop, remote_tracking,
}
use radicle_link.Replication.Names.Laws.{differs, data_rest}
use radicle_link.Replication.Refdb.{Update, starts_with, Mem, find, update}
use radicle_link.Replication.Sigrefs.{SignedAt}
use radicle_link.Replication.Peek.{contains}
use radicle_link.Replication.Wants.{tracking_of}
use radicle_link.Replication.Fetch.{
  Fetch, Known, peer_prefix, rad_prefix, names_of, track_all, prepare,
}
use radicle_link.Replication.Fetch.Laws.{
  false-ne-true, latest, latest_absent, latest_present, is_known, settled, settle_read, settle_all,
  prepare-settle_all,
}

-- Whether a text begins with another.
unfoldable pub begins : Name → Name → Bool
begins [] s = true
begins (c ∷ p) [] = false
begins (c ∷ p) (d ∷ s) = let rest = begins p s in if c == d then rest else false

starts_with-begins : (p s : Name) → starts_with p s ≡ begins p s
unfolding strip begins
starts_with-begins [] s = refl
starts_with-begins (c ∷ p) [] = refl
starts_with-begins (c ∷ p) (d ∷ s) = elim (Bool-cases (c == d)) [
  | inl same ↦ rw (same, starts_with) (starts_with-begins p s)
  | inr apart ↦ rw (apart, starts_with) refl
]

-- A name `refs/<category>/<name>` that is neither a remote's nor namespaced; it may be one of `rad`.
pub record IsOwn (q : Name) : Type 0 where
  pub category : Name
  pub first : Name
  pub tail : List Name
  pub parts : split q ≡ refs ∷ category ∷ first ∷ tail
  pub whole : All HasNoSlash (category ∷ first ∷ tail)
  pub not_remotes : remotes ≢ category
  pub not_namespaces : namespaces ≢ category

-- What follows the four characters of `refs`.
abbrev pub after_refs : Name → Name
after_refs (r ∷ e ∷ f ∷ s ∷ rest) = rest
after_refs (r ∷ e ∷ f ∷ []) = []
after_refs (r ∷ e ∷ []) = []
after_refs (r ∷ []) = []
after_refs [] = []

-- Whether the scan found a ref of a name.
abbrev pub is_scanned : {E : Type 0} → Name → List (Result E Known) → Bool
is_scanned m [] = false
is_scanned m (err e ∷ items) = is_scanned m items
is_scanned m (ok k ∷ items) = let rest = is_scanned m items in same_chars k.name m || rest

abbrev pub AllOwn : Map SignedAt → Type 0
AllOwn [] = Unit
AllOwn ((peer, s) ∷ m) = All (λ (pair : Name × Oid). IsOwn pair.0) s.refs × AllOwn m

-- With the tests of a known ref as they come out.
known_tests :
    (spared spared_m same rest : Bool)
    → (same ≡ true → spared ≡ spared_m)
    → ((not spared && same) || (not spared_m && rest)) ≡ (not spared_m && (same || rest))
known_tests true true true rest h = refl
known_tests true true false rest h = refl
known_tests true false true rest h = absurd (false-ne-true (sym (h refl)))
known_tests true false false rest h = refl
known_tests false true true rest h = absurd (false-ne-true (h refl))
known_tests false true false rest h = refl
known_tests false false true rest h = refl
known_tests false false false rest h = refl

and_false : (b : Bool) → false ≡ (b && false)
and_false true = refl
and_false false = refl

is_known-scanned :
    {E : Type 0} (p m : Name) (items : List (Result E Known))
    → is_known p m items ≡ (not (begins p m) && is_scanned m items)
is_known-scanned p m [] = and_false (not (begins p m))
is_known-scanned p m (err e ∷ items) = is_known-scanned p m items
is_known-scanned p m (ok k ∷ items) =
    ap (λ (b : Bool). (not b && same_chars k.name m) || is_known p m items)
      (starts_with-begins p k.name)
    ∙ ap (λ (b : Bool). (not (begins p k.name) && same_chars k.name m) || b)
        (is_known-scanned p m items)
    ∙ known_tests (begins p k.name) (begins p m) (same_chars k.name m) (is_scanned m items)
        (λ same. ap (begins p) ((same_chars_iff k.name m).0 same))

module _ (t : Texts Name) where
  -- `refs/remotes/<peer>`, `refs/remotes/<peer>/rad` and `refs/remotes/<peer>/<rest>` of `refs/<rest>`.
  abbrev pub peer_text : PeerId → Name
  peer_text peer =
      114 ∷ 101 ∷ 102 ∷ 115 ∷ 47 ∷ 114 ∷ 101 ∷ 109 ∷ 111 ∷ 116 ∷ 101 ∷ 115 ∷ 47 ∷ t.encode_peer peer

  abbrev pub spared_text : PeerId → Name
  spared_text peer = peer_text peer ++ 47 ∷ 114 ∷ 97 ∷ 100 ∷ []

  abbrev pub placed : PeerId → List (Name × Oid) → List (Name × Oid)
  placed peer [] = []
  placed peer ((name, tip) ∷ pairs) = (peer_text peer ++ after_refs name, tip) ∷ placed peer pairs

  -- What is left at a name of what the scan found.
  abbrev pub left : {E : Type 0} → PeerId → Name → List (Result E Known) → Option Oid → Option Oid
  left peer m items old =
      if not (begins (spared_text peer) m) && is_scanned m items then none else old

  -- What a peer's refs leave at a name: the tip that it signs for it last, or else what the scan leaves.
  abbrev pub settled_by :
      {E : Type 0}
      → PeerId
      → Name
      → List (Name × Oid)
      → Result E (List (Result E Known))
      → Option Oid
      → Option Oid
  settled_by peer m pairs (err e) old = old
  settled_by peer m pairs (ok items) old = latest m (placed peer pairs) (left peer m items old)

  tracking_of-own :
      (peer : PeerId) (q : Name)
      → IsOwn q
      → tracking_of t peer q ≡ some (some (peer_text peer ++ after_refs q))
  unfolding from_refstr remote_tracking tracking_loop non_empty_components
  tracking_of-own peer q h =
      let (rest, collects, parts, eq) = data_rest q h.category h.first h.tail h.parts h.whole in
      let named : from_refstr q ≡ some q = ap (qualified_from q) h.parts in
      let placed_at : tracked_name t peer h.category (h.first ∷ h.tail)
          ≡ some (peer_text peer ++ after_refs (refs_name h.category rest)) =
        rw (collects, tracked_name)
          (ap
            (λ n.
              some (114 ∷ 101 ∷ 102 ∷ 115 ∷ 47 ∷ 114 ∷ 101 ∷ 109 ∷ 111 ∷ 116 ∷ 101 ∷ 115 ∷ 47 ∷ n))
            (append_assoc (t.encode_peer peer) (47 ∷ h.category) (47 ∷ rest))) in
      rw (named, tracking_of)
        (ap (λ l. tracking_from t (tracking_loop t 1 peer) peer q (three l)) h.parts
          ∙ (rw (differs remotes h.category h.not_remotes) (
              rw (differs namespaces h.category h.not_namespaces)
                (ap some placed_at ∙ ap (λ n. some (some (peer_text peer ++ after_refs n))) eq))))

module _ {E : Type 0} (t : Texts Name) (scan : Name → Result E (List (Result E Known))) where
  track_all-own :
      (peer : PeerId) (pairs : List (Name × Oid))
      → All (λ (pair : Name × Oid). IsOwn pair.0) pairs
      → track_all t scan peer pairs ≡ ok (placed t peer pairs)
  unfolding track_all
  track_all-own peer [] h = refl
  track_all-own peer ((name, tip) ∷ pairs) (own, rest) =
      rw (tracking_of-own t peer name own) (rw (track_all-own peer pairs rest) refl)

  settled-left :
      (peer : PeerId) (m : Name) (tracked : List (Name × Oid)) (items : List (Result E Known))
      (old : Option Oid)
      → settled (rad_prefix t peer) m tracked items old ≡ latest m tracked (left t peer m items old)
  settled-left peer m tracked items old = elim (Bool-cases (contains m (names_of tracked))) [
    | inl signed ↦
        rw (signed, settled) (latest_present m tracked none (left t peer m items old) signed)
    | inr absent ↦
        rw (absent, settled)
          (ap (λ (b : Bool). if b then none else old) (is_known-scanned (rad_prefix t peer) m items)
            ∙ sym (latest_absent m tracked (left t peer m items old) absent))
  ]

  settle_read-settled_by :
      (peer : PeerId) (m : Name) (pairs : List (Name × Oid)) (r : Result E (List (Result E Known)))
      (old : Option Oid)
      → settle_read t scan peer m (ok (placed t peer pairs)) r old ≡ settled_by t peer m pairs r old
  settle_read-settled_by peer m pairs (err e) old = refl
  settle_read-settled_by peer m pairs (ok items) old =
      settled-left peer m (placed t peer pairs) items old

  -- What all peers in turn leave at a name.
  abbrev pub settled_by_all : Name → Map SignedAt → Option Oid → Option Oid
  settled_by_all m [] old = old
  settled_by_all m ((peer, s) ∷ rest) old =
      settled_by_all m rest (settled_by t peer m s.refs (scan (peer_text t peer)) old)

  settle_all-settled_by_all :
      (m : Name) (all : Map SignedAt) (old : Option Oid)
      → AllOwn all
      → settle_all t scan m all old ≡ settled_by_all m all old
  settle_all-settled_by_all m [] old h = refl
  settle_all-settled_by_all m ((peer, s) ∷ all) old (own, rest) =
      ap
        (λ r. settle_all t scan m all (settle_read t scan peer m r (scan (peer_prefix t peer)) old))
        (track_all-own peer s.refs own)
      ∙ ap (settle_all t scan m all)
          (settle_read-settled_by peer m s.refs (scan (peer_prefix t peer)) old)
      ∙ settle_all-settled_by_all m all (settled_by t peer m s.refs (scan (peer_text t peer)) old)
          rest

  -- Where every signed ref has a name `refs/<category>/<name>` of neither a remote nor a namespace, and
  -- `prepare` succeeds, its updates applied to the refs in memory settle the peers one after the other:
  -- `refs/remotes/<peer>/<rest>` gets the tip that the peer signs last for `refs/<rest>`; a ref that the
  -- scan below `refs/remotes/<peer>` found, that the peer does not sign, and whose name does not begin
  -- with `refs/remotes/<peer>/rad` is gone; and any other ref is as it was.
  pub prepare-settled_by_all :
      (self : Fetch) (ups : List Update) (m : Name) (mem : Mem)
      → AllOwn self.signed.refs
      → prepare t scan self ≡ ok ups
      → find m (update ups mem).1 ≡ settled_by_all m self.signed.refs (find m mem)
  prepare-settled_by_all self ups m mem own h =
      prepare-settle_all t scan self ups m mem h
      ∙ settle_all-settled_by_all m self.signed.refs (find m mem) own
