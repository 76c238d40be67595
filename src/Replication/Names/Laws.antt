-- ===== src/Replication/Names/Laws.antt =====
-- Names of refs in link-replication/src/refs, made for a peer and read back.
use radicle_link.Prelude.{
  ◌≡◌, ◌≢◌, refl, sym, ap, ◌∙◌, inl, inr, false, Option, none, some, List, ◌∷◌, ◌++◌, All, ok,
  Bool-cases,
}
use mathlib.Core.Option.{some-injective}
use radicle_link.Net.Info.{PeerId}
use radicle_link.Refs.{same_chars, split}
use radicle_link.Refs.Valid.{same_chars_iff}
use radicle_link.Refs.Name.{Name, push, join, from_iter}
use radicle_link.Refs.Name.Laws.{
  HasNoSlash, split-join, split_whole, from_iter-components, components-from_iter,
}
use radicle_link.Refs.Qualified.{refs, namespaces, three, non_empty_components}
use radicle_link.Tracking.Reference.Text.{rad, remotes}
use radicle_link.Replication.Names.{
  Texts, refs_name, owned_from, owned, tracked_name, into_from, into_remote_tracking, tracking_from,
  tracking_loop, remote_tracking, parse_inner, parse_data, parse_owned, parsed_as, parse_remote,
  parse_from, parse_qualified,
}

some-ne-none : {A : Type 0} {a : A} → ◌≢◌ {A = Option A} (some a) none
some-ne-none h = cc

pub differs : (a b : Name) → a ≢ b → same_chars a b ≡ false
differs a b h = elim (Bool-cases (same_chars a b)) [
  | inl same ↦ absurd (h ((same_chars_iff a b).0 same))
  | inr apart ↦ apart
]

-- A name `refs/<category>/<name>` of data, which is neither a remote's, nor namespaced, nor below
-- `rad`.
pub record IsData (q category x : Name) (tail : List Name) : Type 0 where
  pub parts : split q ≡ refs ∷ category ∷ x ∷ tail
  pub whole : All HasNoSlash (category ∷ x ∷ tail)
  pub not_remotes : remotes ≢ category
  pub not_namespaces : namespaces ≢ category
  pub not_rad : rad ≢ category

refs_whole : HasNoSlash refs
refs_whole = ((λ e. cc), ((λ e. cc), ((λ e. cc), ((λ e. cc), tt))))

remotes_whole : HasNoSlash remotes
remotes_whole =
    ((λ e. cc), ((λ e. cc), ((λ e. cc), ((λ e. cc), ((λ e. cc), ((λ e. cc), ((λ e. cc), tt)))))))

join_parts : (c t : Name) → HasNoSlash c → split (join c t) ≡ c ∷ split t
join_parts c t h = split-join c t ∙ ap (λ l. l ++ split t) (split_whole c h)

-- `refs/remotes/<peer>/<category>/<rest>`
abbrev pub below_remote : Name → Name → Name → Name
below_remote peer category rest = refs_name remotes (push (push peer category) rest)

below_remote_parts :
    (peer category rest : Name)
    → HasNoSlash peer
    → HasNoSlash category
    → split (below_remote peer category rest) ≡ refs ∷ remotes ∷ peer ∷ category ∷ split rest
below_remote_parts peer category rest hp hc =
    join_parts refs (join remotes (push (push peer category) rest)) refs_whole
    ∙ ap (λ l. refs ∷ l) (join_parts remotes (push (push peer category) rest) remotes_whole)
    ∙ ap (λ l. refs ∷ remotes ∷ l)
        (split-join (push peer category) rest
          ∙ ap (λ l. l ++ split rest)
              (join_parts peer category hp ∙ ap (λ l. peer ∷ l) (split_whole category hc)))

same_split : (a b : Name) → split a ≡ split b → a ≡ b
same_split a b h =
    some-injective _ _ (sym (from_iter-components a) ∙ ap from_iter h ∙ from_iter-components b)

-- A name of these components is `refs/<category>/<rest>`.
pub data_rest :
    (q category x : Name) (tail : List Name)
    → split q ≡ refs ∷ category ∷ x ∷ tail
    → All HasNoSlash (category ∷ x ∷ tail)
    → (rest : Name) × (from_iter (x ∷ tail) ≡ some rest)
      × (split rest ≡ x ∷ tail)
      × (refs_name category rest ≡ q)
data_rest q category x tail named whole =
    let (rest, collects, parts) = components-from_iter x tail whole.1 in
    let again : split (refs_name category rest) ≡ refs ∷ category ∷ x ∷ tail =
      join_parts refs (join category rest) refs_whole
      ∙ ap (λ l. refs ∷ l) (join_parts category rest whole.0 ∙ ap (λ l. category ∷ l) parts) in
    (rest, collects, parts, same_split (refs_name category rest) q (again ∙ sym named))

owned-data : (q category x : Name) (tail : List Name) → IsData q category x tail → owned q ≡ some q
unfolding owned non_empty_components
owned-data q category x tail h =
    ap (λ l. owned_from q (three l)) h.parts
    ∙ (rw (differs namespaces category h.not_namespaces)
        (rw (differs remotes category h.not_remotes) refl))

module _ {U : Type 0} (t : Texts U) where
  abbrev pub IsPeer : PeerId → Type 0
  IsPeer peer = HasNoSlash (t.encode_peer peer) × (t.decode_peer (t.encode_peer peer) ≡ some peer)

  into_remote_tracking-data :
      (peer : PeerId) (q category x : Name) (tail : List Name)
      → IsData q category x tail
      → HasNoSlash (t.encode_peer peer)
      → (n : Name) × (into_remote_tracking t peer q ≡ some n)
        × (split n ≡ refs ∷ remotes ∷ t.encode_peer peer ∷ category ∷ x ∷ tail)
  unfolding into_remote_tracking non_empty_components
  into_remote_tracking-data peer q category x tail h whole =
      let (rest, collects, parts, eq) = data_rest q category x tail h.parts h.whole in
      (
        below_remote (t.encode_peer peer) category rest,
        ap (λ l. into_from t peer (three l)) h.parts
            ∙ (rw (collects, into_from, tracked_name) refl),
        below_remote_parts (t.encode_peer peer) category rest whole h.whole.0
            ∙ ap (λ l. refs ∷ remotes ∷ t.encode_peer peer ∷ category ∷ l) parts,
      )

  parse_inner-data :
      (q category x : Name) (tail : List Name)
      → IsData q category x tail
      → parse_inner t (category ∷ x ∷ tail) ≡ some (inr q)
  unfolding parse_inner
  parse_inner-data q category x tail h =
      let (rest, collects, parts, eq) = data_rest q category x tail h.parts h.whole in
      rw (differs rad category h.not_rad, parse_inner)
        (rw (collects, parse_data) (rw eq (ap (parse_owned t) (owned-data q category x tail h))))

  -- A data name that was made into a remote tracking branch of a peer is read as the name and the
  -- peer.
  pub parse-into_remote_tracking :
      (peer : PeerId) (q category x : Name) (tail : List Name)
      → IsPeer peer
      → IsData q category x tail
      → (n : Name) × (into_remote_tracking t peer q ≡ some n)
        × (parse_qualified t n ≡ ok (record { remote = some peer; inner = inr q }))
  unfolding parse_qualified non_empty_components
  parse-into_remote_tracking peer q category x tail p h =
      let (n, made, parts) = into_remote_tracking-data peer q category x tail h p.0 in
      (
        n,
        made,
        ap (λ l. parse_from t (three l)) parts
            ∙ ap (λ d. parse_remote t d (category ∷ x ∷ tail)) p.1
            ∙ ap (parsed_as t (some peer)) (parse_inner-data q category x tail h),
      )

  -- `remote_tracking` makes a data name a remote tracking branch of the peer, and one of another peer
  -- the same, not itself.
  pub remote_tracking-into_remote_tracking :
      (peer another : PeerId) (q category x : Name) (tail : List Name)
      → HasNoSlash (t.encode_peer peer)
      → HasNoSlash (t.encode_peer another)
      → IsData q category x tail
      → (n m : Name) × (into_remote_tracking t peer q ≡ some n)
        × (into_remote_tracking t another q ≡ some m)
        × (remote_tracking t peer q ≡ some (some n))
        × (remote_tracking t peer m ≡ some (some n))
  unfolding remote_tracking tracking_loop non_empty_components into_remote_tracking
  remote_tracking-into_remote_tracking peer another q category x tail hp ha h =
      let (n, made, parts) = into_remote_tracking-data peer q category x tail h hp in
      let (m, made_m, parts_m) = into_remote_tracking-data another q category x tail h ha in
      let tracked : tracked_name t peer category (x ∷ tail) ≡ some n =
        sym (ap (λ l. into_from t peer (three l)) h.parts) ∙ made in
      (
        n,
        m,
        made,
        made_m,
        ap (λ l. tracking_from t (tracking_loop t 1 peer) peer q (three l)) h.parts
            ∙ (rw (differs remotes category h.not_remotes)
                (rw (differs namespaces category h.not_namespaces) (ap some tracked))),
        ap (λ l. tracking_from t (tracking_loop t 1 peer) peer m (three l)) parts_m
            ∙ ap some tracked,
      )
