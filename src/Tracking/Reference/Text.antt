-- ===== src/Tracking/Reference/Text.antt =====
-- The text of the names of link-tracking/src/git/tracking/reference.rs. How ids and peers are written
-- and read, in multibase, is a parameter; `X` is an error of the reading.
use radicle_link.Prelude.{
  ℕ, ◌≡◌, ◌≢◌, refl, inl, inr, true, false, ◌&&◌, Option, none, some, List, [], ◌∷◌, if◌then◌else◌,
  Result, ok, err, ◌>>=◌, map_err, Bool-cases,
}
use radicle_link.Net.Info.{PeerId}
use radicle_link.Refs.{
  RefError, same_chars, ref_format, check_all, check_counts, check_parts, check_part, check_chars,
  arm, ends_with, split,
}
use radicle_link.Refs.Valid.{same_chars_iff}
use radicle_link.Refs.Name.{Name, name_opts, push, try_from}
use radicle_link.Refs.Name.Laws.{HasNoSlash}
use radicle_link.Refs.Name.Valid.{IsValid, join-IsValid}
use radicle_link.Refs.Qualified.{from_refstr, non_empty_components}
use radicle_link.Refs.Qualified.Laws.{from_components_lem}
use radicle_link.Tracking.Reference.{Remote, default, peer, RefName}

pub record Encoding (X : Type 0) : Type 0 where
  pub encode_id : ℕ → Name
  pub decode_id : Name → Result X ℕ
  pub encode_peer : PeerId → Name
  pub decode_peer : Name → Result X PeerId

pub data ParseError (X : Type 0) : Type 0 where
  wrong_prefix extra missing_urn missing_remote bug : ParseError X
  bad_peer bad_urn : X → ParseError X
  not_a_ref : RefError → ParseError X

-- `rad`
abbrev pub rad : Name
rad = 114 ∷ 97 ∷ 100 ∷ []

-- `remotes`
abbrev pub remotes : Name
remotes = 114 ∷ 101 ∷ 109 ∷ 111 ∷ 116 ∷ 101 ∷ 115 ∷ []

-- `base`: `refs/rad/remotes`
abbrev pub base : Name
base =
    114 ∷ 101 ∷ 102 ∷ 115 ∷ 47 ∷ 114 ∷ 97 ∷ 100 ∷ 47 ∷ 114 ∷ 101 ∷ 109 ∷ 111 ∷ 116 ∷ 101 ∷ 115 ∷ []

-- `default`
abbrev pub default_text : Name
default_text = 100 ∷ 101 ∷ 102 ∷ 97 ∷ 117 ∷ 108 ∷ 116 ∷ []

base-IsValid : IsValid name_opts base
unfolding ref_format check_all check_counts check_parts check_part check_chars arm ends_with split
base-IsValid = refl

rad-HasNoSlash : HasNoSlash rad
rad-HasNoSlash = ((λ e. cc), ((λ e. cc), ((λ e. cc), tt)))

remotes-HasNoSlash : HasNoSlash remotes
remotes-HasNoSlash =
    ((λ e. cc), ((λ e. cc), ((λ e. cc), ((λ e. cc), ((λ e. cc), ((λ e. cc), ((λ e. cc), tt)))))))

default_text-HasNoSlash : HasNoSlash default_text
default_text-HasNoSlash =
    ((λ e. cc), ((λ e. cc), ((λ e. cc), ((λ e. cc), ((λ e. cc), ((λ e. cc), ((λ e. cc), tt)))))))

module _ {X : Type 0} (t : Encoding X) where
  -- `From<&Remote> for RefString`
  abbrev pub remote_text : Remote → Name
  remote_text default = default_text
  remote_text (peer p) = t.encode_peer p

  -- `FromStr for Remote`
  unfoldable pub parse_remote : Name → Result X Remote
  parse_remote s =
      if same_chars s default_text
      then ok default
      else (t.decode_peer s >>= (λ (p : PeerId). ok (peer p)))

  -- `From<&RefName> for RefString`
  abbrev pub to_text : RefName → Name
  to_text r = push (push base (t.encode_id r.urn)) (remote_text r.remote)

  abbrev pub no_more : RefName → List Name → Result (ParseError X) RefName
  no_more r [] = ok r
  no_more r (x ∷ tail) = err extra

  abbrev pub remote_then : ℕ → List Name → Result (ParseError X) RefName
  remote_then urn [] = err missing_remote
  remote_then urn (x ∷ tail) =
      map_err bad_peer (parse_remote x)
      >>= (λ (remote : Remote). no_more (record { remote = remote; urn = urn }) tail)

  -- From the component after `remotes` on.
  abbrev pub parse_tail : List Name → Result (ParseError X) RefName
  parse_tail [] = err missing_urn
  parse_tail (id ∷ tail) = map_err bad_urn (t.decode_id id) >>= (λ (urn : ℕ). remote_then urn tail)

  abbrev pub parse_prefix : Option (Name × Name × Name × List Name) → Result (ParseError X) RefName
  parse_prefix none = err bug
  parse_prefix (some (r, a, b, tail)) =
      if same_chars rad a && same_chars remotes b then parse_tail tail else err wrong_prefix

  abbrev pub parse_qualified : Option Name → Result (ParseError X) RefName
  parse_qualified none = err wrong_prefix
  parse_qualified (some q) = parse_prefix (non_empty_components q)

  -- `FromStr for RefName`
  unfoldable pub from_str : Name → Result (ParseError X) RefName
  from_str s =
      map_err not_a_ref (try_from s) >>= (λ (name : Name). parse_qualified (from_refstr name))

  -- The text of a remote is a valid component, and is read as the remote.
  abbrev pub IsRemoteText : Remote → Type 0
  IsRemoteText default = Unit {0}
  IsRemoteText (peer p) =
      HasNoSlash (t.encode_peer p)
      × IsValid name_opts (t.encode_peer p)
      × (t.encode_peer p ≢ default_text)
      × (t.decode_peer (t.encode_peer p) ≡ ok p)

  remote_text_lem :
      (r : Remote)
      → IsRemoteText r
      → HasNoSlash (remote_text r)
        × IsValid name_opts (remote_text r)
        × (parse_remote (remote_text r) ≡ ok r)
  unfolding parse_remote ref_format check_all check_counts check_parts check_part check_chars arm
      ends_with split
  remote_text_lem default h = (default_text-HasNoSlash, refl, refl)
  remote_text_lem (peer p) (whole, valid, apart, decodes) =
      elim (Bool-cases (same_chars (t.encode_peer p) default_text)) [
        | inl same ↦ absurd (apart ((same_chars_iff (t.encode_peer p) default_text).0 same))
        | inr other ↦ (whole, valid, (rw (other, parse_remote) (rw decodes refl)))
      ]

  -- The text of a tracking reference's name is read as the name, if the texts of its urn and its peer
  -- are valid components that are read as the urn and the peer, and the peer's is not `default`.
  pub from_str-to_text :
      (r : RefName)
      → HasNoSlash (t.encode_id r.urn)
      → IsValid name_opts (t.encode_id r.urn)
      → t.decode_id (t.encode_id r.urn) ≡ ok r.urn
      → IsRemoteText r.remote
      → from_str (to_text r) ≡ ok r
  unfolding from_str non_empty_components
  from_str-to_text r whole valid decodes remote =
      let (rwhole, rvalid, reads) = remote_text_lem r.remote remote in
      let id = t.encode_id r.urn in
      let text = remote_text r.remote in
      let id_valid : IsValid name_opts (push base id) =
        join-IsValid base id true false base-IsValid valid in
      let all_valid : IsValid name_opts (to_text r) =
        join-IsValid (push base id) text true false id_valid rvalid in
      let (qualified, parts) =
        from_components_lem rad remotes (id ∷ text ∷ []) rad-HasNoSlash remotes-HasNoSlash
          (whole, (rwhole, tt)) in
      rw (all_valid, from_str)
        (rw qualified (rw (parts, non_empty_components) (rw decodes (rw reads refl))))
