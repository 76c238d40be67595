-- ===== src/Replication/Names.antt =====
-- link-replication/src/refs.rs, refs/parsed.rs and refs/scoped.rs: the names of the refs of a peer. How
-- peers and urns are written is a parameter.
pub mod Laws
use radicle_link.Prelude.{
  ℕ, zero, suc, ◌⊎◌, inl, inr, Bool, true, false, ◌==◌, Option, none, some, List, [], ◌∷◌,
  if◌then◌else◌, Result, ok, err, ◌>>=◌,
}
use radicle_link.Net.Info.{PeerId}
use radicle_link.Refs.{RefError, same_chars}
use radicle_link.Refs.Name.{Name, push, join, components, from_iter, try_from}
use radicle_link.Refs.Qualified.{
  refs, namespaces, three, from_refstr, non_empty_components, namespaced, strip_namespace_recursive,
}
use radicle_link.Tracking.Reference.Text.{rad, remotes}

-- `PeerId::default_encoding` and `FromStr for PeerId`, and the trait `Urn` of ids.rs.
pub record Texts (U : Type 0) : Type 0 where
  pub encode_peer : PeerId → Name
  pub decode_peer : Name → Option PeerId
  pub encode_id : U → Name
  pub try_from_id : Name → Option U

-- `id`, `self`, `signed_refs` and `ids`
abbrev pub id_name : Name
id_name = 105 ∷ 100 ∷ []

abbrev pub self_name : Name
self_name = 115 ∷ 101 ∷ 108 ∷ 102 ∷ []

abbrev pub signed_refs_name : Name
signed_refs_name = 115 ∷ 105 ∷ 103 ∷ 110 ∷ 101 ∷ 100 ∷ 95 ∷ 114 ∷ 101 ∷ 102 ∷ 115 ∷ []

abbrev pub ids_name : Name
ids_name = 105 ∷ 100 ∷ 115 ∷ []

pub data Rad (U : Type 0) : Type 0 where
  id selv signed_refs : Rad U
  ids : U → Rad U

pub record Parsed (U : Type 0) : Type 0 where
  pub remote : Option PeerId
  pub inner : Rad U ⊎ Name

pub data ParseError : Type 0 where
  unqualified namespaced_name bad_peer other : ParseError
  malformed : RefError → ParseError

-- `Qualified::from((lit::Refs, cat, name))`
abbrev pub refs_name : Name → Name → Name
refs_name category name = push (join refs category) name

-- `owned`
abbrev pub owned_tail : List Name → Option Name
owned_tail [] = none
owned_tail (category ∷ []) = none
owned_tail (category ∷ x ∷ tail) = elim (from_iter (x ∷ tail)) [
  | none ↦ none
  | some name ↦ some (refs_name category name)
]

abbrev pub owned_from : Name → Option (Name × Name × Name × List Name) → Option Name
owned_from name none = none
owned_from name (some (r, category, x, tail)) =
    if same_chars namespaces category
    then none
    else if same_chars remotes category
    then owned_tail tail
    else some name

unfoldable pub owned : Name → Option Name
owned name = owned_from name (non_empty_components name)

module _ {U : Type 0} (t : Texts U) where
  -- `refs/remotes/<peer>/<category>/<name>`, of a name's components.
  abbrev pub tracked_name : PeerId → Name → List Name → Option Name
  tracked_name peer category rest = elim (from_iter rest) [
    | none ↦ none
    | some name ↦ some (refs_name remotes (push (push (t.encode_peer peer) category) name))
  ]

  -- `Owned::into_remote_tracking`; `none` is a panic, of a name that is not qualified.
  abbrev pub into_from : PeerId → Option (Name × Name × Name × List Name) → Option Name
  into_from peer none = none
  into_from peer (some (r, category, name, tail)) = tracked_name peer category (name ∷ tail)

  unfoldable pub into_remote_tracking : PeerId → Name → Option Name
  into_remote_tracking peer name = into_from peer (non_empty_components name)

  abbrev pub tracking_tail : PeerId → List Name → Option (Option Name)
  tracking_tail peer [] = some none
  tracking_tail peer (category ∷ []) = some none
  tracking_tail peer (category ∷ x ∷ tail) = some (tracked_name peer category (x ∷ tail))

  -- A round of `remote_tracking`, which calls itself once the namespaces are stripped.
  abbrev pub tracking_from :
      (Name → Option (Option Name))
      → PeerId
      → Name
      → Option (Name × Name × Name × List Name)
      → Option (Option Name)
  tracking_from again peer name none = none
  tracking_from again peer name (some (r, category, x, tail)) =
      if same_chars remotes category
      then tracking_tail peer tail
      else if same_chars namespaces category
      then elim (namespaced name) [
        | none ↦ none
        | some ns ↦ elim (strip_namespace_recursive ns) [ none ↦ none | some rest ↦ again rest ]
      ]
      else some (tracked_name peer category (x ∷ tail))

  unfoldable pub tracking_loop : ℕ → PeerId → Name → Option (Option Name)
  tracking_loop zero peer name = none
  tracking_loop (suc fuel) peer name =
      tracking_from (tracking_loop fuel peer) peer name (non_empty_components name)

  -- `remote_tracking`: the outer `none` is a panic. What is left of a name without its namespaces has
  -- none, so that the second round is the last.
  unfoldable pub remote_tracking : PeerId → Name → Option (Option Name)
  remote_tracking peer name = tracking_loop 2 peer name

  -- `scoped`, as a name.
  unfoldable pub scoped : PeerId → PeerId → Name → Option Name
  scoped wanted remote name =
      if wanted == remote then some name else into_remote_tracking wanted name

  -- `From<Rad> for Qualified`
  abbrev pub rad_name : Rad U → Name
  rad_name id = push (join refs rad) id_name
  rad_name selv = push (join refs rad) self_name
  rad_name signed_refs = push (join refs rad) signed_refs_name
  rad_name (ids urn) = push (push (join refs rad) ids_name) (t.encode_id urn)

  -- `Parsed::to_owned`
  abbrev pub owned_name : Rad U ⊎ Name → Name
  owned_name (inl r) = rad_name r
  owned_name (inr name) = name

  abbrev pub parse_ids : Option U → List Name → Option (Rad U ⊎ Name)
  parse_ids none tail = none
  parse_ids (some urn) [] = some (inl (ids urn))
  parse_ids (some urn) (x ∷ tail) = none

  -- The part of `parse_inner` after `rad`.
  abbrev pub parse_rad : List Name → Option (Rad U ⊎ Name)
  parse_rad [] = none
  parse_rad (x ∷ []) =
      if same_chars x id_name
      then some (inl id)
      else if same_chars x self_name
      then some (inl selv)
      else if same_chars x signed_refs_name
      then some (inl signed_refs)
      else none
  parse_rad (x ∷ y ∷ tail) =
      if same_chars x ids_name then parse_ids (t.try_from_id y) tail else none

  abbrev pub parse_owned : Option Name → Option (Rad U ⊎ Name)
  parse_owned none = none
  parse_owned (some name) = some (inr name)

  abbrev pub parse_data : Name → List Name → Option (Rad U ⊎ Name)
  parse_data x [] = none
  parse_data x (y ∷ tail) = elim (from_iter (y ∷ tail)) [
    | none ↦ none
    | some name ↦ parse_owned (owned (refs_name x name))
  ]

  unfoldable pub parse_inner : List Name → Option (Rad U ⊎ Name)
  parse_inner [] = none
  parse_inner (x ∷ tail) = if same_chars rad x then parse_rad tail else parse_data x tail

  abbrev pub parsed_as : Option PeerId → Option (Rad U ⊎ Name) → Result ParseError (Parsed U)
  parsed_as remote none = err other
  parsed_as remote (some inner) = ok (record { remote = remote; inner = inner })

  abbrev pub parse_remote : Option PeerId → List Name → Result ParseError (Parsed U)
  parse_remote none tail = err bad_peer
  parse_remote (some peer) tail = parsed_as (some peer) (parse_inner tail)

  abbrev pub parse_from : Option (Name × Name × Name × List Name) → Result ParseError (Parsed U)
  parse_from none = err unqualified
  parse_from (some (r, category, x, tail)) =
      if same_chars namespaces category
      then err namespaced_name
      else if same_chars remotes category
      then parse_remote (t.decode_peer x) tail
      else parsed_as none (parse_inner (category ∷ x ∷ tail))

  -- `TryFrom<Qualified> for Parsed`
  unfoldable pub parse_qualified : Name → Result ParseError (Parsed U)
  parse_qualified name = parse_from (non_empty_components name)

  abbrev pub parse_checked : Result RefError Name → Result ParseError (Parsed U)
  parse_checked (err e) = err (malformed e)
  parse_checked (ok name) = elim (from_refstr name) [
    | none ↦ err unqualified
    | some q ↦ parse_qualified q
  ]

  -- `parse`, of valid UTF-8.
  unfoldable pub parse : Name → Result ParseError (Parsed U)
  parse name = parse_checked (try_from name)
