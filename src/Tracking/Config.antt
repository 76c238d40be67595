-- ===== src/Tracking/Config.antt =====
-- link-tracking/src/config.rs, config/cobs.rs and git/config.rs: which references a peer is tracked for.
-- The types and the ids of objects are numbers in their order; how they are parsed is a parameter.
pub mod Laws
use radicle_link.Prelude.{
  ℕ, suc, Bool, true, false, ◌&&◌, Option, none, some, List, [], ◌∷◌, if◌then◌else◌, any, Map, get,
  insert, remove, contains_key,
}
use radicle_link.Refs.{same_chars}
use radicle_link.Refs.Name.{Name}
use radicle_link.Refs.Qualified.{non_empty_components}

pub data TypeName : Type 0 where
  wildcard : TypeName
  type_name : ℕ → TypeName

-- The order of `TypeName`: the wildcard first, then the types.
abbrev pub type_key : TypeName → ℕ
type_key wildcard = 0
type_key (type_name ty) = suc ty

pub data Policy : Type 0 where
  allow deny : Policy

abbrev pub inverse : Policy → Policy
inverse allow = deny
inverse deny = allow

abbrev pub ObjectIds : Type 0
ObjectIds = Map (Unit {0})

pub data Pattern : Type 0 where
  everything : Pattern
  objects : ObjectIds → Pattern

-- `Pattern::matches`
abbrev pub matches : Pattern → ℕ → Bool
matches everything id = true
matches (objects ids) id = contains_key id ids

pub record Filter : Type 0 where
  pub policy : Policy
  pub pattern : Pattern

abbrev pub Cobs : Type 0
Cobs = Map Filter

abbrev pub allow_all : Cobs
allow_all = insert (type_key wildcard) (record { policy = allow; pattern = everything }) []

abbrev pub deny_all : Cobs
deny_all = insert (type_key wildcard) (record { policy = deny; pattern = everything }) []

-- `Cobs::get`
abbrev pub get_filter : ℕ → Cobs → Option Filter
get_filter ty cobs = get (type_key (type_name ty)) cobs

-- `Cobs::wildcard`
abbrev pub wildcard_filter : Cobs → Option Filter
wildcard_filter cobs = get (type_key wildcard) cobs

-- `Cobs::insert`, with what was there before.
abbrev pub insert_filter : TypeName → Filter → Cobs → Option Filter × Cobs
insert_filter ty f cobs = (get (type_key ty) cobs, insert (type_key ty) f cobs)

abbrev pub remove_filter : TypeName → Cobs → Cobs
remove_filter ty cobs = remove (type_key ty) cobs

-- `Entry::and_modify`, at the entry of a type.
unfoldable pub and_modify : TypeName → (Filter → Filter) → Cobs → Cobs
and_modify ty f cobs = elim (get (type_key ty) cobs) [
  | none ↦ cobs
  | some filter ↦ insert (type_key ty) (f filter) cobs
]

abbrev pub set_policy : TypeName → Policy → Cobs → Cobs
set_policy ty policy cobs = and_modify ty (λ f. record f { policy = policy }) cobs

abbrev pub set_pattern : TypeName → Pattern → Cobs → Cobs
set_pattern ty pattern cobs = and_modify ty (λ f. record f { pattern = pattern }) cobs

-- `objs.extend(ids)`
abbrev pub extend_ids : List ℕ → ObjectIds → ObjectIds
extend_ids [] ids = ids
extend_ids (id ∷ more) ids = extend_ids more (insert id tt ids)

abbrev pub remove_ids : List ℕ → ObjectIds → ObjectIds
remove_ids [] ids = ids
remove_ids (id ∷ more) ids = remove_ids more (remove id ids)

abbrev pub pattern_with : List ℕ → Pattern → Pattern
pattern_with more everything = everything
pattern_with more (objects ids) = objects (extend_ids more ids)

abbrev pub pattern_without : List ℕ → Pattern → Pattern
pattern_without more everything = everything
pattern_without more (objects ids) = objects (remove_ids more ids)

abbrev pub insert_objects : TypeName → List ℕ → Cobs → Cobs
insert_objects ty more cobs =
    and_modify ty (λ f. record f { pattern = pattern_with more f.pattern }) cobs

abbrev pub remove_objects : TypeName → List ℕ → Cobs → Cobs
remove_objects ty more cobs =
    and_modify ty (λ f. record f { pattern = pattern_without more f.pattern }) cobs

-- `Entry::or_insert`
unfoldable pub or_insert : TypeName → Filter → Cobs → Cobs
or_insert ty default cobs = elim (get (type_key ty) cobs) [
  | none ↦ insert (type_key ty) default cobs
  | some filter ↦ cobs
]

pub record Config : Type 0 where
  pub data_refs : Bool
  pub cobs : Cobs

-- `Config::default`
abbrev pub default_config : Config
default_config = record { data_refs = true; cobs = allow_all }

-- `cobs`
abbrev pub cobs_name : Name
cobs_name = 99 ∷ 111 ∷ 98 ∷ 115 ∷ []

-- `DATA_REFS`: `heads`, `tags` and `notes`
abbrev pub data_categories : List Name
data_categories =
    (104 ∷ 101 ∷ 97 ∷ 100 ∷ 115 ∷ [])
    ∷ (116 ∷ 97 ∷ 103 ∷ 115 ∷ [])
    ∷ (110 ∷ 111 ∷ 116 ∷ 101 ∷ 115 ∷ [])
    ∷ []

-- The policy for an object whose type has a filter.
abbrev pub filter_policy : Filter → ℕ → Policy
filter_policy f id = if matches f.pattern id then f.policy else inverse f.policy

-- The policy for an object whose type has none.
abbrev pub wildcard_policy : Option Filter → Policy
wildcard_policy none = allow
wildcard_policy (some f) = f.policy

unfoldable pub object_policy : Cobs → Option ℕ → Option ℕ → Policy
object_policy cobs none id = deny
object_policy cobs (some ty) none = deny
object_policy cobs (some ty) (some id) = elim (get_filter ty cobs) [
  | none ↦ wildcard_policy (wildcard_filter cobs)
  | some f ↦ filter_policy f id
]

module _ (parse_type parse_id : Name → Option ℕ) where
  -- The arm for collaborative objects, from the type on.
  abbrev pub cobs_policy : Cobs → Name → List Name → Policy
  cobs_policy cobs ty [] = object_policy cobs (parse_type ty) none
  cobs_policy cobs ty (id ∷ []) = object_policy cobs (parse_type ty) (parse_id id)
  cobs_policy cobs ty (id ∷ x ∷ tail) = deny

  abbrev pub category_policy : Config → Name → Name → List Name → Policy
  category_policy config category ty tail =
      if same_chars cobs_name category
      then cobs_policy config.cobs ty tail
      else if config.data_refs && any (λ allowed. same_chars allowed category) data_categories
      then allow
      else deny

  -- `none` is a panic, of a name that is not qualified.
  unfoldable pub policy_for : Config → Name → Option Policy
  policy_for config refname = elim (non_empty_components refname) [
    | none ↦ none
    | some (r, category, ty, tail) ↦ some (category_policy config category ty tail)
  ]
