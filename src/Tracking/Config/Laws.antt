-- ===== src/Tracking/Config/Laws.antt =====
-- What Config::policy_for of link-tracking/src/git/config.rs decides.
use radicle_link.Prelude.{
  ℕ, suc, ◌≡◌, refl, ap, ◌∙◌, inl, inr, Bool, true, ◌||◌, Option, none, some, List, [], ◌∷◌,
  if◌then◌else◌, ◌==◌, any, All, insert, contains_key, get-insert, Bool-cases, arith,
}
use radicle_link.Refs.Name.{Name}
use radicle_link.Refs.Name.Laws.{HasNoSlash}
use radicle_link.Refs.Qualified.{from_components, non_empty_components}
use radicle_link.Refs.Qualified.Laws.{from_components_lem}
use radicle_link.Tracking.Config.{
  type_name, Policy, ObjectIds, objects, Filter, Cobs, get_filter, wildcard_filter, and_modify,
  extend_ids, pattern_with, insert_objects, Config, cobs_name, filter_policy, wildcard_policy,
  object_policy, cobs_policy, category_policy, policy_for,
}

same_self : (k : ℕ) → (k == k) ≡ true
same_self k = ground arith

cobs_whole : HasNoSlash cobs_name
cobs_whole = ((λ e. cc), ((λ e. cc), ((λ e. cc), ((λ e. cc), tt))))

contains_key-insert :
    (k j : ℕ) (ids : ObjectIds) → contains_key j (insert k tt ids) ≡ k == j || contains_key j ids
unfolding contains_key
contains_key-insert k j ids =
    rw (get-insert k j tt ids)
      (elim (Bool-cases (k == j)) [ inl h ↦ rw h refl | inr h ↦ rw h refl ])

or_swap : (a b c : Bool) → a || (b || c) ≡ (b || a) || c
or_swap a b c = ground arith

contains_key-extend_ids :
    (j : ℕ) (more : List ℕ) (ids : ObjectIds)
    → contains_key j (extend_ids more ids) ≡ any (λ id. id == j) more || contains_key j ids
contains_key-extend_ids j [] ids = refl
contains_key-extend_ids j (id ∷ more) ids =
    contains_key-extend_ids j more (insert id tt ids)
    ∙ ap (λ b. any (λ i. i == j) more || b) (contains_key-insert id j ids)
    ∙ or_swap (any (λ i. i == j) more) (id == j) (contains_key j ids)

get_filter-and_modify :
    (ty : ℕ) (f : Filter → Filter) (cobs : Cobs) (old : Filter)
    → get_filter ty cobs ≡ some old
    → get_filter ty (and_modify (type_name ty) f cobs) ≡ some (f old)
unfolding and_modify
get_filter-and_modify ty f cobs old h =
    rw (h, and_modify) (get-insert (suc ty) (suc ty) (f old) cobs ∙ (rw (same_self (suc ty)) refl))

module _ (parse_type parse_id : Name → Option ℕ) where
  policy_for-from_components :
      (config : Config) (a b : Name) (tail : List Name)
      → HasNoSlash a
      → HasNoSlash b
      → All HasNoSlash tail
      → policy_for parse_type parse_id config (from_components a b tail)
        ≡ some (category_policy parse_type parse_id config a b tail)
  unfolding policy_for non_empty_components
  policy_for-from_components config a b tail ha hb ht =
      rw ((from_components_lem a b tail ha hb ht).1, policy_for, non_empty_components) refl

  parsed_policy :
      (cobs : Cobs) (ty id : Name) (t i : ℕ)
      → parse_type ty ≡ some t
      → parse_id id ≡ some i
      → cobs_policy parse_type parse_id cobs ty (id ∷ []) ≡ object_policy cobs (some t) (some i)
  parsed_policy cobs ty id t i pt pi =
      ap (λ x. object_policy cobs x (parse_id id)) pt ∙ ap (object_policy cobs (some t)) pi

  -- The policy for the object `id` of type `ty` is that of the type's filter where it matches, and the
  -- inverse where it does not; without a filter it is that of the wildcard, and without that it is to
  -- allow.
  pub policy_for_object :
      (config : Config) (ty id : Name) (t i : ℕ)
      → HasNoSlash ty
      → HasNoSlash id
      → parse_type ty ≡ some t
      → parse_id id ≡ some i
      → policy_for parse_type parse_id config (from_components cobs_name ty (id ∷ []))
        ≡ some (elim (get_filter t config.cobs) [
          | none ↦ wildcard_policy (wildcard_filter config.cobs)
          | some f ↦ filter_policy f i
        ])
  unfolding object_policy
  policy_for_object config ty id t i ht hi pt pi =
      policy_for-from_components config cobs_name ty (id ∷ []) cobs_whole ht (hi, tt)
      ∙ ap some (parsed_policy config.cobs ty id t i pt pi)

  -- Objects that are inserted into the filter of their type get the filter's policy, and the other
  -- objects of the type have the policy that they had, if the filter lists objects.
  pub policy_for-insert_objects :
      (config : Config) (ty id : Name) (t i : ℕ) (policy : Policy) (ids : ObjectIds) (more : List ℕ)
      → HasNoSlash ty
      → HasNoSlash id
      → parse_type ty ≡ some t
      → parse_id id ≡ some i
      → get_filter t config.cobs ≡ some (record { policy = policy; pattern = objects ids })
      → policy_for parse_type parse_id
          (record config { cobs = insert_objects (type_name t) more config.cobs })
          (from_components cobs_name ty (id ∷ []))
        ≡ (if any (λ j. j == i) more
            then some policy
            else policy_for parse_type parse_id config (from_components cobs_name ty (id ∷ [])))
  policy_for-insert_objects config ty id t i policy ids more ht hi pt pi h =
      let after =
        get_filter-and_modify t (λ f. record f { pattern = pattern_with more f.pattern })
          config.cobs (record { policy = policy; pattern = objects ids }) h in
      let new =
        policy_for_object (record config { cobs = insert_objects (type_name t) more config.cobs })
          ty id t i ht hi pt pi in
      let old = policy_for_object config ty id t i ht hi pt pi in
      rw old (
        new
        ∙ (rw after (
            rw h (
              rw (contains_key-extend_ids i more ids) (elim (Bool-cases (any (λ j. j == i) more)) [
                | inl e ↦ rw e refl
                | inr e ↦ rw e refl
              ])))))
