-- ===== src/Refs/Qualified/Laws.antt =====
-- Namespaces of git-ref-format/core/src/deriv.rs, added and taken away.
use radicle_link.Prelude.{
  ℕ, zero, suc, ◌<◌, ◌≡◌, ◌≢◌, refl, sym, ap, subst, ◌∙◌, inl, inr, Bool, true, ◌&&◌, Option, none,
  some, List, [], ◌∷◌, ◌++◌, length, length-append, All, Bool-cases, Option-cases, arith,
}
use mathlib.Core.Option.{some-injective}
use radicle_link.Refs.{solidus, same_chars, split}
use radicle_link.Refs.Valid.{same_chars_iff}
use radicle_link.Refs.Name.{
  Name, push, join, extend, components, push_components, drop_last, from_iter,
}
use radicle_link.Refs.Name.Laws.{
  HasNoSlash, split-join, split_whole, push_components-split, drop_last-append, append_assoc,
  from_iter-components, components-from_iter, strip_prefix-join,
}
use radicle_link.Refs.Name.Valid.{split-HasNoSlash}
use radicle_link.Refs.Qualified.{
  refs, namespaces, refs_namespaces, from_components, qualified_from, from_refstr, add_namespace,
  namespaced_from, namespaced, third, namespace, skip_one, strip_namespace, strip_loop,
  strip_namespace_recursive,
}

none-ne-some : {A : Type 0} {a : A} → ◌≢◌ {A = Option A} none (some a)
none-ne-some h = cc

all_three : (a b c : Bool) → a && (b && c) ≡ true → (a ≡ true) × (b ≡ true) × (c ≡ true)
all_three a b c h = (ground arith, ground arith, ground arith)

refs_whole : HasNoSlash refs
refs_whole = ((λ e. cc), ((λ e. cc), ((λ e. cc), ((λ e. cc), tt))))

namespaces_whole : HasNoSlash namespaces
namespaces_whole = (
  (λ e. cc),
  (
    (λ e. cc),
    (
      (λ e. cc),
      ((λ e. cc), ((λ e. cc), ((λ e. cc), ((λ e. cc), ((λ e. cc), ((λ e. cc), ((λ e. cc), tt))))))),
    ),
  ),
)

split-join_whole : (c t : Name) → HasNoSlash c → split (join c t) ≡ c ∷ split t
split-join_whole c t h = split-join c t ∙ ap (λ l. l ++ split t) (split_whole c h)

from_iter-cons : (c t : Name) → from_iter (c ∷ split t) ≡ some (join c t)
unfolding push_components
from_iter-cons c t =
    ap (λ l. drop_last (c ++ solidus ∷ l)) (push_components-split t)
    ∙ ap drop_last (sym (append_assoc c (solidus ∷ t) (solidus ∷ [])))
    ∙ drop_last-append (join c t) solidus

-- `refs/namespaces/<ns>/<t>`
abbrev pub within : Name → Name → Name
within ns t = join refs (join namespaces (join ns t))

components-within :
    (ns t : Name) → HasNoSlash ns → split (within ns t) ≡ refs ∷ namespaces ∷ ns ∷ split t
components-within ns t h =
    split-join_whole refs (join namespaces (join ns t)) refs_whole
    ∙ ap (λ l. refs ∷ l) (split-join_whole namespaces (join ns t) namespaces_whole)
    ∙ ap (λ l. refs ∷ namespaces ∷ l) (split-join_whole ns t h)

add_namespace-within : (ns q : Name) → HasNoSlash ns → add_namespace ns q ≡ some (within ns q)
add_namespace-within ns q h =
    ap from_iter (ap (λ l. refs ∷ namespaces ∷ l) (sym (split-join_whole ns q h)))
    ∙ ap (λ l. from_iter (refs ∷ l))
        (sym (split-join_whole namespaces (join ns q) namespaces_whole))
    ∙ from_iter-cons refs (join namespaces (join ns q))

strip_namespace-within : (ns t : Name) → HasNoSlash ns → strip_namespace (within ns t) ≡ some t
unfolding strip_namespace
strip_namespace-within ns t h =
    rw (strip_prefix-join refs_namespaces (join ns t), strip_namespace)
      (ap (λ l. from_iter (skip_one l)) (split-join_whole ns t h) ∙ from_iter-components t)

same_refs : same_chars refs refs ≡ true
same_refs = refl

qualified_head :
    (name q : Name) (cs : List Name)
    → qualified_from name cs ≡ some q
    → (y : Name) × (z : Name) × (tail : List Name) × (cs ≡ refs ∷ y ∷ z ∷ tail)
qualified_head name q [] h = absurd (none-ne-some h)
qualified_head name q (x ∷ []) h = absurd (none-ne-some h)
qualified_head name q (x ∷ y ∷ []) h = absurd (none-ne-some h)
qualified_head name q (x ∷ y ∷ z ∷ tail) h = elim (Bool-cases (same_chars x refs)) [
  | inl same ↦ (y, z, tail, ap (λ w. w ∷ y ∷ z ∷ tail) ((same_chars_iff x refs).0 same))
  | inr other ↦ absurd (none-ne-some (rw other at h))
]

-- Adding a namespace without a slash to a qualified name gives a name that has this namespace, and
-- from which stripping it gives the name again.
pub strip_namespace-add_namespace :
    (ns q : Name)
    → HasNoSlash ns
    → from_refstr q ≡ some q
    → (n : Name) × (add_namespace ns q ≡ some n)
      × (namespaced n ≡ some n)
      × (namespace n ≡ some ns)
      × (strip_namespace n ≡ some q)
unfolding from_refstr namespaced namespace
strip_namespace-add_namespace ns q h qualified =
    let (y, z, tail, eq) = qualified_head q q (split q) qualified in
    let parts = components-within ns q h in
    (
      within ns q,
      add_namespace-within ns q h,
      ap (namespaced_from (within ns q)) (parts ∙ ap (λ l. refs ∷ namespaces ∷ ns ∷ l) eq),
      ap third parts,
      strip_namespace-within ns q h,
    )

-- A name with a namespace whose rest is `refs` alone is a namespaced name, and stripping the namespace
-- gives `refs`, which is not qualified.
pub strip_namespace_unqualified :
    (ns : Name)
    → HasNoSlash ns
    → (namespaced (within ns refs) ≡ some (within ns refs))
      × (strip_namespace (within ns refs) ≡ some refs)
      × (from_refstr refs ≡ none)
unfolding from_refstr namespaced split
strip_namespace_unqualified ns h = (
  ap (namespaced_from (within ns refs)) (components-within ns refs h),
  strip_namespace-within ns refs h,
  refl,
)

append_nil : {A : Type 0} (xs : List A) → xs ++ [] ≡ xs
append_nil [] = refl
append_nil (x ∷ xs) = ap (λ l. x ∷ l) (append_nil xs)

extend-components :
    (name : Name) (xs : List Name) → All HasNoSlash xs → split (extend name xs) ≡ split name ++ xs
extend-components name [] h = sym (append_nil (split name))
extend-components name (x ∷ xs) h =
    extend-components (push name x) xs h.1
    ∙ ap (λ l. l ++ xs) (split-join name x ∙ ap (λ l. split name ++ l) (split_whole x h.0))
    ∙ append_assoc (split name) (x ∷ []) xs

-- A name from components without slashes is qualified, and has these components after `refs`.
pub from_components_lem :
    (a b : Name) (tail : List Name)
    → HasNoSlash a
    → HasNoSlash b
    → All HasNoSlash tail
    → (from_refstr (from_components a b tail) ≡ some (from_components a b tail))
      × (components (from_components a b tail) ≡ refs ∷ a ∷ b ∷ tail)
unfolding from_refstr
from_components_lem a b tail ha hb ht =
    let parts : split (from_components a b tail) ≡ refs ∷ a ∷ b ∷ tail =
      extend-components (push (join refs a) b) tail ht
      ∙ ap (λ l. l ++ tail)
          (split-join_whole refs (join a b) refs_whole
            ∙ ap (λ l. refs ∷ l) (split-join_whole a b ha ∙ ap (λ l. a ∷ l) (split_whole b hb))) in
    (ap (qualified_from (from_components a b tail)) parts, parts)

namespaced_parts :
    (name n : Name) (cs : List Name)
    → namespaced_from name cs ≡ some n
    → (z : Name) × (tail : List Name) × (name ≡ n) × (cs ≡ refs ∷ namespaces ∷ z ∷ refs ∷ tail)
namespaced_parts name n [] h = absurd (none-ne-some h)
namespaced_parts name n (x ∷ []) h = absurd (none-ne-some h)
namespaced_parts name n (x ∷ y ∷ []) h = absurd (none-ne-some h)
namespaced_parts name n (x ∷ y ∷ z ∷ []) h = absurd (none-ne-some h)
namespaced_parts name n (x ∷ y ∷ z ∷ w ∷ tail) h =
    elim (Bool-cases (same_chars x refs && (same_chars y namespaces && same_chars w refs))) [
      | inl here ↦
          let (ex, ey, ew) =
            all_three (same_chars x refs) (same_chars y namespaces) (same_chars w refs) here in
          let is_refs = (same_chars_iff x refs).0 ex in
          let is_namespaces = (same_chars_iff y namespaces).0 ey in
          let is_name = (same_chars_iff w refs).0 ew in
          (z, tail, some-injective _ _ (rw here at h), cc)
      | inr some_other ↦ absurd (none-ne-some (rw some_other at h))
    ]

namespaced-within :
    (s n : Name)
    → namespaced s ≡ some n
    → (ns : Name) × (t : Name) × (s ≡ n) × HasNoSlash ns × (s ≡ within ns t)
unfolding namespaced
namespaced-within s n h =
    let (z, tail, same, eq) = namespaced_parts s n (split s) h in
    let (hr, (hn, (hz, (hs, ht)))) = subst (All HasNoSlash) eq (split-HasNoSlash s) in
    let (t, collects, parts) = components-from_iter refs tail (refs_whole, ht) in
    let again = components-within z t hz ∙ ap (λ l. refs ∷ namespaces ∷ z ∷ l) parts ∙ sym eq in
    (
      z,
      t,
      same,
      hz,
      some-injective _ _ (
          sym (from_iter-components s)
          ∙ ap from_iter (sym again)
          ∙ from_iter-components (within z t)),
    )

within_longer : (ns t : Name) → length t < length (within ns t)
within_longer ns t = omega (arith, length-append ns (solidus ∷ t))

strip_loop_total :
    (k : ℕ) (s : Name)
    → length s < k
    → (t : Name) × (strip_loop k s ≡ some t) × (namespaced t ≡ none)
unfolding strip_loop
strip_loop_total zero s h = absurd (omega arith)
strip_loop_total (suc k) s h = elim (Option-cases (namespaced s)) [
  | inl plain ↦ (s, (rw (plain, strip_loop) refl), plain)
  | inr (n, is_n) ↦
      let (ns, t, same, whole, eq) = namespaced-within s n is_n in
      let strips : strip_namespace n ≡ some t =
        ap strip_namespace (sym same ∙ eq) ∙ strip_namespace-within ns t whole in
      let shorter : length t < length s =
        subst (λ x. length t < length x) (sym eq) (within_longer ns t) in
      let (last, loops, plain) = strip_loop_total k t (omega arith) in
      (last, (rw (is_n, strip_loop) (rw strips loops)), plain)
]

-- Stripping the namespaces of a namespaced name, one after the other, ends without a panic, and the
-- name it ends with has no namespace.
pub strip_namespace_recursive_lem :
    (s : Name)
    → namespaced s ≡ some s
    → (t : Name) × (strip_namespace_recursive s ≡ some t) × (namespaced t ≡ none)
unfolding strip_namespace_recursive
strip_namespace_recursive_lem s h =
    let (ns, t, same, whole, eq) = namespaced-within s s h in
    let strips : strip_namespace s ≡ some t =
      ap strip_namespace eq ∙ strip_namespace-within ns t whole in
    let shorter : length t < length s =
      subst (λ x. length t < length x) (sym eq) (within_longer ns t) in
    let (last, loops, plain) = strip_loop_total (length s) t shorter in
    (last, (rw (strips, strip_namespace_recursive) loops), plain)
