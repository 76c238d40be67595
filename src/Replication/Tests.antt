-- ===== src/Replication/Tests.antt =====
-- Runs of link-replication on small storages, with peers that are written as one letter.
use radicle_link.Prelude.{
  ℕ, ◌≡◌, ◌≢◌, refl, inl, inr, true, false, Option, none, some, List, [], ◌∷◌, ◌++◌, if◌then◌else◌,
  Result, ok, err, ◌==◌, In, get, contains_key, insert, arith,
}
use radicle_link.Refs.{
  ref_format, check_all, check_counts, check_parts, check_part, check_chars, arm, ends_with, split,
}
use radicle_link.Refs.Name.{Name, push, join, strip, push_components, drop_last}
use radicle_link.Refs.Name.Laws.{HasNoSlash}
use radicle_link.Refs.Qualified.{refs, from_refstr, non_empty_components}
use radicle_link.Tracking.Policy.{Oid}
use radicle_link.Tracking.Reference.Text.{rad, remotes}
use radicle_link.Replication.Names.{
  Texts, id, signed_refs, parse_qualified, parse_inner, parse, owned, into_remote_tracking,
  remote_tracking, tracking_loop, scoped, rad_name, owned_name,
}
use radicle_link.Replication.Names.Laws.{IsPeer, IsData, parse-into_remote_tracking}
use radicle_link.Replication.Refdb.{Update, direct, prune, allow, abort, find, without, update}
use radicle_link.Replication.Wants.{
  FilteredRef, Store, wants_haves, add_all_signed, add_signed, add, want_ref, look_up, build,
}
use radicle_link.Replication.Wants.Steps.{filtered_tips, all_signed_tips}
use radicle_link.Replication.Wants.Laws.{Answers, wants_haves_lem}
use radicle_link.Replication.Sigrefs.{Sigrefs, Select, combined, combine_must, combine_may}
use radicle_link.Replication.Sigrefs.Combined.{Combines, combined_lem}
use radicle_link.Replication.Peek.{allowed, guard_required, required_refs}
use radicle_link.Replication.Peek.Fetch.{Spec, ForFetch, ref_filter, pre_validate}
use radicle_link.Replication.Peek.Fetch.Laws.{Accepted, ref_filter-Accepted, pre_validate_lem}
use radicle_link.Replication.Fetch.{
  Fetch, Known, prepare, prepare_all, prepare_peer, track_all, prunes,
}
use radicle_link.Replication.Fetch.Signed.{begins, IsOwn, settled_by_all, prepare-settled_by_all}
use radicle_link.Replication.Validate.{Scanned, SigTree, validate, see_all, missing_of}
use radicle_link.Replication.Validate.Laws.{Matches, validate-Matches}
use radicle_link.Replication.State.{
  Urn, FetchState, fresh, Phase, Net, step, update_all, note_all, shim_refname_to_id,
}
use radicle_link.Replication.State.Laws.{IsCoherent, step-IsCoherent, shim_refname_to_id_lem}
use radicle_link.Replication.Prepare.{
  Identities, no_updates, peer_updates, as_verification_ref_update,
}
use radicle_link.Replication.Prepare.Laws.{peer_updates_invalid}
use radicle_link.Replication.Eval.{is_direct, tracked, transitive, take_tips, drain, last_first}
use radicle_link.Replication.Eval.Laws.{strictest, tracked-AllowsDelegates, transitive_lem}
use radicle_link.Replication.Eval.Pending.{Parts, take_tips_lem}

abbrev one_letter : Name → Option ℕ
one_letter [] = none
one_letter (c ∷ []) = some c
one_letter (c ∷ d ∷ name) = none

abbrev texts : Texts Name
texts = record {
  encode_peer = λ p. p ∷ [];
  decode_peer = one_letter;
  encode_id = λ name. name;
  try_from_id = λ name. some name;
}

abbrev urns : Texts Urn
urns = record {
  encode_peer = λ p. p ∷ [];
  decode_peer = one_letter;
  encode_id = λ urn. urn ∷ [];
  try_from_id = one_letter;
}

-- The peers `a` and `b`, and `refs/h/x` and `refs/h/y`.
abbrev a : ℕ
a = 97

abbrev b : ℕ
b = 98

abbrev x_name : Name
x_name = push (join refs (104 ∷ [])) (120 ∷ [])

abbrev y_name : Name
y_name = push (join refs (104 ∷ [])) (121 ∷ [])

-- The same of the peer `a`.
abbrev below_a : Name → Name
below_a name = push (push (join refs remotes) (a ∷ [])) name

abbrev x_of_a : Name
x_of_a = below_a (104 ∷ 47 ∷ 120 ∷ [])

abbrev y_of_a : Name
y_of_a = below_a (104 ∷ 47 ∷ 121 ∷ [])

abbrev id_of_a : Name
id_of_a = below_a (push rad (105 ∷ 100 ∷ []))

abbrev known_y : Known
known_y = record { name = y_of_a; target = inl 3 }

abbrev scan_y : Name → Result ℕ (List (Result ℕ Known))
scan_y prefix = ok (ok known_y ∷ [])

abbrev fetch_a : Fetch
fetch_a = record {
  local_id = b;
  remote_id = a;
  signed = record { refs = (a, record { at = 1; refs = (x_name, 7) ∷ [] }) ∷ []; remotes = [] };
  limit = 0;
}

prepared : prepare texts scan_y fetch_a ≡ ok (direct x_of_a 7 allow ∷ prune y_of_a (inl 3) ∷ [])
unfolding prepare_all prepare_peer track_all prunes remote_tracking tracking_loop
    non_empty_components from_refstr split strip push_components drop_last
prepared = refl

h-HasNoSlash : HasNoSlash (104 ∷ [])
h-HasNoSlash = ((λ e. ground arith), tt)

x-HasNoSlash : HasNoSlash (120 ∷ [])
x-HasNoSlash = ((λ e. ground arith), tt)

x_name-IsOwn : IsOwn x_name
unfolding split
x_name-IsOwn = record {
  category = 104 ∷ [];
  first = 120 ∷ [];
  tail = [];
  parts = refl;
  whole = (h-HasNoSlash, (x-HasNoSlash, tt));
  not_remotes = λ e. cc;
  not_namespaces = λ e. cc;
}

prepare-settled_by_all_example :
    find y_of_a (update (direct x_of_a 7 allow ∷ prune y_of_a (inl 3) ∷ []) ((y_of_a, 3) ∷ [])).1
    ≡ settled_by_all texts scan_y y_of_a fetch_a.signed.refs (find y_of_a ((y_of_a, 3) ∷ []))
prepare-settled_by_all_example =
    prepare-settled_by_all texts scan_y fetch_a (direct x_of_a 7 allow ∷ prune y_of_a (inl 3) ∷ [])
      y_of_a ((y_of_a, 3) ∷ []) ((x_name-IsOwn, tt), tt) prepared

-- `refs/remotes/a/h/y` is gone, and `refs/remotes/a/rady`, which is not signed either, is spared.
y_of_a_gone :
    settled_by_all texts scan_y y_of_a fetch_a.signed.refs (find y_of_a ((y_of_a, 3) ∷ [])) ≡ none
unfolding find begins
y_of_a_gone = refl

abbrev rady_of_a : Name
rady_of_a = below_a (rad ++ 121 ∷ [])

rady_of_a_spared :
    settled_by_all {E = ℕ} texts
      (λ prefix. ok (ok (record { name = rady_of_a; target = inl 3 }) ∷ []))
      rady_of_a
      fetch_a.signed.refs
      (find rady_of_a ((rady_of_a, 3) ∷ []))
    ≡ some 3
unfolding find begins
rady_of_a_spared = refl

-- A storage whose ref of `a` is at 3, and that has the object 3.
abbrev store : Store ℕ
store = record { refname_to_id = λ name. ok (some 3); contains = λ oid. oid == 3 }

abbrev id_filtered : FilteredRef
id_filtered = record { tip = 5; remote = a; inner = inl id }

asked :
    wants_haves store texts (id_filtered ∷ []) ((a, (x_name, 7) ∷ []) ∷ [])
    ≡ ok (some (5 ∷ 7 ∷ [], 3 ∷ []))
unfolding wants_haves add_all_signed add_signed add want_ref look_up build remote_tracking
    tracking_loop non_empty_components from_refstr split strip push_components drop_last insert
    contains_key get
asked = refl

wants_haves_lem_example :
    Answers store
      (filtered_tips (id_filtered ∷ []) (all_signed_tips ((a, (x_name, 7) ∷ []) ∷ []) []))
      (some (5 ∷ 7 ∷ [], 3 ∷ []))
wants_haves_lem_example =
    wants_haves_lem store texts (id_filtered ∷ []) ((a, (x_name, 7) ∷ []) ∷ [])
      (some (5 ∷ 7 ∷ [], 3 ∷ [])) asked

-- Only `a` has signed refs.
abbrev of_a : Sigrefs
of_a = record { at = 1; refs = []; remotes = b ∷ [] }

abbrev load_a : ℕ → ℕ → Result ℕ (Option Sigrefs)
load_a peer cutoff = ok (if peer == a then some of_a else none)

abbrev select_a : Select
select_a = record { must = a ∷ []; may = b ∷ []; cutoff = 3 }

both : combined load_a select_a ≡ ok ((a, of_a) ∷ [])
unfolding combined combine_must combine_may insert
both = refl

combined_lem_example : Combines load_a select_a ((a, of_a) ∷ [])
combined_lem_example = combined_lem load_a select_a ((a, of_a) ∷ []) both

abbrev delegate : Spec
delegate = record { is_delegate = true; policy = allowed }

abbrev peek_a : ForFetch
peek_a = record { local_id = b; remote_id = a; tracked = (a, delegate) ∷ []; limit = 0 }

abbrev own_id : Name
own_id = push (join refs rad) (105 ∷ 100 ∷ [])

let_through : ref_filter texts peek_a (own_id, 5) ≡ some id_filtered
unfolding ref_filter parse parse_qualified parse_inner non_empty_components from_refstr split strip
    push_components drop_last get ref_format check_all check_counts check_parts check_part
    check_chars arm ends_with
let_through = refl

ref_filter-Accepted_example : Accepted peek_a 5 id_filtered
ref_filter-Accepted_example = ref_filter-Accepted texts peek_a own_id 5 id_filtered let_through

abbrev sigrefs_filtered : FilteredRef
sigrefs_filtered = record { tip = 1; remote = a; inner = inl signed_refs }

laid_out_a : pre_validate texts peek_a (id_filtered ∷ sigrefs_filtered ∷ []) ≡ some (ok tt)
unfolding pre_validate required_refs scoped guard_required
laid_out_a = refl

a-ne-b : a ≢ b
a-ne-b e = ground arith

pre_validate_lem_example :
    ((r : FilteredRef) × In r (id_filtered ∷ sigrefs_filtered ∷ [])
      × (scoped texts r.remote a (owned_name texts r.inner) ≡ scoped texts a a (rad_name texts id)))
    × ((r : FilteredRef) × In r (id_filtered ∷ sigrefs_filtered ∷ [])
        × (scoped texts r.remote a (owned_name texts r.inner)
            ≡ scoped texts a a (rad_name texts signed_refs)))
pre_validate_lem_example =
    pre_validate_lem texts peek_a id_filtered (sigrefs_filtered ∷ []) a delegate laid_out_a
      (inl refl) a-ne-b refl

-- The refs of `a` are its id, its signed refs, and `refs/h/x`.
abbrev sigrefs_of_a : Name
sigrefs_of_a =
    below_a (push rad (115 ∷ 105 ∷ 103 ∷ 110 ∷ 101 ∷ 100 ∷ 95 ∷ 114 ∷ 101 ∷ 102 ∷ 115 ∷ []))

abbrev tree_a : SigTree
tree_a = record { id = some a; refs = record { at = 1; refs = (x_name, 7) ∷ [] } }

abbrev scanned_a : List (Result ℕ Scanned)
scanned_a =
    ok (record { name = id_of_a; peeled = 5 })
    ∷ ok (record { name = sigrefs_of_a; peeled = 1 })
    ∷ ok (record { name = x_of_a; peeled = 7 })
    ∷ []

clean : validate texts tree_a scanned_a ≡ ok []
unfolding validate see_all missing_of parse_qualified parse_inner owned non_empty_components split
    strip push_components drop_last find
clean = refl

validate-Matches_example : Matches texts tree_a scanned_a
validate-Matches_example = validate-Matches texts tree_a scanned_a clean

-- A peer that has one ref, and a phase that takes it and updates it.
abbrev net : Net ℕ
net = record {
  reload = ok tt;
  run_ls_refs = λ prefixes. ok ((own_id, 5) ∷ []);
  run_fetch = λ limit want have. ok tt;
}

abbrev phase : Phase ℕ
phase = record {
  ls_refs = some (some (own_id ∷ []));
  ref_filter = λ r. some id_filtered;
  pre_validate = λ rs. some (ok tt);
  wants_haves = λ rs. ok (some (5 ∷ [], []));
  fetch_limit = 10;
  prepare = λ s rs. ok (record { tips = direct id_of_a 5 abort ∷ []; track = [] });
}

abbrev one_step : FetchState
one_step = record {
  refs = (id_of_a, 5) ∷ [];
  idts = (a, 5) ∷ [];
  dels = [];
  sigs = [];
  tips = direct id_of_a 5 abort ∷ [];
  trks = [];
}

stepped : step net phase urns fresh ≡ ok one_step
unfolding step note_all update_all update without insert
stepped = refl

fresh-IsCoherent : IsCoherent fresh
unfolding update
fresh-IsCoherent = refl

step-IsCoherent_example : IsCoherent one_step
step-IsCoherent_example = step-IsCoherent net phase urns fresh one_step stepped fresh-IsCoherent

abbrev not_there : Name → Result ℕ (Option Oid)
not_there name = ok none

one_step-IsCoherent : IsCoherent one_step
unfolding update without
one_step-IsCoherent = refl

shim_refname_to_id_lem_example : shim_refname_to_id not_there one_step id_of_a ≡ ok (some 5)
unfolding shim_refname_to_id
shim_refname_to_id_lem_example =
    shim_refname_to_id_lem not_there one_step id_of_a one_step-IsCoherent

-- No identity can be verified.
abbrev unverified : Identities ℕ (Unit {0})
unverified = record {
  verify = λ tip resolve. err 1;
  get_content = λ urn. ok none;
  urn = λ identity. 0;
}

abbrev unresolved : Urn → Option Oid
unresolved urn = none

skipped :
    peer_updates unverified texts urns false unresolved
      (sigrefs_filtered ∷ id_filtered ∷ [])
      no_updates
    ≡ ok no_updates
unfolding peer_updates as_verification_ref_update remote_tracking tracking_loop non_empty_components
    split strip push_components drop_last
skipped = refl

peer_updates_invalid_example : (false ≡ false) × (no_updates ≡ no_updates)
peer_updates_invalid_example =
    peer_updates_invalid unverified texts urns false unresolved
      (sigrefs_filtered ∷ id_filtered ∷ []) no_updates no_updates
      (id_filtered, inr (inl refl), refl, (1, refl)) skipped

a-HasNoSlash : HasNoSlash (a ∷ [])
a-HasNoSlash = ((λ e. ground arith), tt)

a-IsPeer : IsPeer texts a
a-IsPeer = (a-HasNoSlash, refl)

x_name-IsData : IsData x_name (104 ∷ []) (120 ∷ []) []
unfolding split
x_name-IsData = record {
  parts = refl;
  whole = (h-HasNoSlash, (x-HasNoSlash, tt));
  not_remotes = λ e. cc;
  not_namespaces = λ e. cc;
  not_rad = λ e. cc;
}

parse-into_remote_tracking_example :
    (n : Name) × (into_remote_tracking texts a x_name ≡ some n)
    × (parse_qualified texts n ≡ ok (record { remote = some a; inner = inr x_name }))
parse-into_remote_tracking_example =
    parse-into_remote_tracking texts a x_name (104 ∷ []) (120 ∷ []) [] a-IsPeer x_name-IsData

-- The tip of the identity, and an update of `refs/h/x` before and after it.
abbrev pending_three : List Update
pending_three = direct own_id 5 abort ∷ direct x_of_a 1 allow ∷ direct x_of_a 2 allow ∷ []

take_tips_lem_example :
    (parts : List Update × List Update) × (take_tips pending_three ≡ some parts)
    × Parts pending_three parts
take_tips_lem_example = take_tips_lem pending_three

-- Of two updates of one ref, the later comes first among those that are kept.
order_changes :
    take_tips pending_three
    ≡ some (direct own_id 5 abort ∷ [], direct x_of_a 2 allow ∷ direct x_of_a 1 allow ∷ [])
unfolding drain last_first ends_with
order_changes = refl

-- The delegate `a` tracks `c` by its signed refs, and `b` is local.
transitive_lem_example :
    get 99 (
      transitive b
        (a ∷ [])
        (tracked (a ∷ []) [])
        ((a, record { at = 1; refs = []; remotes = b ∷ 99 ∷ [] }) ∷ [])
        (tracked (a ∷ []) [])
        [])
    ≡ (if is_direct b (a ∷ []) (tracked (a ∷ []) []) 99
        then none
        else strictest 99
            ((a, record { at = 1; refs = []; remotes = b ∷ 99 ∷ [] }) ∷ [])
            (tracked (a ∷ []) [])
            none)
transitive_lem_example =
    transitive_lem b (a ∷ []) (tracked (a ∷ []) []) 99
      ((a, record { at = 1; refs = []; remotes = b ∷ 99 ∷ [] }) ∷ []) (tracked (a ∷ []) [])
      (tracked-AllowsDelegates (a ∷ []) [])
