-- ===== src/Tracking/Tests.antt =====
-- Runs of link-tracking on a small storage: objects are a list of configurations, which are their own
-- object ids, and a transaction holds the locks that it took.
use radicle_link.Prelude.{
  insert, ℕ, ◌≡◌, refl, true, false, not, Option, none, some, List, [], ◌∷◌, any, ◌==◌,
  if◌then◌else◌, Result, ok, err, inl, arith,
}
use radicle_link.Tracking.Policy.{
  Track, Untrack, PreviousError, guard, WithConfig, compose_untrack_track, compose_entry,
  compose_reduction,
}
use radicle_link.Tracking.Policy.Fusion.{run_entry, run_reduction, compose_entry_loses}
use radicle_link.Tracking.Reference.{Urn, peer, RefName, ref_name, same_name}
use radicle_link.Tracking.Refdb.{Git, lookup_ref}
use radicle_link.Tracking.Refdb.Laws.{IsReliable}
use radicle_link.Tracking.Ops.{Odb, Prune, Db, track, untrack}
use radicle_link.Tracking.Ops.Laws.{tracked_as, IsOdb, track_lem, untrack_rejected_prunes}
use radicle_link.Tracking.Batch.{
  Action, track_action, untrack_action, upsert, get_entry, add_entry, replace_entry, fuse,
  fuse_each, fuse_action, flatten,
}
use radicle_link.Tracking.Batch.Laws.{run_actions}
use radicle_link.Tracking.Batch.Runs.{fuse_run}
use radicle_link.Refs.{
  ref_format, check_all, check_counts, check_parts, check_part, check_chars, arm, ends_with, split,
}
use radicle_link.Refs.Name.{Name, name_opts}
use radicle_link.Refs.Name.Valid.{IsValid}
use radicle_link.Tracking.Reference.Text.{Encoding, to_text, from_str, from_str-to_text}
use radicle_link.Refs.Name.Laws.{HasNoSlash}
use radicle_link.Tracking.Config.{allow, objects, allow_all, Config}

abbrev git : Git
git = record {
  transaction = true;
  lock_ref = λ held n. not (any (λ m. same_name m n) held);
  reference = λ n. true;
  set_target = λ n oid. true;
  remove = λ n. true;
  commit_ok = true;
}

git-IsReliable : IsReliable git
git-IsReliable = record {
  transaction = refl;
  lock_ref = λ held n h. rw h refl;
  reference = λ n. refl;
  set_target = λ n oid. refl;
  remove = λ n. refl;
  commit_ok = refl;
}

abbrev stored : ℕ → List ℕ → Option ℕ
stored oid [] = none
stored oid (c ∷ cs) = let rest = stored oid cs in if c == oid then some c else rest

abbrev odb : Odb (List ℕ) ℕ ℕ
odb = record { find_config = λ oid o. ok (stored oid o); write_config = λ c o. ok (c, c ∷ o) }

stored-write :
    (c oid : ℕ) (o o' : List ℕ)
    → ◌≡◌ {A = Result ℕ (ℕ × List ℕ)} (ok (c, c ∷ o)) (ok (oid, o'))
    → ◌≡◌ {A = Result ℕ (Option ℕ)} (ok (stored oid o')) (ok (some c))
stored-write c oid o o' h = ground arith

odb-IsOdb : IsOdb odb
odb-IsOdb = record { find-write = λ c o o' oid h. stored-write c oid o o' h }

-- One namespace after another is pruned, whatever it is.
abbrev pruning : Prune (List ℕ) ℕ ℕ
pruning = record { prune = λ urn p ns. ok (urn ∷ [], []) }

abbrev project : Urn
project = record { id = 4; path = none }

abbrev two_entries : Db (List ℕ) (List ℕ)
two_entries = record {
  objects = 60 ∷ 50 ∷ [];
  refs = (ref_name project none, some 50) ∷ (ref_name project (some 9), some 60) ∷ [];
  namespaces = 4 ∷ [];
}

abbrev must_exist : WithConfig ℕ
must_exist = record { policy = Track.must_exist; config = 8 }

abbrev forced : WithConfig ℕ
forced = record { policy = Track.any; config = 7 }

compose_entry_loses_example :
    (run_reduction (compose_entry (inl forced) (inl must_exist)) none ≡ some 7)
    × (run_entry (inl must_exist) (run_entry (inl forced) none) ≡ some 8)
compose_entry_loses_example = compose_entry_loses forced must_exist none refl (λ h. cc)

abbrev some_actions : List (Action ℕ)
some_actions =
    track_action project (some 3) 70 Track.must_not_exist
    ∷ untrack_action project 3 Untrack.must_exist
    ∷ track_action project none 71 Track.any
    ∷ track_action project (some 3) 72 Track.must_not_exist
    ∷ []

some_actions_fused :
    fuse some_actions
    ≡ some
        (track_action project (some 3) 72 Track.any ∷ track_action project none 71 Track.any ∷ [])
unfolding fuse fuse_each fuse_action upsert get_entry add_entry replace_entry compose_reduction
    compose_entry flatten compose_untrack_track
some_actions_fused = refl

fuse_run_example :
    (fused : List (Action ℕ)) × (fuse some_actions ≡ some fused)
    × (run_actions fused (ref_name project (some 3)) none
        ≡ run_actions some_actions (ref_name project (some 3)) none)
fuse_run_example =
    fuse_run some_actions (ref_name project (some 3)) none (refl, (refl, (refl, (refl, tt))))
      ((λ h. cc), (tt, ((λ h. cc), ((λ h. cc), tt))))

track_lem_example :
    track git odb pruning project (some 9) 70 Track.must_not_exist two_entries
    ≡ tracked_as
        (ref_name project (some 9))
        70
        (some PreviousError.did_exist)
        (record two_entries { objects = 70 ∷ 60 ∷ 50 ∷ [] })
unfolding guard lookup_ref
track_lem_example =
    track_lem git odb pruning git-IsReliable project (some 9) 70 Track.must_not_exist two_entries 70
      (70 ∷ 60 ∷ 50 ∷ []) refl

abbrev tracked : Db (List ℕ) (List ℕ)
tracked = (track git odb pruning project (some 3) 70 Track.must_not_exist two_entries).1

abbrev untracked : Db (List ℕ) (List ℕ)
untracked = (untrack git odb pruning project 9 Untrack.must_exist false two_entries).1

untrack_rejected_prunes_example :
    untrack git odb pruning project 3 Untrack.must_exist true two_entries
    ≡ (ok (err PreviousError.did_not_exist), record two_entries { namespaces = [] })
unfolding lookup_ref
untrack_rejected_prunes_example =
    untrack_rejected_prunes git odb pruning git-IsReliable project 3 two_entries (4 ∷ []) [] refl
      refl

-- A name of one character is a type or an id.
abbrev parse : Name → Option ℕ
parse [] = none
parse (c ∷ []) = some c
parse (c ∷ d ∷ cs) = none

abbrev issues : Name
issues = 105 ∷ []

abbrev one_issue : Name
one_issue = 49 ∷ []

issues_whole : HasNoSlash issues
issues_whole = ((λ e. cc), tt)

one_issue_whole : HasNoSlash one_issue
one_issue_whole = ((λ e. cc), tt)

abbrev only_issue : Config
only_issue = record {
  data_refs = true;
  cobs = insert 106 (record { policy = allow; pattern = objects ((50, tt) ∷ []) }) allow_all;
}

abbrev read_char : Name → Result ℕ ℕ
read_char [] = err 0
read_char (c ∷ []) = ok c
read_char (c ∷ d ∷ cs) = err 1

-- An id and a peer are written as one character.
abbrev one_char : Encoding ℕ
one_char = record {
  encode_id = λ n. n ∷ [];
  decode_id = λ s. read_char s;
  encode_peer = λ p. p ∷ [];
  decode_peer = λ s. read_char s;
}

abbrev entry_name : RefName
entry_name = record { remote = peer 98; urn = 97 }

char-IsValid : (IsValid name_opts (97 ∷ [])) × (IsValid name_opts (98 ∷ []))
unfolding ref_format check_all check_counts check_parts check_part check_chars arm ends_with split
char-IsValid = (refl, refl)

from_str-to_text_example : from_str one_char (to_text one_char entry_name) ≡ ok entry_name
from_str-to_text_example =
    from_str-to_text one_char entry_name ((λ e. cc), tt) char-IsValid.0 refl
      (((λ e. cc), tt), char-IsValid.1, (λ e. cc), refl)
