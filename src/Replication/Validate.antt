-- ===== src/Replication/Validate.antt =====
-- link-replication/src/validation.rs: the refs of a peer against its signed refs. The scan is a parameter,
-- with a result for each ref.
pub mod Steps
pub mod Laws
use radicle_link.Prelude.{
  ℕ, suc, ◌+◌, inl, inr, Bool, true, false, not, ◌&&◌, ◌==◌, Option, none, some, List, [], ◌∷◌,
  ◌++◌, if◌then◌else◌, Result, ok, err, ◌>>=◌,
}
use radicle_link.Net.Info.{PeerId}
use radicle_link.Refs.{same_chars}
use radicle_link.Refs.Name.{Name}
use radicle_link.Tracking.Policy.{Oid}
use radicle_link.Replication.Names.{
  Texts, Rad, id, selv, signed_refs, ids, Parsed, ParseError, parse_qualified, owned_name,
}
use radicle_link.Replication.Refdb.{find}
use radicle_link.Replication.Sigrefs.{SignedAt}
use radicle_link.Replication.Peek.{contains}

-- What is used of a scanned ref.
pub record Scanned : Type 0 where
  pub name : Name
  pub peeled : Oid

pub data Validation : Type 0 where
  malformed_ref : Name → ParseError → Validation
  mismatched_tips : Oid → Oid → Name → Validation
  unexpected : Name → Validation
  no_data missing_rad_id missing_sig_refs : Validation
  missing : Name → Validation

pub record SigTree : Type 0 where
  pub id : Option PeerId
  pub refs : SignedAt

-- The variables of `validate`.
pub record Progress : Type 0 where
  pub fail : List Validation
  pub count : ℕ
  pub seen : List Name
  pub seen_rad_id : Bool
  pub seen_sigrefs : Bool

abbrev pub same_remote : Option PeerId → Option PeerId → Bool
same_remote none none = true
same_remote none (some q) = false
same_remote (some p) none = false
same_remote (some p) (some q) = p == q

abbrev pub fail_with : List Validation → Progress → Progress
fail_with vs p = record p { fail = p.fail ++ vs }

abbrev pub check_tip : Oid → Oid → Name → List Validation
check_tip expected actual name =
    if expected == actual then [] else mismatched_tips expected actual name ∷ []

abbrev pub check_data : Option Oid → Oid → Name → List Validation
check_data none actual name = unexpected name ∷ []
check_data (some tip) actual name = check_tip tip actual name

unfoldable pub missing_of : List (Name × Oid) → List Name → List Validation
missing_of [] seen = []
missing_of ((name, tip) ∷ refs) seen =
    let rest = missing_of refs seen in if contains name seen then rest else missing name ∷ rest

module _ (t : Texts Name) (tree : SigTree) where
  abbrev pub see_rad : Oid → Rad Name → Progress → Progress
  see_rad oid id p = record p { seen_rad_id = true }
  see_rad oid signed_refs p =
      fail_with (check_tip tree.refs.at oid (owned_name t (inl signed_refs)))
        (record p { seen_sigrefs = true })
  see_rad oid selv p = p
  see_rad oid (ids urn) p = p

  abbrev pub see_parsed : Oid → Parsed Name → Progress → Progress
  see_parsed oid parsed p =
      let q = record p { seen = owned_name t parsed.inner ∷ p.seen } in
      elim parsed.inner [
        | inl r ↦ see_rad oid r q
        | inr name ↦ fail_with (check_data (find name tree.refs.refs) oid name) q
      ]

  abbrev pub see_result : Scanned → Result ParseError (Parsed Name) → Progress → Progress
  see_result s (err e) p = fail_with (malformed_ref s.name e ∷ []) p
  see_result s (ok parsed) p =
      if same_remote parsed.remote tree.id then see_parsed s.peeled parsed p else p

  -- The body of the loop.
  abbrev pub see : Scanned → Progress → Progress
  see s p = see_result s (parse_qualified t s.name) (record p { count = suc p.count })

  unfoldable pub see_all : {E : Type 0} → List (Result E Scanned) → Progress → Result E Progress
  see_all [] p = ok p
  see_all (err e ∷ items) p = err e
  see_all (ok s ∷ items) p = see_all items (see s p)

  abbrev pub conclude : Progress → List Validation
  conclude p =
      if p.count == 0
      then p.fail ++ no_data ∷ []
      else p.fail
        ++ (if p.seen_rad_id then [] else missing_rad_id ∷ [])
        ++ (if p.seen_sigrefs then [] else missing_sig_refs ∷ [])
        ++ missing_of tree.refs.refs p.seen

  unfoldable pub validate : {E : Type 0} → List (Result E Scanned) → Result E (List Validation)
  validate items = do
    p ←
        see_all items
          (record { fail = []; count = 0; seen = []; seen_rad_id = false; seen_sigrefs = false })
    ok (conclude p)
