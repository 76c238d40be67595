-- ===== src/Replication/Sigrefs.antt =====
-- link-replication/src/sigrefs.rs: the signed refs of several peers. A set of peers is the list of its
-- elements in ascending order, and `SignedRefs::load` is a parameter.
pub mod Combined
pub mod Laws
use radicle_link.Prelude.{ℕ, Option, none, some, List, [], ◌∷◌, Result, ok, err, ◌>>=◌, Map, insert}
use radicle_link.Net.Info.{PeerId}
use radicle_link.Refs.Name.{Name}
use radicle_link.Tracking.Policy.{Oid}

pub data CombineError (E : Type 0) : Type 0 where
  not_found : PeerId → CombineError E
  load_failed : E → CombineError E

pub record Sigrefs : Type 0 where
  pub at : Oid
  pub refs : List (Name × Oid)
  pub remotes : List PeerId

-- `Refs`
pub record SignedAt : Type 0 where
  pub at : Oid
  pub refs : List (Name × Oid)

pub record Flattened : Type 0 where
  pub refs : Map SignedAt
  pub remotes : Map (Unit {0})

pub record Select : Type 0 where
  pub must : List PeerId
  pub may : List PeerId
  pub cutoff : ℕ

-- `BTreeSet::extend`
unfoldable pub extend : List PeerId → Map (Unit {0}) → Map (Unit {0})
extend [] set = set
extend (x ∷ xs) set = extend xs (insert x tt set)

abbrev pub flatten_one : PeerId → Sigrefs → Flattened → Flattened
flatten_one peer s f = record {
  refs = insert peer (record { at = s.at; refs = s.refs }) f.refs;
  remotes = extend s.remotes f.remotes;
}

unfoldable pub flatten_into : Map Sigrefs → Flattened → Flattened
flatten_into [] f = f
flatten_into ((peer, s) ∷ m) f = flatten_into m (flatten_one peer s f)

unfoldable pub flattened : Map Sigrefs → Flattened
flattened m = flatten_into m (record { refs = []; remotes = [] })

module _ {E : Type 0} (load : PeerId → ℕ → Result E (Option Sigrefs)) (cutoff : ℕ) where
  abbrev pub required :
      PeerId → Result E (Option Sigrefs) → Map Sigrefs → Result (CombineError E) (Map Sigrefs)
  required peer (err e) m = err (load_failed e)
  required peer (ok none) m = err (not_found peer)
  required peer (ok (some s)) m = ok (insert peer s m)

  abbrev pub optional :
      PeerId → Result E (Option Sigrefs) → Map Sigrefs → Result (CombineError E) (Map Sigrefs)
  optional peer (err e) m = err (load_failed e)
  optional peer (ok none) m = ok m
  optional peer (ok (some s)) m = ok (insert peer s m)

  unfoldable pub combine_must : List PeerId → Map Sigrefs → Result (CombineError E) (Map Sigrefs)
  combine_must [] m = ok m
  combine_must (peer ∷ peers) m =
      required peer (load peer cutoff) m >>= (λ (m' : Map Sigrefs). combine_must peers m')

  unfoldable pub combine_may : List PeerId → Map Sigrefs → Result (CombineError E) (Map Sigrefs)
  combine_may [] m = ok m
  combine_may (peer ∷ peers) m =
      optional peer (load peer cutoff) m >>= (λ (m' : Map Sigrefs). combine_may peers m')

module _ {E : Type 0} where
  unfoldable pub combined :
      (PeerId → ℕ → Result E (Option Sigrefs)) → Select → Result (CombineError E) (Map Sigrefs)
  combined load select = do
    m ← combine_must load select.cutoff select.must []
    combine_may load select.cutoff select.may m
