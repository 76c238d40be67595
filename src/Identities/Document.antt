-- ===== src/Identities/Document.antt =====
-- link-identities/src/generic.rs: the identity document and its attestation. Revisions and content
-- ids are git object ids, read as numbers; so are public keys.
use radicle_link.Prelude.{ℕ, Option, Result, ok, ◌>>=◌, Map}

abbrev pub PublicKey : Type 0
PublicKey = ℕ

abbrev pub Revision : Type 0
Revision = ℕ

abbrev pub ContentId : Type 0
ContentId = ℕ

pub record Doc (T D : Type 0) : Type 0 where
  pub version : ℕ
  pub replaces : Option Revision
  pub payload : T
  pub delegations : D

-- `I` is the document, `G` the type of a signature.
pub record Identity (G I : Type 0) : Type 0 where
  pub content_id : ContentId
  pub root : Revision
  pub revision : Revision
  pub doc : I
  pub signatures : Map G

module _ {T D U E : Type 0} where
  unfoldable pub bimap : (T → U) → (D → E) → Doc T D → Doc U E
  bimap f g d = record {
    version = d.version;
    replaces = d.replaces;
    payload = f d.payload;
    delegations = g d.delegations;
  }

module _ {T D U X : Type 0} where
  -- `try_first`: map a fallible function over the payload.
  unfoldable pub try_first : (T → Result X U) → Doc T D → Result X (Doc U D)
  unfolding bimap
  try_first f d = do
    let mapped = bimap f (λ (x : D). x) d
    payload ← mapped.payload
    ok (record {
      version = mapped.version;
      replaces = mapped.replaces;
      payload = payload;
      delegations = mapped.delegations;
    })

module _ {T D E X : Type 0} where
  -- `try_second`: map a fallible function over the delegations.
  unfoldable pub try_second : (D → Result X E) → Doc T D → Result X (Doc T E)
  unfolding bimap
  try_second g d = do
    let mapped = bimap (λ (x : T). x) g d
    delegations ← mapped.delegations
    ok (record {
      version = mapped.version;
      replaces = mapped.replaces;
      payload = mapped.payload;
      delegations = delegations;
    })

module _ {G I J : Type 0} where
  unfoldable pub map_doc : (I → J) → Identity G I → Identity G J
  map_doc f i = record {
    content_id = i.content_id;
    root = i.root;
    revision = i.revision;
    doc = f i.doc;
    signatures = i.signatures;
  }

module _ {G I X : Type 0} where
  unfoldable pub transpose : Identity G (Result X I) → Result X (Identity G I)
  transpose i = do
    doc ← i.doc
    ok (record {
      content_id = i.content_id;
      root = i.root;
      revision = i.revision;
      doc = doc;
      signatures = i.signatures;
    })
