-- ===== src/Lib.antt =====
-- Radicle Link: the parts of the peer-to-peer stack whose logic does not depend on the network.
--
-- An identity is a document that names the keys, or other identities, that may sign it; a chain of
-- its revisions is verified by checking signatures and quorums (link-identities/). Peers find each
-- other by HyParView, a membership protocol with a small active and a larger passive view
-- (librad/src/net/protocol/membership/), and tell the members of those views by gossip what they
-- have (librad/src/net/protocol/broadcast.rs). Both hand their caller a list of things to send. What
-- peers tell about themselves is stored in bounded sequences (data/src/bounded.rs), and everything
-- lives in git under names that are checked first and then joined and taken apart
-- (git-ref-format/core/src). Which identities of which peers are replicated, and what of them, is
-- recorded in tracking entries, which are references to configurations (link-tracking/). Replication
-- goes by phases, each of which asks a peer for refs, fetches what is missing and prepares updates,
-- first from the identities and then from the refs that the peers signed (link-replication/).
--
-- The files:
--   Prelude: Boolean tests, lists, association lists in the order of their keys for BTreeMap and
--     BTreeSet, and Result.
--   Data/Bounded: data/src/bounded.rs; extend_fill, try_from_length and the decoders for Bounded.
--     Data/Bounded/Laws has their theorems, Data/Tests runs them.
--   Identities/Document: Doc and Identity of link-identities/src/generic.rs, with bimap,
--     try_first, try_second, map and transpose.
--   Identities/Delegation: delegation.rs, delegation/direct.rs and delegation/indirect.rs of
--     link-identities/src; a trait's implementation is a record of its functions. The theorems on
--     quorums and double votes are in Identities/Delegation/Votes.
--   Identities/Verify: Verifying of link-identities/src/generic.rs; to_signed, to_quorum and
--     to_verified are signed, quorum and verified, and verify is the fold over a history.
--     Identities/Verify/Accept says what is accepted, Identities/Verify/History what the fold does,
--     and Identities/Verify/Root what becomes of the root.
--   Net/Info: librad/src/net/protocol/info.rs.
--   Net/Membership/View: PartialView of membership/partial_view.rs, whose operations return the
--     new view and the transitions. Below it, Invariant and Preserve have the well-formedness,
--     Reports and Effects what the operations report and do.
--   Net/Membership/Rpc: membership/rpc.rs and membership/tick.rs.
--   Net/Membership/Hpv: membership/hpv.rs. Hpv has the state and the helpers, Hpv/Ops the handlers
--     of each message and the other calls, and Hpv/Run sequences of them; the theorems are in
--     Hpv/Invariant, Hpv/Messages, Hpv/Limits and Hpv/Run.
--   Net/Membership/Rng: the choices of the crate rand, with the documented laws as hypotheses.
--   Net/Broadcast: the data of broadcast.rs, and what apply uses of others; Net/Broadcast/Apply is
--     apply, split where the source branches. Net/Broadcast/Seen has the theorems on duplicates,
--     Net/Broadcast/Relays those on what is sent to whom.
--   Net/Tock: Tock of tick.rs, Rpc of io/send/rpc.rs, tocks of membership.rs, and the views as the
--     members that the gossip asks for (librad/src/net/protocol.rs).
--   Tracking: link-tracking/src/git/tracking and its storage in librad/src/git/tracking. Policy is
--     tracking/policy.rs and refdb/previous_value.rs, and Policy/Fusion compares compositions with
--     actions in sequence; Reference is tracking/reference.rs,
--     with the text of names in Reference/Text; Refdb is the transaction of
--     librad/src/git/tracking/refdb.rs, on a list of references; Ops is link-tracking's
--     git/tracking.rs, and Batch its tracking/batch.rs, where maps are lists of entries in the order
--     of the keys. Config is config.rs, config/cobs.rs and git/config.rs. Laws below them have the
--     theorems, Batch/Runs those on fuse, and Tracking/Tests runs.
--   Replication: link-replication/src. Names is refs.rs, refs/parsed.rs and refs/scoped.rs; Refdb is
--     refdb.rs and refdb/mem.rs, whose hash map is the list of its entries; Wants is
--     BuildWantsHaves and FilteredRef of transmit.rs and wants_haves of fetch.rs; Sigrefs is
--     sigrefs.rs, with must and may as lists; Peek, Peek/Clone and Peek/Fetch are peek.rs,
--     peek/clone.rs and peek/fetch.rs; Fetch and Fetch/Transitive are fetch.rs and
--     fetch/transitive.rs; Validate is validation.rs; State is state.rs, where a phase is a record of
--     what Negotiation, Layout and UpdateTips say; Prepare is prepare.rs; Eval is what
--     eval/pull.rs and eval/rad.rs decide between the phases. Laws, Steps, Signed, Combined and Pending
--     below them have the theorems, and Replication/Tests runs.
--   Refs: git-ref-format/core/src/check.rs on lists of code points; Refs/Chars and Refs/Valid have
--     the theorems. Refs/Name is name.rs and name/iter.rs beside it, Refs/Qualified is deriv.rs and
--     Refs/Pattern is refspec.rs and refspec/iter.rs; Refs/Name/Laws, Refs/Name/Valid,
--     Refs/Qualified/Laws and Refs/Pattern/Laws have their theorems.
--
-- Public keys, peer ids and git object ids are numbers in the order of their bytes; addresses,
-- payloads and signatures are type parameters. A method that changes self returns the new state. An
-- assertion that fails makes a call return none; the debug assertion in add_active sets the field
-- asserts_hold of the view to false instead, a field that is not the source's, and step then returns
-- none. `usize` and `u64` matter where the source saturates: the hop count stops at 2 ^ 64 - 1.
-- Every loop of the modelled code is over a list, so there is no fuel, but for the loop that strips namespaces: each step shortens the name, whose
-- length is the fuel; and for remote_tracking, which calls itself once on a name without namespaces,
-- so that its fuel is two; and for the loop that parts pending updates, which takes one round for each.
--
-- Signatures are checked by a parameter, as are the storage, the rate limiters, the metrics and the
-- bloom filter of the gossip; of the filter it is assumed only that it contains what was just added.
-- The calls of git2 on references, the database of configurations and the pruning of namespaces are
-- parameters too, and so is how ids and peers are written; a lock depends on the locks that the
-- transaction holds. Replication has the lookups of refs and objects, the scans, the loads of signed
-- refs, the identities and the network as parameters. Locks and tasks are not modelled: each call is
-- one step. Not modelled are the git storage, the order of the stages of a replication and its
-- storage (link-replication/src/eval and link-replication/src/io), the text of tracking configurations,
-- collaborative objects, transport, and the serialisation of messages and documents.
pub mod Prelude
pub mod Data
pub mod Identities
pub mod Net
pub mod Refs
pub mod Tracking
pub mod Replication
