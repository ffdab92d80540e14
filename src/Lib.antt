-- ===== src/Lib.antt =====
-- The threshold root of supgang, the signed records of its hives, the directory of peers and their
-- admission, as a library of definitions and theorems.
--
-- A hive is founded by two threshold groups: a root group, whose signed steps extend a chain, and a
-- recovery group, which alone can replace the root group against it. Every device keeps the chain
-- and presents to it the steps that it receives, in any order. A step carries a typed payload: a
-- grant, a revocation, or a succession to another group. The chain keeps the accepted records, the
-- steps whose predecessor is not yet known, the conflicts it has seen, and the grants in force. The
-- root also signs a status of short life at the head of the chain, under renewal terms whose counts
-- an issuer and every target keep in a ledger.
--
-- Inside a hive the root signs memberships and revocation snapshots, and every member signs records of
-- where it can be reached. Contacts pair both; a device keeps the contacts of its peers in a directory,
-- into which gossip brings newer ones.
--
-- Files, and the code that they model (paths from the root of the repository):
--   * Base and Base/*: shared helpers. Numbers are the native ones; Base/Maps stands for BTreeMap
--     with an association list in key order, Base/Results for Result and `?`, Base/Digits for
--     arrays of a fixed width, which are kept as the number that they spell.
--   * External: the code of other packages, as a record of functions: the CBOR reader and writer,
--     SHA-256, strict Ed25519, the FROST deserializers and P-256. `IsCbor` and `IsSigning` are
--     the laws stated of it; Threshold/Toy is an instance that fulfils both and on which the tests run.
--   * Threshold, Threshold/Reading: crates/supgang/src/threshold.rs: errors, limits, and the helpers of
--     the strict decoders as readers of the bytes that are left.
--   * Threshold/Records, Threshold/Step: crates/supgang/src/threshold/step.rs. `encode`, `decode_step`,
--     `digest`, `message` and `verify` are the methods of RootStep and SignedStep.
--   * Threshold/Grant: crates/supgang/src/threshold/step/grant.rs: grants, revocations, their checks.
--   * Threshold/Founding: crates/supgang/src/threshold/founding.rs: the two descriptors.
--   * Threshold/Regroup: crates/supgang/src/threshold/regroup.rs: successions and possession proofs.
--   * Threshold/Chain: crates/supgang/src/threshold/step/chain.rs. `new` is Chain::new and
--     Chain/Accept has `accept`, `accept_ordinary`, `accept_recovery` and `drain` (drain_pending). A
--     handler returns its result beside the chain, because the code changes some fields before an
--     error return. Chain/Induction and Chain/Cases turn the control flow into rules for predicates;
--     the other files below Chain prove one property each.
--   * Threshold/Canonical: the strict decoders against their encoders.
--   * Threshold/Renewal: crates/supgang/src/threshold/status_renewal.rs: renewal terms, counts and the
--     ledger. `draft_new`, `draft_issue` and `draft_observe` are its transitions; the public `new` and
--     `issue` ask for a permit that nobody can have. Renewal/Runs puts transitions in sequence.
--   * Threshold/Status: crates/supgang/src/threshold/status.rs: the short-lived status that a target
--     checks, and `verify_status`, which advances the target's ledger.
--   * Service/Admission: crates/supgang/src/service/admission.rs: the table of sources whose handshakes
--     a device admits before it knows who they are; `allow` and `note_authenticated` are its methods, and
--     Admission/Tally counts their answers beside the table.
--   * Network/Address, Network/Candidate: crates/supgang/src/candidate.rs: which sockets may be offered
--     under which provenance.
--   * Codec, Codec/*: the pattern of the strict decoders of a hive's records: a reader of the bytes
--     that are left, an input that ends where the reader stops, and the comparison with the encoding.
--     Codec/Reads has the rules by which a reader reads what was written.
--   * Hive/Ids, Hive/Membership, Hive/Revocation, Hive/Record, Hive/Wire, Hive/Contact, Hive/Merge and
--     Hive/Reachability: the files of these names in crates/supgang/src (Ids also has `verify_domain` of
--     identity.rs). Hive/Authorized is the signing and the authorization of record.rs. Of each pair of
--     encoder and decoder the reader of the items stands in a module Read and the decoder in Decode.
--   * Network/Tunnel: crates/supgang/src/tunnel_policy.rs; Service/Retry:
--     crates/supgang/src/service/retry_schedule.rs; Service/Paths:
--     crates/supgang/src/service/path_quality.rs; Update/Delivery:
--     crates/supgang/src/update/delivery_queue.rs, whose state is the list of deliveries in its file.
--   * Directory, Directory/*: crates/supgang/src/peer_directory.rs. `apply`, `import_contact` (import)
--     and `set_revocations` are its handlers. The journal's answers are arguments, so the theorems hold
--     whatever the files do; the handlers return their result beside the directory.
--
-- Bounds and fuel: `drain` takes the rounds that the code's loop counts, and `ancestry` likewise, both
-- 256 (`MAX_RECORDS`). A u64 that could overflow goes through `checked_add`, as in the code. Encoding
-- writes into memory and cannot fail, so it returns bytes; the maximal sizes are checked where the
-- code checks them.
--
-- Not modelled: network, files, key custody and randomness; the run of a distributed key generation;
-- the causes that an error wraps; the causes of a device key's errors. Signatures and digests are
-- compared as numbers.
pub mod Base
pub mod Codec
pub mod Directory
pub mod External
pub mod Hive
pub mod Network
pub mod Service
pub mod Threshold
pub mod Update
