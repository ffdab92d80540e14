-- ===== src/Directory/Apply.antt =====
-- crates/supgang/src/peer_directory.rs: how a contact enters the directory. `saved` is the journal's
-- answer to `persist_contact` and `compacted` its answer to `compact_if_needed`: what the files do is
-- not modelled. A handler returns its result beside the directory, which some errors change.
use supgang.Base.{
  ℕ, Bool, true, false, not, ◌&&◌, ◌||◌, List, [], ◌∷◌, any, Option, none, some, Result, ok, err,
  leb, ltb, ◌==◌, if◌then◌else◌, length, lookup, insert, retain, list_eq, ◌>>◌,
}
use supgang.External.{External}
use supgang.Codec.{map_err}
use supgang.Hive.Revocation
use supgang.Hive.Revocation.{SignedRevocationList, RevocationError, contains}
use supgang.Hive.Contact.{PeerContact, ContactError, verify_contact}
use supgang.Hive.Merge.{
  MergeDecision, accept_first, accept_newer, reject_stale, generation_transition_required, decide,
}
use supgang.Hive.Merge as Merge
use supgang.Hive.Reachability.{ReachabilityClaim}
use supgang.Directory.{
  PeerEntry, PeerDirectory, PeerDirectoryError, ImportDecision, accepted_first, accepted_newer,
  duplicate, rejected_stale, local_node, directory_full, equivocation, contact_invalid,
  revocation_invalid, revocation_rollback, revocation_equivocation, revoked, max_peers,
  is_conflicted, advanced, node_of,
}
use supgang.Directory as Directory

abbrev pub Outcome : Type 0
Outcome = Result PeerDirectoryError ImportDecision × PeerDirectory

abbrev pub with_entry : PeerDirectory → PeerContact → PeerEntry → PeerDirectory
with_entry d contact entry = record d { entries = insert (node_of contact) entry d.entries }

abbrev pub first_entry : PeerContact → PeerEntry
first_entry contact = record { current = contact; history = []; conflict = none }

-- what follows the journal's answer
abbrev pub once_saved :
    Result PeerDirectoryError (Unit {0})
    → PeerDirectory
    → PeerDirectory
    → Result PeerDirectoryError ImportDecision
    → Outcome
once_saved (err e) before after result = (err e, before)
once_saved (ok u) before after result = (result, after)

unfoldable pub accept_contact :
    PeerDirectory → PeerContact → Result PeerDirectoryError (Unit {0}) → Outcome
accept_contact d contact saved =
    if leb max_peers (length d.entries)
    then (err directory_full, d)
    else once_saved saved d (with_entry d contact (first_entry contact)) (ok accepted_first)

unfoldable pub advance_contact :
    PeerDirectory → PeerEntry → PeerContact → Result PeerDirectoryError (Unit {0}) → Outcome
advance_contact d entry contact saved =
    if is_conflicted entry
    then (err equivocation, d)
    else once_saved saved d (with_entry d contact (advanced d.history_address_limit entry contact))
        (ok accepted_newer)

abbrev pub evidence_result : Bool → Result PeerDirectoryError ImportDecision
evidence_result true = err equivocation
evidence_result false = ok rejected_stale

unfoldable pub quarantine_contact :
    PeerDirectory → PeerEntry → PeerContact → Bool → Result PeerDirectoryError (Unit {0}) → Outcome
quarantine_contact d entry contact persist saved =
    if is_conflicted entry
    then (evidence_result persist, d)
    else once_saved saved d (with_entry d contact (record entry { conflict = some contact }))
        (evidence_result persist)

abbrev pub merged :
    MergeDecision
    → PeerDirectory
    → PeerEntry
    → PeerContact
    → Bool
    → Result PeerDirectoryError (Unit {0})
    → Outcome
merged Merge.accept_first d entry contact persist saved = accept_contact d contact saved
merged Merge.accept_newer d entry contact persist saved = advance_contact d entry contact saved
merged Merge.duplicate d entry contact persist saved = (ok duplicate, d)
merged Merge.reject_stale d entry contact persist saved = (ok rejected_stale, d)
merged Merge.equivocation d entry contact persist saved =
    quarantine_contact d entry contact persist saved
merged Merge.generation_transition_required d entry contact persist saved =
    (err Directory.generation_transition_required, d)

-- what the current entry of the node makes of a contact
unfoldable pub apply_to :
    PeerDirectory
    → Option PeerEntry
    → PeerContact
    → Bool
    → Result PeerDirectoryError (Unit {0})
    → Outcome
apply_to d none contact persist saved = accept_contact d contact saved
apply_to d (some entry) contact persist saved =
    merged (decide (some entry.current.endpoint) contact.endpoint) d entry contact persist saved

-- `PeerDirectory::apply`; without persistence the answer is that all is saved
unfoldable pub apply :
    PeerDirectory → PeerContact → Bool → Result PeerDirectoryError (Unit {0}) → Outcome
apply d contact persist saved =
    if node_of contact == d.local
    then (err local_node, d)
    else apply_to d (lookup (node_of contact) d.entries) contact persist
        (if persist then saved else ok tt)

-- the result of an import, whose error a failed compaction replaces
abbrev pub after_compaction : Result PeerDirectoryError (Unit {0}) → Outcome → Outcome
after_compaction (err e) (result, d) = (err e, d)
after_compaction (ok u) outcome = outcome

abbrev pub as_contact : ContactError → PeerDirectoryError
as_contact e = contact_invalid

abbrev pub as_revocation : RevocationError → PeerDirectoryError
as_revocation e = revocation_invalid

-- `list == list` and `signature == signature`
abbrev revocations_eq : SignedRevocationList → SignedRevocationList → Bool
revocations_eq a b =
    a.list.version == b.list.version
    && a.list.hive_id == b.list.hive_id
    && a.list.serial == b.list.serial
    && a.list.issued_at == b.list.issued_at
    && list_eq a.list.revoked_nodes b.list.revoked_nodes
    && list_eq a.signature b.signature

abbrev pub is_unrevoked : SignedRevocationList → ReachabilityClaim → Bool
is_unrevoked revocations claim =
    not (contains revocations.list claim.subject) && not (contains revocations.list claim.reporter)

-- the order of the serials decides first
unfoldable pub replace_revocations :
    PeerDirectory → SignedRevocationList → Result PeerDirectoryError PeerDirectory
replace_revocations d next =
    if ltb next.list.serial d.revocations.list.serial
    then err revocation_rollback
    else if next.list.serial == d.revocations.list.serial
    then if revocations_eq next d.revocations then ok d else err revocation_equivocation
    else if ltb next.list.issued_at d.revocations.list.issued_at
        || any (λ node. not (contains next.list node)) d.revocations.list.revoked_nodes
    then err revocation_rollback
    else ok
        (record d { revocations = next; reachability = retain (is_unrevoked next) d.reachability })

-- what happens to a directory: an import with the journal's answers, or a new revocation snapshot
pub data Event : Type 0 where
  imported :
      PeerContact
      → ℕ
      → Result PeerDirectoryError (Unit {0})
      → Result PeerDirectoryError (Unit {0})
      → Event
  snapshot : SignedRevocationList → Event

module _ (x : External) where
  abbrev pub import_verified :
      Result PeerDirectoryError (Unit {0})
      → PeerDirectory
      → PeerContact
      → Result PeerDirectoryError (Unit {0})
      → Result PeerDirectoryError (Unit {0})
      → Outcome
  import_verified (err e) d contact saved compacted = (err e, d)
  import_verified (ok u) d contact saved compacted =
      if contains d.revocations.list (node_of contact)
      then (err revoked, d)
      else after_compaction compacted (apply d contact true saved)

  -- `PeerDirectory::import`
  unfoldable pub import_contact :
      PeerDirectory
      → PeerContact
      → ℕ
      → Result PeerDirectoryError (Unit {0})
      → Result PeerDirectoryError (Unit {0})
      → Outcome
  import_contact d contact now saved compacted =
      import_verified (map_err as_contact (verify_contact x contact d.root_key now)) d contact saved
        compacted

  -- `PeerDirectory::set_revocations`
  unfoldable pub set_revocations :
      PeerDirectory → SignedRevocationList → Result PeerDirectoryError PeerDirectory
  set_revocations d next = do
    map_err as_revocation (Revocation.verify x next d.root_key)
    replace_revocations d next

  abbrev pub kept : PeerDirectory → Result PeerDirectoryError PeerDirectory → PeerDirectory
  kept d (err e) = d
  kept d (ok next) = next

  unfoldable pub handle : Event → PeerDirectory → PeerDirectory
  handle (imported contact now saved compacted) d = (import_contact d contact now saved compacted).1
  handle (snapshot next) d = kept d (set_revocations d next)

  unfoldable pub run : List Event → PeerDirectory → PeerDirectory
  run [] d = d
  run (e ∷ es) d = run es (handle e d)
