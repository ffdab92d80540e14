-- ===== src/Directory/Laws.antt =====
-- The directory over any run of imports and snapshots.
use supgang.Base.{
  ℕ, ◌≡◌, ◌≢◌, ◌⊎◌, ◌<◌, inl, inr, refl, Bool, false, Option, none, some, Result, ok, err, leb,
  ◌==◌, length, lookup, Bool-cases, arith, if◌then◌else◌,
}
use supgang.Hive.Contact.{PeerContact}
use supgang.Hive.Merge.{MergeDecision, decide}
use supgang.Hive.Merge as Merge
use supgang.Directory.{
  PeerEntry, PeerDirectory, PeerDirectoryError, ImportDecision, accepted_first, accepted_newer,
  max_peers, is_conflicted, advanced, node_of,
}
use supgang.Directory.Apply.{
  with_entry, accept_contact, advance_contact, quarantine_contact, merged, apply_to, apply,
  first_entry, once_saved, evidence_result,
}

-- The register of a node moves on: one generation, and either the same contact or a higher sequence.
abbrev pub IsLater : PeerEntry → PeerEntry → Type 0
IsLater entry next =
    (next.current.endpoint.content.generation ≡ entry.current.endpoint.content.generation)
    × ((next.current ≡ entry.current)
        ⊎ (entry.current.endpoint.content.sequence < next.current.endpoint.content.sequence))

-- What one handler does to the entries.
pub data Step (d : PeerDirectory) : PeerDirectory → Type 0 where
  unchanged : Step d d
  entered :
      (contact : PeerContact) (entry : PeerEntry)
      → node_of contact ≢ d.local
      → lookup (node_of contact) d.entries ≡ none
      → length d.entries < max_peers
      → Step d (with_entry d contact entry)
  moved :
      (contact : PeerContact) (entry next : PeerEntry)
      → node_of contact ≢ d.local
      → lookup (node_of contact) d.entries ≡ some entry
      → is_conflicted entry ≡ false
      → IsLater entry next
      → Step d (with_entry d contact next)

accept-Step :
    (d : PeerDirectory) (contact : PeerContact) (saved : Result PeerDirectoryError (Unit {0}))
    → node_of contact ≢ d.local
    → lookup (node_of contact) d.entries ≡ none
    → Step d (accept_contact d contact saved).1
unfolding accept_contact
accept-Step d contact saved away fresh = elim (Bool-cases (leb max_peers (length d.entries))) [
  | inl full ↦ rw (full, accept_contact) unchanged
  | inr free ↦ rw (free, accept_contact) (answered saved free)
]
  where
    answered :
        (answer : Result PeerDirectoryError (Unit {0}))
        → leb max_peers (length d.entries) ≡ false
        → Step d
            (once_saved answer d (with_entry d contact (first_entry contact)) (ok accepted_first)).1
    answered (err e) free = unchanged
    answered (ok u) free = entered contact (first_entry contact) away fresh (ground arith)

-- an entry without a conflict gives way to a later one, if the journal saved it
moved-Step :
    (d : PeerDirectory) (entry next : PeerEntry) (contact : PeerContact)
    (saved : Result PeerDirectoryError (Unit {0}))
    (result : Result PeerDirectoryError ImportDecision)
    → node_of contact ≢ d.local
    → lookup (node_of contact) d.entries ≡ some entry
    → is_conflicted entry ≡ false
    → IsLater entry next
    → Step d (once_saved saved d (with_entry d contact next) result).1
moved-Step d entry next contact (err e) result away found clean later = unchanged
moved-Step d entry next contact (ok u) result away found clean later =
    moved contact entry next away found clean later

advanced-IsLater :
    (limit : ℕ) (entry : PeerEntry) (contact : PeerContact)
    → decide (some entry.current.endpoint) contact.endpoint ≡ Merge.accept_newer
    → IsLater entry (advanced limit entry contact)
unfolding advanced decide
advanced-IsLater limit entry contact h = (ground arith, inr (ground arith))

merged-Step :
    (m : MergeDecision) (d : PeerDirectory) (entry : PeerEntry) (contact : PeerContact)
    (persist : Bool) (saved : Result PeerDirectoryError (Unit {0}))
    → decide (some entry.current.endpoint) contact.endpoint ≡ m
    → node_of contact ≢ d.local
    → lookup (node_of contact) d.entries ≡ some entry
    → Step d (merged m d entry contact persist saved).1
unfolding decide advance_contact quarantine_contact
merged-Step Merge.accept_first d entry contact persist saved h away found = ground arith
merged-Step Merge.accept_newer d entry contact persist saved h away found =
    elim (Bool-cases (is_conflicted entry)) [
      | inl bad ↦ rw (bad, advance_contact) unchanged
      | inr clean ↦
          rw (clean, advance_contact)
            (moved-Step d entry (advanced d.history_address_limit entry contact) contact saved
              (ok accepted_newer) away found clean
              (advanced-IsLater d.history_address_limit entry contact h))
    ]
merged-Step Merge.duplicate d entry contact persist saved h away found = unchanged
merged-Step Merge.reject_stale d entry contact persist saved h away found = unchanged
merged-Step Merge.equivocation d entry contact persist saved h away found =
    elim (Bool-cases (is_conflicted entry)) [
      | inl bad ↦ rw (bad, quarantine_contact) unchanged
      | inr clean ↦
          rw (clean, quarantine_contact)
            (moved-Step d entry (record entry { conflict = some contact }) contact saved
              (evidence_result persist) away found clean (refl, inl refl))
    ]
merged-Step Merge.generation_transition_required d entry contact persist saved h away found =
    unchanged

apply_to-Step :
    (d : PeerDirectory) (found : Option PeerEntry) (contact : PeerContact) (persist : Bool)
    (saved : Result PeerDirectoryError (Unit {0}))
    → lookup (node_of contact) d.entries ≡ found
    → node_of contact ≢ d.local
    → Step d (apply_to d found contact persist saved).1
unfolding apply_to
apply_to-Step d none contact persist saved e away = accept-Step d contact saved away e
apply_to-Step d (some entry) contact persist saved e away =
    merged-Step (decide (some entry.current.endpoint) contact.endpoint) d entry contact persist
      saved refl away e

pub apply-Step :
    (d : PeerDirectory) (contact : PeerContact) (persist : Bool)
    (saved : Result PeerDirectoryError (Unit {0}))
    → Step d (apply d contact persist saved).1
unfolding apply
apply-Step d contact persist saved = elim (Bool-cases (node_of contact == d.local)) [
  | inl own ↦ rw (own, apply) unchanged
  | inr other ↦
      rw (other, apply)
        (apply_to-Step d (lookup (node_of contact) d.entries) contact persist
          (if persist then saved else ok tt) refl (ground arith))
]
