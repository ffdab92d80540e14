-- ===== src/Hive/Merge.antt =====
-- crates/supgang/src/merge.rs: what to do with an incoming record, given the retained one.
use supgang.Base.{not, Option, none, some, ◌==◌, ltb, if◌then◌else◌}
use supgang.Hive.Record.{SignedEndpointRecord, signed_eq}

pub data MergeDecision : Type 0 where
  accept_first accept_newer duplicate reject_stale equivocation : MergeDecision
  generation_transition_required : MergeDecision

-- `merge::decide`
unfoldable pub decide : Option SignedEndpointRecord → SignedEndpointRecord → MergeDecision
decide none incoming = accept_first
decide (some current) incoming =
    if not (current.content.generation == incoming.content.generation)
    then generation_transition_required
    else if ltb current.content.sequence incoming.content.sequence
    then accept_newer
    else if ltb incoming.content.sequence current.content.sequence
    then reject_stale
    else if signed_eq current incoming
    then duplicate
    else equivocation
