-- ===== src/Threshold/Chain.antt =====
-- crates/supgang/src/threshold/step/chain.rs: the state of a verified chain, its founding, and the
-- parts of accepting a step that change or check one component of that state.
pub mod Accept
pub mod Induction
pub mod Cases
pub mod Run
pub mod Order
pub mod Grants
pub mod Halt
pub mod Trust
pub mod Life
pub mod Bounds
pub mod Data
pub mod Content
pub mod Drain
pub mod Tests
use supgang.Base.{
  ℕ, zero, suc, Bool, true, false, not, ◌&&◌, ◌||◌, List, [], ◌∷◌, Option, none, some, Result, ok,
  err, ◌>>=◌, ◌>>◌, refuse_if, ok_or, ltb, leb, ◌==◌, if◌then◌else◌, list_eq, length, Map, lookup,
  insert, remove, contains_key, checked_add, Bytes, ascii, ◌++◌, is_some, to_be_bytes,
}
use mathlib.Core.List.{reverse}
use supgang.External.{External}
use supgang.Threshold.{Error, invalid, bound, authority, Digest, max_records, hash}
use supgang.Threshold.Records.{Operation, grant, revoke_grant, RootStep, SignedStep}
use supgang.Threshold.Grant.{Kind, owner_action, release, code_signing, Grant}
use supgang.Threshold.Grant.Decode.{decode_grant, decode_revocation}
use supgang.Threshold.Founding.{
  GroupDescriptor, RecoveryDescriptor, recovery_eq, digest_recovery, founding_digest,
}
use supgang.Threshold.Regroup.{Succession, verify_possession, empty_retained_digest}

pub data Status : Type 0 where
  active halted exhausted : Status

pub data Outcome : Type 0 where
  accepted held duplicate fork : Outcome

pub record Conflict : Type 0 where
  pub first : Digest
  pub second : SignedStep

pub record Context : Type 0 where
  pub group : GroupDescriptor
  pub epoch : ℕ
  pub recovery_gen : ℕ
  pub sequence : ℕ

pub record Chain : Type 0 where
  pub hive : ℕ
  pub founding : Digest
  pub tip : Digest
  pub current : Context
  pub recovery : RecoveryDescriptor
  pub contexts : Map Context
  pub records : Map SignedStep
  pub pending : Map SignedStep
  pub children : Map Digest
  pub active_digests : List Digest
  pub recovery_proofs : Map (SignedStep × RecoveryDescriptor)
  pub grants : Map Grant
  pub used_grant_ids : Map (Unit {0})
  pub grant_revocation_serial : ℕ
  pub status : Status
  pub recovery_fork : Bool
  pub conflict : Option Conflict

abbrev pub is_active : Status → Bool
is_active active = true
is_active _ = false

abbrev pub is_halted : Status → Bool
is_halted halted = true
is_halted _ = false

abbrev kind_eq : Kind → Kind → Bool
kind_eq owner_action owner_action = true
kind_eq release release = true
kind_eq code_signing code_signing = true
kind_eq _ _ = false

-- `Chain::order`
abbrev pub order : Chain → ℕ × ℕ × ℕ
order c = (c.current.recovery_gen, c.current.epoch, c.current.sequence)

-- `Chain::grant`: no grant is read off a chain that is not active
unfoldable pub grant_of : Chain → ℕ → Option Grant
grant_of c id = if is_active c.status then lookup id c.grants else none

-- `fn halt`
unfoldable pub halt : Digest → SignedStep → Digest → Chain → Chain
halt first signed digest c = record c {
  records =
      if ltb (length c.records) max_records then insert digest signed c.records else c.records;
  conflict = some (record { first = first; second = signed });
  status = halted;
}

-- the loop of `fn ancestry`, in the order of its pushes
unfoldable pub walk : ℕ → Chain → Digest → List Digest
walk zero c predecessor = []
walk (suc n) c predecessor =
    if predecessor == c.founding then [] else elim (lookup predecessor c.records) [
      | none ↦ []
      | some r ↦ predecessor ∷ walk n c r.step.predecessor
    ]

unfoldable pub ancestry : Chain → Digest → List Digest
ancestry c predecessor = reverse (walk max_records c predecessor)

module _ (x : External) where
  -- `HiveId::from_root_verifying_key`
  unfoldable pub hive_of_root : ℕ → ℕ
  hive_of_root key = hash x (ascii "supgang/hive-id/v1" ++ (0 ∷ to_be_bytes 32 key))

  -- `Chain::new`
  unfoldable pub new : GroupDescriptor → RecoveryDescriptor → Result Error Chain
  new group recovery = do
    refuse_if
        (not (recovery.sequence == 0)
          || not (recovery.predecessor == 0)
          || recovery.group.public_key == group.public_key
          || not (list_eq recovery.group.label group.label))
        invalid
    founding ← founding_digest x group (some recovery)
    let current : Context = record { group = group; epoch = 0; recovery_gen = 0; sequence = 0 }
    ok (record {
      hive = hive_of_root group.public_key;
      founding = founding;
      tip = founding;
      current = current;
      recovery = recovery;
      contexts = insert founding current [];
      records = [];
      pending = [];
      children = [];
      active_digests = [];
      recovery_proofs = [];
      grants = [];
      used_grant_ids = [];
      grant_revocation_serial = 0;
      status = active;
      recovery_fork = false;
      conflict = none;
    })

  -- `self.grants.get(&revoke.id).map(|grant| grant.kind) != Some(revoke.kind)`
  abbrev other_kind : Option Grant → Kind → Bool
  other_kind none kind = true
  other_kind (some g) kind = not (kind_eq g.kind kind)

  -- `fn validate_grant_transition`
  unfoldable pub validate_grant_transition : Chain → RootStep → Result Error (Unit {0})
  validate_grant_transition c step = elim step.operation [
    | grant ↦ do
      g ← decode_grant x step.payload
      refuse_if (leb max_records (length c.used_grant_ids) || contains_key g.id c.used_grant_ids)
          authority
    | revoke_grant ↦ do
      r ← decode_revocation x step.payload
      refuse_if (other_kind (lookup r.id c.grants) r.kind) authority
      next ← ok_or (checked_add c.grant_revocation_serial 1) bound
      refuse_if (not (r.serial == next)) authority
    | _ ↦ ok tt
  ]

  -- `fn apply_grant_transition`; an error comes before any change
  unfoldable pub apply_grant_transition : RootStep → Chain → Result Error Chain
  apply_grant_transition step c = elim step.operation [
    | grant ↦ do
      g ← decode_grant x step.payload
      ok (record c {
        used_grant_ids = insert g.id tt c.used_grant_ids;
        grants = insert g.id g c.grants;
      })
    | revoke_grant ↦ do
      r ← decode_revocation x step.payload
      ok (record c { grants = remove r.id c.grants; grant_revocation_serial = r.serial })
    | _ ↦ ok c
  ]

  -- the recovery step agrees with the context of its predecessor, if that is known
  unfoldable pub check_known_predecessor :
      Option Context → RootStep → Succession → Result Error (Unit {0})
  check_known_predecessor none step t = ok tt
  check_known_predecessor (some context) step t = do
    refuse_if
        (not (t.previous_key == context.group.public_key) || not (step.epoch == context.epoch))
        authority
    next ← ok_or (checked_add context.sequence 1) bound
    refuse_if (not (step.sequence == next)) authority

  -- a changed recovery descriptor continues the history of the one in force
  unfoldable pub check_recovery_change :
      RecoveryDescriptor → RecoveryDescriptor → Result Error (Unit {0})
  check_recovery_change changed current = do
    sequence ← ok_or (checked_add current.sequence 1) bound
    refuse_if (not (changed.sequence == sequence)) authority
    predecessor ← digest_recovery x current
    refuse_if
        (not (changed.predecessor == predecessor)
          || changed.group.public_key == current.group.public_key)
        authority
    generation ← ok_or (checked_add current.group.generation 1) bound
    refuse_if (not (changed.group.generation == generation)) authority

  -- `fn validate_recovery`
  unfoldable pub validate_recovery :
      Chain → RootStep → Succession → RecoveryDescriptor → Result Error (Unit {0})
  validate_recovery c step t current = do
    refuse_if
        (not (t.retained == empty_retained_digest x)
          || not (list_eq t.successor.label c.current.group.label)
          || t.successor.public_key == t.previous_key
          || t.successor.public_key == t.recovery.group.public_key
          || not (list_eq t.recovery.group.label c.current.group.label))
        authority
    check_known_predecessor (lookup step.predecessor c.contexts) step t
    let changed = not (recovery_eq t.recovery current)
    if changed then check_recovery_change t.recovery current else ok tt
    verify_possession x t step changed
