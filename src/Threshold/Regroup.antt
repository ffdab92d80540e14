-- ===== src/Threshold/Regroup.antt =====
-- crates/supgang/src/threshold/regroup.rs: the succession payload and the possession proofs of the
-- successor groups.
pub mod Decode
use supgang.Base.{
  ℕ, Bool, true, false, not, [], ◌∷◌, Result, ok, err, ◌>>=◌, ◌>>◌, refuse_if, ◌==◌, if◌then◌else◌,
  Bytes, ascii,
}
use supgang.External.{External}
use supgang.Threshold.{Error, invalid, Digest, items, hash, fixed_item}
use supgang.Threshold.Records.{Operation, succession, RootStep, SignedStep}
use supgang.Threshold.Step.{verify}
use supgang.Threshold.Founding.{
  GroupDescriptor, RecoveryDescriptor, encode_group, digest_group, encode_recovery, digest_recovery,
}

pub data Kind : Type 0 where
  planned recovery_kind : Kind

abbrev pub kind_text : Kind → Bytes
kind_text planned = ascii "planned"
kind_text recovery_kind = ascii "recovery"

pub record Succession : Type 0 where
  pub kind : Kind
  pub previous_key : ℕ
  pub successor : GroupDescriptor
  pub retained : Digest
  pub recovery : RecoveryDescriptor
  pub possession : ℕ
  pub recovery_possession : ℕ

abbrev is_succession : Operation → Bool
is_succession succession = true
is_succession _ = false

module _ (x : External) where
  unfoldable pub encode : Succession → Result Error Bytes
  encode s = do
    successor ← encode_group x s.successor
    successor_digest ← digest_group x s.successor
    recovery ← encode_recovery x s.recovery
    recovery_digest ← digest_recovery x s.recovery
    ok (
        items (
          x.array 10
          ∷ x.u8 1
          ∷ x.str (kind_text s.kind)
          ∷ fixed_item x 32 s.previous_key
          ∷ x.bytes successor
          ∷ fixed_item x 32 successor_digest
          ∷ fixed_item x 32 s.retained
          ∷ x.bytes recovery
          ∷ fixed_item x 32 recovery_digest
          ∷ fixed_item x 64 s.possession
          ∷ fixed_item x 64 s.recovery_possession
          ∷ []))

  unfoldable pub possession_step : Succession → RootStep → Result Error RootStep
  possession_step s step = do
    refuse_if (not (is_succession step.operation)) invalid
    payload ← encode (record s { possession = 0; recovery_possession = 0 })
    ok (record step { payload = payload })

  unfoldable pub verify_possession : Succession → RootStep → Bool → Result Error (Unit {0})
  verify_possession s step recovery_changed = do
    proposal ← possession_step s step
    verify x (record { step = proposal; signature = s.possession }) s.successor.public_key
    if recovery_changed
        then verify x (record { step = proposal; signature = s.recovery_possession })
            s.recovery.group.public_key
        else refuse_if (not (s.recovery_possession == 0)) invalid

  unfoldable pub empty_retained_digest : Digest
  empty_retained_digest = hash x (128 ∷ [])
