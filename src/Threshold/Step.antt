-- ===== src/Threshold/Step.antt =====
-- crates/supgang/src/threshold/step.rs: canonical bytes, identity and signature of a root step.
pub mod Decode
pub mod Laws
use supgang.Base.{
  ℕ, not, ◌||◌, [], ◌∷◌, ◌++◌, Result, ok, err, ◌>>=◌, ◌>>◌, refuse_if, ltb, ◌==◌, if◌then◌else◌,
  length, Bytes, ascii,
}
use supgang.External.{External}
use supgang.Threshold.{Error, bound, proof, Digest, max_step_bytes, items, hash, fixed_item}
use supgang.Threshold.Records.{RootStep, SignedStep, operation_text}
use supgang.Threshold.Grant.Decode.{validate_step}

abbrev domain : Bytes
domain = ascii "supgang/root-step/v1" ++ (0 ∷ [])

module _ (x : External) where
  unfoldable pub encode : RootStep → Result Error Bytes
  encode s = do
    refuse_if (s.sequence == 0 || ltb 12288 (length s.payload)) bound
    validate_step x s
    let bytes = items (
        x.array 10
        ∷ x.u8 1
        ∷ fixed_item x 32 s.hive
        ∷ fixed_item x 32 s.predecessor
        ∷ x.u64 s.sequence
        ∷ x.u64 s.epoch
        ∷ x.u64 s.recovery_gen
        ∷ x.str (operation_text s.operation)
        ∷ x.bytes s.payload
        ∷ x.u64 s.proposed_at
        ∷ fixed_item x 32 s.proposer
        ∷ [])
    if ltb max_step_bytes (length bytes) then err bound else ok bytes

  -- `RootStep::digest`
  unfoldable pub digest : RootStep → Result Error Digest
  digest s = do b ← encode s; ok (hash x b)

  unfoldable pub message : RootStep → Result Error Bytes
  message s = do b ← encode s; ok (domain ++ b)

  -- `SignedStep::verify`
  unfoldable pub verify : SignedStep → ℕ → Result Error (Unit {0})
  verify signed public_key = do
    refuse_if (not (x.ed25519_key public_key)) proof
    refuse_if (x.is_weak public_key) proof
    m ← message signed.step
    refuse_if (not (x.verify_strict public_key m signed.signature)) proof
