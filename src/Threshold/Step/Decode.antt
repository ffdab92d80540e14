-- ===== src/Threshold/Step/Decode.antt =====
-- crates/supgang/src/threshold/step.rs: `RootStep::decode`.
use supgang.Base.{not, Result, err, refuse_if, ltb, ◌==◌, if◌then◌else◌, length, Bytes}
use supgang.External.{External}
use supgang.Threshold.{Error, invalid, bound, Reader, array, fixed, canonical, max_step_bytes}
use supgang.Threshold.Reading.{◌>>=◌, ◌>>◌, returns, lift, run}
use supgang.Threshold.Records.{RootStep, operation_parse}
use supgang.Threshold.Grant.Decode.{read_u8, read_u64, read_str, read_bytes}
use supgang.Threshold.Step.{encode}

module _ (x : External) where
  unfoldable pub read_step : Reader RootStep
  read_step = do
    array x 10
    version ← read_u8 x
    lift (refuse_if (not (version == 1)) invalid)
    hive ← fixed x 32
    predecessor ← fixed x 32
    sequence ← read_u64 x
    epoch ← read_u64 x
    recovery_gen ← read_u64 x
    label ← read_str x
    operation ← lift (operation_parse label)
    payload ← read_bytes x
    proposed_at ← read_u64 x
    proposer ← fixed x 32
    returns (record {
      hive = hive;
      predecessor = predecessor;
      sequence = sequence;
      epoch = epoch;
      recovery_gen = recovery_gen;
      operation = operation;
      payload = payload;
      proposed_at = proposed_at;
      proposer = proposer;
    })

  unfoldable pub decode_step : Bytes → Result Error RootStep
  decode_step bytes =
      if ltb max_step_bytes (length bytes)
      then err bound
      else run
          (do s ← read_step; encoded ← lift (encode x s); lift (canonical bytes encoded); returns s)
          bytes
