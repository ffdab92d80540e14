-- ===== src/Threshold/Regroup/Decode.antt =====
-- crates/supgang/src/threshold/regroup.rs: `Succession::decode`.
use supgang.Base.{
  not, Result, ok, err, refuse_if, ltb, ◌==◌, if◌then◌else◌, list_eq, length, Bytes, ascii,
}
use supgang.External.{External}
use supgang.Threshold.{Error, invalid, bound, proof, Reader, array, fixed, canonical}
use supgang.Threshold.Reading.{◌>>=◌, ◌>>◌, returns, lift, run}
use supgang.Threshold.Grant.Decode.{read_u8, read_str, read_bytes}
use supgang.Threshold.Founding.{digest_group, digest_recovery}
use supgang.Threshold.Founding.Decode.{decode_group, decode_recovery}
use supgang.Threshold.Regroup.{Kind, planned, recovery_kind, Succession, encode}

unfoldable pub kind_parse : Bytes → Result Error Kind
kind_parse text =
    if list_eq text (ascii "planned")
    then ok planned
    else if list_eq text (ascii "recovery")
    then ok recovery_kind
    else err invalid

module _ (x : External) where
  unfoldable pub read_succession : Reader Succession
  read_succession = do
    array x 10
    version ← read_u8 x
    lift (refuse_if (not (version == 1)) invalid)
    label ← read_str x
    kind ← lift (kind_parse label)
    previous_key ← fixed x 32
    successor_bytes ← read_bytes x
    successor ← lift (decode_group x successor_bytes)
    named_successor ← fixed x 32
    successor_digest ← lift (digest_group x successor)
    lift (refuse_if (not (named_successor == successor_digest)) proof)
    retained ← fixed x 32
    recovery_bytes ← read_bytes x
    recovery ← lift (decode_recovery x recovery_bytes)
    named_recovery ← fixed x 32
    recovery_digest ← lift (digest_recovery x recovery)
    lift (refuse_if (not (named_recovery == recovery_digest)) proof)
    possession ← fixed x 64
    recovery_possession ← fixed x 64
    returns (record {
      kind = kind;
      previous_key = previous_key;
      successor = successor;
      retained = retained;
      recovery = recovery;
      possession = possession;
      recovery_possession = recovery_possession;
    })

  unfoldable pub decode_succession : Bytes → Result Error Succession
  decode_succession bytes =
      if ltb 12288 (length bytes)
      then err bound
      else run
          (do
            s ← read_succession
            encoded ← lift (encode x s)
            lift (canonical bytes encoded)
            returns s)
          bytes
