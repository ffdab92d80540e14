-- ===== src/Hive/Revocation/Decode.antt =====
-- crates/supgang/src/revocation.rs: the strict decoders.
use supgang.Base.{not, ◌||◌, Result, refuse_if, ltb, ◌==◌, length, Bytes}
use supgang.External.{External}
use supgang.Codec.{run_to_end, recoded, read_envelope, is_empty}
use supgang.Codec.Steps.{◌>>=◌, ◌>>◌}
use supgang.Hive.Revocation.{
  RevocationError, RevocationList, SignedRevocationList, max_signed_revocation_bytes, oversized,
  decode, malformed, unsupported_version, non_canonical, validate_shape, encode_list,
  encode_signed_revocations,
}
use supgang.Hive.Revocation.Read.{read_list}

module _ (x : External) where
  -- `fn decode_list`
  unfoldable pub decode_list : Bytes → Result RevocationError RevocationList
  decode_list input = do
    list ← run_to_end malformed (read_list x) input
    validate_shape list
    recoded (encode_list x) non_canonical input list

  unfoldable pub decode_signed_revocations : Bytes → Result RevocationError SignedRevocationList
  decode_signed_revocations input = do
    refuse_if (is_empty input || ltb max_signed_revocation_bytes (length input)) oversized
    envelope ← run_to_end malformed (read_envelope x decode malformed unsupported_version) input
    refuse_if (not (length envelope.1 == 64)) malformed
    list ← decode_list envelope.0
    recoded (encode_signed_revocations x) non_canonical input
        (record { list = list; signature = envelope.1 })
