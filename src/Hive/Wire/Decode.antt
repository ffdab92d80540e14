-- ===== src/Hive/Wire/Decode.antt =====
-- crates/supgang/src/wire.rs: the strict decoders.
use supgang.Base.{Result, refuse_if, ltb, length, Bytes}
use supgang.External.{External}
use supgang.Codec.{run_to_end, recoded}
use supgang.Codec.Steps.{◌>>=◌, ◌>>◌}
use supgang.Hive.Record.{EndpointRecord, SignedEndpointRecord}
use supgang.Hive.Wire.{
  WireError, oversized, trailing_data, non_canonical, max_endpoint_record_bytes,
  max_signed_endpoint_record_bytes, encode_endpoint_record, encode_signed_endpoint_record,
}
use supgang.Hive.Wire.Read.{read_record, read_signed}

module _ (x : External) where
  unfoldable pub decode_endpoint_record : Bytes → Result WireError EndpointRecord
  decode_endpoint_record input = do
    refuse_if (ltb max_endpoint_record_bytes (length input)) oversized
    content ← run_to_end trailing_data (read_record x) input
    recoded (encode_endpoint_record x) non_canonical input content

  unfoldable pub decode_signed_endpoint_record : Bytes → Result WireError SignedEndpointRecord
  decode_signed_endpoint_record input = do
    refuse_if (ltb max_signed_endpoint_record_bytes (length input)) oversized
    parts ← run_to_end trailing_data (read_signed x) input
    content ← decode_endpoint_record parts.0
    recoded (encode_signed_endpoint_record x) non_canonical input
        (record { content = content; signature = parts.1 })
