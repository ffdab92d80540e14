-- ===== src/Threshold/Tests.antt =====
-- The codecs of crates/supgang/src/threshold on the test data.
use supgang.Base.{◌≡◌, refl, arith, ok, to_be_bytes, from_be_bytes}
use supgang.Threshold.{hash, array, fixed, count, canonical}
use supgang.Threshold.Reading.{repeat}
use supgang.Threshold.Toy.{toy, toy-IsCbor, checksum, split, pop_string}
use supgang.Threshold.Records.{operation_parse}
use supgang.Threshold.Grant.{
  encode as encode_grant, validate, check_operations, valid_name, valid_consumer_id, verify_domain,
  possession_message,
}
use supgang.Threshold.Grant.Decode.{
  kind_parse, role_parse, presence_parse, custody_parse, target_parse, read_operation,
  read_device_key, read_grant, decode_grant, validate_step,
}
use supgang.Threshold.Step.{encode as encode_step}
use supgang.Threshold.Step.Decode.{read_step, decode_step}
use supgang.Threshold.Step.Laws.{decode-encode_step}
use supgang.Threshold.Regroup.{encode as encode_succession}
use supgang.Threshold.Regroup.Decode.{
  kind_parse as regroup_kind_parse, read_succession, decode_succession,
}
use supgang.Threshold.Founding.{
  validate_group, check_participants, encode_group, encode_recovery, digest_group, digest_recovery,
}
use supgang.Threshold.Founding.Decode.{
  read_participant, read_group, decode_group, read_recovery, decode_recovery,
}
use supgang.Threshold.Canonical.{
  decode_step-canonical, decode_grant-canonical, decode_succession-canonical,
}
use supgang.Threshold.Chain.Data.{
  example_grant, grant_step, recovery_step, recovery_succession, step_bytes,
}

grant_decoded : decode_grant toy grant_step.step.payload ≡ ok example_grant
unfolding checksum hash to_be_bytes from_be_bytes encode_grant validate check_operations valid_name
    valid_consumer_id verify_domain possession_message kind_parse role_parse presence_parse
    custody_parse target_parse read_operation read_device_key read_grant decode_grant array fixed
    count canonical repeat split pop_string
grant_decoded = refl

step_decoded : decode_step toy step_bytes ≡ ok grant_step.step
unfolding checksum hash to_be_bytes from_be_bytes encode_grant validate check_operations valid_name
    valid_consumer_id verify_domain possession_message kind_parse role_parse presence_parse
    custody_parse target_parse read_operation read_device_key read_grant decode_grant array fixed
    count canonical repeat split pop_string encode_step decode_step read_step operation_parse
    validate_step
step_decoded = refl

succession_decoded : decode_succession toy recovery_step.step.payload ≡ ok recovery_succession
unfolding checksum hash to_be_bytes from_be_bytes encode_succession regroup_kind_parse
    read_succession decode_succession validate_group check_participants encode_group encode_recovery
    digest_group digest_recovery read_participant read_group decode_group read_recovery
    decode_recovery read_device_key array fixed count canonical repeat split pop_string
succession_decoded = refl

step_encoded : encode_step toy grant_step.step ≡ ok step_bytes
step_encoded = decode_step-canonical toy step_bytes step_decoded

grant_encoded : encode_grant toy example_grant ≡ ok grant_step.step.payload
grant_encoded = decode_grant-canonical toy grant_step.step.payload grant_decoded

succession_encoded : encode_succession toy recovery_succession ≡ ok recovery_step.step.payload
succession_encoded = decode_succession-canonical toy recovery_step.step.payload succession_decoded

decode-encode_step_example : decode_step toy step_bytes ≡ ok grant_step.step
decode-encode_step_example =
    decode-encode_step toy toy-IsCbor grant_step.step
      (record {
        ids = (omega arith, omega arith, omega arith);
        counters = (omega arith, omega arith, omega arith);
        time = omega arith;
      })
      step_encoded
