-- ===== src/Hive/Membership/Decode.antt =====
-- crates/supgang/src/membership.rs: the strict decoders.
use supgang.Base.{not, Result, ok, refuse_if, ltb, ◌==◌, length, Bytes}
use supgang.External.{External}
use supgang.Codec.{run_to_end, recoded, read_envelope}
use supgang.Codec.Steps.{◌>>=◌, ◌>>◌}
use supgang.Hive.Membership.{
  MembershipError, MembershipCertificate, SignedMembership, max_signed_membership_bytes, oversized,
  decode, malformed, unsupported_version, non_canonical, validate_shape, encode_certificate,
  encode_signed_membership,
}
use supgang.Hive.Membership.Read.{read_certificate}

module _ (x : External) where
  -- `fn decode_certificate`
  unfoldable pub decode_certificate : Bytes → Result MembershipError MembershipCertificate
  decode_certificate input = do
    certificate ← run_to_end malformed (read_certificate x) input
    validate_shape x certificate
    recoded (λ c. ok (encode_certificate x c)) non_canonical input certificate

  unfoldable pub decode_signed_membership : Bytes → Result MembershipError SignedMembership
  decode_signed_membership input = do
    refuse_if (ltb max_signed_membership_bytes (length input)) oversized
    envelope ← run_to_end malformed (read_envelope x decode malformed unsupported_version) input
    refuse_if (not (length envelope.1 == 64)) malformed
    certificate ← decode_certificate envelope.0
    recoded (encode_signed_membership x) non_canonical input
        (record { certificate = certificate; signature = envelope.1 })
