-- ===== src/Hive/Authorized.antt =====
-- crates/supgang/src/record.rs: signing a record, verifying it, and verifying that the root authorized
-- it through a membership.
pub mod Laws
use supgang.Base.{
  ℕ, not, ◌&&◌, ◌||◌, Result, ok, err, ◌>>=◌, ◌>>◌, refuse_if, ltb, ◌==◌, length, Bytes,
}
use supgang.External.{External}
use supgang.Codec.{map_err}
use supgang.Hive.Ids.{node_id, verify_domain, sign_domain}
use supgang.Hive.Membership
use supgang.Hive.Membership.{
  SignedMembership, MembershipError, has_bit, is_introducer, is_control_relay,
}
use supgang.Hive.Record.{
  RecordError, EndpointRecord, SignedEndpointRecord, validate_shape, validate_time,
  signature_domain, signer_mismatch, invalid_signature, encoding, membership, membership_mismatch,
  outlives_membership, unauthorized_capability,
}
use supgang.Hive.Record.Sort.{canonicalize_candidates}
use supgang.Hive.Wire.{WireError, encode_endpoint_record}

abbrev as_membership : MembershipError → RecordError
as_membership e = membership

abbrev as_encoding : WireError → RecordError
as_encoding e = encoding

module _ (x : External) where
  -- `SignedEndpointRecord::sign` with the device's secret key
  unfoldable pub sign : EndpointRecord → ℕ → Result RecordError SignedEndpointRecord
  sign given secret = do
    let content = canonicalize_candidates given
    validate_shape content
    refuse_if (not (content.node_id == node_id x (x.public_key secret))) signer_mismatch
    payload ← map_err as_encoding (encode_endpoint_record x content)
    domain ← signature_domain content.protocol_version
    ok (record { content = content; signature = sign_domain x secret domain payload })

  -- `SignedEndpointRecord::verify`
  unfoldable pub verify : SignedEndpointRecord → ℕ → Result RecordError (Unit {0})
  verify signed key = do
    validate_shape signed.content
    refuse_if (not (signed.content.node_id == node_id x key)) signer_mismatch
    refuse_if (not (length signed.signature == 64)) invalid_signature
    payload ← map_err as_encoding (encode_endpoint_record x signed.content)
    domain ← signature_domain signed.content.protocol_version
    refuse_if (not (verify_domain x key domain payload signed.signature)) invalid_signature

  -- `SignedEndpointRecord::verify_authorized`
  unfoldable pub verify_authorized :
      SignedEndpointRecord → SignedMembership → ℕ → ℕ → Result RecordError (Unit {0})
  verify_authorized signed member root_key now = do
    map_err as_membership (Membership.verify x member root_key)
    map_err as_membership (Membership.validate_time member.certificate now)
    validate_time signed.content now
    refuse_if
        (not (signed.content.hive_id == member.certificate.hive_id)
          || not (signed.content.node_id == member.certificate.node_id))
        membership_mismatch
    refuse_if (ltb member.certificate.expires_at signed.content.expires_at) outlives_membership
    refuse_if (not (x.ed25519_key member.certificate.device_verifying_key)) membership_mismatch
    verify signed member.certificate.device_verifying_key
    refuse_if
        (has_bit 0 signed.content.capabilities && not (is_introducer member.certificate.roles))
        unauthorized_capability
    refuse_if
        (has_bit 1 signed.content.capabilities && not (is_control_relay member.certificate.roles))
        unauthorized_capability
