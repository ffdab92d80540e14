-- ===== src/Hive/Membership/Read.antt =====
-- crates/supgang/src/membership.rs: the items of a certificate, in order.
use supgang.External.{External}
use supgang.Codec.{
  Reader, ◌>>=◌, ◌>>◌, lift, returns, require_array, read_u16, read_u64, read_fixed,
}
use supgang.Hive.Membership.{
  MembershipError, MembershipCertificate, roles_from_bits, decode, malformed,
}

module _ (x : External) where
  unfoldable pub read_certificate : Reader MembershipError MembershipCertificate
  read_certificate = do
    require_array x decode malformed 9
    version ← read_u16 x decode
    hive_id ← read_fixed x decode malformed 32
    node_id ← read_fixed x decode malformed 32
    device_verifying_key ← read_fixed x decode malformed 32
    serial ← read_u64 x decode
    issued_at ← read_u64 x decode
    expires_at ← read_u64 x decode
    bits ← read_u64 x decode
    roles ← lift (roles_from_bits bits)
    admission_nonce ← read_fixed x decode malformed 32
    returns (record {
      version = version;
      hive_id = hive_id;
      node_id = node_id;
      device_verifying_key = device_verifying_key;
      serial = serial;
      issued_at = issued_at;
      expires_at = expires_at;
      roles = roles;
      admission_nonce = admission_nonce;
    })
