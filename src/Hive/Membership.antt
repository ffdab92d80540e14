-- ===== src/Hive/Membership.antt =====
-- crates/supgang/src/membership.rs: root-signed membership certificates, their checks and their strict
-- codec. `decode_*` is the code's decoder; the shape is checked on the way in and out.
pub mod Read
pub mod Decode
pub mod Laws
use supgang.Base.{
  ℕ, ◌-◌, ◌/◌, ◌%◌, ◌^◌, Bool, not, ◌||◌, [], ◌∷◌, ◌++◌, Result, ok, err, ◌>>=◌, ◌>>◌, refuse_if,
  ltb, leb, ◌==◌, if◌then◌else◌, length, Bytes, ascii,
}
use supgang.External.{External, items, fixed_item}
use supgang.Codec.{envelope}
use supgang.Hive.Ids.{hive_id, node_id, verify_domain, sign_domain}

abbrev pub membership_version : ℕ
membership_version = 1

abbrev pub max_signed_membership_bytes : ℕ
max_signed_membership_bytes = 1024

abbrev pub max_membership_lifetime_seconds : ℕ
max_membership_lifetime_seconds = 316224000

pub data MembershipError : Type 0 where
  unsupported_version zero_serial node_key_mismatch invalid_lifetime lifetime_too_long :
      MembershipError
  missing_device_role unknown_role expired hive_root_mismatch invalid_signature : MembershipError
  oversized decode malformed non_canonical : MembershipError

-- the flag at a position of a bit set
abbrev pub has_bit : ℕ → ℕ → Bool
has_bit position bits = bits / 2 ^ position % 2 == 1

-- `MembershipRoles::from_bits`: the roles are the bits 0 to 2
unfoldable pub roles_from_bits : ℕ → Result MembershipError ℕ
roles_from_bits bits = if bits / 2 ^ 3 == 0 then ok bits else err unknown_role

-- `roles.contains`
abbrev pub is_device : ℕ → Bool
is_device roles = has_bit 0 roles

abbrev pub is_introducer : ℕ → Bool
is_introducer roles = has_bit 1 roles

abbrev pub is_control_relay : ℕ → Bool
is_control_relay roles = has_bit 2 roles

pub record MembershipCertificate : Type 0 where
  pub version : ℕ
  pub hive_id : ℕ
  pub node_id : ℕ
  pub device_verifying_key : ℕ
  pub serial : ℕ
  pub issued_at : ℕ
  pub expires_at : ℕ
  pub roles : ℕ
  pub admission_nonce : ℕ

pub record SignedMembership : Type 0 where
  pub certificate : MembershipCertificate
  pub signature : Bytes

-- `MembershipCertificate::validate_time`
unfoldable pub validate_time : MembershipCertificate → ℕ → Result MembershipError (Unit {0})
validate_time c now = refuse_if (ltb c.expires_at now) expired

abbrev pub domain : Bytes
domain = ascii "supgang/membership/v1" ++ (0 ∷ [])

module _ (x : External) where
  -- `MembershipCertificate::validate_shape`
  unfoldable pub validate_shape : MembershipCertificate → Result MembershipError (Unit {0})
  validate_shape c = do
    refuse_if (not (c.version == membership_version)) unsupported_version
    refuse_if (c.serial == 0) zero_serial
    refuse_if (not (c.node_id == node_id x c.device_verifying_key)) node_key_mismatch
    refuse_if (leb c.expires_at c.issued_at) invalid_lifetime
    refuse_if (ltb max_membership_lifetime_seconds (c.expires_at - c.issued_at)) lifetime_too_long
    refuse_if (c.roles == 0 || not (is_device c.roles)) missing_device_role
    known ← roles_from_bits c.roles
    ok tt

  -- `fn encode_certificate`
  unfoldable pub encode_certificate : MembershipCertificate → Bytes
  encode_certificate c = items (
      x.array 9
      ∷ x.u16 c.version
      ∷ fixed_item x 32 c.hive_id
      ∷ fixed_item x 32 c.node_id
      ∷ fixed_item x 32 c.device_verifying_key
      ∷ x.u64 c.serial
      ∷ x.u64 c.issued_at
      ∷ x.u64 c.expires_at
      ∷ x.u64 c.roles
      ∷ fixed_item x 32 c.admission_nonce
      ∷ [])

  unfoldable pub encode_signed_membership : SignedMembership → Result MembershipError Bytes
  encode_signed_membership signed = do
    refuse_if (not (length signed.signature == 64)) invalid_signature
    let output = envelope x (encode_certificate signed.certificate) signed.signature
    if ltb max_signed_membership_bytes (length output) then err oversized else ok output

  -- `SignedMembership::sign` with the root's secret key
  unfoldable pub sign : MembershipCertificate → ℕ → Result MembershipError SignedMembership
  sign certificate root = do
    validate_shape certificate
    refuse_if (not (certificate.hive_id == hive_id x (x.public_key root))) hive_root_mismatch
    let payload = encode_certificate certificate
    ok (record { certificate = certificate; signature = sign_domain x root domain payload })

  -- `SignedMembership::verify`
  unfoldable pub verify : SignedMembership → ℕ → Result MembershipError (Unit {0})
  verify signed root_key = do
    validate_shape signed.certificate
    refuse_if (not (signed.certificate.hive_id == hive_id x root_key)) hive_root_mismatch
    refuse_if (not (length signed.signature == 64)) invalid_signature
    let payload = encode_certificate signed.certificate
    refuse_if (not (verify_domain x root_key domain payload signed.signature)) invalid_signature
