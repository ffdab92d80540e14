-- ===== src/Hive/Contact.antt =====
-- crates/supgang/src/contact.rs: a member with its endpoint record, its checks and its strict codec.
pub mod Read
pub mod Decode
use supgang.Base.{
  ℕ, ◌+◌, not, ◌||◌, [], ◌∷◌, Result, ok, err, ◌>>=◌, ◌>>◌, refuse_if, ltb, ◌==◌, if◌then◌else◌,
  length, Bytes, list_eq, ◌&&◌, Bool,
}
use supgang.External.{External, items}
use supgang.Codec.{map_err}
use supgang.Hive.Membership.{
  MembershipCertificate, MembershipError, SignedMembership, max_signed_membership_bytes,
  encode_signed_membership,
}
use supgang.Hive.Record.{RecordError, SignedEndpointRecord, signed_eq}
use supgang.Hive.Wire.{WireError, max_signed_endpoint_record_bytes, encode_signed_endpoint_record}
use supgang.Hive.Authorized.{verify_authorized}

abbrev pub max_contact_bytes : ℕ
max_contact_bytes = max_signed_membership_bytes + max_signed_endpoint_record_bytes + 128

pub record PeerContact : Type 0 where
  pub membership : SignedMembership
  pub endpoint : SignedEndpointRecord

pub data ContactError : Type 0 where
  oversized invalid_shape decode membership_invalid record_invalid non_canonical : ContactError

abbrev pub from_membership : MembershipError → ContactError
from_membership e = membership_invalid

abbrev pub from_record : RecordError → ContactError
from_record e = record_invalid

abbrev pub from_wire : WireError → ContactError
from_wire e = record_invalid

-- the derived equality
abbrev certificate_eq : MembershipCertificate → MembershipCertificate → Bool
certificate_eq a b =
    a.version == b.version
    && a.hive_id == b.hive_id
    && a.node_id == b.node_id
    && a.device_verifying_key == b.device_verifying_key
    && a.serial == b.serial
    && a.issued_at == b.issued_at
    && a.expires_at == b.expires_at
    && a.roles == b.roles
    && a.admission_nonce == b.admission_nonce

unfoldable pub contact_eq : PeerContact → PeerContact → Bool
contact_eq a b =
    certificate_eq a.membership.certificate b.membership.certificate
    && list_eq a.membership.signature b.membership.signature
    && signed_eq a.endpoint b.endpoint

module _ (x : External) where
  -- `PeerContact::verify`
  unfoldable pub verify_contact : PeerContact → ℕ → ℕ → Result ContactError (Unit {0})
  verify_contact contact root_key now =
      map_err from_record (verify_authorized x contact.endpoint contact.membership root_key now)

  -- `PeerContact::verify_historical`
  unfoldable pub verify_historical : PeerContact → ℕ → Result ContactError (Unit {0})
  verify_historical contact root_key =
      verify_contact contact root_key contact.endpoint.content.issued_at

  unfoldable pub encode_contact : PeerContact → Result ContactError Bytes
  encode_contact contact = do
    membership ← map_err from_membership (encode_signed_membership x contact.membership)
    endpoint ← map_err from_wire (encode_signed_endpoint_record x contact.endpoint)
    let output = items (x.array 3 ∷ x.u16 1 ∷ x.bytes membership ∷ x.bytes endpoint ∷ [])
    if ltb max_contact_bytes (length output) then err oversized else ok output
