-- ===== src/Hive/Wire.antt =====
-- crates/supgang/src/wire.rs: the encoders of endpoint records and of their signed envelope.
pub mod Read
pub mod Decode
pub mod Laws
use supgang.Base.{
  ℕ, Bool, true, false, not, ◌&&◌, List, [], ◌∷◌, ◌++◌, map, Option, none, some, Result, ok, err,
  ◌>>=◌, ◌>>◌, refuse_if, ltb, ◌==◌, if◌then◌else◌, length, Bytes, to_be_bytes, is_some,
}
use supgang.External.{External, items, fixed_item}
use supgang.Codec.{envelope}
use supgang.Network.Address.{IpAddr, v4, v6}
use supgang.Network.Candidate.{EndpointCandidate, kind_byte}
use supgang.Hive.Record.{ServiceAdvert, EndpointRecord, SignedEndpointRecord}

abbrev pub max_endpoint_record_bytes : ℕ
max_endpoint_record_bytes = 3584

abbrev pub max_signed_endpoint_record_bytes : ℕ
max_signed_endpoint_record_bytes = 4096

pub data WireError : Type 0 where
  oversized decode wrong_field_count address_length candidate capability : WireError
  envelope_version record_version display_name service signature_length : WireError
  non_canonical trailing_data : WireError

-- the number of fields of a record, by its version
unfoldable pub field_count : EndpointRecord → Result WireError ℕ
field_count r =
    if r.protocol_version == 1 && not (is_some r.display_name)
    then ok 10
    else if r.protocol_version == 2 && is_some r.display_name
    then ok 11
    else if r.protocol_version == 3 && is_some r.display_name
    then ok 12
    else err record_version

abbrev pub ip_octets : IpAddr → Bytes
ip_octets (v4 a) = to_be_bytes 4 a
ip_octets (v6 a) = to_be_bytes 16 a

module _ (x : External) where
  -- `fn encode_candidate`; the only transport is zero
  unfoldable pub encode_candidate : EndpointCandidate → Bytes
  encode_candidate c = items (
      x.array 4
      ∷ x.u8 (kind_byte c.kind)
      ∷ x.u8 0
      ∷ x.bytes (ip_octets c.address.ip)
      ∷ x.u16 c.address.port
      ∷ [])

  unfoldable pub encode_service : ServiceAdvert → Bytes
  encode_service s =
      items (x.array 3 ∷ x.str s.name ∷ x.u16 s.port ∷ fixed_item x 32 s.key_pin ∷ [])

  abbrev pub name_item : Option Bytes → Bytes
  name_item none = []
  name_item (some name) = x.str name

  abbrev pub service_items : Bool → List ServiceAdvert → Bytes
  service_items false services = []
  service_items true services = x.array (length services) ++ items (map encode_service services)

  abbrev pub record_bytes : ℕ → EndpointRecord → Bytes
  record_bytes fields r = items (
      x.array fields
      ∷ x.u16 r.protocol_version
      ∷ fixed_item x 32 r.hive_id
      ∷ fixed_item x 32 r.node_id
      ∷ name_item r.display_name
      ∷ fixed_item x 32 r.transport_key_id
      ∷ x.u64 r.generation
      ∷ x.u64 r.sequence
      ∷ x.u64 r.issued_at
      ∷ x.u64 r.expires_at
      ∷ x.array (length r.candidates)
      ∷ items (map encode_candidate r.candidates)
      ∷ x.u64 r.capabilities
      ∷ service_items (fields == 12) r.services
      ∷ [])

  unfoldable pub encode_endpoint_record : EndpointRecord → Result WireError Bytes
  encode_endpoint_record r = do
    fields ← field_count r
    let output = record_bytes fields r
    if ltb max_endpoint_record_bytes (length output) then err oversized else ok output

  unfoldable pub encode_signed_endpoint_record : SignedEndpointRecord → Result WireError Bytes
  encode_signed_endpoint_record signed = do
    refuse_if (not (length signed.signature == 64)) signature_length
    payload ← encode_endpoint_record signed.content
    let output = envelope x payload signed.signature
    if ltb max_signed_endpoint_record_bytes (length output) then err oversized else ok output
