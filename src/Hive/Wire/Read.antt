-- ===== src/Hive/Wire/Read.antt =====
-- crates/supgang/src/wire.rs: the items of a record, in order.
use supgang.Base.{
  ℕ, Bool, true, false, not, List, [], Option, none, some, Result, ok, err, ok_or, ltb, ◌==◌,
  refuse_if, if◌then◌else◌, length, Bytes, from_be_bytes,
}
use supgang.External.{External}
use supgang.Codec.{
  Reader, ◌>>=◌, ◌>>◌, lift, returns, repeat, map_err, require_array, read_size, read_u8, read_u16,
  read_u64, read_str, read_bytes, read_fixed,
}
use supgang.Network.Address.{IpAddr, v4, v6, socket_new}
use supgang.Network.Candidate.{
  EndpointCandidate, max_candidates, kind_try_from, transport_try_from, new,
}
use supgang.Hive.Record.{
  ServiceAdvert, EndpointRecord, service_name, peer_name, validate_advert, capabilities_from_bits,
  max_service_adverts,
}
use supgang.Hive.Wire.{
  WireError, oversized, decode, wrong_field_count, address_length, candidate, capability,
  record_version, display_name, service, max_endpoint_record_bytes, signature_length,
  envelope_version,
}

-- whether a record of this version and number of fields has a name
unfoldable pub name_present : ℕ → ℕ → Result WireError Bool
name_present version fields =
    if version == 1
    then if fields == 10 then ok false else err wrong_field_count
    else if version == 2
    then if fields == 11 then ok true else err wrong_field_count
    else if version == 3
    then if fields == 12 then ok true else err wrong_field_count
    else err record_version

unfoldable pub ip_from : Bytes → Result WireError IpAddr
ip_from octets =
    if length octets == 4
    then ok (v4 (from_be_bytes octets))
    else if length octets == 16
    then ok (v6 (from_be_bytes octets))
    else err address_length

module _ (x : External) where
  -- `fn decode_candidate`
  unfoldable pub decode_candidate : Reader WireError EndpointCandidate
  decode_candidate = do
    require_array x decode wrong_field_count 4
    kind_value ← read_u8 x decode
    kind ← lift (map_err (λ e. candidate) (kind_try_from kind_value))
    transport_value ← read_u8 x decode
    transport ← lift (map_err (λ e. candidate) (transport_try_from transport_value))
    octets ← read_bytes x decode
    ip ← lift (ip_from octets)
    port ← read_u16 x decode
    lift (map_err (λ e. candidate) (new kind transport (socket_new ip port)))

  -- `fn decode_service`
  unfoldable pub decode_service : Reader WireError ServiceAdvert
  decode_service = do
    require_array x decode wrong_field_count 3
    text ← read_str x decode
    name ← lift (map_err (λ e. service) (service_name text))
    port ← read_u16 x decode
    key_pin ← read_fixed x decode address_length 32
    let advert : ServiceAdvert = record { name = name; port = port; key_pin = key_pin }
    lift (map_err (λ e. service) (validate_advert advert))
    returns advert

  unfoldable pub read_name : Bool → Reader WireError (Option Bytes)
  read_name false = returns none
  read_name true = do
    text ← read_str x decode
    name ← lift (ok_or (peer_name text) display_name)
    returns (some name)

  unfoldable pub read_services : Bool → Reader WireError (List ServiceAdvert)
  read_services false = returns []
  read_services true = do
    count ← read_size x decode wrong_field_count
    lift (refuse_if (ltb max_service_adverts count) oversized)
    repeat count decode_service

  unfoldable pub read_record : Reader WireError EndpointRecord
  read_record = do
    fields ← read_size x decode wrong_field_count
    protocol_version ← read_u16 x decode
    present ← lift (name_present protocol_version fields)
    hive_id ← read_fixed x decode address_length 32
    node_id ← read_fixed x decode address_length 32
    name ← read_name present
    transport_key_id ← read_fixed x decode address_length 32
    generation ← read_u64 x decode
    sequence ← read_u64 x decode
    issued_at ← read_u64 x decode
    expires_at ← read_u64 x decode
    candidate_count ← read_size x decode wrong_field_count
    lift (refuse_if (ltb max_candidates candidate_count) oversized)
    candidates ← repeat candidate_count decode_candidate
    bits ← read_u64 x decode
    capabilities ← lift (map_err (λ e. capability) (capabilities_from_bits bits))
    services ← read_services (fields == 12)
    returns (record {
      protocol_version = protocol_version;
      hive_id = hive_id;
      node_id = node_id;
      display_name = name;
      transport_key_id = transport_key_id;
      generation = generation;
      sequence = sequence;
      issued_at = issued_at;
      expires_at = expires_at;
      candidates = candidates;
      capabilities = capabilities;
      services = services;
    })

  -- the payload and the signature of an envelope
  unfoldable pub read_signed : Reader WireError (Bytes × Bytes)
  read_signed = do
    require_array x decode wrong_field_count 3
    version ← read_u16 x decode
    lift (refuse_if (not (version == 1)) envelope_version)
    payload ← read_bytes x decode
    lift (refuse_if (ltb max_endpoint_record_bytes (length payload)) oversized)
    signature ← read_bytes x decode
    lift (refuse_if (not (length signature == 64)) signature_length)
    returns (payload, signature)
