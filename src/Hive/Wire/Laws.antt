-- ===== src/Hive/Wire/Laws.antt =====
-- Endpoint records on the wire: what a decoder accepts is what the encoder writes, and what the
-- encoder writes is read back.
use supgang.Base.{
  ℕ, ◌≡◌, ◌<◌, ◌^◌, refl, sym, Bool, true, false, not, List, [], ◌∷◌, Option, none, some, ok, Bytes,
  All, length, ltb, ◌==◌, refuse_if, is_some, arith, from-to_be_bytes, length-to_be_bytes, >>=-inv,
}
use supgang.External.{External, IsCbor}
use supgang.Codec.{map_err, run_to_end, recoded-inv, recoded-same, envelope, is_empty_iff}
use supgang.Codec.Steps
use supgang.Codec.Steps.{step-inv}
use supgang.Codec.Reads.{
  Reads, ◌⟨◌⟩◌, lift-Reads, returns-Reads, trim-Reads, run_to_end-Reads, u8-Reads, u16-Reads,
  u64-Reads, array-Reads, size-Reads, str-Reads, bytes-Reads, fixed-Reads, repeat-Reads,
}
use supgang.Network.Address.{IpAddr, v4, v6, socket_new}
use supgang.Network.Candidate.{
  CandidateKind, local, direct, reflexive, mapped, owned_relay, CandidateTransport, quic_v1,
  EndpointCandidate, kind_byte, kind_try_from, transport_try_from, new,
}
use supgang.Hive.Record.{
  ServiceAdvert, EndpointRecord, SignedEndpointRecord, service_name, peer_name, validate_advert,
  validate_services, capabilities_from_bits, validate_shape,
}
use supgang.Hive.Wire.{
  decode, wrong_field_count, address_length, candidate, trailing_data, signature_length,
  non_canonical, field_count, ip_octets, encode_candidate, encode_service, record_bytes, name_item,
  service_items, encode_endpoint_record, encode_signed_endpoint_record,
  max_signed_endpoint_record_bytes, max_endpoint_record_bytes,
}
use supgang.Hive.Wire.Read.{
  name_present, ip_from, decode_candidate, decode_service, read_name, read_services, read_record,
  read_signed,
}
use supgang.Hive.Wire.Decode.{decode_endpoint_record, decode_signed_endpoint_record}

abbrev IsAddress : IpAddr → Type 0
IsAddress (v4 a) = a < 256 ^ 4
IsAddress (v6 a) = a < 256 ^ 16

-- A candidate that was constructed from an address and a port, which fit their octets. It has no scope
-- and no flow label, which the encoding leaves out.
pub record IsOffered (c : EndpointCandidate) : Type 0 where
  pub constructed : new c.kind c.transport (socket_new c.address.ip c.address.port) ≡ ok c
  pub fits : IsAddress c.address.ip × (c.address.port < 2 ^ 16)

pub record IsAdvert (s : ServiceAdvert) : Type 0 where
  pub named : service_name s.name ≡ ok s.name
  pub valid : validate_advert s ≡ ok tt
  pub fits : (s.port < 2 ^ 16) × (s.key_pin < 256 ^ 32)

abbrev IsNamed : Option Bytes → Type 0
IsNamed none = Unit
IsNamed (some name) = peer_name name ≡ some name

-- A record whose parts were constructed and whose fields fit their widths on the wire.
pub record IsSized (r : EndpointRecord) : Type 0 where
  pub ids : (r.hive_id < 256 ^ 32) × (r.node_id < 256 ^ 32) × (r.transport_key_id < 256 ^ 32)
  pub counters : (r.generation < 2 ^ 64) × (r.sequence < 2 ^ 64)
  pub times : (r.issued_at < 2 ^ 64) × (r.expires_at < 2 ^ 64)
  pub name : IsNamed r.display_name
  pub offered : All IsOffered r.candidates
  pub adverts : All IsAdvert r.services

kind_byte_fits : (kind : CandidateKind) → kind_byte kind < 2 ^ 8
kind_byte_fits local = omega arith
kind_byte_fits direct = omega arith
kind_byte_fits reflexive = omega arith
kind_byte_fits mapped = omega arith
kind_byte_fits owned_relay = omega arith

try_from-kind_byte : (kind : CandidateKind) → kind_try_from (kind_byte kind) ≡ ok kind
unfolding kind_try_from
try_from-kind_byte local = refl
try_from-kind_byte direct = refl
try_from-kind_byte reflexive = refl
try_from-kind_byte mapped = refl
try_from-kind_byte owned_relay = refl

try_from-transport : (transport : CandidateTransport) → transport_try_from 0 ≡ ok transport
unfolding transport_try_from
try_from-transport quic_v1 = refl

from-ip_octets : (ip : IpAddr) → IsAddress ip → ip_from (ip_octets ip) ≡ ok ip
unfolding ip_from
from-ip_octets (v4 a) h = rw (length-to_be_bytes 4 a, from-to_be_bytes 4 a h) refl
from-ip_octets (v6 a) h = rw (length-to_be_bytes 16 a, from-to_be_bytes 16 a h) refl

kind_read :
    (kind : CandidateKind) → map_err (λ e. candidate) (kind_try_from (kind_byte kind)) ≡ ok kind
kind_read kind = rw (try_from-kind_byte kind) refl

transport_read :
    (transport : CandidateTransport)
    → map_err (λ e. candidate) (transport_try_from 0) ≡ ok transport
transport_read transport = rw (try_from-transport transport) refl

-- What the decoder learns from the version and the number of fields.
record IsCounted (r : EndpointRecord) (fields : ℕ) : Type 0 where
  fits : fields < 2 ^ 64
  version : r.protocol_version < 2 ^ 16
  present : name_present r.protocol_version fields ≡ ok (is_some r.display_name)
  unserved : (fields == 12) ≡ false → r.services ≡ []
  few : (ltb 8 (length r.candidates) ≡ false) × (ltb 4 (length r.services) ≡ false)
  known : (capabilities_from_bits r.capabilities ≡ ok r.capabilities) × (r.capabilities < 2 ^ 64)

counted :
    (r : EndpointRecord) (fields : ℕ)
    → field_count r ≡ ok fields
    → validate_shape r ≡ ok tt
    → IsCounted r fields
unfolding field_count validate_shape validate_services name_present capabilities_from_bits
counted r fields h valid = record {
  fits = ground arith;
  version = ground arith;
  present = ground arith;
  unserved = ground (arith, is_empty_iff r.services);
  few = (ground arith, ground arith);
  known = (ground arith, ground arith);
}

module _ (x : External) (cbor : IsCbor x) where
  candidate-Reads :
      (c : EndpointCandidate) → IsOffered c → Reads (decode_candidate x) (encode_candidate x c) c
  unfolding decode_candidate encode_candidate
  candidate-Reads c h =
      array-Reads x cbor decode wrong_field_count 4 (omega arith)
      ⟨ _ ⟩ u8-Reads x cbor decode (kind_byte c.kind) (kind_byte_fits c.kind)
      ⟨ _ ⟩ lift-Reads (kind_read c.kind)
      ⟨ _ ⟩ u8-Reads x cbor decode 0 (omega arith)
      ⟨ _ ⟩ lift-Reads (transport_read c.transport)
      ⟨ _ ⟩ bytes-Reads x cbor decode (ip_octets c.address.ip)
      ⟨ _ ⟩ lift-Reads (from-ip_octets c.address.ip h.fits.0)
      ⟨ _ ⟩ u16-Reads x cbor decode c.address.port h.fits.1
      ⟨ _ ⟩ lift-Reads (rw (h.constructed) refl)

  service-Reads : (s : ServiceAdvert) → IsAdvert s → Reads (decode_service x) (encode_service x s) s
  unfolding decode_service encode_service
  service-Reads s h =
      array-Reads x cbor decode wrong_field_count 3 (omega arith)
      ⟨ _ ⟩ str-Reads x cbor decode s.name
      ⟨ _ ⟩ lift-Reads (rw (h.named) refl)
      ⟨ _ ⟩ u16-Reads x cbor decode s.port h.fits.0
      ⟨ _ ⟩ fixed-Reads x cbor decode address_length 32 s.key_pin h.fits.1
      ⟨ _ ⟩ lift-Reads (rw (h.valid) refl)
      ⟨ _ ⟩ returns-Reads _

  name-Reads :
      (name : Option Bytes)
      → IsNamed name
      → Reads (read_name x (is_some name)) (name_item x name) name
  unfolding read_name
  name-Reads none h = returns-Reads none
  name-Reads (some name) h =
      trim-Reads (x.str name)
        (str-Reads x cbor decode name ⟨ _ ⟩ lift-Reads (rw h refl) ⟨ _ ⟩ returns-Reads _)

  all_candidates :
      (cs : List EndpointCandidate)
      → All IsOffered cs
      → All (λ c. Reads (decode_candidate x) (encode_candidate x c) c) cs
  all_candidates [] h = tt
  all_candidates (c ∷ rest) h = (candidate-Reads c h.0, all_candidates rest h.1)

  all_services :
      (ss : List ServiceAdvert)
      → All IsAdvert ss
      → All (λ s. Reads (decode_service x) (encode_service x s) s) ss
  all_services [] h = tt
  all_services (s ∷ rest) h = (service-Reads s h.0, all_services rest h.1)

  services-Reads :
      (third : Bool) (services : List ServiceAdvert)
      → (third ≡ false → services ≡ [])
      → ltb 4 (length services) ≡ false
      → All IsAdvert services
      → Reads (read_services x third) (service_items x third services) services
  unfolding read_services
  services-Reads false services none_before few h = rw (none_before refl) (returns-Reads [])
  services-Reads true services none_before few h =
      size-Reads x cbor decode wrong_field_count (length services) (ground arith)
      ⟨ _ ⟩ lift-Reads (rw few refl)
      ⟨ _ ⟩ repeat-Reads (decode_service x) (encode_service x) services (all_services services h)

  record-Reads :
      (r : EndpointRecord) (fields : ℕ)
      → IsSized r
      → IsCounted r fields
      → Reads (read_record x) (record_bytes x fields r) r
  unfolding read_record
  record-Reads r fields sized c =
      size-Reads x cbor decode wrong_field_count fields c.fits
      ⟨ _ ⟩ u16-Reads x cbor decode r.protocol_version c.version
      ⟨ _ ⟩ lift-Reads c.present
      ⟨ _ ⟩ fixed-Reads x cbor decode address_length 32 r.hive_id sized.ids.0
      ⟨ _ ⟩ fixed-Reads x cbor decode address_length 32 r.node_id sized.ids.1
      ⟨ _ ⟩ name-Reads r.display_name sized.name
      ⟨ _ ⟩ fixed-Reads x cbor decode address_length 32 r.transport_key_id sized.ids.2
      ⟨ _ ⟩ u64-Reads x cbor decode r.generation sized.counters.0
      ⟨ _ ⟩ u64-Reads x cbor decode r.sequence sized.counters.1
      ⟨ _ ⟩ u64-Reads x cbor decode r.issued_at sized.times.0
      ⟨ _ ⟩ u64-Reads x cbor decode r.expires_at sized.times.1
      ⟨ _ ⟩ size-Reads x cbor decode wrong_field_count (length r.candidates) (ground (arith, c.few))
      ⟨ _ ⟩ lift-Reads (rw (c.few.0) refl)
      ⟨ _ ⟩
        repeat-Reads (decode_candidate x) (encode_candidate x) r.candidates
          (all_candidates r.candidates sized.offered)
      ⟨ _ ⟩ u64-Reads x cbor decode r.capabilities c.known.1
      ⟨ _ ⟩ lift-Reads (rw (c.known.0) refl)
      ⟨ _ ⟩ services-Reads (fields == 12) r.services c.unserved c.few.1 sized.adverts
      ⟨ _ ⟩ returns-Reads _

  record_facts :
      (r : EndpointRecord) {output : Bytes}
      → encode_endpoint_record x r ≡ ok output
      → (fields : ℕ) × (field_count r ≡ ok fields)
        × (record_bytes x fields r ≡ output)
        × (ltb max_endpoint_record_bytes (length output) ≡ false)
  unfolding encode_endpoint_record
  record_facts r h =
      let (fields, q, rest) = >>=-inv (field_count r) _ h in (fields, q, ground arith, ground arith)

  decode-encode_endpoint_record :
      (r : EndpointRecord) {output : Bytes}
      → IsSized r
      → validate_shape r ≡ ok tt
      → encode_endpoint_record x r ≡ ok output
      → decode_endpoint_record x output ≡ ok r
  unfolding decode_endpoint_record Steps.◌>>=◌
  decode-encode_endpoint_record r {output} sized valid encoded =
      let (fields, count, written, small) = record_facts r encoded in
      let read : run_to_end trailing_data (read_record x) output ≡ ok r = rw (sym written) (
        run_to_end-Reads trailing_data
          (record-Reads r fields sized (counted r fields count valid))) in
      rw (small, read, recoded-same (encode_endpoint_record x) non_canonical output r encoded) refl

  signed-Reads :
      (payload signature : Bytes)
      → ltb max_endpoint_record_bytes (length payload) ≡ false
      → (length signature == 64) ≡ true
      → Reads (read_signed x) (envelope x payload signature) (payload, signature)
  unfolding read_signed
  signed-Reads payload signature small wide =
      array-Reads x cbor decode wrong_field_count 3 (omega arith)
      ⟨ _ ⟩ u16-Reads x cbor decode 1 (omega arith)
      ⟨ _ ⟩ lift-Reads refl
      ⟨ _ ⟩ bytes-Reads x cbor decode payload
      ⟨ _ ⟩ lift-Reads (rw small refl)
      ⟨ _ ⟩ bytes-Reads x cbor decode signature
      ⟨ _ ⟩ lift-Reads (rw wide refl)
      ⟨ _ ⟩ returns-Reads _

  signed_facts :
      (s : SignedEndpointRecord) {output : Bytes}
      → encode_signed_endpoint_record x s ≡ ok output
      → (payload : Bytes) × (encode_endpoint_record x s.content ≡ ok payload)
        × (envelope x payload s.signature ≡ output)
        × (ltb max_signed_endpoint_record_bytes (length output) ≡ false)
        × ((length s.signature == 64) ≡ true)
  unfolding encode_signed_endpoint_record
  signed_facts s h =
      let (u, wide, rest) =
        >>=-inv (refuse_if (not (length s.signature == 64)) signature_length) _ h in
      let (payload, content, last) = >>=-inv (encode_endpoint_record x s.content) _ rest in
      (payload, content, ground arith, ground arith, ground arith)

  -- A signed record of the right shape that is encoded decodes to itself, if its parts were
  -- constructed, its candidates have no scope and no flow label, its fields fit their widths and the
  -- CBOR reader returns what the writer wrote.
  pub decode-encode_signed_endpoint_record :
      (s : SignedEndpointRecord) {output : Bytes}
      → IsSized s.content
      → validate_shape s.content ≡ ok tt
      → encode_signed_endpoint_record x s ≡ ok output
      → decode_signed_endpoint_record x output ≡ ok s
  unfolding decode_signed_endpoint_record Steps.◌>>=◌
  decode-encode_signed_endpoint_record s {output} sized valid encoded =
      let (payload, content, written, small, wide) = signed_facts s encoded in
      let (fields, count, inner, short) = record_facts s.content content in
      let read : run_to_end trailing_data (read_signed x) output ≡ ok (payload, s.signature) =
        rw (sym written)
          (run_to_end-Reads trailing_data (signed-Reads payload s.signature short wide)) in
      rw
        (
          small,
          read,
          decode-encode_endpoint_record s.content sized valid content,
          recoded-same (encode_signed_endpoint_record x) non_canonical output s encoded,
        )
        refl

module _ (x : External) where
  -- A signed endpoint record that decodes is encoded as the bytes that it was decoded from.
  pub decode_signed_endpoint_record-canonical :
      (input : Bytes) {s : SignedEndpointRecord}
      → decode_signed_endpoint_record x input ≡ ok s
      → encode_signed_endpoint_record x s ≡ ok input
  unfolding decode_signed_endpoint_record
  decode_signed_endpoint_record-canonical input h =
      let (u, small, rest) = step-inv h in
      let (parts, read, rest') = step-inv rest in
      let (content, decoded, last) = step-inv rest' in
      (recoded-inv (encode_signed_endpoint_record x) non_canonical input _ last).1
