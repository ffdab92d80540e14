-- ===== src/Hive/Tests.antt =====
-- Members, records and contacts on concrete values: a root whose secret key is 9 and devices with the
-- secret keys 5 and 6. The identifiers are what the small instance derives from the keys.
use supgang.Base.{
  ℕ, ◌≡◌, refl, true, [], ◌∷◌, ◌++◌, some, ok, Bytes, ascii, to_be_bytes, from_be_bytes, arith,
}
use supgang.External.{items}
use supgang.Threshold.Toy.{toy, toy-IsCbor, toy-IsSigning, checksum}
use supgang.Codec.{envelope}
use supgang.Network.Address.{socket_new, to_ipv4_mapped, v4}
use supgang.Network.Candidate.{
  direct, quic_v1, EndpointCandidate, canonical_socket_address, is_multicast_or_broadcast,
  is_local_scope, is_globally_routable, validate_address,
}
use supgang.Network.Candidate as Candidate
use supgang.Hive.Ids.{hive_id, node_id, domain_hash, verify_domain, sign_domain}
use supgang.Hive.Membership
use supgang.Hive.Membership.{
  MembershipCertificate, SignedMembership, roles_from_bits, encode_certificate,
  encode_signed_membership,
}
use supgang.Hive.Membership.Decode.{decode_signed_membership}
use supgang.Hive.Membership.Laws as MembershipLaws
use supgang.Hive.Membership.Laws.{sign-verify, decode-encode_signed_membership}
use supgang.Hive.Revocation
use supgang.Hive.Revocation.{
  RevocationList, SignedRevocationList, is_sorted, encode_list, list_bytes,
  encode_signed_revocations,
}
use supgang.Hive.Revocation.Decode.{decode_signed_revocations}
use supgang.Hive.Revocation.Laws.{decode-encode_signed_revocations}
use supgang.Hive.Record
use supgang.Hive.Record.{
  ServiceAdvert, EndpointRecord, SignedEndpointRecord, service_name, peer_name, validate_advert,
  validate_services, try_for_each, strictly_sorted, capabilities_from_bits, signature_domain,
  candidate_lt, candidate_words, service_words,
}
use supgang.Hive.Record.Sort.{
  canonicalize_candidates, canonicalize_candidates-sorted, service_lt, holds,
}
use supgang.Hive.Wire.{
  field_count, encode_candidate, encode_service, record_bytes, encode_endpoint_record,
  encode_signed_endpoint_record,
}
use supgang.Hive.Wire.Decode.{decode_signed_endpoint_record}
use supgang.Hive.Wire.Laws as WireLaws
use supgang.Hive.Wire.Laws.{decode-encode_signed_endpoint_record}
use supgang.Hive.Authorized.{verify, verify_authorized}
use supgang.Hive.Authorized.Laws.{IsAuthorized, verify_authorized-IsAuthorized}
use supgang.Hive.Contact.{PeerContact, encode_contact}
use supgang.Hive.Contact.Decode.{decode_contact, decode-encode_contact, decode_contact-canonical}
use supgang.Hive.Reachability
use supgang.Hive.Reachability.{
  ReachabilityClaim, peer_observed, candidate, encode_payload, encode_payload_with_fields,
}
use supgang.Hive.Reachability.Laws.{IsVouched, verify-IsVouched}

-- the signature of a secret key in the small instance
abbrev signed_by : ℕ → Bytes
signed_by secret = to_be_bytes 63 0 ++ (secret ∷ [])

abbrev certificate : MembershipCertificate
certificate = record {
  version = 1;
  hive_id = 140194274;
  node_id = 2969568012;
  device_verifying_key = 5;
  serial = 1;
  issued_at = 1000;
  expires_at = 5000;
  roles = 7;
  admission_nonce = 3;
}

abbrev pub member : SignedMembership
member = record { certificate = certificate; signature = signed_by 9 }

abbrev member_bytes : Bytes
member_bytes = envelope toy (encode_certificate toy certificate) (signed_by 9)

abbrev pub revoked : SignedRevocationList
revoked = record {
  list = record {
    version = 1;
    hive_id = 140194274;
    serial = 1;
    issued_at = 1000;
    revoked_nodes = 4 ∷ 8 ∷ [];
  };
  signature = signed_by 9;
}

abbrev offered : EndpointCandidate
offered = record { kind = direct; transport = quic_v1; address = socket_new (v4 134744072) 443 }

abbrev web : ServiceAdvert
web = record { name = ascii "web"; port = 80; key_pin = 7 }

abbrev content : EndpointRecord
content = record {
  protocol_version = 3;
  hive_id = 140194274;
  node_id = 2969568012;
  display_name = some (ascii "Desk");
  transport_key_id = 4;
  generation = 0;
  sequence = 1;
  issued_at = 1000;
  expires_at = 2000;
  candidates = offered ∷ [];
  capabilities = 3;
  services = web ∷ [];
}

abbrev pub endpoint : SignedEndpointRecord
endpoint = record { content = content; signature = signed_by 5 }

abbrev endpoint_bytes : Bytes
endpoint_bytes = envelope toy (record_bytes toy 12 content) (signed_by 5)

abbrev pub contact : PeerContact
contact = record { membership = member; endpoint = endpoint }

abbrev contact_bytes : Bytes
contact_bytes =
    items (toy.array 3 ∷ toy.u16 1 ∷ toy.bytes member_bytes ∷ toy.bytes endpoint_bytes ∷ [])

-- the first device observes the second one
abbrev claim : ReachabilityClaim
claim = record {
  hive_id = 140194274;
  subject = 2969568013;
  reporter = 2969568012;
  reporter_membership = member;
  address = socket_new (v4 134744072) 443;
  source = peer_observed;
  issued_at = 1000;
  expires_at = 1600;
  signature = signed_by 5;
}

member_shaped : Membership.validate_shape toy certificate ≡ ok tt
unfolding Membership.validate_shape roles_from_bits node_id domain_hash checksum to_be_bytes
member_shaped = refl

member-IsSized : MembershipLaws.IsSized certificate
member-IsSized = record {
  ids = (omega arith, omega arith);
  keys = (omega arith, omega arith);
  times = (omega arith, omega arith);
  serial = omega arith;
}

member_signed : Membership.sign toy certificate 9 ≡ ok member
unfolding Membership.sign Membership.validate_shape roles_from_bits hive_id node_id domain_hash
    checksum to_be_bytes sign_domain
member_signed = refl

member_encoded : encode_signed_membership toy member ≡ ok member_bytes
unfolding encode_signed_membership encode_certificate to_be_bytes
member_encoded = refl

sign-verify_example : Membership.verify toy member 9 ≡ ok tt
sign-verify_example = sign-verify toy toy-IsSigning certificate 9 member_signed

decode-encode_signed_membership_example : decode_signed_membership toy member_bytes ≡ ok member
decode-encode_signed_membership_example =
    decode-encode_signed_membership toy toy-IsCbor member member-IsSized member_shaped
      member_encoded

revoked_encoded :
    encode_signed_revocations toy revoked
    ≡ ok (envelope toy (list_bytes toy revoked.list) revoked.signature)
unfolding encode_signed_revocations encode_list Revocation.validate_shape is_sorted to_be_bytes
revoked_encoded = refl

decode-encode_signed_revocations_example :
    decode_signed_revocations toy (envelope toy (list_bytes toy revoked.list) revoked.signature)
    ≡ ok revoked
unfolding to_be_bytes
decode-encode_signed_revocations_example =
    decode-encode_signed_revocations toy toy-IsCbor revoked
      (record {
        hive = omega arith;
        serial = omega arith;
        issued = omega arith;
        nodes = (omega arith, (omega arith, tt));
      })
      refl revoked_encoded

content_shaped : Record.validate_shape content ≡ ok tt
unfolding Record.validate_shape validate_services try_for_each validate_advert strictly_sorted
    capabilities_from_bits
content_shaped = refl

offered_new : Candidate.new direct quic_v1 offered.address ≡ ok offered
unfolding Candidate.new canonical_socket_address to_ipv4_mapped validate_address
    is_multicast_or_broadcast is_local_scope is_globally_routable
offered_new = refl

content-IsSized : WireLaws.IsSized content
unfolding service_name peer_name validate_advert
content-IsSized = record {
  ids = (omega arith, omega arith, omega arith);
  counters = (omega arith, omega arith);
  times = (omega arith, omega arith);
  name = refl;
  offered = (record { constructed = offered_new; fits = (omega arith, omega arith) }, tt);
  adverts = (record { named = refl; valid = refl; fits = (omega arith, omega arith) }, tt);
}

endpoint_encoded : encode_signed_endpoint_record toy endpoint ≡ ok endpoint_bytes
unfolding encode_signed_endpoint_record encode_endpoint_record field_count encode_candidate
    encode_service to_be_bytes
endpoint_encoded = refl

decode-encode_signed_endpoint_record_example :
    decode_signed_endpoint_record toy endpoint_bytes ≡ ok endpoint
decode-encode_signed_endpoint_record_example =
    decode-encode_signed_endpoint_record toy toy-IsCbor endpoint content-IsSized content_shaped
      endpoint_encoded

contact_encoded : encode_contact toy contact ≡ ok contact_bytes
unfolding encode_contact encode_signed_membership encode_certificate encode_signed_endpoint_record
    encode_endpoint_record field_count encode_candidate encode_service to_be_bytes
contact_encoded = refl

contact_decoded : decode_contact toy contact_bytes ≡ ok contact
contact_decoded =
    decode-encode_contact toy toy-IsCbor contact member-IsSized member_shaped content-IsSized
      content_shaped contact_encoded

decode-encode_contact_example : decode_contact toy contact_bytes ≡ ok contact
decode-encode_contact_example =
    decode-encode_contact toy toy-IsCbor contact member-IsSized member_shaped content-IsSized
      content_shaped contact_encoded

contact_reencoded : encode_contact toy contact ≡ ok contact_bytes
contact_reencoded = decode_contact-canonical toy contact_bytes contact_decoded

pub endpoint_authorized : verify_authorized toy endpoint member 9 1500 ≡ ok tt
unfolding verify_authorized verify Membership.verify Membership.validate_shape
    Membership.validate_time roles_from_bits hive_id node_id domain_hash checksum to_be_bytes
    from_be_bytes verify_domain Record.validate_shape Record.validate_time validate_services
    try_for_each validate_advert strictly_sorted capabilities_from_bits signature_domain
    encode_endpoint_record field_count encode_candidate encode_service
endpoint_authorized = refl

verify_authorized-IsAuthorized_example :
    IsAuthorized toy content member 9 1500 × (verify toy endpoint 5 ≡ ok tt)
verify_authorized-IsAuthorized_example =
    verify_authorized-IsAuthorized toy endpoint member 9 1500 endpoint_authorized

claim_verified : Reachability.verify toy claim 9 1500 ≡ ok tt
unfolding Reachability.verify Reachability.validate_shape candidate Candidate.new
    canonical_socket_address to_ipv4_mapped validate_address is_multicast_or_broadcast
    is_local_scope is_globally_routable Membership.verify Membership.validate_shape
    Membership.validate_time roles_from_bits hive_id node_id domain_hash checksum to_be_bytes
    from_be_bytes verify_domain encode_payload encode_payload_with_fields encode_signed_membership
    encode_certificate
claim_verified = refl

verify-IsVouched_example : IsVouched toy claim 9 1500
verify-IsVouched_example = verify-IsVouched toy claim 9 1500 claim_verified

-- two candidates, the second one twice and before the first
abbrev unsorted : EndpointRecord
unsorted = record content {
  candidates =
      record offered { address = socket_new (v4 134744073) 1 }
      ∷ offered
      ∷ record offered { address = socket_new (v4 134744073) 1 }
      ∷ [];
}

canonicalize_candidates-sorted_example :
    (strictly_sorted candidate_lt (canonicalize_candidates unsorted).candidates ≡ true)
    × (strictly_sorted service_lt (canonicalize_candidates unsorted).services ≡ true)
    × (holds candidate_words (candidate_words offered) (canonicalize_candidates unsorted).candidates
        ≡ holds candidate_words (candidate_words offered) unsorted.candidates)
    × (holds service_words (candidate_words offered) (canonicalize_candidates unsorted).services
        ≡ holds service_words (candidate_words offered) unsorted.services)
canonicalize_candidates-sorted_example =
    canonicalize_candidates-sorted unsorted (candidate_words offered)
