-- ===== src/Hive/Contact/Decode.antt =====
-- crates/supgang/src/contact.rs: the strict decoder, and its round trip.
use supgang.Base.{
  ◌≡◌, ok, not, refl, sym, Result, refuse_if, ltb, ◌==◌, false, length, Bytes, arith, [], ◌∷◌,
  >>=-inv,
}
use supgang.External.{External, IsCbor, items}
use supgang.Codec.{run_to_end, recoded, recoded-inv, recoded-same, map_err, map_err-inv}
use supgang.Codec.Steps.{◌>>=◌, ◌>>◌, step-inv}
use supgang.Codec.Reads.{
  Reads, ◌⟨◌⟩◌, lift-Reads, returns-Reads, run_to_end-Reads, u16-Reads, bytes-Reads, array-Reads,
}
use supgang.Hive.Membership
use supgang.Hive.Membership.{
  SignedMembership, encode_signed_membership, max_signed_membership_bytes,
}
use supgang.Hive.Membership.Decode.{decode_signed_membership}
use supgang.Hive.Membership.Laws as MembershipLaws
use supgang.Hive.Membership.Laws.{decode-encode_signed_membership}
use supgang.Hive.Record
use supgang.Hive.Record.{SignedEndpointRecord}
use supgang.Hive.Wire.{
  encode_endpoint_record, signature_length, encode_signed_endpoint_record,
  max_signed_endpoint_record_bytes,
}
use supgang.Hive.Wire.Decode.{decode_signed_endpoint_record}
use supgang.Hive.Wire.Laws as WireLaws
use supgang.Hive.Wire.Laws.{decode-encode_signed_endpoint_record}
use supgang.Hive.Contact.{
  PeerContact, ContactError, oversized, non_canonical, invalid_shape, decode, max_contact_bytes,
  from_membership, from_wire, encode_contact,
}
use supgang.Hive.Contact.Read.{read_contact}

module _ (x : External) where
  unfoldable pub decode_contact : Bytes → Result ContactError PeerContact
  decode_contact input = do
    refuse_if (ltb max_contact_bytes (length input)) oversized
    parts ← run_to_end non_canonical (read_contact x) input
    membership ← map_err from_membership (decode_signed_membership x parts.0)
    endpoint ← map_err from_wire (decode_signed_endpoint_record x parts.1)
    recoded (encode_contact x) non_canonical input
        (record { membership = membership; endpoint = endpoint })

  -- A contact that decodes is encoded as the bytes that it was decoded from.
  pub decode_contact-canonical :
      (input : Bytes) {c : PeerContact}
      → decode_contact input ≡ ok c
      → encode_contact x c ≡ ok input
  unfolding decode_contact
  decode_contact-canonical input h =
      let (u, small, rest) = step-inv h in
      let (parts, read, rest') = step-inv rest in
      let (membership, m, rest'') = step-inv rest' in
      let (endpoint, e, last) = step-inv rest'' in
      (recoded-inv (encode_contact x) non_canonical input _ last).1

module _ (x : External) where
  encoded_short :
      (s : SignedMembership) {output : Bytes}
      → encode_signed_membership x s ≡ ok output
      → ltb max_signed_membership_bytes (length output) ≡ false
  unfolding encode_signed_membership
  encoded_short s h = ground arith

  signed_short :
      (s : SignedEndpointRecord) {output : Bytes}
      → encode_signed_endpoint_record x s ≡ ok output
      → ltb max_signed_endpoint_record_bytes (length output) ≡ false
  unfolding encode_signed_endpoint_record
  signed_short s {output} h =
      let (u, wide, rest) =
        >>=-inv (refuse_if (not (length s.signature == 64)) signature_length) _ h in
      let (payload, content, last) = >>=-inv (encode_endpoint_record x s.content) _ rest in
      ground arith

module _ (x : External) (cbor : IsCbor x) where
  contact-Reads :
      (member endpoint : Bytes)
      → ltb max_signed_membership_bytes (length member) ≡ false
      → ltb max_signed_endpoint_record_bytes (length endpoint) ≡ false
      → Reads
          (read_contact x)
          (items (x.array 3 ∷ x.u16 1 ∷ x.bytes member ∷ x.bytes endpoint ∷ []))
          (member, endpoint)
  unfolding read_contact
  contact-Reads member endpoint small short =
      array-Reads x cbor decode invalid_shape 3 (omega arith)
      ⟨ _ ⟩ u16-Reads x cbor decode 1 (omega arith)
      ⟨ _ ⟩ lift-Reads refl
      ⟨ _ ⟩ bytes-Reads x cbor decode member
      ⟨ _ ⟩ lift-Reads (rw small refl)
      ⟨ _ ⟩ bytes-Reads x cbor decode endpoint
      ⟨ _ ⟩ lift-Reads (rw short refl)
      ⟨ _ ⟩ returns-Reads _

  contact_facts :
      (c : PeerContact) {output : Bytes}
      → encode_contact x c ≡ ok output
      → (member : Bytes) × (endpoint : Bytes) × (encode_signed_membership x c.membership
          ≡ ok member)
        × (encode_signed_endpoint_record x c.endpoint ≡ ok endpoint)
        × (items (x.array 3 ∷ x.u16 1 ∷ x.bytes member ∷ x.bytes endpoint ∷ []) ≡ output)
        × (ltb max_contact_bytes (length output) ≡ false)
  unfolding encode_contact
  contact_facts c h =
      let (member, q, rest) =
        >>=-inv (map_err from_membership (encode_signed_membership x c.membership)) _ h in
      let (endpoint, r, last) =
        >>=-inv (map_err from_wire (encode_signed_endpoint_record x c.endpoint)) _ rest in
      (
        member,
        endpoint,
        map_err-inv from_membership (encode_signed_membership x c.membership) q,
        map_err-inv from_wire (encode_signed_endpoint_record x c.endpoint) r,
        ground arith,
        ground arith,
      )

  -- A contact whose parts have the right shape and that is encoded decodes to itself, if its fields
  -- fit their widths, its parts were constructed, its candidates have no scope and no flow label, and
  -- the CBOR reader returns what the writer wrote.
  pub decode-encode_contact :
      (c : PeerContact) {output : Bytes}
      → MembershipLaws.IsSized c.membership.certificate
      → Membership.validate_shape x c.membership.certificate ≡ ok tt
      → WireLaws.IsSized c.endpoint.content
      → Record.validate_shape c.endpoint.content ≡ ok tt
      → encode_contact x c ≡ ok output
      → decode_contact x output ≡ ok c
  unfolding decode_contact ◌>>=◌
  decode-encode_contact c {output} m_sized m_valid e_sized e_valid encoded =
      let (member, endpoint, q, r, written, small) = contact_facts c encoded in
      let narrow = encoded_short x c.membership q in
      let short = signed_short x c.endpoint r in
      let read : run_to_end non_canonical (read_contact x) output ≡ ok (member, endpoint) =
        rw (sym written)
          (run_to_end-Reads non_canonical (contact-Reads member endpoint narrow short)) in
      rw
        (
          small,
          read,
          decode-encode_signed_membership x cbor c.membership m_sized m_valid q,
          decode-encode_signed_endpoint_record x cbor c.endpoint e_sized e_valid r,
          recoded-same (encode_contact x) non_canonical output c encoded,
        )
        refl
