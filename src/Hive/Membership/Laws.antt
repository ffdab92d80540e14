-- ===== src/Hive/Membership/Laws.antt =====
-- Memberships: what is signed verifies, and the codec is a canonical round trip.
use supgang.Base.{
  ℕ, ◌+◌, ◌^◌, ◌<◌, ◌≤◌, ◌≡◌, ◌≢◌, refl, true, false, ok, >>=-inv, arith, Bytes, length, ltb, ◌==◌,
  ==_refl, sym,
}
use supgang.External.{External, IsCbor, IsSigning}
use supgang.Codec.{run_to_end, recoded-inv, recoded-same, read_envelope, envelope}
use supgang.Codec.Steps
use supgang.Codec.Steps.{step-inv}
use supgang.Codec.Reads.{
  Reads, ◌⟨◌⟩◌, lift-Reads, returns-Reads, run_to_end-Reads, u16-Reads, u64-Reads, array-Reads,
  fixed-Reads, envelope-Reads,
}
use supgang.Hive.Ids.{
  hive_id, node_id, verify_domain, sign_domain, verify-sign_domain, length-sign_domain,
}
use supgang.Hive.Membership.{
  MembershipCertificate, SignedMembership, validate_shape, roles_from_bits, is_device,
  encode_certificate, encode_signed_membership, sign, verify, max_membership_lifetime_seconds,
  domain, max_signed_membership_bytes, malformed, decode, unsupported_version, non_canonical,
}
use supgang.Hive.Membership.Read.{read_certificate}
use supgang.Hive.Membership.Decode.{decode_certificate, decode_signed_membership}

-- A certificate whose fields fit their widths on the wire.
pub record IsSized (c : MembershipCertificate) : Type 0 where
  pub ids : (c.hive_id < 256 ^ 32) × (c.node_id < 256 ^ 32)
  pub keys : (c.device_verifying_key < 256 ^ 32) × (c.admission_nonce < 256 ^ 32)
  pub times : (c.issued_at < 2 ^ 64) × (c.expires_at < 2 ^ 64)
  pub serial : c.serial < 2 ^ 64

-- What the shape of a certificate guarantees.
pub record IsShaped (x : External) (c : MembershipCertificate) : Type 0 where
  pub current : c.version ≡ 1
  pub numbered : c.serial ≢ 0
  pub bound : c.node_id ≡ node_id x c.device_verifying_key
  pub lifetime :
      (c.issued_at < c.expires_at) × (c.expires_at ≤ c.issued_at + max_membership_lifetime_seconds)
  pub roles : (is_device c.roles ≡ true) × (c.roles < 8)

module _ (x : External) where
  pub validate-IsShaped :
      (c : MembershipCertificate) {u : Unit {0}} → validate_shape x c ≡ ok u → IsShaped x c
  unfolding validate_shape roles_from_bits
  validate-IsShaped c h = record {
    current = ground arith;
    numbered = ground arith;
    bound = ground arith;
    lifetime = (ground arith, ground arith);
    roles = (ground arith, ground arith);
  }

  signed_fields :
      (c : MembershipCertificate) (root : ℕ) {s : SignedMembership}
      → sign x c root ≡ ok s
      → (s.certificate ≡ c)
        × (s.signature ≡ sign_domain x root domain (encode_certificate x c))
        × (validate_shape x c ≡ ok tt)
        × (c.hive_id ≡ hive_id x (x.public_key root))
  unfolding sign
  signed_fields c root h = (ground arith, ground arith, ground arith, ground arith)

  known_roles :
      (c : MembershipCertificate)
      → validate_shape x c ≡ ok tt
      → roles_from_bits c.roles ≡ ok c.roles
  unfolding validate_shape roles_from_bits
  known_roles c h = ground arith

  -- A membership that the holder of a root key signs verifies under the public key.
  pub sign-verify :
      IsSigning x
      → (c : MembershipCertificate) (root : ℕ) {s : SignedMembership} → sign x c root ≡ ok s
      → verify x s (x.public_key root) ≡ ok tt
  unfolding sign verify
  sign-verify signing c root {s} h =
      let (same, signature, shaped, hive) = signed_fields c root h in
      let hived : (c.hive_id == hive_id x (x.public_key root)) ≡ true =
        rw hive (==_refl (hive_id x (x.public_key root))) in
      let long : length s.signature ≡ 64 =
        rw signature (length-sign_domain x signing root domain (encode_certificate x c)) in
      let signed : verify_domain x (x.public_key root) domain (encode_certificate x c) s.signature
          ≡ true =
        rw signature (verify-sign_domain x signing root domain (encode_certificate x c)) in
      rw (same, shaped, hived, long, signed) refl

  -- A membership that verifies was issued in the hive of the root key, for the device whose key it
  -- names, with known roles and a bounded life, and its content is signed under that key.
  pub verify-IsShaped :
      (s : SignedMembership) (root_key : ℕ)
      → verify x s root_key ≡ ok tt
      → IsShaped x s.certificate × (s.certificate.hive_id ≡ hive_id x root_key)
  unfolding verify
  verify-IsShaped s root_key h =
      let (u, shaped, rest) = >>=-inv (validate_shape x s.certificate) _ h in
      (validate-IsShaped s.certificate shaped, ground arith)

  -- A membership that verifies carries the root key's signature of its content.
  pub verify-signed :
      (s : SignedMembership) (root_key : ℕ)
      → verify x s root_key ≡ ok tt
      → verify_domain x root_key domain (encode_certificate x s.certificate) s.signature ≡ true
  unfolding verify
  verify-signed s root_key h =
      let (u, shaped, rest) = >>=-inv (validate_shape x s.certificate) _ h in ground arith

  -- A signed membership that decodes is encoded as the bytes that it was decoded from.
  pub decode_signed_membership-canonical :
      (input : Bytes) {s : SignedMembership}
      → decode_signed_membership x input ≡ ok s
      → encode_signed_membership x s ≡ ok input
  unfolding decode_signed_membership
  decode_signed_membership-canonical input h =
      let (u, small, rest) = step-inv h in
      let (envelope, read, rest') = step-inv rest in
      let (w, wide, rest'') = step-inv rest' in
      let (c, decoded, last) = step-inv rest'' in
      (recoded-inv (encode_signed_membership x) non_canonical input _ last).1

module _ (x : External) (cbor : IsCbor x) where
  certificate-Reads :
      (c : MembershipCertificate)
      → IsSized c
      → IsShaped x c
      → roles_from_bits c.roles ≡ ok c.roles
      → Reads (read_certificate x) (encode_certificate x c) c
  unfolding read_certificate encode_certificate
  certificate-Reads c sized shaped known =
      array-Reads x cbor decode malformed 9 (omega arith)
      ⟨ _ ⟩ u16-Reads x cbor decode c.version (omega (arith, shaped.current))
      ⟨ _ ⟩ fixed-Reads x cbor decode malformed 32 c.hive_id sized.ids.0
      ⟨ _ ⟩ fixed-Reads x cbor decode malformed 32 c.node_id sized.ids.1
      ⟨ _ ⟩ fixed-Reads x cbor decode malformed 32 c.device_verifying_key sized.keys.0
      ⟨ _ ⟩ u64-Reads x cbor decode c.serial sized.serial
      ⟨ _ ⟩ u64-Reads x cbor decode c.issued_at sized.times.0
      ⟨ _ ⟩ u64-Reads x cbor decode c.expires_at sized.times.1
      ⟨ _ ⟩ u64-Reads x cbor decode c.roles (omega (arith, shaped.roles.1))
      ⟨ _ ⟩ lift-Reads known
      ⟨ _ ⟩ fixed-Reads x cbor decode malformed 32 c.admission_nonce sized.keys.1
      ⟨ _ ⟩ returns-Reads _

  decode-encode_certificate :
      (c : MembershipCertificate)
      → IsSized c
      → validate_shape x c ≡ ok tt
      → decode_certificate x (encode_certificate x c) ≡ ok c
  unfolding decode_certificate Steps.◌>>=◌
  decode-encode_certificate c sized valid =
      let shaped = validate-IsShaped x c valid in
      let read =
        run_to_end-Reads malformed (certificate-Reads c sized shaped (known_roles x c valid)) in
      rw
        (
          Steps.◌>>=◌,
          read,
          valid,
          recoded-same (λ d. ok (encode_certificate x d)) non_canonical (encode_certificate x c) c
              refl,
        )
        refl

  encoded_facts :
      (s : SignedMembership) {output : Bytes}
      → encode_signed_membership x s ≡ ok output
      → (ltb max_signed_membership_bytes (length output) ≡ false)
        × ((length s.signature == 64) ≡ true)
        × (envelope x (encode_certificate x s.certificate) s.signature ≡ output)
  unfolding encode_signed_membership
  encoded_facts s h = (ground arith, ground arith, ground arith)

  -- A membership of the right shape that is encoded decodes to itself, if its fields fit their widths
  -- and the CBOR reader returns what the writer wrote.
  pub decode-encode_signed_membership :
      (s : SignedMembership) {output : Bytes}
      → IsSized s.certificate
      → validate_shape x s.certificate ≡ ok tt
      → encode_signed_membership x s ≡ ok output
      → decode_signed_membership x output ≡ ok s
  unfolding decode_signed_membership Steps.◌>>=◌
  decode-encode_signed_membership s {output} sized valid encoded =
      let (small, wide, written) = encoded_facts s encoded in
      let payload = encode_certificate x s.certificate in
      let read : run_to_end malformed (read_envelope x decode malformed unsupported_version) output
          ≡ ok (payload, s.signature) =
        rw (sym written) (
          run_to_end-Reads malformed
            (envelope-Reads x cbor decode malformed unsupported_version payload s.signature)) in
      rw
        (
          small,
          read,
          wide,
          decode-encode_certificate s.certificate sized valid,
          recoded-same (encode_signed_membership x) non_canonical output s encoded,
        )
        refl
