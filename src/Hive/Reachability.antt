-- ===== src/Hive/Reachability.antt =====
-- crates/supgang/src/reachability.rs: short-lived claims of a member on where a device can be reached.
pub mod Laws
use supgang.Base.{
  ℕ, ◌-◌, Bool, not, ◌||◌, [], ◌∷◌, ◌++◌, Result, ok, err, ◌>>=◌, ◌>>◌, refuse_if, ltb, leb, ◌==◌,
  if◌then◌else◌, length, Bytes, ascii, saturating_add,
}
use supgang.External.{External, items, fixed_item}
use supgang.Codec.{map_err}
use supgang.Network.Address.{IpAddr, v4, v6, SocketAddr}
use supgang.Network.Candidate.{
  CandidateKind, local, reflexive, mapped, quic_v1, CandidateError, EndpointCandidate, new,
}
use supgang.Hive.Ids.{hive_id, node_id, verify_domain, sign_domain}
use supgang.Hive.Membership
use supgang.Hive.Membership.{SignedMembership, MembershipError, encode_signed_membership}
use supgang.Hive.Wire.{ip_octets}

abbrev pub max_reachability_claim_bytes : ℕ
max_reachability_claim_bytes = 2048

abbrev pub max_reachability_claims : ℕ
max_reachability_claims = 16

abbrev pub max_claim_lifetime_seconds : ℕ
max_claim_lifetime_seconds = 600

abbrev max_future_skew_seconds : ℕ
max_future_skew_seconds = 300

pub data ReachabilitySource : Type 0 where
  gateway peer_observed : ReachabilitySource

abbrev pub source_byte : ReachabilitySource → ℕ
source_byte gateway = 1
source_byte peer_observed = 2

pub data ReachabilityError : Type 0 where
  invalid_shape invalid_address authority_mismatch membership expired signature_invalid :
      ReachabilityError
  oversized : ReachabilityError

pub record ReachabilityClaim : Type 0 where
  pub hive_id : ℕ
  pub subject : ℕ
  pub reporter : ℕ
  pub reporter_membership : SignedMembership
  pub address : SocketAddr
  pub source : ReachabilitySource
  pub issued_at : ℕ
  pub expires_at : ℕ
  pub signature : Bytes

-- `Result::or_else` with a second attempt
abbrev or_else :
    Result CandidateError EndpointCandidate
    → Result CandidateError EndpointCandidate
    → Result CandidateError EndpointCandidate
or_else (ok candidate) second = ok candidate
or_else (err e) second = second

abbrev as_address : CandidateError → ReachabilityError
as_address e = invalid_address

abbrev as_membership : MembershipError → ReachabilityError
as_membership e = membership

abbrev by_source : ReachabilitySource → SocketAddr → Result CandidateError EndpointCandidate
by_source gateway address = new mapped quic_v1 address
by_source peer_observed address =
    or_else (new reflexive quic_v1 address) (new local quic_v1 address)

-- `ReachabilityClaim::candidate`
unfoldable pub candidate : ReachabilityClaim → Result ReachabilityError EndpointCandidate
candidate claim = map_err as_address (by_source claim.source claim.address)

abbrev pub is_mismatched : ReachabilitySource → Bool → Bool
is_mismatched gateway own = not own
is_mismatched peer_observed own = own

-- `ReachabilityClaim::validate_shape`
unfoldable pub validate_shape : ReachabilityClaim → Result ReachabilityError (Unit {0})
validate_shape claim = do
  refuse_if
      (leb claim.expires_at claim.issued_at
        || ltb max_claim_lifetime_seconds (claim.expires_at - claim.issued_at)
        || not (claim.reporter_membership.certificate.node_id == claim.reporter))
      invalid_shape
  refuse_if (is_mismatched claim.source (claim.reporter == claim.subject)) authority_mismatch
  offered ← candidate claim
  ok tt

abbrev pub domain : Bytes
domain = ascii "supgang/reachability-claim/v1" ++ (0 ∷ [])

abbrev family : IpAddr → ℕ
family (v4 a) = 4
family (v6 a) = 6

module _ (x : External) where
  -- `fn encode_payload_with_fields`
  unfoldable pub encode_payload_with_fields : ReachabilityClaim → ℕ → Result ReachabilityError Bytes
  encode_payload_with_fields claim fields = do
    member ← map_err as_membership (encode_signed_membership x claim.reporter_membership)
    ok (
        items (
          x.array fields
          ∷ x.u16 1
          ∷ x.u8 (source_byte claim.source)
          ∷ fixed_item x 32 claim.hive_id
          ∷ fixed_item x 32 claim.subject
          ∷ fixed_item x 32 claim.reporter
          ∷ x.bytes member
          ∷ x.u8 (family claim.address.ip)
          ∷ x.bytes (ip_octets claim.address.ip)
          ∷ x.u16 claim.address.port
          ∷ x.u64 claim.issued_at
          ∷ x.u64 claim.expires_at
          ∷ []))

  -- `fn encode_payload`
  unfoldable pub encode_payload : ReachabilityClaim → Result ReachabilityError Bytes
  encode_payload claim = encode_payload_with_fields claim 11

  unfoldable pub encode_claim : ReachabilityClaim → Result ReachabilityError Bytes
  encode_claim claim = do
    payload ← encode_payload_with_fields claim 12
    let output = payload ++ x.bytes claim.signature
    if ltb max_reachability_claim_bytes (length output) then err oversized else ok output

  -- `ReachabilityClaim::sign` with the reporter's secret key
  unfoldable pub sign :
      SignedMembership
      → ℕ
      → ℕ
      → SocketAddr
      → ReachabilitySource
      → ℕ
      → Result ReachabilityError ReachabilityClaim
  sign member secret subject address source issued_at = do
    let claim : ReachabilityClaim = record {
      hive_id = member.certificate.hive_id;
      subject = subject;
      reporter = node_id x (x.public_key secret);
      reporter_membership = member;
      address = address;
      source = source;
      issued_at = issued_at;
      expires_at = saturating_add issued_at max_claim_lifetime_seconds;
      signature = [];
    }
    validate_shape claim
    payload ← encode_payload claim
    ok (record claim { signature = sign_domain x secret domain payload })

  -- `ReachabilityClaim::verify`
  unfoldable pub verify : ReachabilityClaim → ℕ → ℕ → Result ReachabilityError (Unit {0})
  verify claim root_key now = do
    let certificate = claim.reporter_membership.certificate
    validate_shape claim
    map_err as_membership (Membership.verify x claim.reporter_membership root_key)
    map_err as_membership (Membership.validate_time certificate now)
    refuse_if
        (not (claim.hive_id == hive_id x root_key)
          || not (certificate.hive_id == claim.hive_id)
          || not (certificate.node_id == claim.reporter))
        authority_mismatch
    refuse_if
        (ltb claim.expires_at now
          || ltb (saturating_add now max_future_skew_seconds) claim.issued_at)
        expired
    refuse_if (not (x.ed25519_key certificate.device_verifying_key)) membership
    refuse_if (not (length claim.signature == 64)) signature_invalid
    payload ← encode_payload claim
    refuse_if
        (not (verify_domain x certificate.device_verifying_key domain payload claim.signature))
        signature_invalid
