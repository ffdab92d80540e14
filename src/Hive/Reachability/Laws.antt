-- ===== src/Hive/Reachability/Laws.antt =====
-- What a verified claim guarantees.
use supgang.Base.{
  ℕ, ◌≡◌, ◌≢◌, ◌≤◌, ◌<◌, ◌+◌, refl, true, false, not, ◌||◌, ok, >>=-inv, refuse_if, ltb, ◌==◌,
  arith, is_ok, Bytes, Result, err, ◌-◌, leb,
}
use supgang.External.{External}
use supgang.Codec.{map_err, map_err-inv}
use supgang.Hive.Ids.{hive_id, node_id, verify_domain}
use supgang.Hive.Membership
use supgang.Hive.Membership.Laws.{IsShaped, verify-IsShaped, verify-signed}
use supgang.Hive.Reachability.{
  ReachabilityClaim, ReachabilityError, ReachabilitySource, gateway, peer_observed, candidate,
  validate_shape, encode_payload, domain, verify, max_claim_lifetime_seconds, as_membership,
  is_mismatched, invalid_shape, authority_mismatch,
}

-- Whom a claim of this provenance may describe.
abbrev IsAbout : ReachabilitySource → ℕ → ℕ → Type 0
IsAbout gateway reporter subject = reporter ≡ subject
IsAbout peer_observed reporter subject = reporter ≢ subject

about :
    (source : ReachabilitySource) (reporter subject : ℕ)
    → is_mismatched source (reporter == subject) ≡ false
    → IsAbout source reporter subject
about gateway reporter subject h = ground arith
about peer_observed reporter subject h = ground arith

shape_facts :
    (claim : ReachabilityClaim)
    → validate_shape claim ≡ ok tt
    → (claim.issued_at < claim.expires_at)
      × (claim.expires_at ≤ claim.issued_at + max_claim_lifetime_seconds)
      × (is_mismatched claim.source (claim.reporter == claim.subject) ≡ false)
      × (is_ok (candidate claim) ≡ true)
unfolding validate_shape
shape_facts claim h =
    let (u, timed, rest) =
      >>=-inv
        (refuse_if
          (leb claim.expires_at claim.issued_at
            || ltb max_claim_lifetime_seconds (claim.expires_at - claim.issued_at)
            || not (claim.reporter_membership.certificate.node_id == claim.reporter))
          invalid_shape)
        _ h in
    let (u', matched, rest') =
      >>=-inv
        (refuse_if (is_mismatched claim.source (claim.reporter == claim.subject))
          authority_mismatch)
        _ rest in
    let (offered, found, last) = >>=-inv (candidate claim) _ rest' in
    (ground arith, ground arith, ground arith, rw found refl)

-- A claim whose signature is one of its payload under the key of the reporter's membership.
pub record IsSigned (x : External) (claim : ReachabilityClaim) : Type 0 where
  pub payload : Bytes
  pub encoded : encode_payload x claim ≡ ok payload
  pub verified :
      verify_domain x claim.reporter_membership.certificate.device_verifying_key domain payload
        claim.signature
      ≡ true

-- A claim that a member of the hive made in time, of the provenance that it says.
pub record IsVouched (x : External) (claim : ReachabilityClaim) (root now : ℕ) : Type 0 where
  pub member : IsShaped x claim.reporter_membership.certificate
  pub granted :
      verify_domain x root Membership.domain
        (Membership.encode_certificate x claim.reporter_membership.certificate)
        claim.reporter_membership.signature
      ≡ true
  pub signed : IsSigned x claim
  pub in_hive : claim.hive_id ≡ hive_id x root
  pub by_reporter :
      claim.reporter ≡ node_id x claim.reporter_membership.certificate.device_verifying_key
  pub about_whom : IsAbout claim.source claim.reporter claim.subject
  pub fresh : now ≤ claim.expires_at
  pub short_lived :
      (claim.issued_at < claim.expires_at)
      × (claim.expires_at ≤ claim.issued_at + max_claim_lifetime_seconds)
  pub dialable : is_ok (candidate claim) ≡ true

module _ (x : External) where
  verify-signed_claim :
      (claim : ReachabilityClaim) (root_key now : ℕ) (r : Result ReachabilityError Bytes)
      → encode_payload x claim ≡ r
      → verify x claim root_key now ≡ ok tt
      → IsSigned x claim
  unfolding verify
  verify-signed_claim claim root_key now (err e) none_encoded h = ground arith
  verify-signed_claim claim root_key now (ok payload) encoded h = record {
    payload = payload;
    encoded = encoded;
    verified = ground arith;
  }

  -- A claim that verifies is signed under the device key of its reporter's membership, which the root
  -- key signed for the hive; its time span is at most ten minutes and has not ended; a gateway's claim is on its own device, an observation on another one, and its
  -- address can be dialed.
  pub verify-IsVouched :
      (claim : ReachabilityClaim) (root_key now : ℕ)
      → verify x claim root_key now ≡ ok tt
      → IsVouched x claim root_key now
  unfolding verify
  verify-IsVouched claim root_key now h =
      let (u, valid, rest) = >>=-inv (validate_shape claim) _ h in
      let (u', q, rest') =
        >>=-inv (map_err as_membership (Membership.verify x claim.reporter_membership root_key)) _
          rest in
      let (shaped, hive) =
        verify-IsShaped x claim.reporter_membership root_key
          (map_err-inv as_membership (Membership.verify x claim.reporter_membership root_key) q) in
      let (u'', t, last) =
        >>=-inv
          (map_err as_membership
            (Membership.validate_time claim.reporter_membership.certificate now))
          _ rest' in
      let facts = shape_facts claim valid in
      record {
        member = shaped;
        granted =
            verify-signed x claim.reporter_membership root_key (
              map_err-inv as_membership (Membership.verify x claim.reporter_membership root_key) q);
        signed = verify-signed_claim claim root_key now (encode_payload x claim) refl h;
        in_hive = ground arith;
        by_reporter = ground (arith, shaped.bound);
        about_whom = about claim.source claim.reporter claim.subject facts.2;
        fresh = ground arith;
        short_lived = (facts.0, facts.1);
        dialable = facts.3;
      }
