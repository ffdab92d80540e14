-- ===== src/Hive/Authorized/Laws.antt =====
-- What an authorized record guarantees.
use supgang.Base.{ℕ, ◌≡◌, ◌≤◌, true, ok, >>=-inv, arith, saturating_add}
use supgang.External.{External}
use supgang.Codec.{map_err, map_err-inv}
use supgang.Hive.Ids.{hive_id, node_id, verify_domain}
use supgang.Hive.Membership
use supgang.Hive.Membership.{
  SignedMembership, MembershipError, has_bit, is_introducer, is_control_relay, encode_certificate,
}
use supgang.Hive.Membership.Laws.{IsShaped, verify-IsShaped, verify-signed}
use supgang.Hive.Record.{
  EndpointRecord, SignedEndpointRecord, validate_time, max_future_skew_seconds,
}
use supgang.Hive.Authorized.{verify, verify_authorized, as_membership}

-- A record that speaks for a device of the hive, in its time and with its roles.
pub record IsAuthorized (x : External) (r : EndpointRecord) (m : SignedMembership) (root now : ℕ)
    : Type 0 where
  pub member : IsShaped x m.certificate
  pub granted :
      verify_domain x root Membership.domain (encode_certificate x m.certificate) m.signature ≡ true
  pub in_hive : r.hive_id ≡ hive_id x root
  pub by_device : r.node_id ≡ node_id x m.certificate.device_verifying_key
  pub fresh : (now ≤ r.expires_at) × (r.issued_at ≤ saturating_add now max_future_skew_seconds)
  pub covered : r.expires_at ≤ m.certificate.expires_at
  pub introducer : has_bit 0 r.capabilities ≡ true → is_introducer m.certificate.roles ≡ true
  pub relay : has_bit 1 r.capabilities ≡ true → is_control_relay m.certificate.roles ≡ true

module _ (x : External) where
  -- A record that verifies as authorized comes with a membership that carries the signature of the root
  -- key, belongs to the hive of that key and to the device whose key the membership names, is fresh,
  -- does not outlive the membership, and claims a capability only if the membership has its role; and
  -- it verifies under the device's key.
  pub verify_authorized-IsAuthorized :
      (s : SignedEndpointRecord) (m : SignedMembership) (root_key now : ℕ)
      → verify_authorized x s m root_key now ≡ ok tt
      → IsAuthorized x s.content m root_key now
        × (verify x s m.certificate.device_verifying_key ≡ ok tt)
  unfolding verify_authorized validate_time
  verify_authorized-IsAuthorized s m root_key now h =
      let (u, q, rest) = >>=-inv (map_err as_membership (Membership.verify x m root_key)) _ h in
      let (shaped, hive) =
        verify-IsShaped x m root_key
          (map_err-inv as_membership (Membership.verify x m root_key) q) in
      let (u', q', rest') =
        >>=-inv (map_err as_membership (Membership.validate_time m.certificate now)) _ rest in
      (
        record {
          member = shaped;
          granted =
              verify-signed x m root_key
                (map_err-inv as_membership (Membership.verify x m root_key) q);
          in_hive = ground arith;
          by_device = ground (arith, shaped.bound);
          fresh = (ground arith, ground arith);
          covered = ground arith;
          introducer = ground arith;
          relay = ground arith;
        },
        ground arith,
      )
