-- ===== src/Network/Candidate/Tests.antt =====
-- Candidates on concrete addresses.
use supgang.Base.{◌≡◌, refl, ok, err, is_ok, ◌*◌, ◌+◌, ◌^◌}
use supgang.Network.Address.{socket_new, to_ipv4_mapped, v4, v6, SocketAddr}
use supgang.Network.Candidate.{
  direct, quic_v1, local_scope_mismatch, non_global_scope, EndpointCandidate,
  canonical_socket_address, is_multicast_or_broadcast, is_local_scope, is_globally_routable,
  validate_address, new,
}
use supgang.Network.Candidate.Laws.{is_offerable, new-is_offerable, new-again}

-- 127.0.0.1, 203.0.113.8 and the IPv6 form of 8.8.8.8
abbrev loopback : SocketAddr
loopback = socket_new (v4 2130706433) 1

abbrev documented : SocketAddr
documented = socket_new (v4 3405803784) 443

abbrev mapped_public : SocketAddr
mapped_public = socket_new (v6 (65535 * 2 ^ 32 + 134744072)) 443

abbrev public_candidate : EndpointCandidate
public_candidate = record {
  kind = direct;
  transport = quic_v1;
  address = socket_new (v4 134744072) 443;
}

loopback_refused : new direct quic_v1 loopback ≡ err local_scope_mismatch
unfolding new canonical_socket_address to_ipv4_mapped validate_address is_multicast_or_broadcast
    is_local_scope is_globally_routable
loopback_refused = refl

documented_refused : new direct quic_v1 documented ≡ err non_global_scope
unfolding new canonical_socket_address to_ipv4_mapped validate_address is_multicast_or_broadcast
    is_local_scope is_globally_routable
documented_refused = refl

mapped_accepted : new direct quic_v1 mapped_public ≡ ok public_candidate
unfolding new canonical_socket_address to_ipv4_mapped validate_address is_multicast_or_broadcast
    is_local_scope is_globally_routable
mapped_accepted = refl

-- the IPv6 form of 8.8.8.8
new-is_offerable_example :
    is_ok (new direct quic_v1 mapped_public) ≡ is_offerable direct mapped_public
new-is_offerable_example = new-is_offerable direct quic_v1 mapped_public

new-again_example : new direct quic_v1 public_candidate.address ≡ ok public_candidate
new-again_example = new-again direct quic_v1 mapped_public mapped_accepted
