-- ===== src/Network/Candidate.antt =====
-- crates/supgang/src/candidate.rs: which sockets a record may offer, and under which provenance.
pub mod Laws
pub mod Tests
use supgang.Base.{
  Option, none, some, ℕ, ◌/◌, ◌%◌, ◌^◌, Bool, true, false, not, ◌&&◌, ◌||◌, Result, ok, err, ◌>>=◌,
  ◌>>◌, refuse_if, ltb, leb, ◌==◌, if◌then◌else◌,
}
use supgang.Network.Address.{
  IpAddr, v4, v6, SocketAddr, socket_new, to_ipv4_mapped, octet_1, octet_2, octet_3, octet_6,
  prefix_32, is_unspecified, is_multicast, is_broadcast, is_loopback_4, is_loopback_6,
  is_link_local, is_unicast_link_local, is_private, is_documentation,
}

abbrev pub max_candidates : ℕ
max_candidates = 8

pub data CandidateKind : Type 0 where
  local direct reflexive mapped owned_relay : CandidateKind

pub data CandidateTransport : Type 0 where
  quic_v1 : CandidateTransport

pub data CandidateError : Type 0 where
  unknown_kind unknown_transport zero_port unspecified multicast_or_broadcast : CandidateError
  local_scope_mismatch non_global_scope global_marked_local : CandidateError

-- the discriminant of a kind, and `TryFrom<u8>`
abbrev pub kind_byte : CandidateKind → ℕ
kind_byte local = 0
kind_byte direct = 1
kind_byte reflexive = 2
kind_byte mapped = 3
kind_byte owned_relay = 4

unfoldable pub kind_try_from : ℕ → Result CandidateError CandidateKind
kind_try_from value =
    if value == 0
    then ok local
    else if value == 1
    then ok direct
    else if value == 2
    then ok reflexive
    else if value == 3
    then ok mapped
    else if value == 4
    then ok owned_relay
    else err unknown_kind

unfoldable pub transport_try_from : ℕ → Result CandidateError CandidateTransport
transport_try_from value = if value == 0 then ok quic_v1 else err unknown_transport

pub record EndpointCandidate : Type 0 where
  pub kind : CandidateKind
  pub transport : CandidateTransport
  pub address : SocketAddr

abbrev pub canonical_of : Option ℕ → SocketAddr → SocketAddr
canonical_of none address = address
canonical_of (some ipv4) address = socket_new (v4 ipv4) address.port

-- `canonical_socket_address`: an address that maps no IPv4 address keeps its flow label and scope
unfoldable pub canonical_socket_address : SocketAddr → SocketAddr
canonical_socket_address address = canonical_of (to_ipv4_mapped address.ip) address

unfoldable pub is_multicast_or_broadcast : IpAddr → Bool
is_multicast_or_broadcast (v4 a) = is_multicast (v4 a) || is_broadcast a
is_multicast_or_broadcast (v6 a) = is_multicast (v6 a)

unfoldable pub is_local_scope : IpAddr → Bool
is_local_scope (v4 a) = is_loopback_4 a || is_link_local a
is_local_scope (v6 a) = is_loopback_6 a || is_unicast_link_local a

abbrev shared : ℕ → Bool
shared a = octet_1 a == 100 && leb 64 (octet_2 a) && leb (octet_2 a) 127

abbrev protocol_assignment : ℕ → Bool
protocol_assignment a = octet_1 a == 192 && octet_2 a == 0 && octet_3 a == 0

abbrev deprecated_relay : ℕ → Bool
deprecated_relay a = octet_1 a == 192 && octet_2 a == 88 && octet_3 a == 99

abbrev benchmarking : ℕ → Bool
benchmarking a = octet_1 a == 198 && (octet_2 a == 18 || octet_2 a == 19)

-- `first & 0xe0 == 0x20`
abbrev global_unicast : ℕ → Bool
global_unicast a = octet_6 a / 32 == 1

-- 2001:db8::/32
abbrev documentation : ℕ → Bool
documentation a = prefix_32 a == 536939960

unfoldable pub is_globally_routable : IpAddr → Bool
is_globally_routable (v4 a) =
    not (octet_1 a == 0)
    && ltb (octet_1 a) 224
    && not (is_private a)
    && not (is_loopback_4 a)
    && not (is_link_local a)
    && not (is_documentation a)
    && not (shared a)
    && not (protocol_assignment a)
    && not (deprecated_relay a)
    && not (benchmarking a)
is_globally_routable (v6 a) = global_unicast a && not (documentation a)

abbrev pub is_local : CandidateKind → Bool
is_local local = true
is_local _ = false

unfoldable pub validate_address : CandidateKind → SocketAddr → Result CandidateError (Unit {0})
validate_address kind address = do
  refuse_if (address.port == 0) zero_port
  refuse_if (is_unspecified address.ip) unspecified
  refuse_if (is_multicast_or_broadcast address.ip) multicast_or_broadcast
  refuse_if (is_local_scope address.ip && not (is_local kind)) local_scope_mismatch
  refuse_if (is_local kind && is_globally_routable address.ip) global_marked_local
  refuse_if (not (is_local kind) && not (is_globally_routable address.ip)) non_global_scope

-- `EndpointCandidate::new`
unfoldable pub new :
    CandidateKind → CandidateTransport → SocketAddr → Result CandidateError EndpointCandidate
new kind transport address = do
  validate_address kind (canonical_socket_address address)
  ok (record { kind = kind; transport = transport; address = canonical_socket_address address })
