-- ===== src/Network/Candidate/Laws.antt =====
-- What a constructed candidate satisfies.
use supgang.Base.{
  ℕ, ◌+◌, ◌-◌, ◌*◌, ◌^◌, ◌≡◌, refl, Bool, true, false, not, ◌&&◌, ◌||◌, if◌then◌else◌, Option, none,
  some, ok, is_ok, arith, ◌==◌, leb, ltb, ◌<◌,
}
use supgang.Network.Address.{
  IpAddr, v4, v6, SocketAddr, to_ipv4_mapped, is_unspecified, is_private, is_documentation,
  is_loopback_4, is_link_local, octet_1, octet_2, octet_3,
}
use supgang.Network.Candidate.{
  CandidateKind, CandidateTransport, EndpointCandidate, canonical_of, canonical_socket_address,
  is_multicast_or_broadcast, is_local_scope, is_globally_routable, is_local, validate_address, new,
}

-- The addresses from one up to another.
abbrev within : ℕ → ℕ → ℕ → Bool
within low high a = leb low a && ltb a high

-- The IPv4 address that begins with these octets.
abbrev ipv4 : ℕ → ℕ → ℕ → ℕ
ipv4 first second third = first * 2 ^ 24 + second * 2 ^ 16 + third * 2 ^ 8

-- Special-purpose blocks of IPv4 from 1.0.0.0 up to the multicast range, as ranges of addresses: 10/8,
-- 100.64/10, 127/8, 169.254/16, 172.16/12, 192.0.0/24, 192.0.2/24, 192.88.99/24, 192.168/16, 198.18/15,
-- 198.51.100/24 and 203.0.113/24.
abbrev is_special : ℕ → Bool
is_special a =
    within (ipv4 10 0 0) (ipv4 11 0 0) a
    || within (ipv4 100 64 0) (ipv4 100 128 0) a
    || within (ipv4 127 0 0) (ipv4 128 0 0) a
    || within (ipv4 169 254 0) (ipv4 169 255 0) a
    || within (ipv4 172 16 0) (ipv4 172 32 0) a
    || within (ipv4 192 0 0) (ipv4 192 0 1) a
    || within (ipv4 192 0 2) (ipv4 192 0 3) a
    || within (ipv4 192 88 99) (ipv4 192 88 100) a
    || within (ipv4 192 168 0) (ipv4 192 169 0) a
    || within (ipv4 198 18 0) (ipv4 198 20 0) a
    || within (ipv4 198 51 100) (ipv4 198 51 101) a
    || within (ipv4 203 0 113) (ipv4 203 0 114) a

pub is_public_4 : ℕ → Bool
is_public_4 a = within (ipv4 1 0 0) (ipv4 224 0 0) a && not (is_special a)

-- 2000::/3 without 2001:db8::/32
pub is_public_6 : ℕ → Bool
is_public_6 a =
    within (2 ^ 125) (2 ^ 126) a && not (within (536939960 * 2 ^ 96) (536939961 * 2 ^ 96) a)

-- A local address is any but the unspecified, the multicast and the broadcast ones that is not public.
abbrev is_local_4 : ℕ → Bool
is_local_4 a =
    not (a == 0)
    && not (within (ipv4 224 0 0) (ipv4 240 0 0) a)
    && not (a == 2 ^ 32 - 1)
    && not (is_public_4 a)

abbrev is_local_6 : ℕ → Bool
is_local_6 a = not (a == 0) && not (within (255 * 2 ^ 120) (256 * 2 ^ 120) a) && not (is_public_6 a)

abbrev is_offerable_4 : CandidateKind → ℕ → Bool
is_offerable_4 kind a = if is_local kind then is_local_4 a else is_public_4 a

-- The addresses from ::ffff:0:0 on, 2 ^ 32 of them, are the IPv4 ones.
abbrev is_offerable_6 : CandidateKind → ℕ → Bool
is_offerable_6 kind a =
    if within (65535 * 2 ^ 32) (65536 * 2 ^ 32) a
    then is_offerable_4 kind (a - 65535 * 2 ^ 32)
    else if is_local kind
    then is_local_6 a
    else is_public_6 a

-- The rule by ranges of addresses.
abbrev pub is_offerable : CandidateKind → SocketAddr → Bool
is_offerable kind address =
    not (address.port == 0)
    && (elim address.ip [ v4 a ↦ is_offerable_4 kind a | v6 a ↦ is_offerable_6 kind a ])

private_range :
    (a : ℕ)
    → is_private a ≡ (
        within (ipv4 10 0 0) (ipv4 11 0 0) a
        || within (ipv4 172 16 0) (ipv4 172 32 0) a
        || within (ipv4 192 168 0) (ipv4 192 169 0) a)
private_range a = ground arith

documentation_range :
    (a : ℕ)
    → is_documentation a ≡ (
        within (ipv4 192 0 2) (ipv4 192 0 3) a
        || within (ipv4 198 51 100) (ipv4 198 51 101) a
        || within (ipv4 203 0 113) (ipv4 203 0 114) a)
documentation_range a = ground arith

shared_range :
    (a : ℕ)
    → (octet_1 a == 100 && leb 64 (octet_2 a) && leb (octet_2 a) 127)
      ≡ within (ipv4 100 64 0) (ipv4 100 128 0) a
shared_range a = ground arith

protocol_range :
    (a : ℕ)
    → (octet_1 a == 192 && octet_2 a == 0 && octet_3 a == 0)
      ≡ within (ipv4 192 0 0) (ipv4 192 0 1) a
protocol_range a = ground arith

relay_range :
    (a : ℕ)
    → (octet_1 a == 192 && octet_2 a == 88 && octet_3 a == 99)
      ≡ within (ipv4 192 88 99) (ipv4 192 88 100) a
relay_range a = ground arith

benchmarking_range :
    (a : ℕ)
    → (octet_1 a == 198 && (octet_2 a == 18 || octet_2 a == 19))
      ≡ within (ipv4 198 18 0) (ipv4 198 20 0) a
benchmarking_range a = ground arith

loopback_range : (a : ℕ) → (octet_1 a == 127) ≡ within (ipv4 127 0 0) (ipv4 128 0 0) a
loopback_range a = ground arith

link_range :
    (a : ℕ) → (octet_1 a == 169 && octet_2 a == 254) ≡ within (ipv4 169 254 0) (ipv4 169 255 0) a
link_range a = ground arith

zero_range : (a : ℕ) → (octet_1 a == 0) ≡ not (leb (ipv4 1 0 0) a)
zero_range a = ground arith

below_multicast : (a : ℕ) → ltb (octet_1 a) 224 ≡ ltb a (ipv4 224 0 0)
below_multicast a = ground arith

-- the tests of the code, in its order
routable : Bool → Bool → Bool → Bool → Bool → Bool → Bool → Bool → Bool → Bool → Bool
routable zero below private loopback link documentation shared protocol relay benchmark =
    not zero
    && below
    && not private
    && not loopback
    && not link
    && not documentation
    && not shared
    && not protocol
    && not relay
    && not benchmark

regrouped :
    (below from r10 shared loopback link r172 protocol d192 relay r192 benchmark d198 d203 : Bool)
    → routable
        (not from)
        below
        (r10 || r172 || r192)
        loopback
        link
        (d192 || d198 || d203)
        shared
        protocol
        relay
        benchmark
      ≡ (from
          && below
          && not (
              r10 || shared || loopback || link || r172 || protocol || d192 || relay || r192
              || benchmark || d198 || d203))
unfolding routable
regrouped below from r10 shared loopback link r172 protocol d192 relay r192 benchmark d198 d203 =
    ground arith

routable_range : (a : ℕ) → is_globally_routable (v4 a) ≡ is_public_4 a
unfolding is_public_4
routable_range a =
    let tests : is_globally_routable (v4 a)
        ≡ routable (octet_1 a == 0) (ltb (octet_1 a) 224) (is_private a) (is_loopback_4 a)
            (is_link_local a) (is_documentation a)
            (octet_1 a == 100 && leb 64 (octet_2 a) && leb (octet_2 a) 127)
            (octet_1 a == 192 && octet_2 a == 0 && octet_3 a == 0)
            (octet_1 a == 192 && octet_2 a == 88 && octet_3 a == 99)
            (octet_1 a == 198 && (octet_2 a == 18 || octet_2 a == 19)) =
      unfold is_globally_routable routable in refl in
    rw
      (
        tests,
        zero_range a,
        below_multicast a,
        private_range a,
        loopback_range a,
        link_range a,
        documentation_range a,
        shared_range a,
        protocol_range a,
        relay_range a,
        benchmarking_range a,
      )
      (regrouped _ _ _ _ _ _ _ _ _ _ _ _ _ _)

routable_range_6 : (a : ℕ) → is_globally_routable (v6 a) ≡ is_public_6 a
unfolding is_globally_routable is_public_6
routable_range_6 a = ground arith

multicast_range :
    (a : ℕ)
    → is_multicast_or_broadcast (v4 a) ≡ (within (ipv4 224 0 0) (ipv4 240 0 0) a || a == 2 ^ 32 - 1)
unfolding is_multicast_or_broadcast
multicast_range a = ground arith

multicast_range_6 :
    (a : ℕ) → is_multicast_or_broadcast (v6 a) ≡ within (255 * 2 ^ 120) (256 * 2 ^ 120) a
unfolding is_multicast_or_broadcast
multicast_range_6 a = ground arith

-- The rule by the tests of the code, on one address.
by_tests : CandidateKind → IpAddr → Bool
by_tests kind ip =
    not (is_unspecified ip)
    && not (is_multicast_or_broadcast ip)
    && (if is_local kind then not (is_globally_routable ip) else is_globally_routable ip)

in_range :
    (special : Bool) {a : ℕ}
    → (within (ipv4 1 0 0) (ipv4 224 0 0) a && not special) ≡ true
    → ((0 < a) × (a < ipv4 224 0 0)) × (special ≡ false)
in_range special h = ((ground arith, ground arith), ground arith)

public_bounds : (a : ℕ) → is_public_4 a ≡ true → (0 < a) × (a < ipv4 224 0 0)
unfolding is_public_4
public_bounds a h = (in_range (is_special a) h).0

public_bounds_6 : (a : ℕ) → is_public_6 a ≡ true → (0 < a) × (a < 255 * 2 ^ 120)
unfolding is_public_6
public_bounds_6 a h = (ground arith, ground arith)

tests_4 : (kind : CandidateKind) (a : ℕ) → by_tests kind (v4 a) ≡ is_offerable_4 kind a
unfolding by_tests
tests_4 kind a = ground (arith, routable_range a, multicast_range a, public_bounds a)

tests_6 :
    (kind : CandidateKind) (a : ℕ)
    → by_tests kind (v6 a) ≡ (if is_local kind then is_local_6 a else is_public_6 a)
unfolding by_tests
tests_6 kind a = ground (arith, routable_range_6 a, multicast_range_6 a, public_bounds_6 a)

-- What is scoped to a link or to the device is never routed globally.
local_scope-not_global : (ip : IpAddr) → is_local_scope ip ≡ true → is_globally_routable ip ≡ false
unfolding is_local_scope is_globally_routable
local_scope-not_global (v4 a) h = ground arith
local_scope-not_global (v6 a) h = ground arith

validate-by_tests :
    (kind : CandidateKind) (address : SocketAddr)
    → is_ok (validate_address kind address) ≡ (not (address.port == 0) && by_tests kind address.ip)
unfolding validate_address by_tests
validate-by_tests kind address = ground (arith, local_scope-not_global address.ip)

mapped_range :
    (a : ℕ)
    → to_ipv4_mapped (v6 a)
      ≡ (if within (65535 * 2 ^ 32) (65536 * 2 ^ 32) a then some (a - 65535 * 2 ^ 32) else none)
unfolding to_ipv4_mapped
mapped_range a = ground arith

mapped_tests :
    (kind : CandidateKind) (a p f s : ℕ) (m : Option ℕ)
    → m ≡ (if within (65535 * 2 ^ 32) (65536 * 2 ^ 32) a then some (a - 65535 * 2 ^ 32) else none)
    → let address = canonical_of m (record { ip = v6 a; port = p; flowinfo = f; scope_id = s }) in
      (not (address.port == 0) && by_tests kind address.ip)
      ≡ (not (p == 0) && is_offerable_6 kind a)
mapped_tests kind a p f s none e =
    let out : within (65535 * 2 ^ 32) (65536 * 2 ^ 32) a ≡ false = ground (arith, e) in
    rw (tests_6 kind a, out) refl
mapped_tests kind a p f s (some b) e =
    let mapped : within (65535 * 2 ^ 32) (65536 * 2 ^ 32) a ≡ true = ground (arith, e) in
    let same : b ≡ a - 65535 * 2 ^ 32 = ground (arith, e) in rw (tests_4 kind b, same, mapped) refl

canonical_tests :
    (kind : CandidateKind) (ip : IpAddr) (p f s : ℕ)
    → let given : SocketAddr = record { ip = ip; port = p; flowinfo = f; scope_id = s } in
      let address = canonical_socket_address given in
      (not (address.port == 0) && by_tests kind address.ip) ≡ is_offerable kind given
unfolding canonical_socket_address to_ipv4_mapped
canonical_tests kind (v4 a) p f s = rw (tests_4 kind a) refl
canonical_tests kind (v6 a) p f s = mapped_tests kind a p f s _ (mapped_range a)

-- The code's chain of refusals accepts exactly the sockets with a port that is not zero and an address
-- in the ranges of its kind: an IPv4 address, also as the IPv6 address that maps it, is offered as
-- local if it is neither unspecified, multicast, broadcast nor public, and under another kind if it is
-- public, which is outside the special-purpose blocks; and likewise for IPv6.
pub new-is_offerable :
    (kind : CandidateKind) (transport : CandidateTransport) (address : SocketAddr)
    → is_ok (new kind transport address) ≡ is_offerable kind address
unfolding new
new-is_offerable kind transport address = ground (
  arith,
  validate-by_tests kind (canonical_socket_address address),
  canonical_tests kind address.ip address.port address.flowinfo address.scope_id,
)

canonical_of_twice :
    (m : Option ℕ) (address : SocketAddr)
    → to_ipv4_mapped address.ip ≡ m
    → canonical_socket_address (canonical_of m address) ≡ canonical_of m address
unfolding canonical_socket_address
canonical_of_twice none address e = rw e refl
canonical_of_twice (some a) address e = unfold to_ipv4_mapped in refl

canonical_twice :
    (address : SocketAddr)
    → canonical_socket_address (canonical_socket_address address) ≡ canonical_socket_address address
canonical_twice address =
    unfold canonical_socket_address in canonical_of_twice (to_ipv4_mapped address.ip) address refl

accepted_fields :
    (kind : CandidateKind) (transport : CandidateTransport) (address : SocketAddr)
    {c : EndpointCandidate}
    → new kind transport address ≡ ok c
    → (c
        ≡ record { kind = kind; transport = transport; address = canonical_socket_address address })
      × (validate_address kind (canonical_socket_address address) ≡ ok tt)
unfolding new
accepted_fields kind transport address h = ground arith

-- A candidate that was constructed is constructed again from its own fields.
pub new-again :
    (kind : CandidateKind) (transport : CandidateTransport) (address : SocketAddr)
    {c : EndpointCandidate}
    → new kind transport address ≡ ok c
    → new c.kind c.transport c.address ≡ ok c
unfolding new
new-again kind transport address h =
    let (fields, valid) = accepted_fields kind transport address h in
    rw (fields, canonical_twice address, valid) refl
