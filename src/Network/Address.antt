-- ===== src/Network/Address.antt =====
-- `IpAddr` and `SocketAddr` with the tests of the standard library that the program calls. An
-- address is the number that its octets spell.
use supgang.Base.{
  Option, none, some, if◌then◌else◌, ℕ, ◌-◌, ◌/◌, ◌%◌, ◌^◌, Bool, true, false, ◌&&◌, ◌||◌, leb,
  ◌==◌,
}

pub data IpAddr : Type 0 where
  v4 : ℕ → IpAddr
  v6 : ℕ → IpAddr

-- A socket. An IPv4 one has no flow label and no scope, and both are zero.
pub record SocketAddr : Type 0 where
  pub ip : IpAddr
  pub port : ℕ
  pub flowinfo : ℕ
  pub scope_id : ℕ

-- `SocketAddr::new`
abbrev pub socket_new : IpAddr → ℕ → SocketAddr
socket_new ip port = record { ip = ip; port = port; flowinfo = 0; scope_id = 0 }

-- `Ipv6Addr::to_ipv4_mapped` on the IPv6 ones: ::ffff:0:0/96
unfoldable pub to_ipv4_mapped : IpAddr → Option ℕ
to_ipv4_mapped (v4 a) = none
to_ipv4_mapped (v6 a) = if a / 2 ^ 32 == 65535 then some (a % 2 ^ 32) else none

-- the octets of an IPv4 address, the first one not reduced
abbrev pub octet_1 : ℕ → ℕ
octet_1 a = a / 2 ^ 24

abbrev pub octet_2 : ℕ → ℕ
octet_2 a = a / 2 ^ 16 % 2 ^ 8

abbrev pub octet_3 : ℕ → ℕ
octet_3 a = a / 2 ^ 8 % 2 ^ 8

-- the first octet of an IPv6 address
abbrev pub octet_6 : ℕ → ℕ
octet_6 a = a / 2 ^ 120

-- the first 32 bits of one
abbrev pub prefix_32 : ℕ → ℕ
prefix_32 a = a / 2 ^ 96

abbrev pub is_unspecified : IpAddr → Bool
is_unspecified (v4 a) = a == 0
is_unspecified (v6 a) = a == 0

abbrev pub is_multicast : IpAddr → Bool
is_multicast (v4 a) = leb 224 (octet_1 a) && leb (octet_1 a) 239
is_multicast (v6 a) = octet_6 a == 255

abbrev pub is_broadcast : ℕ → Bool
is_broadcast a = a == 2 ^ 32 - 1

-- `is_loopback`
abbrev pub is_loopback_4 : ℕ → Bool
is_loopback_4 a = octet_1 a == 127

abbrev pub is_loopback_6 : ℕ → Bool
is_loopback_6 a = a == 1

-- `is_link_local`: 169.254.0.0/16
abbrev pub is_link_local : ℕ → Bool
is_link_local a = octet_1 a == 169 && octet_2 a == 254

-- `is_unicast_link_local`: fe80::/10
abbrev pub is_unicast_link_local : ℕ → Bool
is_unicast_link_local a = a / 2 ^ 118 == 1018

-- `is_private`: 10/8, 172.16/12, 192.168/16
abbrev pub is_private : ℕ → Bool
is_private a =
    octet_1 a == 10
    || (octet_1 a == 172 && leb 16 (octet_2 a) && leb (octet_2 a) 31)
    || (octet_1 a == 192 && octet_2 a == 168)

-- `is_documentation`: 192.0.2/24, 198.51.100/24, 203.0.113/24
abbrev pub is_documentation : ℕ → Bool
is_documentation a =
    (octet_1 a == 192 && octet_2 a == 0 && octet_3 a == 2)
    || (octet_1 a == 198 && octet_2 a == 51 && octet_3 a == 100)
    || (octet_1 a == 203 && octet_2 a == 0 && octet_3 a == 113)

abbrev pub is_ipv4 : IpAddr → Bool
is_ipv4 (v4 a) = true
is_ipv4 (v6 a) = false

-- Equality of addresses and of sockets.
abbrev pub ip_eq : IpAddr → IpAddr → Bool
ip_eq (v4 a) (v4 b) = a == b
ip_eq (v6 a) (v6 b) = a == b
ip_eq _ _ = false

abbrev pub socket_eq : SocketAddr → SocketAddr → Bool
socket_eq a b =
    ip_eq a.ip b.ip && a.port == b.port && a.flowinfo == b.flowinfo && a.scope_id == b.scope_id
