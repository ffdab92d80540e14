-- ===== src/Network/Tunnel.antt =====
-- crates/supgang/src/tunnel_policy.rs: the policy on local services that peers may reach, and the padded
-- name on the wire. The file that keeps the policy is not modelled.
pub mod Laws
pub mod Tests
use supgang.Base.{
  ℕ, zero, suc, ◌-◌, Bool, true, false, not, ◌&&◌, ◌||◌, List, [], ◌∷◌, ◌++◌, any, all, Option,
  none, some, Result, ok, err, ◌>>=◌, ◌>>◌, refuse_if, ltb, leb, ◌==◌, if◌then◌else◌, length,
  list_eq, Bytes, retain, is_ok,
}
use supgang.Codec.{map_err}
use supgang.Network.Address.{SocketAddr, socket_eq, is_ipv4}
use supgang.Network.Candidate.{CandidateError, mapped, quic_v1, new}
use supgang.Hive.Record.{RecordError, service_name, max_service_name_bytes}

abbrev pub max_per_peer : ℕ
max_per_peer = 64

abbrev pub max_total : ℕ
max_total = 128

-- the messages of the code
pub data TunnelError : Type 0 where
  out_of_bounds invalid_name zero_port_or_duplicate not_global not_distinct_ipv4 bad_padding :
      TunnelError

pub record Exposure : Type 0 where
  pub name : Bytes
  pub port : ℕ

pub record TunnelPolicy : Type 0 where
  pub version : ℕ
  pub per_peer : ℕ
  pub total : ℕ
  pub idle_seconds : ℕ
  pub exposures : List Exposure
  pub mapped_sockets : List SocketAddr

-- `TunnelPolicy::default`
abbrev pub default_policy : TunnelPolicy
default_policy = record {
  version = 1;
  per_peer = 4;
  total = 16;
  idle_seconds = 7200;
  exposures = [];
  mapped_sockets = [];
}

abbrev is_within : ℕ → ℕ → ℕ → Bool
is_within low high n = leb low n && leb n high

abbrev pub as_name : RecordError → TunnelError
as_name e = invalid_name

abbrev as_global : CandidateError → TunnelError
as_global e = not_global

-- the loop over the exposures, with the names seen so far
unfoldable pub validate_exposures : List Bytes → List Exposure → Result TunnelError (Unit {0})
validate_exposures names [] = ok tt
validate_exposures names (exposure ∷ rest) = do
  known ← map_err as_name (service_name exposure.name)
  refuse_if (exposure.port == 0 || any (list_eq exposure.name) names) zero_port_or_duplicate
  validate_exposures (exposure.name ∷ names) rest

-- the loop over the mapped sockets, with the ones seen so far
unfoldable pub validate_mapped : List SocketAddr → List SocketAddr → Result TunnelError (Unit {0})
validate_mapped addresses [] = ok tt
validate_mapped addresses (address ∷ rest) = do
  offered ← map_err as_global (new mapped quic_v1 address)
  refuse_if (not (is_ipv4 address.ip) || any (socket_eq address) addresses) not_distinct_ipv4
  validate_mapped (address ∷ addresses) rest

-- `TunnelPolicy::validate`
unfoldable pub validate_policy : TunnelPolicy → Result TunnelError (Unit {0})
validate_policy p = do
  refuse_if
      (not (p.version == 1)
        || not (is_within 1 max_per_peer p.per_peer)
        || not (is_within 1 max_total p.total)
        || not (is_within 60 86400 p.idle_seconds)
        || ltb 4 (length p.exposures)
        || ltb 4 (length p.mapped_sockets))
      out_of_bounds
  validate_exposures [] p.exposures
  validate_mapped [] p.mapped_sockets

-- `find` and `map` in `TunnelPolicy::port`
unfoldable pub find_port : Bytes → List Exposure → Option ℕ
find_port name [] = none
find_port name (entry ∷ rest) =
    if list_eq entry.name name then some entry.port else find_port name rest

-- `TunnelPolicy::port`
abbrev pub port : TunnelPolicy → Bytes → Option ℕ
port p name = find_port name p.exposures

abbrev pub has_other_name : Bytes → Exposure → Bool
has_other_name name entry = not (list_eq entry.name name)

abbrev pub pushed : Bytes → ℕ → List Exposure
pushed name port_number =
    if port_number == 0 then [] else record { name = name; port = port_number } ∷ []

-- the policy that `TunnelPolicy::set` leaves, whether it is valid or not
unfoldable pub set_exposures : TunnelPolicy → Bytes → ℕ → TunnelPolicy
set_exposures p name port_number = record p {
  exposures = retain (has_other_name name) p.exposures ++ pushed name port_number;
}

-- `TunnelPolicy::set`
unfoldable pub set : TunnelPolicy → Bytes → ℕ → Result TunnelError (Unit {0}) × TunnelPolicy
set p name port_number =
    (validate_policy (set_exposures p name port_number), set_exposures p name port_number)

abbrev zeros : ℕ → Bytes
zeros zero = []
zeros (suc n) = 0 ∷ zeros n

-- `fn encoded_name`: sixteen bytes, of which the name overwrites the first ones
unfoldable pub pad_name : ℕ → Bytes → Bytes
pad_name zero name = []
pad_name (suc width) [] = 0 ∷ pad_name width []
pad_name (suc width) (byte ∷ rest) = byte ∷ pad_name width rest

unfoldable pub encoded_name : Bytes → Bytes
encoded_name name = pad_name 16 name

-- the bytes before the first zero, and whether all behind them are zero
unfoldable pub until_zero : Bytes → Bytes
until_zero [] = []
until_zero (byte ∷ rest) = let kept = until_zero rest in if byte == 0 then [] else byte ∷ kept

abbrev pub is_zero : ℕ → Bool
is_zero byte = byte == 0

unfoldable pub zero_padded : Bytes → Bool
zero_padded [] = true
zero_padded (byte ∷ rest) =
    let later = zero_padded rest in if byte == 0 then all is_zero rest else later

-- `fn decoded_name`; a text of portable bytes is valid UTF-8, and another one is no service name
unfoldable pub decoded_name : Bytes → Result TunnelError Bytes
decoded_name bytes = do
  refuse_if (not (zero_padded bytes)) bad_padding
  map_err as_name (service_name (until_zero bytes))
