-- ===== src/Hive/Record.antt =====
-- crates/supgang/src/record.rs: endpoint records, their shape, their freshness and who may sign them.
-- A text is the list of its bytes; the texts that `PeerName::new` of profile.rs and `ServiceName::new`
-- accept are the ones `peer_name` and `service_name` return.
pub mod Sort
use supgang.Base.{
  ℕ, ◌+◌, ◌-◌, ◌/◌, ◌^◌, Bool, true, false, not, ◌&&◌, ◌||◌, List, [], ◌∷◌, ◌++◌, map, all, Option,
  none, some, Result, ok, err, ◌>>=◌, ◌>>◌, refuse_if, ltb, leb, ◌==◌, if◌then◌else◌, length,
  list_lt, list_eq, list_eq_iff, ◌≡◌, refl, arith, Bytes, ascii, is_some, get_last_or,
  saturating_add,
}
use supgang.Codec.{is_empty}
use supgang.Network.Address.{IpAddr, v4, v6}
use supgang.Network.Candidate.{EndpointCandidate, kind_byte, max_candidates}

abbrev pub endpoint_record_version : ℕ
endpoint_record_version = 3

abbrev pub max_service_adverts : ℕ
max_service_adverts = 4

abbrev pub max_service_name_bytes : ℕ
max_service_name_bytes = 16

abbrev pub max_record_lifetime_seconds : ℕ
max_record_lifetime_seconds = 604800

abbrev pub max_future_skew_seconds : ℕ
max_future_skew_seconds = 300

pub data RecordError : Type 0 where
  unsupported_version invalid_service_name invalid_service_port invalid_key_pin : RecordError
  services_not_supported too_many_services services_not_canonical : RecordError
  invalid_display_name zero_sequence invalid_lifetime lifetime_too_long : RecordError
  too_many_candidates candidates_not_canonical unknown_capability expired : RecordError
  issued_in_future signer_mismatch invalid_signature encoding membership : RecordError
  membership_mismatch outlives_membership unauthorized_capability : RecordError

abbrev is_lowercase : ℕ → Bool
is_lowercase byte = leb 97 byte && leb byte 122

abbrev is_digit : ℕ → Bool
is_digit byte = leb 48 byte && leb byte 57

abbrev is_uppercase : ℕ → Bool
is_uppercase byte = leb 65 byte && leb byte 90

abbrev pub portable : ℕ → Bool
portable byte = is_lowercase byte || is_digit byte || byte == 45

abbrev starts_with : ℕ → Bytes → Bool
starts_with byte [] = false
starts_with byte (first ∷ rest) = first == byte

-- `ServiceName::new`
unfoldable pub service_name : Bytes → Result RecordError Bytes
service_name value =
    if is_empty value
      || ltb max_service_name_bytes (length value)
      || starts_with 45 value
      || not (all portable value)
    then err invalid_service_name
    else ok value

-- `is_name_byte` of profile.rs
abbrev is_name_byte : ℕ → Bool
is_name_byte byte =
    is_lowercase byte
    || is_uppercase byte
    || is_digit byte
    || byte == 32
    || byte == 46
    || byte == 95
    || byte == 45

-- `PeerName::new`; of the bytes that it allows, `trim` takes the space off
unfoldable pub peer_name : Bytes → Option Bytes
peer_name value =
    if is_empty value
      || ltb 63 (length value)
      || starts_with 32 value
      || get_last_or value 0 == 32
      || not (all is_name_byte value)
    then none
    else some value

pub record ServiceAdvert : Type 0 where
  pub name : Bytes
  pub port : ℕ
  pub key_pin : ℕ

-- `ServiceAdvert::validate`
unfoldable pub validate_advert : ServiceAdvert → Result RecordError (Unit {0})
validate_advert service = refuse_if (service.port == 0) invalid_service_port

abbrev name_lt : ServiceAdvert → ServiceAdvert → Bool
name_lt first second = list_lt first.name second.name

-- `windows(2).all(first < second)`
unfoldable pub strictly_sorted : {A : Type 0} → (A → A → Bool) → List A → Bool
strictly_sorted lt [] = true
strictly_sorted lt (first ∷ []) = true
strictly_sorted lt (first ∷ second ∷ rest) = lt first second && strictly_sorted lt (second ∷ rest)

unfoldable pub try_for_each : List ServiceAdvert → Result RecordError (Unit {0})
try_for_each [] = ok tt
try_for_each (service ∷ rest) = validate_advert service >> try_for_each rest

unfoldable pub validate_services : List ServiceAdvert → Result RecordError (Unit {0})
validate_services services = do
  refuse_if (ltb max_service_adverts (length services)) too_many_services
  refuse_if (not (strictly_sorted name_lt services)) services_not_canonical
  try_for_each services

-- `Capabilities::from_bits`: the capabilities are the bits 0 and 1
unfoldable pub capabilities_from_bits : ℕ → Result RecordError ℕ
capabilities_from_bits bits = if bits / 2 ^ 2 == 0 then ok bits else err unknown_capability

pub record EndpointRecord : Type 0 where
  pub protocol_version : ℕ
  pub hive_id : ℕ
  pub node_id : ℕ
  pub display_name : Option Bytes
  pub transport_key_id : ℕ
  pub generation : ℕ
  pub sequence : ℕ
  pub issued_at : ℕ
  pub expires_at : ℕ
  pub candidates : List EndpointCandidate
  pub capabilities : ℕ
  pub services : List ServiceAdvert

pub record SignedEndpointRecord : Type 0 where
  pub content : EndpointRecord
  pub signature : Bytes

-- the derived order of candidates: kind, transport, then the socket by address, port,
-- flow label and scope, every IPv4 one before every IPv6 one
abbrev ip_words : IpAddr → Bytes
ip_words (v4 a) = 0 ∷ a ∷ []
ip_words (v6 a) = 1 ∷ a ∷ []

abbrev pub candidate_words : EndpointCandidate → Bytes
candidate_words c =
    kind_byte c.kind
    ∷ (ip_words c.address.ip ++ (c.address.port ∷ c.address.flowinfo ∷ c.address.scope_id ∷ []))

abbrev pub candidate_lt : EndpointCandidate → EndpointCandidate → Bool
candidate_lt first second = list_lt (candidate_words first) (candidate_words second)

-- the derived order of services: name, port, pin; the zero puts a name before those that it begins
abbrev after_zero : ℕ → ℕ
after_zero byte = byte + 1

abbrev pub service_words : ServiceAdvert → Bytes
service_words s = map after_zero s.name ++ (0 ∷ s.port ∷ s.key_pin ∷ [])

abbrev same_truth : Bool → Bool → Bool
same_truth true other = other
same_truth false other = not other

-- `EndpointRecord::validate_shape`
unfoldable pub validate_shape : EndpointRecord → Result RecordError (Unit {0})
validate_shape r = do
  refuse_if
      (not (
        r.protocol_version == 1
        || r.protocol_version == 2
        || r.protocol_version == endpoint_record_version))
      unsupported_version
  refuse_if (not (same_truth (r.protocol_version == 1) (not (is_some r.display_name))))
      invalid_display_name
  refuse_if (ltb r.protocol_version endpoint_record_version && not (is_empty r.services))
      services_not_supported
  validate_services r.services
  refuse_if (r.sequence == 0) zero_sequence
  refuse_if (leb r.expires_at r.issued_at) invalid_lifetime
  refuse_if (ltb max_record_lifetime_seconds (r.expires_at - r.issued_at)) lifetime_too_long
  refuse_if (ltb max_candidates (length r.candidates)) too_many_candidates
  refuse_if (not (strictly_sorted candidate_lt r.candidates)) candidates_not_canonical
  known ← capabilities_from_bits r.capabilities
  ok tt

-- `EndpointRecord::validate_time`
unfoldable pub validate_time : EndpointRecord → ℕ → Result RecordError (Unit {0})
validate_time r now = do
  refuse_if (ltb r.expires_at now) expired
  refuse_if (ltb (saturating_add now max_future_skew_seconds) r.issued_at) issued_in_future

abbrev domain_of : Bytes → Bytes
domain_of text = text ++ (0 ∷ [])

-- `fn signature_domain`
unfoldable pub signature_domain : ℕ → Result RecordError Bytes
signature_domain version =
    if version == 1
    then ok (domain_of (ascii "supgang/endpoint-record/v1"))
    else if version == 2
    then ok (domain_of (ascii "supgang/endpoint-record/v2"))
    else if version == 3
    then ok (domain_of (ascii "supgang/endpoint-record/v3"))
    else err unsupported_version

-- the derived equality of records
abbrev option_eq : Option Bytes → Option Bytes → Bool
option_eq none none = true
option_eq (some a) (some b) = list_eq a b
option_eq _ _ = false

abbrev pub all_eq : {A : Type 0} → (A → Bytes) → List A → List A → Bool
all_eq words [] [] = true
all_eq words (a ∷ more) (b ∷ others) = list_eq (words a) (words b) && all_eq words more others
all_eq words _ _ = false

unfoldable pub record_eq : EndpointRecord → EndpointRecord → Bool
record_eq a b =
    a.protocol_version == b.protocol_version
    && a.hive_id == b.hive_id
    && a.node_id == b.node_id
    && option_eq a.display_name b.display_name
    && a.transport_key_id == b.transport_key_id
    && a.generation == b.generation
    && a.sequence == b.sequence
    && a.issued_at == b.issued_at
    && a.expires_at == b.expires_at
    && all_eq candidate_words a.candidates b.candidates
    && a.capabilities == b.capabilities
    && all_eq service_words a.services b.services

unfoldable pub signed_eq : SignedEndpointRecord → SignedEndpointRecord → Bool
signed_eq a b = record_eq a.content b.content && list_eq a.signature b.signature

list_eq_refl : (xs : Bytes) → list_eq xs xs ≡ true
list_eq_refl xs = (list_eq_iff xs xs).1 refl

option_eq_refl : (o : Option Bytes) → option_eq o o ≡ true
option_eq_refl none = refl
option_eq_refl (some a) = list_eq_refl a

all_eq_refl : {A : Type 0} (words : A → Bytes) (xs : List A) → all_eq words xs xs ≡ true
all_eq_refl words [] = refl
all_eq_refl words (a ∷ more) = rw (list_eq_refl (words a), all_eq_refl words more) refl

pub signed_eq_refl : (a : SignedEndpointRecord) → signed_eq a a ≡ true
unfolding signed_eq record_eq
signed_eq_refl a = ground (
  arith,
  list_eq_refl a.signature,
  option_eq_refl a.content.display_name,
  all_eq_refl candidate_words a.content.candidates,
  all_eq_refl service_words a.content.services,
)
