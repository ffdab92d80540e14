-- ===== src/Service/Admission.antt =====
-- crates/supgang/src/service/admission.rs: the table of sources whose handshakes were admitted. An
-- instant counts nanoseconds. An address is keyed by its number, with every IPv4 address before
-- every IPv6 address, as in the derived order.
pub mod Laws
pub mod Tally
pub mod Tests
use supgang.Base.{
  ℕ, ◌+◌, ◌-◌, ◌/◌, ◌%◌, ◌^◌, Bool, true, false, List, [], ◌∷◌, Option, none, some, ltb, leb, ◌==◌,
  if◌then◌else◌, length, Map, lookup, insert, remove,
}

pub data IpAddr : Type 0 where
  v4 : ℕ → IpAddr
  v6 : ℕ → IpAddr

abbrev pub address_key : IpAddr → ℕ
address_key (v4 a) = a
address_key (v6 a) = 2 ^ 32 + a

-- `fn canonical_source`: a mapped address is its IPv4 address, another keeps its first 64 bits
unfoldable pub canonical_source : IpAddr → IpAddr
canonical_source (v4 a) = v4 a
canonical_source (v6 a) = if a / 2 ^ 32 == 65535 then v4 (a % 2 ^ 32) else v6 (a - a % 2 ^ 64)

abbrev pub max_sessions : ℕ
max_sessions = 1

abbrev pub max_authenticated_sessions : ℕ
max_authenticated_sessions = 2

abbrev pub max_tracked_sources : ℕ
max_tracked_sources = 64

abbrev pub source_window : ℕ
source_window = 30000000000

pub record SourceWindow : Type 0 where
  pub started : ℕ
  pub admitted : ℕ
  pub authenticated : Bool

abbrev pub Sources : Type 0
Sources = Map SourceWindow

abbrev pub source_key : IpAddr → ℕ
source_key address = address_key (canonical_source address)

abbrev pub is_open : ℕ → SourceWindow → Bool
is_open now window = ltb (now - window.started) source_window

-- `retain` on the table
unfoldable pub retain_open : ℕ → Sources → Sources
retain_open now [] = []
retain_open now ((key, window) ∷ rest) =
    let others = retain_open now rest in
    if is_open now window then (key, window) ∷ others else others

-- `min_by_key` by the start: the first of the oldest
unfoldable pub oldest_of : ℕ → SourceWindow → Sources → ℕ
oldest_of key window [] = key
oldest_of key window ((other, next) ∷ rest) =
    let later = oldest_of other next rest in
    let kept = oldest_of key window rest in if ltb next.started window.started then later else kept

abbrev pub limit : Bool → ℕ
limit true = max_authenticated_sessions
limit false = max_sessions

-- `u8::saturating_add`
abbrev pub one_more : ℕ → ℕ
one_more n = if ltb n 255 then n + 1 else 255

-- room for one more source: the oldest one goes
unfoldable pub make_room : Sources → Sources
make_room [] = []
make_room ((key, window) ∷ rest) =
    if leb max_tracked_sources (length ((key, window) ∷ rest))
    then remove (oldest_of key window rest) ((key, window) ∷ rest)
    else (key, window) ∷ rest

abbrev pub opened : ℕ → SourceWindow
opened now = record { started = now; admitted = 1; authenticated = false }

abbrev pub counted : SourceWindow → SourceWindow
counted window = record window { admitted = one_more window.admitted }

-- `allow` on the sources whose window is open
unfoldable pub admit : ℕ → ℕ → Sources → Option SourceWindow → Bool × Sources
admit key now sources none = (true, insert key (opened now) (make_room sources))
admit key now sources (some window) =
    if leb (limit window.authenticated) window.admitted
    then (false, sources)
    else (true, insert key (counted window) sources)

-- `InboundAdmission::allow`
unfoldable pub allow : IpAddr → ℕ → Sources → Bool × Sources
allow address now sources =
    let open_sources = retain_open now sources in
    admit (source_key address) now open_sources (lookup (source_key address) open_sources)

abbrev pub vouched : SourceWindow → SourceWindow
vouched window = record window { authenticated = true }

-- `InboundAdmission::note_authenticated`
unfoldable pub note_authenticated : IpAddr → ℕ → Sources → Sources
note_authenticated address now sources = elim (lookup (source_key address) sources) [
  | none ↦ sources
  | some window ↦
      if is_open now window then insert (source_key address) (vouched window) sources else sources
]

pub data Event : Type 0 where
  attempt : IpAddr → ℕ → Event
  authenticated_by : IpAddr → ℕ → Event

abbrev pub handle : Event → Sources → Sources
handle (attempt address now) sources = (allow address now sources).1
handle (authenticated_by address now) sources = note_authenticated address now sources

-- the table after a sequence of events, from `InboundAdmission::new`
unfoldable pub run : List Event → Sources → Sources
run [] sources = sources
run (e ∷ es) sources = run es (handle e sources)
