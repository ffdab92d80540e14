-- ===== src/Service/Paths.antt =====
-- crates/supgang/src/service/path_quality.rs: the watch over the paths to peers. Durations and
-- instants are nanoseconds. What the transport says of a connection is a record; adding to an instant
-- does not overflow. The diagnostics for tests are left out.
pub mod Laws
pub mod Tests
use supgang.Base.{
  ℕ, ◌+◌, ◌-◌, ◌*◌, ◌/◌, ◌%◌, ◌^◌, Bool, true, false, not, ◌&&◌, ◌||◌, List, [], ◌∷◌, Option, none,
  some, any, ltb, leb, ◌==◌, if◌then◌else◌, length, retain, Map, lookup, insert, remove,
  contains_key,
}
use supgang.Network.Address.{IpAddr, v4, v6, SocketAddr, ip_eq}

abbrev pub max_anchor_peers : ℕ
max_anchor_peers = 64

abbrev pub bad_rtt_factor : ℕ
bad_rtt_factor = 3

abbrev pub bad_rtt_floor : ℕ
bad_rtt_floor = 150000000

abbrev pub bad_rtt_sustain : ℕ
bad_rtt_sustain = 8000000000

abbrev pub min_residence : ℕ
min_residence = 5000000000

abbrev pub attempt_cooldown : ℕ
attempt_cooldown = 30000000000

abbrev pub replacement_cooldown : ℕ
replacement_cooldown = 60000000000

abbrev pub recent_admission_window : ℕ
recent_admission_window = 120000000000

abbrev pub black_holes_before_mtu_cap : ℕ
black_holes_before_mtu_cap = 3

-- `Duration::MAX` and `Duration::saturating_mul`
abbrev duration_max : ℕ
duration_max = 18446744073709551615999999999

abbrev pub saturating_mul : ℕ → ℕ → ℕ
saturating_mul a b = if leb (a * b) duration_max then a * b else duration_max

-- the part of `ActiveConnection` that the watch asks for
pub record Connection : Type 0 where
  pub stable_id : ℕ
  pub rtt : ℕ
  pub black_holes_detected : ℕ
  pub remote_address : SocketAddr

pub record Observation : Type 0 where
  pub connection_id : ℕ
  pub joined : ℕ
  pub best_rtt : Option ℕ
  pub bad_since : Option ℕ
  pub next_allowed : ℕ
  pub on_link_bypass_record : Option (ℕ × ℕ)

abbrev pub new_observation : ℕ → ℕ → Bool → Observation
new_observation id now replaced = record {
  connection_id = id;
  joined = now;
  best_rtt = none;
  bad_since = none;
  next_allowed = now + (if replaced then replacement_cooldown else min_residence);
  on_link_bypass_record = none;
}

abbrev pub best_of : Option ℕ → ℕ → ℕ
best_of none rtt = rtt
best_of (some best) rtt = if ltb rtt best then rtt else best

-- `Option::get_or_insert`
abbrev pub get_or_insert : Option ℕ → ℕ → ℕ
get_or_insert none now = now
get_or_insert (some since) now = since

abbrev pub is_bad : ℕ → ℕ → Bool
is_bad rtt best = leb bad_rtt_floor rtt && leb (saturating_mul best bad_rtt_factor) rtt

-- `Observation::sample`: whether the path loses probes, and the observation after it
unfoldable pub sample : Observation → ℕ → ℕ → ℕ → Bool × Observation
sample entry rtt black_holes now =
    let best = best_of entry.best_rtt rtt in
    let sampled : Observation = record entry {
      best_rtt = some best;
      bad_since = if is_bad rtt best then some (get_or_insert entry.bad_since now) else none;
    } in
    (leb black_holes_before_mtu_cap black_holes, if rtt == 0 then entry else sampled)

abbrev pub is_sustained : Option ℕ → ℕ → Bool
is_sustained none now = false
is_sustained (some since) now = leb bad_rtt_sustain (now - since)

-- `Observation::due`
unfoldable pub due : Observation → ℕ → Bool
due entry now =
    leb entry.next_allowed now
    && leb min_residence (now - entry.joined)
    && is_sustained entry.bad_since now

abbrev pub attempted : Observation → ℕ → Observation
attempted entry now = record entry { next_allowed = now + attempt_cooldown }

pub record PathQualityWatch : Type 0 where
  pub paths : Map Observation
  pub recent_admissions : Map (ℕ × ℕ)
  pub capped : Map (SocketAddr × ℕ)

-- `min_by_key` by the instant: the first of the oldest
unfoldable pub oldest_entry : {V : Type 0} → ℕ → ℕ → Map (V × ℕ) → ℕ
oldest_entry key at [] = key
oldest_entry key at ((other, (value, next)) ∷ rest) =
    let later = oldest_entry other next rest in
    let kept = oldest_entry key at rest in if ltb next at then later else kept

unfoldable pub evict_oldest : {V : Type 0} → Map (V × ℕ) → Map (V × ℕ)
evict_oldest [] = []
evict_oldest ((key, (value, at)) ∷ rest) =
    remove (oldest_entry key at rest) ((key, (value, at)) ∷ rest)

-- the bounded insertion of `note_admitted` and of `observe` into `capped`
unfoldable pub insert_bounded : {V : Type 0} → ℕ → V → ℕ → Map (V × ℕ) → Map (V × ℕ)
insert_bounded peer value now entries =
    if leb max_anchor_peers (length entries) && not (contains_key peer entries)
    then insert peer (value, now) (evict_oldest entries)
    else insert peer (value, now) entries

-- `network_changed` on each path
unfoldable pub network_changed : ℕ → Map Observation → Map Observation
network_changed now [] = []
network_changed now ((peer, entry) ∷ rest) =
    (peer, record entry { next_allowed = now; on_link_bypass_record = none })
    ∷ network_changed now rest

abbrev pub is_recent : ℕ → ℕ × (ℕ × ℕ) → Bool
is_recent now entry = leb (now - entry.1.1) recent_admission_window

-- `note_admitted` on the recent admissions
abbrev pub note_admitted : ℕ → ℕ → ℕ → Map (ℕ × ℕ) → Map (ℕ × ℕ)
note_admitted peer id now recent = insert_bounded peer id now recent

unfoldable pub note_all : Map Connection → ℕ → Map (ℕ × ℕ) → Map (ℕ × ℕ)
note_all [] now recent = recent
note_all ((peer, connection) ∷ rest) now recent =
    note_all rest now (note_admitted peer connection.stable_id now recent)

-- the observation that a connection is sampled into: its own, or a new one
abbrev pub observation_of : Option Observation → ℕ → ℕ → Observation
observation_of none id now = new_observation id now false
observation_of (some entry) id now =
    if entry.connection_id == id then entry else new_observation id now true

-- the second loop of `observe`
unfoldable pub sample_all : Map Connection → ℕ → PathQualityWatch → PathQualityWatch
sample_all [] now watch = watch
sample_all ((peer, connection) ∷ rest) now watch =
    let entry = observation_of (lookup peer watch.paths) connection.stable_id now in
    let (holed, sampled) = sample entry connection.rtt connection.black_holes_detected now in
    sample_all rest now (record watch {
      paths = insert peer sampled watch.paths;
      capped =
          if holed
          then insert_bounded peer connection.remote_address now watch.capped
          else watch.capped;
    })

-- `observe`
unfoldable pub observe : Map Connection → ℕ → PathQualityWatch → PathQualityWatch
observe active now watch = sample_all active now (record watch {
  recent_admissions = note_all active now (retain (is_recent now) watch.recent_admissions);
  paths = retain (λ entry. contains_key entry.0 active) watch.paths;
})

abbrev pub is_due : Option Observation → ℕ → Bool
is_due none now = false
is_due (some entry) now = due entry now

abbrev pub wants_replacement : PathQualityWatch → ℕ → ℕ → Bool
wants_replacement watch peer now = is_due (lookup peer watch.paths) now

abbrev pub is_allowed : Option Observation → ℕ → Bool
is_allowed none now = true
is_allowed (some entry) now = leb entry.next_allowed now

abbrev pub allows_replacement : PathQualityWatch → ℕ → ℕ → Bool
allows_replacement watch peer now = is_allowed (lookup peer watch.paths) now

-- `if let Some(entry) = self.paths.get_mut(&peer)`
abbrev pub change :
    ℕ → (Observation → Observation) → Option Observation → Map Observation → Map Observation
change peer f none paths = paths
change peer f (some entry) paths = insert peer (f entry) paths

-- `mark_attempt`
abbrev pub mark_attempt : ℕ → ℕ → Map Observation → Map Observation
mark_attempt peer now paths = change peer (λ entry. attempted entry now) (lookup peer paths) paths

-- `backoff`
abbrev pub backoff : ℕ → ℕ → Map Observation → Map Observation
backoff peer now paths =
    change peer (λ entry. record entry { next_allowed = now + replacement_cooldown })
      (lookup peer paths) paths

-- `materially_better`
abbrev pub materially_better : ℕ → ℕ → Bool
materially_better old new =
    not (old == 0) && not (new == 0) && leb 100000000 (old - new) && leb (saturating_mul new 2) old

abbrev id_of : ℕ × (ℕ × ℕ) → ℕ × ℕ
id_of (peer, (id, at)) = (peer, id)

-- `recent_admissions`
unfoldable pub recent_admissions : Map (ℕ × ℕ) → ℕ → Map ℕ
recent_admissions [] now = []
recent_admissions (entry ∷ rest) now =
    let others = recent_admissions rest now in
    if is_recent now entry then id_of entry ∷ others else others

abbrev is_used : ℕ × ℕ → Option (ℕ × ℕ) → Bool
is_used asked none = false
is_used asked (some used) = used.0 == asked.0 && used.1 == asked.1

abbrev pub is_fresh : Option Observation → ℕ × ℕ → Bool
is_fresh none asked = false
is_fresh (some entry) asked = not (is_used asked entry.on_link_bypass_record)

-- `allows_on_link_bypass`
abbrev pub allows_on_link_bypass : PathQualityWatch → ℕ → ℕ × ℕ → Bool
allows_on_link_bypass watch peer asked = is_fresh (lookup peer watch.paths) asked

abbrev bypassed : ℕ × ℕ → ℕ → Observation → Observation
bypassed asked now entry =
    let until = now + attempt_cooldown in
    record entry {
      on_link_bypass_record = some asked;
      next_allowed = if ltb entry.next_allowed until then until else entry.next_allowed;
    }

-- `mark_on_link_bypass`
abbrev pub mark_on_link_bypass : ℕ → ℕ × ℕ → ℕ → Map Observation → Map Observation
mark_on_link_bypass peer asked now paths =
    change peer (bypassed asked now) (lookup peer paths) paths

abbrev address_of : Option (SocketAddr × ℕ) → Option SocketAddr
address_of none = none
address_of (some entry) = some entry.0

-- `capped_address`
abbrev pub capped_address : PathQualityWatch → ℕ → Option SocketAddr
capped_address watch peer = address_of (lookup peer watch.capped)

-- `IpAddr::to_canonical`
abbrev to_canonical : IpAddr → IpAddr
to_canonical (v4 a) = v4 a
to_canonical (v6 a) = if a / 2 ^ 32 == 65535 then v4 (a % 2 ^ 32) else v6 a

-- `capped_source`
abbrev pub capped_source : PathQualityWatch → SocketAddr → Bool
capped_source watch source =
    any (λ entry. ip_eq (to_canonical entry.1.0.ip) (to_canonical source.ip)) watch.capped
