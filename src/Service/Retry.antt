-- ===== src/Service/Retry.antt =====
-- crates/supgang/src/service/retry_schedule.rs: which addresses a retry round dials, and when the next
-- round of a hive is. A duration counts milliseconds; the seed is the first eight bytes of the hive.
pub mod Laws
pub mod Tests
use supgang.Base.{
  ℕ, zero, suc, ◌+◌, ◌-◌, ◌*◌, ◌/◌, ◌%◌, ◌^◌, Bool, true, false, not, List, [], ◌∷◌, ◌++◌, Option,
  none, some, ltb, leb, ◌==◌, if◌then◌else◌, length, get_elem?, u64_max,
}
use supgang.Network.Address.{IpAddr, v4, v6, SocketAddr, is_ipv4}

-- `MAX_DIAL_CANDIDATES_PER_ROUND` of network.rs
abbrev pub max_dial_candidates_per_round : ℕ
max_dial_candidates_per_round = 4

abbrev same_truth : Bool → Bool → Bool
same_truth true other = other
same_truth false other = not other

abbrev pub same_family : SocketAddr → SocketAddr → Bool
same_family a b = same_truth (is_ipv4 a.ip) (is_ipv4 b.ip)

-- the first address of another family than this one
unfoldable pub other_family : SocketAddr → List SocketAddr → List SocketAddr
other_family first [] = []
other_family first (address ∷ rest) =
    let later = other_family first rest in if same_family first address then later else address ∷ []

-- the addresses behind the first, without that one
unfoldable pub tail_of : SocketAddr → List SocketAddr → List SocketAddr
tail_of first [] = []
tail_of first (address ∷ rest) =
    let kept = tail_of first rest in if same_family first address then address ∷ kept else rest

abbrev pub consider : Option SocketAddr → List SocketAddr → List SocketAddr
consider none picked = picked
consider (some address) picked = address ∷ picked

-- `(0..slots).filter_map(|index| tail.get((offset + index) % remaining))`
unfoldable pub picks : ℕ → ℕ → List SocketAddr → List SocketAddr
picks zero position tail = []
picks (suc slots) position tail =
    consider (get_elem? tail (position % length tail)) (picks slots (position + 1) tail)

-- the rest of a batch: all of the tail, or a window that rotates with the cycle
unfoldable pub rotated : ℕ → ℕ → List SocketAddr → List SocketAddr
rotated slots cycle tail =
    if leb (length tail) slots
    then tail
    else picks slots (cycle % length tail * slots % length tail) tail

unfoldable pub candidate_batch : List SocketAddr → ℕ → List SocketAddr
candidate_batch [] cycle = []
candidate_batch (first ∷ rest) cycle =
    let other = other_family first rest in
    (first ∷ other)
    ++ rotated (max_dial_candidates_per_round - length (first ∷ other)) cycle (tail_of first rest)

-- `as_millis().max(1)`
abbrev pub at_least_one : ℕ → ℕ
at_least_one n = if n == 0 then 1 else n

abbrev pub clamp : ℕ → ℕ
clamp delay = if leb delay u64_max then delay else u64_max

-- `fn aligned_retry_delay` on the offset seed of the hive
unfoldable pub aligned_retry_delay : ℕ → ℕ → ℕ → ℕ
aligned_retry_delay seed now interval =
    let period = at_least_one interval in
    let offset = seed % period in
    let phase = now % period in
    at_least_one (clamp (if ltb phase offset then offset - phase else period - (phase - offset)))

-- `fn hive_offset_seed` of a hive identifier of 32 bytes
unfoldable pub hive_offset_seed : ℕ → ℕ
hive_offset_seed hive = hive / 2 ^ 192

-- `fn retry_epoch`
unfoldable pub retry_epoch : ℕ → ℕ → ℕ
retry_epoch now interval = clamp (now / at_least_one interval)
