-- ===== src/Service/Retry/Laws.antt =====
-- Retry rounds are shared by a hive, stay within their budget and reach every address.
use native.Mathlib.Nat.{mod-lt, mod-eq_of_lt, mod-add-mod, add-mod_right, mod-add-div', div-le_self}
use supgang.Base.{
  ℕ, zero, suc, ◌+◌, ◌-◌, ◌*◌, ◌/◌, ◌%◌, ◌≤◌, ◌<◌, ◌≡◌, ◌∙◌, ◌⊎◌, refl, sym, Bool, true, List, [],
  ◌∷◌, ◌++◌, Option, none, some, ltb, leb, ◌==◌, if◌then◌else◌, length, get_elem?, any, u64_max,
  leb→le, Bool-cases, inl, inr, arith, length-append, ◌||◌,
}
use supgang.Network.Address.{SocketAddr}
use supgang.Service.Retry.{
  other_family, tail_of, picks, rotated, candidate_batch, at_least_one, consider,
  aligned_retry_delay, clamp, max_dial_candidates_per_round,
}

-- where a delay ends that completes the phase to the offset of this period or of the next one
lands :
    (period offset delay now : ℕ)
    → offset < period
    → (now % period + delay ≡ offset) ⊎ (now % period + delay ≡ offset + period)
    → (now + delay) % period ≡ offset
lands period offset delay now small (inl sum) =
    sym (mod-add-mod now period delay) ∙ rw sum (mod-eq_of_lt small)
lands period offset delay now small (inr sum) =
    sym (mod-add-mod now period delay) ∙ rw sum (add-mod_right offset period ∙ mod-eq_of_lt small)

completed :
    (period offset phase : ℕ)
    → offset < period
    → phase < period
    → period ≤ u64_max
    → (delay : ℕ) × (at_least_one
          (clamp (if ltb phase offset then offset - phase else period - (phase - offset)))
        ≡ delay)
      × (1 ≤ delay)
      × (delay ≤ period)
      × ((phase + delay ≡ offset) ⊎ (phase + delay ≡ offset + period))
completed period offset phase o p high = elim (Bool-cases (ltb phase offset)) [
  | inl y ↦ (offset - phase, ground arith, ground arith, ground arith, inl (ground arith))
  | inr n ↦
      (period - (phase - offset), ground arith, ground arith, ground arith, inr (ground arith))
]

-- The delay of a retry is at least a millisecond and at most the interval, and it ends on the instant
-- whose place in the interval is the hive's own, whatever the clock of the device says now: all
-- members of a hive retry together.
pub aligned_retry_delay-lands :
    (seed now interval : ℕ)
    → 1 ≤ interval
    → interval ≤ u64_max
    → (1 ≤ aligned_retry_delay seed now interval)
      × (aligned_retry_delay seed now interval ≤ interval)
      × ((now + aligned_retry_delay seed now interval) % interval ≡ seed % interval)
unfolding aligned_retry_delay
aligned_retry_delay-lands seed now interval low high =
    let o : seed % interval < interval = mod-lt seed low in
    let p : now % interval < interval = mod-lt now low in
    let (delay, q, least, most, sum) =
      completed interval (seed % interval) (now % interval) o p high in
    let period : at_least_one interval ≡ interval = ground arith in
    let whole : aligned_retry_delay seed now interval ≡ delay =
      rw (aligned_retry_delay, period) q in
    rw whole (least, most, lands interval (seed % interval) delay now o sum)

module _ (p : SocketAddr → Bool) where
  consider-any :
      (found : Option SocketAddr) (picked : List SocketAddr)
      → any p picked ≡ true
      → any p (consider found picked) ≡ true
  consider-any none picked h = h
  consider-any (some address) picked h = ground arith

  -- a window of a list holds what stands in it
  window-holds :
      (slots position i : ℕ) (tail : List SocketAddr) (address : SocketAddr)
      → position ≤ i
      → i < position + slots
      → i < length tail
      → get_elem? tail i ≡ some address
      → p address ≡ true
      → any p (picks slots position tail) ≡ true
  unfolding picks
  window-holds zero position i tail address low high inside e h = ground arith
  window-holds (suc slots) position i tail address low high inside e h =
      elim (Bool-cases (position == i)) [
        | inl here ↦
            let at : position ≡ i = ground arith in
            let small : position % length tail ≡ i = mod-eq_of_lt (rw at inside) ∙ at in
            rw (small, e, h) refl
        | inr later ↦
            consider-any (get_elem? tail (position % length tail)) (picks slots (position + 1) tail)
              (window-holds slots (position + 1) i tail address (ground arith) (ground arith) inside
                e h)
      ]

  index_of :
      (tail : List SocketAddr)
      → any p tail ≡ true
      → (i : ℕ) × (address : SocketAddr) × (i < length tail)
        × (get_elem? tail i ≡ some address)
        × (p address ≡ true)
  index_of [] h = ground arith
  index_of (first ∷ rest) h = elim (Bool-cases (p first)) [
    | inl y ↦ (0, first, omega arith, refl, y)
    | inr n ↦
        let (i, address, inside, e, y) = index_of rest (ground arith) in
        (suc i, address, omega (arith, inside), e, y)
  ]

  rotated-covers :
      (slots : ℕ) (tail : List SocketAddr)
      → 1 ≤ slots
      → any p tail ≡ true
      → (cycle : ℕ) × (any p (rotated slots cycle tail) ≡ true)
  unfolding rotated
  rotated-covers slots tail low h = elim (Bool-cases (leb (length tail) slots)) [
    | inl short ↦ (0, rw short h)
    | inr long ↦
        let (i, address, inside, e, y) = index_of tail h in
        let cycle : ℕ = i / slots in
        let sum : i % slots + i / slots * slots ≡ i = mod-add-div' i slots in
        let within : i % slots < slots = mod-lt i low in
        let below : i / slots ≤ i = div-le_self i slots in
        let first : i / slots % length tail ≡ i / slots =
          mod-eq_of_lt (omega (arith, below, inside)) in
        let second : i / slots * slots % length tail ≡ i / slots * slots =
          mod-eq_of_lt (omega (arith, sum, inside)) in
        (
          i / slots,
          rw (long, first, second)
              (window-holds slots (i / slots * slots) i tail address (omega (arith, sum))
                (omega (arith, sum, within)) inside e y),
        )
  ]

  split_any :
      (first : SocketAddr) (rest : List SocketAddr)
      → any p rest ≡ (any p (other_family first rest) || any p (tail_of first rest))
  unfolding other_family tail_of
  split_any first [] = refl
  split_any first (address ∷ rest) = ground (arith, split_any first rest)

  any-append : (xs ys : List SocketAddr) → any p (xs ++ ys) ≡ (any p xs || any p ys)
  any-append [] ys = refl
  any-append (a ∷ xs) ys = ground (arith, any-append xs ys)

length-other_family :
    (first : SocketAddr) (rest : List SocketAddr) → length (other_family first rest) ≤ 1
unfolding other_family
length-other_family first [] = omega arith
length-other_family first (address ∷ rest) = ground (arith, length-other_family first rest)

length-consider :
    (found : Option SocketAddr) (picked : List SocketAddr)
    → length (consider found picked) ≤ suc (length picked)
length-consider none picked = omega arith
length-consider (some address) picked = omega arith

length-picks :
    (slots position : ℕ) (tail : List SocketAddr) → length (picks slots position tail) ≤ slots
unfolding picks
length-picks zero position tail = omega arith
length-picks (suc slots) position tail = omega (
  arith,
  length-consider (get_elem? tail (position % length tail)) (picks slots (position + 1) tail),
  length-picks slots (position + 1) tail,
)

length-rotated :
    (slots cycle : ℕ) (tail : List SocketAddr) → length (rotated slots cycle tail) ≤ slots
unfolding rotated
length-rotated slots cycle tail = elim (Bool-cases (leb (length tail) slots)) [
  | inl short ↦ rw short (leb→le (length tail) slots short)
  | inr long ↦ rw long (length-picks slots (cycle % length tail * slots % length tail) tail)
]

batch_bounded :
    (first : SocketAddr) (rest : List SocketAddr) (cycle : ℕ)
    → length (candidate_batch (first ∷ rest) cycle) ≤ max_dial_candidates_per_round
unfolding candidate_batch
batch_bounded first rest cycle =
    let other = other_family first rest in
    let slots = max_dial_candidates_per_round - suc (length other) in
    omega (
      arith,
      length-append other (rotated slots cycle (tail_of first rest)),
      length-other_family first rest,
      length-rotated slots cycle (tail_of first rest),
    )

-- A batch has at most four addresses, and what some address of a peer satisfies is satisfied in the
-- batch of some cycle: every address is dialed in time.
pub candidate_batch-covers :
    (first : SocketAddr) (rest : List SocketAddr) (p : SocketAddr → Bool)
    → any p (first ∷ rest) ≡ true
    → ((cycle : ℕ) → length (candidate_batch (first ∷ rest) cycle) ≤ max_dial_candidates_per_round)
      × ((cycle : ℕ) × (any p (candidate_batch (first ∷ rest) cycle) ≡ true))
unfolding candidate_batch
candidate_batch-covers first rest p h =
    let other = other_family first rest in
    let slots = max_dial_candidates_per_round - suc (length other) in
    let tail = tail_of first rest in
    let room : 1 ≤ slots = omega (arith, length-other_family first rest) in
    let found : (cycle : ℕ) × (any p (candidate_batch (first ∷ rest) cycle) ≡ true) =
      elim (Bool-cases (any p tail)) [
        | inl y ↦
            let (cycle, met) = rotated-covers p slots tail room y in
            (cycle, ground (arith, met, any-append p other (rotated slots cycle tail)))
        | inr n ↦ (
          0,
          ground (arith, h, n, split_any p first rest, any-append p other (rotated slots 0 tail)),
        )
      ] in
    (λ cycle. batch_bounded first rest cycle, found)
