-- ===== src/Update/Delivery/Outcome.antt =====
-- When a delivery is queued and when it is refused.
use supgang.Base.{
  ℕ, ◌+◌, ◌≡◌, ◌≤◌, ◌<◌, refl, Bool, true, false, not, ◌&&◌, ◌||◌, [], ◌∷◌, any, ok, err, ok_or,
  checked_add, leb, ltb, if◌then◌else◌, length, retain, length-retain, length-append, Bool-cases,
  inl, inr, u64_max, arith,
}
use supgang.Update.Delivery.{
  capacity, invalid_bundle, QueuedPeerDelivery, Deliveries, is_live, is_for, is_not_for, read,
  insert_by_target, sort_by_target, write, queue_peer_delivery, max_queued_deliveries,
  delivery_lifetime_seconds,
}
use supgang.Update.Delivery.Laws.{queued_at_now, next_document}

length-insert :
    (v : QueuedPeerDelivery) (ds : Deliveries) → length (insert_by_target v ds) ≡ length ds + 1
unfolding insert_by_target
length-insert v [] = refl
length-insert v (d ∷ rest) = ground (arith, length-insert v rest)

length-sort : (ds : Deliveries) → length (sort_by_target ds) ≡ length ds
unfolding sort_by_target
length-sort [] = refl
length-sort (d ∷ rest) = ground (arith, length-insert d (sort_by_target rest), length-sort rest)

length-others :
    (target : ℕ) (ds : Deliveries)
    → any (is_for target) ds ≡ true
    → length (retain (is_not_for target) ds) < length ds
length-others target [] h = ground arith
length-others target (d ∷ rest) h = elim (Bool-cases (is_for target d)) [
  | inl y ↦ ground (arith, length-retain (is_not_for target) rest)
  | inr n ↦ ground (arith, length-others target rest)
]

read_few : (ds : Deliveries) → read ds ≡ ok ds → length ds ≤ max_queued_deliveries
unfolding read
read_few ds h = ground arith

-- whether the queue has a place for the target
abbrev pub has_room : ℕ → Deliveries → Bool
has_room target live = ltb (length live) max_queued_deliveries || any (is_for target) live

next_few :
    (document : Deliveries) (target digest now : ℕ)
    → length document ≤ max_queued_deliveries
    → has_room target (retain (is_live now) document) ≡ true
    → length (sort_by_target (next_document document target digest now)) ≤ max_queued_deliveries
next_few document target digest now few room =
    let live = retain (is_live now) document in
    let counted =
      length-append (retain (is_not_for target) live) (queued_at_now target digest now ∷ []) in
    let shorter = length-retain (is_not_for target) live in
    let bound = length-retain (is_live now) document in
    elim (Bool-cases (any (is_for target) live)) [
      | inl y ↦ ground (
        arith,
        few,
        bound,
        counted,
        length-others target live y,
        length-sort (next_document document target digest now),
      )
      | inr n ↦ ground (
        arith,
        few,
        bound,
        shorter,
        counted,
        room,
        length-sort (next_document document target digest now),
      )
    ]

-- When the document can be read, the next one fits its bound as text and the expiry fits 64 bits, a
-- delivery is queued if fewer than four are live or a live one is for its target, and the outcome is
-- the sorted document of the unexpired deliveries with the new one in the place of its target's old
-- one; otherwise it is refused for want of capacity.
pub queue-outcome :
    (fits : Deliveries → Bool) (document : Deliveries) (target digest now : ℕ)
    → read document ≡ ok document
    → fits (sort_by_target (next_document document target digest now)) ≡ true
    → now + delivery_lifetime_seconds ≤ u64_max
    → queue_peer_delivery fits document target digest now ≡ (
        if has_room target (retain (is_live now) document)
        then ok (sort_by_target (next_document document target digest now))
        else err capacity)
unfolding queue_peer_delivery write
queue-outcome fits document target digest now h f bound =
    let live = retain (is_live now) document in
    let few : length document ≤ max_queued_deliveries = read_few document h in
    let expires : ok_or (checked_add now delivery_lifetime_seconds) invalid_bundle
        ≡ ok (now + delivery_lifetime_seconds) =
      ground arith in
    elim (Bool-cases (has_room target live)) [
      | inl y ↦
          let open_to : (leb max_queued_deliveries (length live) && not (any (is_for target) live))
              ≡ false =
            ground (arith, y) in
          let small : ltb max_queued_deliveries
                (length (sort_by_target (next_document document target digest now)))
              ≡ false =
            ground (arith, next_few document target digest now few y) in
          rw (h, open_to, expires, small, f, y) refl
      | inr n ↦
          let closed : (leb max_queued_deliveries (length live) && not (any (is_for target) live))
              ≡ true =
            ground (arith, n) in
          rw (h, closed, n) refl
    ]
