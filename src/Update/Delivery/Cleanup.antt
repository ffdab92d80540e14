-- ===== src/Update/Delivery/Cleanup.antt =====
-- What clearing the queue leaves.
use supgang.Base.{
  ℕ, ◌≡◌, sym, ap, ◌≤◌, refl, Bool, true, false, ◌&&◌, [], ◌∷◌, any, ok, ltb, ◌==◌, if◌then◌else◌,
  length, retain, retain_cons, length-retain, Bool-cases, inl, inr, arith,
}
use supgang.Update.Delivery.{
  QueuedPeerDelivery, Deliveries, is_live, is_unfinished, check_deliveries, read, write,
  prune_expired_peer_deliveries, finish_peer_delivery, max_queued_deliveries, load_peer_deliveries,
  LoadedPeerDeliveries, protected_outbox_digests,
}
use supgang.Update.Delivery.Laws.{check-IsApart, IsApart-check, retain-IsApart, none_seen}

module _ (q : QueuedPeerDelivery → Bool) where
  retain_whole : (ds : Deliveries) → length (retain q ds) ≡ length ds → retain q ds ≡ ds
  retain_whole [] h = refl
  retain_whole (d ∷ rest) h = ground (arith, length-retain q rest, retain_whole rest)

  any-retain_both :
      (p : QueuedPeerDelivery → Bool) (ds : Deliveries)
      → any p (retain q ds) ≡ any (λ d. p d && q d) ds
  any-retain_both p [] = refl
  any-retain_both p (d ∷ rest) = ground (arith, any-retain_both p rest)

  retain_twice : (ds : Deliveries) → retain q (retain q ds) ≡ retain q ds
  retain_twice [] = refl
  retain_twice (d ∷ rest) = twice (q d) refl (retain_twice rest)
    where
      twice :
          (b : Bool)
          → q d ≡ b
          → retain q (retain q rest) ≡ retain q rest
          → retain q (retain_cons b d (retain q rest)) ≡ retain_cons b d (retain q rest)
      twice true y h = rw y (ap (λ ds. d ∷ ds) h)
      twice false n h = h

  small :
      (ds : Deliveries) → read ds ≡ ok ds → ltb max_queued_deliveries (length (retain q ds)) ≡ false
  unfolding read
  small ds h =
      let few : length ds ≤ max_queued_deliveries = ground arith in
      ground (arith, few, length-retain q ds)

  retain-read : (ds : Deliveries) → read ds ≡ ok ds → read (retain q ds) ≡ ok (retain q ds)
  unfolding read
  retain-read ds h =
      let checked : check_deliveries [] ds ≡ ok tt = ground arith in
      let readable : check_deliveries [] (retain q ds) ≡ ok tt =
        IsApart-check [] (retain q ds) (retain-IsApart q ds (check-IsApart [] ds checked).0)
          (none_seen (retain q ds)) in
      rw (small ds h, readable) refl

  -- The early return for a document that keeps all it has.
  cleaned :
      (fits : Deliveries → Bool) (ds : Deliveries)
      → read ds ≡ ok ds
      → fits (retain q ds) ≡ true
      → (if length (retain q ds) == length ds then ok ds else write fits (retain q ds))
        ≡ ok (retain q ds)
  unfolding read write
  cleaned fits ds h f = elim (Bool-cases (length (retain q ds) == length ds)) [
    | inl y ↦ rw y (ap ok (sym (retain_whole ds (ground arith))))
    | inr n ↦ rw (n, f, small ds h) refl
  ]

abbrev pub loaded_live : Deliveries → LoadedPeerDeliveries
loaded_live live = record { deliveries = live; cleanup_needed = false }

-- When the document can be read and what is live of it fits, pruning leaves exactly the unexpired
-- deliveries; these can be read again, protect the digests that the document protected, and are loaded
-- whole with no cleanup outstanding, with the lock or without it.
pub prune-clears :
    (fits : Deliveries → Bool) (document : Deliveries) (now : ℕ) (locked : Bool)
    → read document ≡ ok document
    → fits (retain (is_live now) document) ≡ true
    → (prune_expired_peer_deliveries fits document now ≡ ok (retain (is_live now) document))
      × (read (retain (is_live now) document) ≡ ok (retain (is_live now) document))
      × (protected_outbox_digests (retain (is_live now) document) now
          ≡ protected_outbox_digests document now)
      × (load_peer_deliveries fits (retain (is_live now) document) now locked
          ≡ ok (retain (is_live now) document, loaded_live (retain (is_live now) document)))
unfolding prune_expired_peer_deliveries protected_outbox_digests load_peer_deliveries
prune-clears fits document now locked h f =
    let again = retain-read (is_live now) document h in
    let twice = retain_twice (is_live now) document in
    let whole : (length (retain (is_live now) document) == length (retain (is_live now) document))
        ≡ true =
      ground arith in
    (
      rw h (cleaned (is_live now) fits document h f),
      again,
      rw (again, h, twice) refl,
      rw (again, twice, whole) refl,
    )

-- When the document can be read and what is left of it fits, finishing a delivery leaves a document that
-- can be read again, and in which a delivery of any kind stands just if the document had one that is
-- for another target or of another digest.
pub finish-removes :
    (fits : Deliveries → Bool) (document : Deliveries) (target digest : ℕ)
    (p : QueuedPeerDelivery → Bool)
    → read document ≡ ok document
    → fits (retain (is_unfinished target digest) document) ≡ true
    → (left : Deliveries) × (finish_peer_delivery fits document target digest ≡ ok left)
      × (read left ≡ ok left)
      × (any p left ≡ any (λ d. p d && is_unfinished target digest d) document)
unfolding finish_peer_delivery
finish-removes fits document target digest p h f = (
  retain (is_unfinished target digest) document,
  rw h (cleaned (is_unfinished target digest) fits document h f),
  retain-read (is_unfinished target digest) document h,
  any-retain_both (is_unfinished target digest) p document,
)
