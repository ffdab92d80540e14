-- ===== src/Update/Delivery/Tests.antt =====
-- Queues of concrete deliveries.
use supgang.Base.{false, ℕ, ◌≡◌, refl, Bool, true, [], ◌∷◌, ◌||◌, ok, err, any, retain, ◌&&◌, arith}
use supgang.Update.Delivery.{
  QueuedPeerDelivery, Deliveries, capacity, is_live, is_for, is_not_for, check_deliveries, read,
  insert_by_target, sort_by_target, write, queue_peer_delivery, is_unfinished,
  prune_expired_peer_deliveries, finish_peer_delivery, load_peer_deliveries,
  protected_outbox_digests,
}
use supgang.Update.Delivery.Laws.{queued_at_now, next_document, queue-read}
use supgang.Update.Delivery.Cleanup.{loaded_live, prune-clears, finish-removes}
use supgang.Update.Delivery.Outcome.{queue-outcome}

abbrev waiting : ℕ → ℕ → QueuedPeerDelivery
waiting target at = queued_at_now target 7 at

abbrev fits_always : Deliveries → Bool
fits_always document = true

-- two live deliveries and one that is over
abbrev document : Deliveries
document = waiting 2 100000 ∷ waiting 5 1 ∷ waiting 8 100000 ∷ []

abbrev after : Deliveries
after = waiting 2 100000 ∷ waiting 3 100001 ∷ waiting 8 100000 ∷ []

queued : queue_peer_delivery fits_always document 3 7 100001 ≡ ok after
unfolding queue_peer_delivery read check_deliveries sort_by_target insert_by_target write
queued = refl

-- a fifth target
full_refused :
    queue_peer_delivery fits_always
      (waiting 1 10 ∷ waiting 2 10 ∷ waiting 3 10 ∷ waiting 4 10 ∷ [])
      5
      7
      11
    ≡ err capacity
unfolding queue_peer_delivery read check_deliveries
full_refused = refl

queue-read_example :
    (read after ≡ ok after)
    × (any (is_for 8) after ≡ (
        any (is_for 8) (retain (is_not_for 3) (retain (is_live 100001) document))
        || is_for 8 (queued_at_now 3 7 100001)))
queue-read_example = queue-read fits_always document 3 7 100001 (is_for 8) queued

document-reads : read document ≡ ok document
unfolding read check_deliveries
document-reads = refl

abbrev live : Deliveries
live = waiting 2 100000 ∷ waiting 8 100000 ∷ []

prune-clears_example :
    (prune_expired_peer_deliveries fits_always document 100001 ≡ ok live)
    × (read live ≡ ok live)
    × (protected_outbox_digests live 100001 ≡ protected_outbox_digests document 100001)
    × (load_peer_deliveries fits_always live 100001 false ≡ ok (live, loaded_live live))
prune-clears_example = prune-clears fits_always document 100001 false document-reads refl

finish-removes_example :
    (left : Deliveries) × (finish_peer_delivery fits_always document 2 7 ≡ ok left)
    × (read left ≡ ok left)
    × (any (is_for 8) left ≡ any (λ d. is_for 8 d && is_unfinished 2 7 d) document)
finish-removes_example = finish-removes fits_always document 2 7 (is_for 8) document-reads refl

queue-outcome_example :
    queue_peer_delivery fits_always document 3 7 100001
    ≡ ok (sort_by_target (next_document document 3 7 100001))
queue-outcome_example =
    queue-outcome fits_always document 3 7 100001 document-reads refl (omega arith)
