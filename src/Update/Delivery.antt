-- ===== src/Update/Delivery.antt =====
-- crates/supgang/src/update/delivery_queue.rs: the bounded queue of updates that wait for a peer. The
-- state is the list of deliveries that the file holds. The lock, the prepared bundle and the size of
-- the file's text are answers of other code, which the handlers take as arguments; a failed write
-- leaves the file as it was.
pub mod Cleanup
pub mod Laws
pub mod Outcome
pub mod Tests
use supgang.Base.{
  ℕ, ◌-◌, Bool, not, ◌&&◌, ◌||◌, List, [], ◌∷◌, ◌++◌, any, Result, ok, ◌>>=◌, ◌>>◌, refuse_if,
  ok_or, checked_add, ltb, leb, ◌==◌, if◌then◌else◌, length, retain, Map, insert,
}

abbrev pub max_queued_deliveries : ℕ
max_queued_deliveries = 4

abbrev pub delivery_lifetime_seconds : ℕ
delivery_lifetime_seconds = 86400

-- the variants of `UpdateError` that the queue itself returns
pub data UpdateError : Type 0 where
  capacity invalid_bundle : UpdateError

pub record QueuedPeerDelivery : Type 0 where
  pub target : ℕ
  pub digest : ℕ
  pub queued_at : ℕ
  pub expires_at : ℕ

abbrev pub Deliveries : Type 0
Deliveries = List QueuedPeerDelivery

abbrev pub is_live : ℕ → QueuedPeerDelivery → Bool
is_live now delivery = ltb now delivery.expires_at

abbrev pub is_for : ℕ → QueuedPeerDelivery → Bool
is_for target delivery = delivery.target == target

abbrev pub is_not_for : ℕ → QueuedPeerDelivery → Bool
is_not_for target delivery = not (delivery.target == target)

-- the loop of `fn read` over the document, with the targets seen so far
unfoldable pub check_deliveries : List ℕ → Deliveries → Result UpdateError (Unit {0})
check_deliveries targets [] = ok tt
check_deliveries targets (delivery ∷ rest) = do
  refuse_if
      (leb delivery.expires_at delivery.queued_at
        || ltb delivery_lifetime_seconds (delivery.expires_at - delivery.queued_at)
        || any (λ target. target == delivery.target) targets)
      invalid_bundle
  check_deliveries (delivery.target ∷ targets) rest

-- `fn read` of a document of the right schema and canonical text
unfoldable pub read : Deliveries → Result UpdateError Deliveries
read document = do
  refuse_if (ltb max_queued_deliveries (length document)) invalid_bundle
  check_deliveries [] document
  ok document

-- `sort_by_key(|value| value.target)`, which keeps the order of equal targets
unfoldable pub insert_by_target : QueuedPeerDelivery → Deliveries → Deliveries
insert_by_target value [] = value ∷ []
insert_by_target value (first ∷ rest) =
    let behind = insert_by_target value rest in
    if ltb first.target value.target then first ∷ behind else value ∷ first ∷ rest

unfoldable pub sort_by_target : Deliveries → Deliveries
sort_by_target [] = []
sort_by_target (value ∷ rest) = insert_by_target value (sort_by_target rest)

-- `fn write`; `fits` says whether the text of the document is within its bound
unfoldable pub write : (Deliveries → Bool) → Deliveries → Result UpdateError Deliveries
write fits deliveries = do
  refuse_if (ltb max_queued_deliveries (length deliveries)) capacity
  refuse_if (not (fits deliveries)) capacity
  ok deliveries

-- `queue_peer_delivery` under the lock, for a bundle that is prepared: the document it leaves
unfoldable pub queue_peer_delivery :
    (Deliveries → Bool) → Deliveries → ℕ → ℕ → ℕ → Result UpdateError Deliveries
queue_peer_delivery fits document target digest now = do
  deliveries ← read document
  let live = retain (is_live now) deliveries
  refuse_if (leb max_queued_deliveries (length live) && not (any (is_for target) live)) capacity
  expires_at ← ok_or (checked_add now delivery_lifetime_seconds) invalid_bundle
  let queued : QueuedPeerDelivery = record {
    target = target;
    digest = digest;
    queued_at = now;
    expires_at = expires_at;
  }
  write fits (sort_by_target (retain (is_not_for target) live ++ (queued ∷ [])))

-- `prune_expired_peer_deliveries` under the lock
unfoldable pub prune_expired_peer_deliveries :
    (Deliveries → Bool) → Deliveries → ℕ → Result UpdateError Deliveries
prune_expired_peer_deliveries fits document now = do
  deliveries ← read document
  let live = retain (is_live now) deliveries
  if length live == length deliveries then ok document else write fits live

abbrev pub is_unfinished : ℕ → ℕ → QueuedPeerDelivery → Bool
is_unfinished target digest delivery =
    not (delivery.target == target) || not (delivery.digest == digest)

-- `finish_peer_delivery` under the lock
unfoldable pub finish_peer_delivery :
    (Deliveries → Bool) → Deliveries → ℕ → ℕ → Result UpdateError Deliveries
finish_peer_delivery fits document target digest = do
  deliveries ← read document
  let left = retain (is_unfinished target digest) deliveries
  if length left == length deliveries then ok document else write fits left

-- `LoadedPeerDeliveries`
pub record LoadedPeerDeliveries : Type 0 where
  pub deliveries : Deliveries
  pub cleanup_needed : Bool

-- `load_peer_deliveries`, with whether it got the lock: the document it leaves and what it loads
unfoldable pub load_peer_deliveries :
    (Deliveries → Bool)
    → Deliveries
    → ℕ
    → Bool
    → Result UpdateError (Deliveries × LoadedPeerDeliveries)
load_peer_deliveries fits document now locked = do
  deliveries ← read document
  let live = retain (is_live now) deliveries
  let cleanup_needed = not (length live == length deliveries)
  let loaded : LoadedPeerDeliveries = record {
    deliveries = live;
    cleanup_needed = cleanup_needed && not locked;
  }
  after ← if cleanup_needed && locked then write fits live else ok document
  ok (after, loaded)

unfoldable pub digests_of : Deliveries → Map (Unit {0})
digests_of [] = []
digests_of (delivery ∷ rest) = insert delivery.digest tt (digests_of rest)

-- `protected_outbox_digests`
unfoldable pub protected_outbox_digests : Deliveries → ℕ → Result UpdateError (Map (Unit {0}))
protected_outbox_digests document now = do
  deliveries ← read document
  ok (digests_of (retain (is_live now) deliveries))

-- `queued_delivery_count` at the time of the clock
unfoldable pub queued_delivery_count : Deliveries → ℕ → Result UpdateError ℕ
queued_delivery_count document now = do
  deliveries ← read document
  ok (length (retain (is_live now) deliveries))
