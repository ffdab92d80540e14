-- ===== src/Threshold/Status/Laws.antt =====
-- What a target may rely on after it has verified a status.
use supgang.Base.{ℕ, ◌+◌, ◌≤◌, ◌≡◌, refl, Result, ok, err, arith, Bytes}
use supgang.External.{External}
use supgang.Threshold.{Error, hash}
use supgang.Threshold.Renewal.{Ledger, owner_max_age, encode_policy, content_digest, draft_observe}
use supgang.Threshold.Renewal.Laws.{Extends, observe-Extends}
use supgang.Threshold.Status.{Status, SignedStatus, Scope, check, verify_status, encode_signed}

-- A status that is fresh for a scope, at the pinned head and above both floors.
pub record IsFresh (s : Status) (scope : Scope) : Type 0 where
  pub at_head : (s.hive ≡ scope.hive) × (s.root_head ≡ scope.head)
  pub above_floors : (scope.member_floor ≤ s.member_serial) × (scope.grant_floor ≤ s.grant_serial)
  pub in_time : (s.issued_at ≤ scope.now) × (scope.now ≤ s.expires_at)
  pub short_lived : s.expires_at ≤ s.issued_at + scope.maximum_age
  pub age_bound : scope.maximum_age ≤ owner_max_age

module _ (x : External) where
  check-IsFresh :
      (s : Status) (scope : Scope) {u : Unit {0}} → check x s scope ≡ ok u → IsFresh s scope
  unfolding check content_digest encode_policy
  check-IsFresh s scope h = record {
    at_head = (ground arith, ground arith);
    above_floors = (ground arith, ground arith);
    in_time = (ground arith, ground arith);
    short_lived = ground arith;
    age_bound = ground arith;
  }

  verified_facts :
      (s : SignedStatus) (root_key : ℕ) (scope : Scope) {l : Ledger} (e : Result Error Bytes)
      → encode_signed x s ≡ e
      → verify_status x s root_key scope ≡ ok l
      → (check x s.status scope ≡ ok tt)
        × ((b : Bytes) × (draft_observe x scope.ledger scope.policy.policy s.status.mode
                s.status.counts s.status.issued_at
                (hash x b)
              ≡ ok l))
  unfolding verify_status
  verified_facts s root_key scope (ok b) q h = (ground arith, (b, ground arith))
  verified_facts s root_key scope (err e) q h = ground arith

  -- A status that verifies is fresh and bound to the pinned hive, head and floors, its window is no
  -- longer than the scope's age, which the owner's maximum bounds, and the ledger that is returned
  -- extends the target's ledger.
  pub verify_status-IsFresh :
      (s : SignedStatus) (root_key : ℕ) (scope : Scope) {l : Ledger}
      → verify_status x s root_key scope ≡ ok l
      → IsFresh s.status scope × Extends scope.ledger l
  verify_status-IsFresh s root_key scope h =
      let (c, (b, o)) = verified_facts s root_key scope (encode_signed x s) refl h in
      (
        check-IsFresh s.status scope c,
        observe-Extends x scope.ledger scope.policy.policy s.status.mode s.status.counts
            s.status.issued_at (hash x b) o,
      )
