-- ===== src/Threshold/Renewal/Tests.antt =====
-- Runs of the renewal ledger and of a status check on concrete records, and the theorems on them.
use supgang.Base.{
  ◌≡◌, refl, [], ◌∷◌, Result, ok, err, Bytes, true, inl, length, to_be_bytes, ◌≤◌, ◌+◌, is_ok,
  arith,
}
use supgang.Threshold.{hash, Error, halted}
use supgang.Threshold.Toy.{toy, checksum}
use supgang.Threshold.Renewal.{
  Policy, Ledger, no_counts, initial, presence_mode, Counts, terms_digest, encode_policy,
  encode_ledger, draft_new, draft_issue, draft_observe, check_common, check_counts, is_next,
  check_observed, owner_total_cap,
}
use supgang.Threshold.Renewal.Laws.{Extends, issue-observe, draft-encode_ledger}
use supgang.Threshold.Renewal.Runs.{
  Lease, issue_all, observe_all, issue_all-bound, observe_all-Extends,
}

abbrev policy : Policy
policy = record {
  hive = 3;
  root_head = 4;
  budget_id = 8;
  epoch = 1;
  maximum_age = 604800;
  policy_cap = 0;
  presence_cap = 4;
  total_cap = 4;
}

abbrev fresh : Ledger
fresh = record {
  terms = 3922480333;
  budget_id = 8;
  epoch = 1;
  counts = no_counts;
  issued_at = 0;
  status_digest = 0;
}

abbrev one_presence : Counts
one_presence = record { policy = 0; presence = 1; total = 1 }

abbrev first_lease : Lease
first_lease = record {
  policy = policy;
  mode = initial;
  counts = no_counts;
  issued_at = 100;
  status_digest = 51;
}

abbrev second_lease : Lease
second_lease = record {
  policy = policy;
  mode = presence_mode;
  counts = one_presence;
  issued_at = 200;
  status_digest = 52;
}

abbrev after_first : Ledger
after_first = record fresh { issued_at = 100; status_digest = 51 }

abbrev after_second : Ledger
after_second = record fresh { counts = one_presence; issued_at = 200; status_digest = 52 }

new_fresh : draft_new toy policy ≡ ok fresh
unfolding draft_new terms_digest encode_policy hash checksum to_be_bytes
new_fresh = refl

both_issued : issue_all toy (first_lease ∷ second_lease ∷ []) fresh ≡ ok after_second
unfolding issue_all draft_issue check_common terms_digest encode_policy hash checksum to_be_bytes
    check_counts is_next
both_issued = refl

second_issued :
    draft_issue toy after_first policy presence_mode one_presence 200 52 ≡ ok after_second
unfolding draft_issue check_common terms_digest encode_policy hash checksum to_be_bytes check_counts
    is_next
second_issued = refl

abbrev stored_or_empty : Result Error Bytes → Bytes
stored_or_empty (ok b) = b
stored_or_empty (err e) = []

first_stored : encode_ledger toy after_first ≡ ok (stored_or_empty (encode_ledger toy after_first))
unfolding encode_ledger
first_stored = refl

-- A status under the counts that the ledger holds, but with another digest, ends in a refusal.
equivocation_refused :
    draft_observe toy after_second policy presence_mode one_presence 200 53 ≡ err halted
unfolding draft_observe check_common terms_digest encode_policy hash checksum to_be_bytes
    check_counts check_observed
equivocation_refused = refl

issue_all-bound_example : length (first_lease ∷ second_lease ∷ []) ≤ owner_total_cap + 1
issue_all-bound_example =
    issue_all-bound toy policy (first_lease ∷ second_lease ∷ []) new_fresh both_issued

observe_all-Extends_example :
    Extends after_first (observe_all toy (second_lease ∷ first_lease ∷ []) after_first)
observe_all-Extends_example = observe_all-Extends toy (second_lease ∷ first_lease ∷ []) after_first

issue-observe_example :
    draft_observe toy after_first policy presence_mode one_presence 200 52 ≡ ok after_second
issue-observe_example =
    issue-observe toy after_first policy presence_mode one_presence 200 52 first_stored
      second_issued

draft-encode_ledger_example : is_ok (encode_ledger toy after_second) ≡ true
draft-encode_ledger_example =
    draft-encode_ledger toy after_first policy presence_mode one_presence 200 52 first_stored
      (omega arith) (inl second_issued)
