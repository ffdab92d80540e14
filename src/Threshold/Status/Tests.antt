-- ===== src/Threshold/Status/Tests.antt =====
-- A status that verifies on concrete records, and the theorem on it.
use supgang.Base.{◌≡◌, refl, [], ◌∷◌, ok, to_be_bytes}
use supgang.Threshold.{hash}
use supgang.Threshold.Toy.{toy, checksum}
use supgang.Threshold.Renewal.{
  Policy, Ledger, no_counts, initial, terms_digest, content_digest, encode_policy, draft_observe,
  check_common, check_counts, check_observed, verify_policy,
}
use supgang.Threshold.Renewal.Laws.{Extends}
use supgang.Threshold.Status.{
  Status, SignedStatus, Scope, is_sorted, check_active_sets, encode, encode_signed, check,
  verify_status,
}
use supgang.Threshold.Status.Laws.{IsFresh, verify_status-IsFresh}

abbrev policy : Policy
policy = record {
  hive = 3;
  root_head = 4;
  budget_id = 8;
  epoch = 1;
  maximum_age = 604800;
  policy_cap = 0;
  presence_cap = 4;
  total_cap = 4;
}

abbrev fresh : Ledger
fresh = record {
  terms = 3922480333;
  budget_id = 8;
  epoch = 1;
  counts = no_counts;
  issued_at = 0;
  status_digest = 0;
}

abbrev status : Status
status = record {
  hive = 3;
  root_head = 4;
  member_serial = 2;
  grant_serial = 1;
  active_grants = 77 ∷ 78 ∷ [];
  active_members = 32 ∷ [];
  issued_at = 100;
  expires_at = 200;
  policy_digest = 3652529040;
  budget_id = 8;
  epoch = 1;
  mode = initial;
  counts = no_counts;
}

-- the root signs with key 5
abbrev signed : SignedStatus
signed = record { status = status; signature = 5 }

abbrev scope : Scope
scope = record {
  hive = 3;
  head = 4;
  member_floor = 2;
  grant_floor = 0;
  now = 150;
  maximum_age = 3600;
  policy = record { policy = policy; signature = 5 };
  ledger = fresh;
}

abbrev after : Ledger
after = record fresh { issued_at = 100; status_digest = 2095267741 }

status_verified : verify_status toy signed 5 scope ≡ ok after
unfolding verify_status verify_policy check check_active_sets is_sorted content_digest encode_policy
    check_counts encode encode_signed draft_observe check_common terms_digest check_observed hash
    checksum to_be_bytes
status_verified = refl

verify_status-IsFresh_example : IsFresh status scope × Extends fresh after
verify_status-IsFresh_example = verify_status-IsFresh toy signed 5 scope status_verified
