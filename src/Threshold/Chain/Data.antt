-- ===== src/Threshold/Chain/Data.antt =====
-- Test data: a hive that is founded by two groups, a step of each kind, and chains that hold them.
use supgang.Base.{ℕ, false, List, [], ◌∷◌, none, Result, ok, err, Bytes, ascii}
use supgang.Threshold.{Error}
use supgang.Threshold.Toy.{toy}
use supgang.Threshold.Records.{SignedStep, issue_membership, grant, succession}
use supgang.Threshold.Founding.{Participant, GroupDescriptor, RecoveryDescriptor}
use supgang.Threshold.Step.{encode as encode_step}
use supgang.Threshold.Grant.{encode, Grant, owner_action, device_role, hardware, node, policy}
use supgang.Threshold.Regroup.{encode as encode_succession, Succession, recovery_kind}
use supgang.Threshold.Chain.{Chain, active}

abbrev pub participants : List Participant
participants =
    record { id = 1; device = 11; verifying_share = 21 }
    ∷ record { id = 2; device = 12; verifying_share = 22 }
    ∷ []

abbrev pub group_of : ℕ → ℕ → GroupDescriptor
group_of key generation = record {
  label = ascii "hive";
  k = 2;
  generation = generation;
  participants = participants;
  public_key = key;
}

abbrev pub root_group : GroupDescriptor
root_group = group_of 5 0

abbrev pub recovery_group : RecoveryDescriptor
recovery_group = record { sequence = 0; predecessor = 0; group = group_of 6 0 }

abbrev pub hive_id : ℕ
hive_id = 140194270

abbrev pub founding_id : ℕ
founding_id = 642919042

abbrev pub founded : Chain
founded = record {
  hive = hive_id;
  founding = founding_id;
  tip = founding_id;
  current = record { group = root_group; epoch = 0; recovery_gen = 0; sequence = 0 };
  recovery = recovery_group;
  contexts =
      (founding_id, record { group = root_group; epoch = 0; recovery_gen = 0; sequence = 0 }) ∷ [];
  records = [];
  pending = [];
  children = [];
  active_digests = [];
  recovery_proofs = [];
  grants = [];
  used_grant_ids = [];
  grant_revocation_serial = 0;
  status = active;
  recovery_fork = false;
  conflict = none;
}

-- the founding root signs with key 5, whose signature is 5
abbrev pub written : Result Error Bytes → Bytes
written (ok b) = b
written (err e) = []

abbrev pub ordinary_step : ℕ → ℕ → Bytes → SignedStep
ordinary_step predecessor sequence payload = record {
  step = record {
    hive = hive_id;
    predecessor = predecessor;
    sequence = sequence;
    epoch = 0;
    recovery_gen = 0;
    operation = issue_membership;
    payload = payload;
    proposed_at = 9;
    proposer = 1;
  };
  signature = 5;
}

abbrev pub example_grant : Grant
example_grant = record {
  hive = hive_id;
  id = 77;
  kind = owner_action;
  consumer = ascii "deploy";
  signer = 31;
  signer_node = 32;
  signer_role = device_role;
  signer_custody = hardware;
  possession = 31;
  not_before = 10;
  not_after = 20;
  issuer_head = founding_id;
  issuer_sequence = 0;
  target = node 33;
  operations = record { name = ascii "restart"; presence = policy } ∷ [];
}

-- the recovery group, whose key and signature are 6, installs a root group under key 7
abbrev pub recovery_succession : Succession
recovery_succession = record {
  kind = recovery_kind;
  previous_key = 5;
  successor = group_of 7 0;
  retained = 345;
  recovery = recovery_group;
  possession = 7;
  recovery_possession = 0;
}

abbrev pub grant_step : SignedStep
grant_step = record {
  step = record {
    hive = hive_id;
    predecessor = founding_id;
    sequence = 1;
    epoch = 0;
    recovery_gen = 0;
    operation = grant;
    payload = written (encode toy example_grant);
    proposed_at = 9;
    proposer = 1;
  };
  signature = 5;
}

abbrev pub recovery_step : SignedStep
recovery_step = record {
  step = record {
    hive = hive_id;
    predecessor = founding_id;
    sequence = 1;
    epoch = 0;
    recovery_gen = 1;
    operation = succession;
    payload = written (encode_succession toy recovery_succession);
    proposed_at = 9;
    proposer = 1;
  };
  signature = 6;
}

abbrev pub step_bytes : Bytes
step_bytes = written (encode_step toy grant_step.step)
