-- ===== src/Threshold/Chain/Tests.antt =====
-- Runs of crates/supgang/src/threshold/step/chain.rs on the test data, and the theorems on it.
use supgang.Base.{
  some, ◌==◌, false, contains_key, ◌≡◌, refl, List, [], ◌∷◌, ok, true, lookup, insert, remove,
  to_be_bytes, from_be_bytes,
}
use supgang.Threshold.{hash, array, fixed, count, canonical}
use supgang.Threshold.Reading.{repeat}
use supgang.Threshold.Toy.{toy, checksum, split, pop_string}
use supgang.Threshold.Records.{SignedStep}
use supgang.Threshold.Grant.{
  encode as encode_grant, validate, check_operations, valid_name, valid_consumer_id, verify_domain,
  possession_message,
}
use supgang.Threshold.Grant.Decode.{
  kind_parse, role_parse, presence_parse, custody_parse, target_parse, read_operation,
  read_device_key, read_grant, decode_grant, validate_step,
}
use supgang.Threshold.Step.{encode, digest, message, verify}
use supgang.Threshold.Regroup.{
  empty_retained_digest, encode as encode_succession, possession_step, verify_possession,
}
use supgang.Threshold.Regroup.Decode.{
  kind_parse as regroup_kind_parse, read_succession, decode_succession,
}
use supgang.Threshold.Founding.{
  recovery_eq, group_eq, validate_group, check_participants, encode_group, encode_recovery,
  founding_digest, digest_group, digest_recovery,
}
use supgang.Threshold.Founding.Decode.{
  read_participant, read_group, decode_group, read_recovery, decode_recovery,
}
use supgang.Threshold.Chain.{
  Chain, accepted, halted, fork, is_halted, is_active, new, hive_of_root, walk, ancestry,
  validate_grant_transition, apply_grant_transition, check_known_predecessor, validate_recovery,
}
use supgang.Threshold.Chain.Accept.{
  retry, find_ready, rotate, extend, settle, accept_ordinary, accept_recovery, transition_of, round,
  drain, finish, dispatch, accept,
}
use supgang.Threshold.Chain.Run.{present}
use supgang.Threshold.Chain.Trust.{IsTrusted}
use supgang.Threshold.Chain.Bounds.{IsBounded}
use supgang.Threshold.Chain.Order.{Rises}
use supgang.Threshold.Chain.Grants.{Spends, IsSpent}
use supgang.Threshold.Chain.Halt.{Recovers, accept-reactivates, accept-rival}
use supgang.Threshold.Chain.Life.{life-Spends, life-IsTrusted, life-IsBounded, life-Rises}
use supgang.Threshold.Chain.Content.{IsAddressed, life-IsAddressed}
use supgang.Threshold.Chain.Drain.{life-drained}
use supgang.Threshold.Chain.Data.{
  root_group, recovery_group, recovery_succession, founded, grant_step, recovery_step,
  ordinary_step, founding_id,
}

-- The test chain is what the founding returns.
founded-new : new toy root_group recovery_group ≡ ok founded
unfolding new hive_of_root founding_digest encode_group encode_recovery validate_group
    check_participants hash checksum insert to_be_bytes
founded-new = refl

-- An ordinary step extends the tip.
ordinary_accepted : (accept toy (ordinary_step founding_id 1 (3 ∷ [])) founded).0 ≡ ok accepted
unfolding accept digest encode validate_step hash checksum to_be_bytes transition_of dispatch
    accept_ordinary lookup extend rotate verify message settle validate_grant_transition
    apply_grant_transition insert finish drain round find_ready
ordinary_accepted = refl

-- A grant is issued.
grant_accepted : (accept toy grant_step founded).0 ≡ ok accepted
unfolding accept digest encode validate_step hash checksum to_be_bytes from_be_bytes transition_of
    dispatch accept_ordinary lookup extend rotate verify message settle validate_grant_transition
    apply_grant_transition insert finish drain round find_ready encode_grant validate
    check_operations valid_name valid_consumer_id verify_domain possession_message kind_parse
    role_parse presence_parse custody_parse target_parse read_operation read_device_key read_grant
    decode_grant array fixed count canonical repeat split pop_string
grant_accepted = refl

abbrev steps : List SignedStep
steps = grant_step ∷ ordinary_step founding_id 1 (3 ∷ []) ∷ recovery_step ∷ []

abbrev halted_chain : Chain
halted_chain = record founded { status = halted }

-- A recovery of the next generation reactivates a halted chain.
recovery_reactivates : is_active (accept toy recovery_step halted_chain).1.status ≡ true
unfolding accept digest encode validate_step hash checksum to_be_bytes from_be_bytes transition_of
    dispatch accept_recovery lookup validate_recovery verify message check_known_predecessor
    verify_possession possession_step insert remove finish drain round find_ready encode_succession
    kind_parse regroup_kind_parse read_succession decode_succession recovery_eq group_eq
    validate_group check_participants encode_group encode_recovery digest_group digest_recovery
    read_participant read_group decode_group read_recovery decode_recovery read_device_key
    empty_retained_digest array fixed count canonical repeat split pop_string ancestry walk
recovery_reactivates = refl

life-IsTrusted_example : IsTrusted toy 5 6 (present toy steps founded)
life-IsTrusted_example = life-IsTrusted toy root_group recovery_group steps founded-new

life-IsBounded_example : IsBounded (present toy steps founded)
life-IsBounded_example = life-IsBounded toy root_group recovery_group steps founded-new

life-Rises_example :
    Rises
      (present toy (recovery_step ∷ []) founded)
      (present toy steps (present toy (recovery_step ∷ []) founded))
life-Rises_example = life-Rises toy root_group recovery_group (recovery_step ∷ []) steps founded-new

life-Spends_example :
    Spends 77
      (present toy (grant_step ∷ []) founded)
      (present toy (recovery_step ∷ grant_step ∷ []) (present toy (grant_step ∷ []) founded))
    × IsSpent 77
        (present toy (recovery_step ∷ grant_step ∷ []) (present toy (grant_step ∷ []) founded))
life-Spends_example =
    life-Spends toy root_group recovery_group 77 (grant_step ∷ []) (recovery_step ∷ grant_step ∷ [])
      founded-new

accept-reactivates_example : Recovers toy recovery_step halted_chain
accept-reactivates_example =
    accept-reactivates toy recovery_step halted_chain refl recovery_reactivates

-- the recovery, and the same one by another proposer
abbrev recovered_chain : Chain
recovered_chain = (accept toy recovery_step founded).1

abbrev rival_step : SignedStep
rival_step = record recovery_step { step = record recovery_step.step { proposer = 2 } }

rival_facts :
    ((rival_step.step.hive == recovered_chain.hive) ≡ true)
    × (recovered_chain.recovery_fork ≡ false)
    × (transition_of toy rival_step.step ≡ ok (some recovery_succession))
    × (lookup 1 recovered_chain.recovery_proofs ≡ some (recovery_step, recovery_group))
    × (validate_recovery toy recovered_chain rival_step.step recovery_succession recovery_group
        ≡ ok tt)
    × (digest toy recovery_step.step ≡ ok 2366438061)
    × (digest toy rival_step.step ≡ ok 2366438062)
    × (verify toy rival_step 6 ≡ ok tt)
unfolding accept digest encode validate_step hash checksum to_be_bytes from_be_bytes transition_of
    dispatch accept_recovery lookup validate_recovery verify message check_known_predecessor
    verify_possession possession_step insert remove finish drain round find_ready encode_succession
    kind_parse regroup_kind_parse read_succession decode_succession recovery_eq group_eq
    validate_group check_participants encode_group encode_recovery digest_group digest_recovery
    read_participant read_group decode_group read_recovery decode_recovery read_device_key
    empty_retained_digest array fixed count canonical repeat split pop_string ancestry walk
rival_facts = (refl, refl, refl, refl, refl, refl, refl, refl)

accept-rival_example :
    ((accept toy rival_step recovered_chain).0 ≡ ok fork)
    × (is_halted (accept toy rival_step recovered_chain).1.status ≡ true)
    × (present toy steps (accept toy rival_step recovered_chain).1
        ≡ (accept toy rival_step recovered_chain).1)
accept-rival_example =
    let f = rival_facts in
    accept-rival toy rival_step recovery_step recovery_group recovery_succession 2366438062
      2366438061 recovered_chain steps f.0 f.1 f.2 refl f.3 f.7 f.4 f.5 f.6 refl

life-IsAddressed_example : IsAddressed toy (present toy steps founded)
life-IsAddressed_example = life-IsAddressed toy root_group recovery_group steps founded-new

abbrev first_step : SignedStep
first_step = ordinary_step founding_id 1 (3 ∷ [])

-- a step that arrives before its predecessor, and one whose predecessor never arrives
abbrev early_step : SignedStep
early_step = ordinary_step 1191922229 2 (4 ∷ [])

abbrev stray_step : SignedStep
stray_step = ordinary_step 9 2 []

abbrev waiting_chain : Chain
waiting_chain = present toy (early_step ∷ stray_step ∷ []) founded

-- The early step follows its predecessor, the stray step stays held.
early_drained :
    ((accept toy first_step waiting_chain).0 ≡ ok accepted)
    × (is_active (accept toy first_step waiting_chain).1.status ≡ true)
    × ((accept toy first_step waiting_chain).1.current.sequence ≡ 2)
    × (lookup 397951897 (accept toy first_step waiting_chain).1.pending ≡ some stray_step)
unfolding accept digest encode validate_step hash checksum to_be_bytes transition_of dispatch
    accept_ordinary lookup extend rotate verify message settle validate_grant_transition
    apply_grant_transition insert finish drain round find_ready present retry remove
early_drained = (refl, refl, refl, refl)

life-drained_example : contains_key 9 (accept toy first_step waiting_chain).1.contexts ≡ false
life-drained_example =
    life-drained toy root_group recovery_group (early_step ∷ stray_step ∷ []) first_step founded-new
      early_drained.0 early_drained.1 397951897 stray_step early_drained.3
