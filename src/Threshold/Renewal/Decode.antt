-- ===== src/Threshold/Renewal/Decode.antt =====
-- crates/supgang/src/threshold/status_renewal.rs: the strict decoders.
use supgang.Base.{
  not, Result, ok, err, refuse_if, ltb, ◌==◌, if◌then◌else◌, list_eq, length, Bytes, ascii,
}
use supgang.External.{External}
use supgang.Threshold.{Error, invalid, bound, Reader, array, fixed, canonical}
use supgang.Threshold.Reading.{◌>>=◌, ◌>>◌, returns, lift, run}
use supgang.Threshold.Grant.Decode.{read_u8, read_u64, read_bytes}
use supgang.Threshold.Renewal.{
  Policy, SignedPolicy, Mode, initial, policy_mode, presence_mode, Ledger, encode_policy,
  encode_signed_policy, encode_ledger,
}

unfoldable pub mode_parse : Bytes → Result Error Mode
mode_parse value =
    if list_eq value (ascii "initial")
    then ok initial
    else if list_eq value (ascii "policy")
    then ok policy_mode
    else if list_eq value (ascii "presence")
    then ok presence_mode
    else err invalid

module _ (x : External) where
  unfoldable pub read_policy : Reader Policy
  read_policy = do
    array x 9
    version ← read_u8 x
    lift (refuse_if (not (version == 1)) invalid)
    hive ← fixed x 32
    root_head ← fixed x 32
    budget_id ← fixed x 16
    epoch ← read_u64 x
    maximum_age ← read_u64 x
    policy_cap ← read_u64 x
    presence_cap ← read_u64 x
    total_cap ← read_u64 x
    returns (record {
      hive = hive;
      root_head = root_head;
      budget_id = budget_id;
      epoch = epoch;
      maximum_age = maximum_age;
      policy_cap = policy_cap;
      presence_cap = presence_cap;
      total_cap = total_cap;
    })

  -- `Policy::decode`
  unfoldable pub decode_policy : Bytes → Result Error Policy
  decode_policy bytes =
      if ltb 256 (length bytes)
      then err bound
      else run
          (do
            p ← read_policy
            encoded ← lift (encode_policy x p)
            lift (canonical bytes encoded)
            returns p)
          bytes

  unfoldable pub read_signed_policy : Reader SignedPolicy
  read_signed_policy = do
    array x 3
    version ← read_u8 x
    lift (refuse_if (not (version == 1)) invalid)
    content ← read_bytes x
    policy ← lift (decode_policy content)
    signature ← fixed x 64
    returns (record { policy = policy; signature = signature })

  -- `SignedPolicy::decode`
  unfoldable pub decode_signed_policy : Bytes → Result Error SignedPolicy
  decode_signed_policy bytes =
      if ltb 384 (length bytes)
      then err bound
      else run
          (do
            s ← read_signed_policy
            encoded ← lift (encode_signed_policy x s)
            lift (canonical bytes encoded)
            returns s)
          bytes

  unfoldable pub read_ledger : Reader Ledger
  read_ledger = do
    array x 9
    version ← read_u8 x
    lift (refuse_if (not (version == 1)) invalid)
    terms ← fixed x 32
    budget_id ← fixed x 16
    epoch ← read_u64 x
    policy ← read_u64 x
    presence ← read_u64 x
    total ← read_u64 x
    issued_at ← read_u64 x
    status_digest ← fixed x 32
    returns (record {
      terms = terms;
      budget_id = budget_id;
      epoch = epoch;
      counts = record { policy = policy; presence = presence; total = total };
      issued_at = issued_at;
      status_digest = status_digest;
    })

  -- `Ledger::decode`
  unfoldable pub decode_ledger : Bytes → Result Error Ledger
  decode_ledger bytes =
      if ltb 256 (length bytes)
      then err bound
      else run
          (do
            l ← read_ledger
            encoded ← lift (encode_ledger x l)
            lift (canonical bytes encoded)
            returns l)
          bytes
