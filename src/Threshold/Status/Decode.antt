-- ===== src/Threshold/Status/Decode.antt =====
-- crates/supgang/src/threshold/status.rs: the strict decoders.
use supgang.Base.{not, Result, err, refuse_if, ltb, ◌==◌, if◌then◌else◌, length, Bytes}
use supgang.External.{External}
use supgang.Threshold.{Error, invalid, bound, Reader, array, fixed, count, canonical}
use supgang.Threshold.Reading.{◌>>=◌, ◌>>◌, returns, lift, repeat, run}
use supgang.Threshold.Grant.Decode.{read_u8, read_u64, read_str, read_bytes}
use supgang.Threshold.Renewal.Decode.{mode_parse}
use supgang.Threshold.Status.{
  Status, SignedStatus, encode, encode_signed, max_active_entries, max_status_bytes,
  max_signed_status_bytes,
}

module _ (x : External) where
  unfoldable pub read_status : Reader Status
  read_status = do
    array x 16
    version ← read_u8 x
    lift (refuse_if (not (version == 1)) invalid)
    hive ← fixed x 32
    root_head ← fixed x 32
    member_serial ← read_u64 x
    grant_serial ← read_u64 x
    grant_count ← count x max_active_entries
    active_grants ← repeat grant_count (fixed x 16)
    member_count ← count x max_active_entries
    active_members ← repeat member_count (fixed x 32)
    issued_at ← read_u64 x
    expires_at ← read_u64 x
    policy_digest ← fixed x 32
    budget_id ← fixed x 16
    epoch ← read_u64 x
    label ← read_str x
    mode ← lift (mode_parse label)
    policy ← read_u64 x
    presence ← read_u64 x
    total ← read_u64 x
    returns (record {
      hive = hive;
      root_head = root_head;
      member_serial = member_serial;
      grant_serial = grant_serial;
      active_grants = active_grants;
      active_members = active_members;
      issued_at = issued_at;
      expires_at = expires_at;
      policy_digest = policy_digest;
      budget_id = budget_id;
      epoch = epoch;
      mode = mode;
      counts = record { policy = policy; presence = presence; total = total };
    })

  -- `Status::decode`
  unfoldable pub decode_status : Bytes → Result Error Status
  decode_status bytes =
      if ltb max_status_bytes (length bytes)
      then err bound
      else run
          (do
            s ← read_status
            encoded ← lift (encode x s)
            lift (canonical bytes encoded)
            returns s)
          bytes

  unfoldable pub read_signed_status : Reader SignedStatus
  read_signed_status = do
    array x 3
    version ← read_u8 x
    lift (refuse_if (not (version == 1)) invalid)
    content ← read_bytes x
    status ← lift (decode_status content)
    signature ← fixed x 64
    returns (record { status = status; signature = signature })

  -- `SignedStatus::decode`
  unfoldable pub decode_signed_status : Bytes → Result Error SignedStatus
  decode_signed_status bytes =
      if ltb max_signed_status_bytes (length bytes)
      then err bound
      else run
          (do
            s ← read_signed_status
            encoded ← lift (encode_signed x s)
            lift (canonical bytes encoded)
            returns s)
          bytes
