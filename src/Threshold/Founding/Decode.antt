-- ===== src/Threshold/Founding/Decode.antt =====
-- crates/supgang/src/threshold/founding.rs: the strict decoders of the two descriptors.
use supgang.Base.{
  ℕ, not, Result, err, refuse_if, ltb, ◌==◌, if◌then◌else◌, list_eq, length, Bytes, ascii,
}
use supgang.External.{External}
use supgang.Threshold.{
  Error, invalid, bound, device, Reader, reading, array, fixed, count, canonical, max_participants,
}
use supgang.Threshold.Reading.{◌>>=◌, ◌>>◌, returns, lift, repeat, run}
use supgang.Threshold.Grant.Decode.{read_u8, read_u64, read_str, read_bytes, read_device_key}
use supgang.Threshold.Founding.{
  Participant, GroupDescriptor, RecoveryDescriptor, encode_group, encode_recovery,
}

module _ (x : External) where
  abbrev read_u16 : Reader ℕ
  read_u16 b = reading (x.read_u16 b)

  unfoldable pub read_participant : Reader Participant
  read_participant = do
    array x 4
    id ← read_u16
    key ← read_device_key x device
    verifying_share ← fixed x 32
    custody ← read_str x
    lift (refuse_if (not (list_eq custody (ascii "file"))) invalid)
    returns (record { id = id; device = key; verifying_share = verifying_share })

  unfoldable pub read_group : Reader GroupDescriptor
  read_group = do
    array x 7
    version ← read_u8 x
    lift (refuse_if (not (version == 1)) invalid)
    label ← read_str x
    k ← read_u16
    n ← read_u16
    generation ← read_u64 x
    size ← count x max_participants
    lift (refuse_if (not (n == size)) invalid)
    participants ← repeat size read_participant
    public_key ← fixed x 32
    returns (record {
      label = label;
      k = k;
      generation = generation;
      participants = participants;
      public_key = public_key;
    })

  -- `GroupDescriptor::decode`
  unfoldable pub decode_group : Bytes → Result Error GroupDescriptor
  decode_group bytes =
      if ltb 4096 (length bytes)
      then err bound
      else run
          (do
            g ← read_group
            encoded ← lift (encode_group x g)
            lift (canonical bytes encoded)
            returns g)
          bytes

  unfoldable pub read_recovery : Reader RecoveryDescriptor
  read_recovery = do
    array x 4
    version ← read_u8 x
    lift (refuse_if (not (version == 1)) invalid)
    sequence ← read_u64 x
    predecessor ← fixed x 32
    group_bytes ← read_bytes x
    group ← lift (decode_group group_bytes)
    returns (record { sequence = sequence; predecessor = predecessor; group = group })

  -- `RecoveryDescriptor::decode`
  unfoldable pub decode_recovery : Bytes → Result Error RecoveryDescriptor
  decode_recovery bytes =
      if ltb 4200 (length bytes)
      then err bound
      else run
          (do
            r ← read_recovery
            encoded ← lift (encode_recovery x r)
            lift (canonical bytes encoded)
            returns r)
          bytes
