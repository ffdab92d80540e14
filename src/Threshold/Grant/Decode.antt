-- ===== src/Threshold/Grant/Decode.antt =====
-- crates/supgang/src/threshold/step/grant.rs: the decoders of grants and revocations, and the check
-- of a payload against the step that carries it.
use supgang.Base.{
  ℕ, ◌-◌, not, Result, ok, err, refuse_if, ltb, ◌==◌, if◌then◌else◌, list_eq, length, Bytes, ascii,
}
use supgang.External.{External}
use supgang.Threshold.{
  Error, invalid, bound, authority, Reader, reading, array, fixed, count, canonical,
}
use supgang.Threshold.Reading.{◌>>=◌, ◌>>◌, returns, lift, repeat, run}
use supgang.Threshold.Records.{RootStep, grant, revoke_grant}
use supgang.Threshold.Grant.{
  Kind, owner_action, release, code_signing, SignerRole, device_role, owner_presence, Presence,
  required, policy, SubjectCustody, hardware, file, synced, AllowedOperation, TargetScope, node,
  hive_nodes, Grant, Revocation, max_operations, encode, encode_revocation,
}

unfoldable pub kind_parse : Bytes → Result Error Kind
kind_parse value =
    if list_eq value (ascii "owner-action")
    then ok owner_action
    else if list_eq value (ascii "release")
    then ok release
    else if list_eq value (ascii "code-signing")
    then ok code_signing
    else err invalid

unfoldable pub role_parse : Bytes → Result Error SignerRole
role_parse value =
    if list_eq value (ascii "device")
    then ok device_role
    else if list_eq value (ascii "owner-presence")
    then ok owner_presence
    else err invalid

unfoldable pub presence_parse : Bytes → Result Error Presence
presence_parse value =
    if list_eq value (ascii "required")
    then ok required
    else if list_eq value (ascii "policy")
    then ok policy
    else err invalid

unfoldable pub custody_parse : Bytes → Result Error SubjectCustody
custody_parse value =
    if list_eq value (ascii "hardware")
    then ok hardware
    else if list_eq value (ascii "file")
    then ok file
    else if list_eq value (ascii "synced")
    then ok synced
    else err invalid

unfoldable pub target_parse : Bytes → ℕ → Result Error TargetScope
target_parse tag value =
    if list_eq tag (ascii "node")
    then ok (node value)
    else if list_eq tag (ascii "hive-nodes")
    then ok (hive_nodes value)
    else err invalid

module _ (x : External) where
  abbrev pub read_u8 : Reader ℕ
  read_u8 b = reading (x.read_u8 b)

  abbrev pub read_u64 : Reader ℕ
  read_u64 b = reading (x.read_u64 b)

  abbrev pub read_str : Reader Bytes
  read_str b = reading (x.read_str b)

  abbrev pub read_bytes : Reader Bytes
  read_bytes b = reading (x.read_bytes b)

  unfoldable pub read_operation : Reader AllowedOperation
  read_operation = do
    array x 2
    name ← read_str
    mode ← read_str
    presence ← lift (presence_parse mode)
    returns (record { name = name; presence = presence })

  -- `DevicePublicKey::from_bytes`: 33 bytes that are a compressed point
  unfoldable pub read_device_key : Error → Reader ℕ
  read_device_key e b = elim (fixed x 33 b) [
    | ok (key, rest) ↦ if x.p256_point key then ok (key, rest) else err e
    | err invalid ↦ err e
    | err other ↦ err other
  ]

  unfoldable pub read_grant : Reader Grant
  read_grant = do
    array x 12
    version ← read_u8
    lift (refuse_if (not (version == 1)) invalid)
    hive ← fixed x 32
    id ← fixed x 16
    kind_label ← read_str
    kind ← lift (kind_parse kind_label)
    consumer ← read_str
    array x 1
    array x 6
    algorithm ← read_str
    lift (refuse_if (not (list_eq algorithm (ascii "p256"))) invalid)
    signer ← read_device_key invalid
    signer_node ← fixed x 32
    role_label ← read_str
    signer_role ← lift (role_parse role_label)
    custody_label ← read_str
    signer_custody ← lift (custody_parse custody_label)
    possession ← fixed x 64
    threshold ← read_u8
    lift (refuse_if (not (threshold == 1)) invalid)
    not_before ← read_u64
    not_after ← read_u64
    issuer_head ← fixed x 32
    issuer_sequence ← read_u64
    array x 2
    array x 2
    target_tag ← read_str
    target_bytes ← fixed x 32
    target ← lift (target_parse target_tag target_bytes)
    entries ← count x max_operations
    operations ← repeat entries read_operation
    returns (record {
      hive = hive;
      id = id;
      kind = kind;
      consumer = consumer;
      signer = signer;
      signer_node = signer_node;
      signer_role = signer_role;
      signer_custody = signer_custody;
      possession = possession;
      not_before = not_before;
      not_after = not_after;
      issuer_head = issuer_head;
      issuer_sequence = issuer_sequence;
      target = target;
      operations = operations;
    })

  unfoldable pub read_revocation : Reader Revocation
  read_revocation = do
    array x 7
    version ← read_u8
    lift (refuse_if (not (version == 1)) invalid)
    hive ← fixed x 32
    id ← fixed x 16
    kind_label ← read_str
    kind ← lift (kind_parse kind_label)
    serial ← read_u64
    issuer_head ← fixed x 32
    issuer_sequence ← read_u64
    returns (record {
      hive = hive;
      id = id;
      kind = kind;
      serial = serial;
      issuer_head = issuer_head;
      issuer_sequence = issuer_sequence;
    })

  -- `Grant::decode`
  unfoldable pub decode_grant : Bytes → Result Error Grant
  decode_grant bytes =
      if ltb 12288 (length bytes)
      then err bound
      else run
          (do
            g ← read_grant
            encoded ← lift (encode x g)
            lift (canonical bytes encoded)
            returns g)
          bytes

  -- `Revocation::decode`
  unfoldable pub decode_revocation : Bytes → Result Error Revocation
  decode_revocation bytes =
      if ltb 256 (length bytes)
      then err bound
      else run
          (do
            r ← read_revocation
            encoded ← lift (encode_revocation x r)
            lift (canonical bytes encoded)
            returns r)
          bytes

  abbrev check_envelope : RootStep → ℕ → ℕ → ℕ → Result Error (Unit {0})
  check_envelope step hive head sequence =
      if not (hive == step.hive)
      then err authority
      else if not (head == step.predecessor)
      then err authority
      else if not (sequence == step.sequence - 1)
      then err authority
      else ok tt

  -- `fn validate_step`
  unfoldable pub validate_step : RootStep → Result Error (Unit {0})
  validate_step step = elim step.operation [
    | grant ↦ elim (decode_grant step.payload) [
      | err e ↦ err e
      | ok g ↦ check_envelope step g.hive g.issuer_head g.issuer_sequence
    ]
    | revoke_grant ↦ elim (decode_revocation step.payload) [
      | err e ↦ err e
      | ok r ↦ check_envelope step r.hive r.issuer_head r.issuer_sequence
    ]
    | _ ↦ ok tt
  ]
