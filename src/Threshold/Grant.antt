-- ===== src/Threshold/Grant.antt =====
-- crates/supgang/src/threshold/step/grant.rs: typed grants and their revocations, their checks and
-- encoders. The decoders are in Grant/Decode.
pub mod Decode
use supgang.Base.{
  ℕ, ◌+◌, ◌-◌, ◌*◌, Bool, true, false, not, ◌&&◌, ◌||◌, List, [], ◌∷◌, ◌++◌, map, Result, ok, err,
  ◌>>=◌, ◌>>◌, refuse_if, ltb, leb, ◌==◌, if◌then◌else◌, list_eq, list_lt, all, get_last_or, length,
  Bytes, ascii,
}
use supgang.External.{External}
use supgang.Threshold.{Error, invalid, bound, authority, proof, Digest, items, hash, fixed_item}
use supgang.Threshold.Records.{Operation, RootStep}

pub data Kind : Type 0 where
  owner_action release code_signing : Kind

pub data SignerRole : Type 0 where
  device_role owner_presence : SignerRole

pub data Presence : Type 0 where
  required policy : Presence

-- crates/supgang/src/authority.rs
pub data SubjectCustody : Type 0 where
  hardware file synced : SubjectCustody

pub record AllowedOperation : Type 0 where
  pub name : Bytes
  pub presence : Presence

pub data TargetScope : Type 0 where
  node : ℕ → TargetScope
  hive_nodes : ℕ → TargetScope

pub record Grant : Type 0 where
  pub hive : ℕ
  pub id : ℕ
  pub kind : Kind
  pub consumer : Bytes
  pub signer : ℕ
  pub signer_node : ℕ
  pub signer_role : SignerRole
  pub signer_custody : SubjectCustody
  pub possession : ℕ
  pub not_before : ℕ
  pub not_after : ℕ
  pub issuer_head : Digest
  pub issuer_sequence : ℕ
  pub target : TargetScope
  pub operations : List AllowedOperation

pub record Revocation : Type 0 where
  pub hive : ℕ
  pub id : ℕ
  pub kind : Kind
  pub serial : ℕ
  pub issuer_head : Digest
  pub issuer_sequence : ℕ

abbrev pub max_lifetime : ℕ
max_lifetime = 31622400

abbrev pub max_operations : ℕ
max_operations = 8

abbrev possession_domain : Bytes
possession_domain = ascii "supgang/role-possession/v1" ++ (0 ∷ [])

abbrev pub kind_text : Kind → Bytes
kind_text owner_action = ascii "owner-action"
kind_text release = ascii "release"
kind_text code_signing = ascii "code-signing"

abbrev pub role_text : SignerRole → Bytes
role_text device_role = ascii "device"
role_text owner_presence = ascii "owner-presence"

abbrev pub presence_text : Presence → Bytes
presence_text required = ascii "required"
presence_text policy = ascii "policy"

abbrev pub custody_text : SubjectCustody → Bytes
custody_text hardware = ascii "hardware"
custody_text file = ascii "file"
custody_text synced = ascii "synced"

abbrev pub is_owner_action : Kind → Bool
is_owner_action owner_action = true
is_owner_action _ = false

abbrev pub is_owner_presence : SignerRole → Bool
is_owner_presence owner_presence = true
is_owner_presence device_role = false

abbrev is_hardware : SubjectCustody → Bool
is_hardware hardware = true
is_hardware _ = false

abbrev is_required : Presence → Bool
is_required required = true
is_required policy = false

abbrev is_empty {ℓ} : {A : Type ℓ} → List A → Bool
is_empty [] = true
is_empty (a ∷ l) = false

-- `low..=high`
abbrev within : ℕ → ℕ → ℕ → Bool
within low high byte = leb low byte && leb byte high

abbrev is_mark : ℕ → Bool
is_mark b = b == b'.' || b == b'-'

abbrev head_or : Bytes → ℕ → ℕ
head_or [] d = d
head_or (b ∷ bs) d = b

-- `value.contains("..")`
abbrev has_two_dots : Bytes → Bool
has_two_dots [] = false
has_two_dots (b ∷ bs) = (b == b'.' && head_or bs 0 == b'.') || has_two_dots bs

-- `fn valid_name`
unfoldable pub valid_name : Bytes → ℕ → Bool
valid_name value maximum =
    not (is_empty value)
    && leb (length value) maximum
    && not (is_mark (head_or value 0))
    && not (is_mark (get_last_or value 0))
    && all (λ b. within b'a' b'z' b || within b'0' b'9' b || is_mark b) value
    && not (has_two_dots value)

-- `fn valid_consumer_id`
unfoldable pub valid_consumer_id : Bytes → Bool
valid_consumer_id value =
    not (is_empty value)
    && leb (length value) 128
    && not (is_mark (head_or value 0))
    && not (is_mark (get_last_or value 0))
    && all (λ b. within b'a' b'z' b || within b'A' b'Z' b || within b'0' b'9' b || is_mark b) value
    && not (has_two_dots value)

-- `matches!(self.target, TargetScope::HiveNodes(hive) if hive != self.hive)`
abbrev foreign_target : TargetScope → ℕ → Bool
foreign_target (node n) hive = false
foreign_target (hive_nodes h) hive = not (h == hive)

-- The loop over the operations: valid names in strictly rising order, and presence only from a
-- presence signer.
unfoldable pub check_operations :
    SignerRole → Bytes → List AllowedOperation → Result Error (Unit {0})
check_operations role previous [] = ok tt
check_operations role previous (o ∷ os) =
    let rest = check_operations role o.name os in
    if not (valid_name o.name 64)
      || not (list_lt previous o.name)
      || (is_required o.presence && not (is_owner_presence role))
    then err invalid
    else rest

module _ (x : External) where
  unfoldable pub possession_message : Grant → Result Error Bytes
  possession_message g =
      if not (is_owner_action g.kind) || g.id == 0 || not (valid_consumer_id g.consumer)
      then err invalid
      else ok (
          items (
            x.array 10
            ∷ x.u8 1
            ∷ fixed_item x 32 g.hive
            ∷ fixed_item x 16 g.id
            ∷ x.str (kind_text g.kind)
            ∷ x.str g.consumer
            ∷ x.str (ascii "p256")
            ∷ fixed_item x 33 g.signer
            ∷ fixed_item x 32 g.signer_node
            ∷ x.str (role_text g.signer_role)
            ∷ x.str (custody_text g.signer_custody)
            ∷ []))

  -- crates/supgang/src/device_key/mod.rs: `DevicePublicKey::verify_domain`, its causes dropped
  unfoldable pub verify_domain : ℕ → Bytes → Bytes → ℕ → Bool
  unfolding hash
  verify_domain key domain message signature =
      x.p256_point key
      && x.p256_signature signature
      && x.p256_verify key (hash x (domain ++ message)) signature

  unfoldable pub validate : Grant → Result Error (Unit {0})
  validate g = do
    refuse_if
        (leb g.not_after g.not_before
          || ltb max_lifetime (g.not_after - g.not_before)
          || is_empty g.operations
          || ltb max_operations (length g.operations)
          || foreign_target g.target g.hive)
        bound
    refuse_if (is_owner_presence g.signer_role && not (is_hardware g.signer_custody)) authority
    check_operations g.signer_role [] g.operations
    refuse_if (not (x.p256_signature g.possession)) proof
    message ← possession_message g
    refuse_if (not (verify_domain g.signer possession_domain message g.possession)) proof

  abbrev target_item : TargetScope → Bytes
  target_item (node n) = items (x.array 2 ∷ x.str (ascii "node") ∷ fixed_item x 32 n ∷ [])
  target_item (hive_nodes h) =
      items (x.array 2 ∷ x.str (ascii "hive-nodes") ∷ fixed_item x 32 h ∷ [])

  abbrev operation_item : AllowedOperation → Bytes
  operation_item o = items (x.array 2 ∷ x.str o.name ∷ x.str (presence_text o.presence) ∷ [])

  unfoldable pub encode : Grant → Result Error Bytes
  encode g = do
    validate g
    ok (
        items (
          x.array 12
          ∷ x.u8 1
          ∷ fixed_item x 32 g.hive
          ∷ fixed_item x 16 g.id
          ∷ x.str (kind_text g.kind)
          ∷ x.str g.consumer
          ∷ x.array 1
          ∷ x.array 6
          ∷ x.str (ascii "p256")
          ∷ fixed_item x 33 g.signer
          ∷ fixed_item x 32 g.signer_node
          ∷ x.str (role_text g.signer_role)
          ∷ x.str (custody_text g.signer_custody)
          ∷ fixed_item x 64 g.possession
          ∷ x.u8 1
          ∷ x.u64 g.not_before
          ∷ x.u64 g.not_after
          ∷ fixed_item x 32 g.issuer_head
          ∷ x.u64 g.issuer_sequence
          ∷ x.array 2
          ∷ target_item g.target
          ∷ x.array (length g.operations)
          ∷ items (map operation_item g.operations)
          ∷ []))

  unfoldable pub encode_revocation : Revocation → Result Error Bytes
  encode_revocation r =
      if r.id == 0 || r.serial == 0 || not (is_owner_action r.kind)
      then err invalid
      else ok (
          items (
            x.array 7
            ∷ x.u8 1
            ∷ fixed_item x 32 r.hive
            ∷ fixed_item x 16 r.id
            ∷ x.str (kind_text r.kind)
            ∷ x.u64 r.serial
            ∷ fixed_item x 32 r.issuer_head
            ∷ x.u64 r.issuer_sequence
            ∷ []))
