-- ===== src/Hive/Revocation.antt =====
-- crates/supgang/src/revocation.rs: root-signed snapshots of the revoked devices, their checks and
-- encoders. A binary search in a list that is sorted is membership.
pub mod Read
pub mod Decode
pub mod Laws
use supgang.Base.{
  ℕ, Bool, true, false, not, ◌&&◌, List, [], ◌∷◌, ◌++◌, map, any, Result, ok, err, ◌>>=◌, ◌>>◌,
  refuse_if, ltb, ◌==◌, if◌then◌else◌, length, Bytes, ascii,
}
use supgang.External.{External, items, fixed_item}
use supgang.Codec.{envelope, is_empty}
use supgang.Hive.Ids.{hive_id, verify_domain, sign_domain}

abbrev pub revocation_version : ℕ
revocation_version = 1

abbrev pub max_revoked_nodes : ℕ
max_revoked_nodes = 256

abbrev pub max_signed_revocation_bytes : ℕ
max_signed_revocation_bytes = 9216

pub data RevocationError : Type 0 where
  unsupported_version invalid_serial unordered oversized hive_root_mismatch : RevocationError
  invalid_signature decode malformed non_canonical : RevocationError

pub record RevocationList : Type 0 where
  pub version : ℕ
  pub hive_id : ℕ
  pub serial : ℕ
  pub issued_at : ℕ
  pub revoked_nodes : List ℕ

pub record SignedRevocationList : Type 0 where
  pub list : RevocationList
  pub signature : Bytes

-- `is_sorted_by(|left, right| left < right)`
unfoldable pub is_sorted : List ℕ → Bool
is_sorted [] = true
is_sorted (left ∷ []) = true
is_sorted (left ∷ right ∷ rest) = ltb left right && is_sorted (right ∷ rest)

abbrev same_truth : Bool → Bool → Bool
same_truth true other = other
same_truth false other = not other

-- `RevocationList::validate_shape`
unfoldable pub validate_shape : RevocationList → Result RevocationError (Unit {0})
validate_shape list = do
  refuse_if (not (list.version == revocation_version)) unsupported_version
  refuse_if (ltb max_revoked_nodes (length list.revoked_nodes)) oversized
  refuse_if (not (same_truth (list.serial == 0) (is_empty list.revoked_nodes))) invalid_serial
  refuse_if (not (is_sorted list.revoked_nodes)) unordered

-- `RevocationList::contains`
unfoldable pub contains : RevocationList → ℕ → Bool
contains list node = any (λ other. other == node) list.revoked_nodes

abbrev pub domain : Bytes
domain = ascii "supgang/revocation/v1" ++ (0 ∷ [])

module _ (x : External) where
  -- the payload, without the check of its shape
  abbrev pub list_bytes : RevocationList → Bytes
  list_bytes list = items (
      x.array 5
      ∷ x.u16 list.version
      ∷ fixed_item x 32 list.hive_id
      ∷ x.u64 list.serial
      ∷ x.u64 list.issued_at
      ∷ x.array (length list.revoked_nodes)
      ∷ items (map (fixed_item x 32) list.revoked_nodes)
      ∷ [])

  -- `fn encode_list`
  unfoldable pub encode_list : RevocationList → Result RevocationError Bytes
  encode_list list = do validate_shape list; ok (list_bytes list)

  unfoldable pub encode_signed_revocations : SignedRevocationList → Result RevocationError Bytes
  encode_signed_revocations value = do
    validate_shape value.list
    refuse_if (not (length value.signature == 64)) invalid_signature
    payload ← encode_list value.list
    let output = envelope x payload value.signature
    if ltb max_signed_revocation_bytes (length output) then err oversized else ok output

  -- `SignedRevocationList::sign` with the root's secret key
  unfoldable pub sign : RevocationList → ℕ → Result RevocationError SignedRevocationList
  sign list root = do
    validate_shape list
    refuse_if (not (list.hive_id == hive_id x (x.public_key root))) hive_root_mismatch
    payload ← encode_list list
    ok (record { list = list; signature = sign_domain x root domain payload })

  -- `SignedRevocationList::empty`
  unfoldable pub empty : ℕ → ℕ → Result RevocationError SignedRevocationList
  empty root issued_at =
      sign
        (record {
          version = revocation_version;
          hive_id = hive_id x (x.public_key root);
          serial = 0;
          issued_at = issued_at;
          revoked_nodes = [];
        })
        root

  -- `SignedRevocationList::verify`
  unfoldable pub verify : SignedRevocationList → ℕ → Result RevocationError (Unit {0})
  verify value root_key = do
    validate_shape value.list
    refuse_if (not (value.list.hive_id == hive_id x root_key)) hive_root_mismatch
    refuse_if (not (length value.signature == 64)) invalid_signature
    payload ← encode_list value.list
    refuse_if (not (verify_domain x root_key domain payload value.signature)) invalid_signature
