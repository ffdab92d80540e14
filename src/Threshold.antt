-- ===== src/Threshold.antt =====
-- crates/supgang/src/threshold.rs: the error values, the limits and the small codec helpers that
-- every threshold record shares. A decoder is a reader of the bytes that are left.
pub mod Records
pub mod Reading
pub mod Grant
pub mod Step
pub mod Founding
pub mod Regroup
pub mod Chain
pub mod Toy
pub mod Canonical
pub mod Renewal
pub mod Status
pub mod Tests
use supgang.Base.{
  ℕ, Bool, true, false, not, List, [], ◌∷◌, ◌++◌, Option, none, some, Result, ok, err, ltb, ◌==◌,
  if◌then◌else◌, list_eq, length, Bytes, from_be_bytes, to_be_bytes,
}
use supgang.External.{External}
pub use supgang.External.{items, fixed_item}

-- The variants of `threshold::Error`, without the wrapped causes.
pub data Error : Type 0 where
  invalid bound threshold_one single_loss presence locked authority proof halted store random :
      Error
  frost device encoding decoding storage lock_unavailable io_failed : Error

abbrev pub Digest : Type 0
Digest = ℕ

abbrev pub max_participants : ℕ
max_participants = 16

abbrev pub max_step_bytes : ℕ
max_step_bytes = 16384

abbrev pub max_records : ℕ
max_records = 256

-- A decoder over the unread bytes.
abbrev pub Reader {ℓ} : Type ℓ → Type ℓ
Reader A = Bytes → Result Error (A × Bytes)

abbrev pub reading {ℓ} : {A : Type ℓ} → Option (A × Bytes) → Result Error (A × Bytes)
reading (some r) = ok r
reading none = err decoding

module _ (x : External) where
  unfoldable pub hash : Bytes → Digest
  hash b = x.sha256 b

  -- `fn array`: a definite array of exactly this size
  unfoldable pub array : ℕ → Reader (Unit {0})
  array size b = elim (reading (x.read_array b)) [
    | err e ↦ err e
    | ok (some n, rest) ↦ if n == size then ok (tt, rest) else err invalid
    | ok (none, rest) ↦ err invalid
  ]

  -- `fn fixed::<N>`: a byte string of exactly `width` bytes
  unfoldable pub fixed : ℕ → Reader ℕ
  fixed width b = elim (reading (x.read_bytes b)) [
    | err e ↦ err e
    | ok (v, rest) ↦ if length v == width then ok (from_be_bytes v, rest) else err invalid
  ]

  -- `fn count`: a definite array of at most `maximum` entries
  unfoldable pub count : ℕ → Reader ℕ
  count maximum b = elim (reading (x.read_array b)) [
    | err e ↦ err e
    | ok (none, rest) ↦ err invalid
    | ok (some n, rest) ↦ if ltb maximum n then err bound else ok (n, rest)
  ]

-- `fn canonical`
unfoldable pub canonical : Bytes → Bytes → Result Error (Unit {0})
canonical input encoded = if list_eq input encoded then ok tt else err invalid
