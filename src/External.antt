-- ===== src/External.antt =====
-- What the program calls and does not implement: the CBOR writer and reader of `minicbor`,
-- `sha2`, strict Ed25519 verification, the FROST deserializers and P-256. Each stands as a field,
-- and `IsCbor` holds the documented law that the reader returns what the writer wrote,
-- `IsSigning` that a signature verifies under the public key of its signer.
-- A byte array of fixed width is the number that it spells, a text the list of its bytes.
use supgang.Base.{
  ℕ, ◌<◌, ◌^◌, ◌≡◌, Bool, List, [], ◌∷◌, ◌++◌, Option, some, Bytes, to_be_bytes, from_be_bytes,
  length, true,
}

pub record External : Type 0 where
  -- minicbor::Encoder
  pub array : ℕ → Bytes
  pub u8 : ℕ → Bytes
  pub u16 : ℕ → Bytes
  pub u64 : ℕ → Bytes
  pub bytes : Bytes → Bytes
  pub str : Bytes → Bytes
  pub null : Bytes
  -- minicbor::Decoder: the value and the unread rest, or an error; an array's length is absent
  -- where it is indefinite
  pub read_array : Bytes → Option (Option ℕ × Bytes)
  pub read_u8 : Bytes → Option (ℕ × Bytes)
  pub read_u16 : Bytes → Option (ℕ × Bytes)
  pub read_u64 : Bytes → Option (ℕ × Bytes)
  pub read_bytes : Bytes → Option (Bytes × Bytes)
  pub read_str : Bytes → Option (Bytes × Bytes)
  -- sha2::Sha256
  pub sha256 : Bytes → ℕ
  -- ed25519_dalek: the public key of a secret one and its signatures; a key that decodes, a weak
  -- key, `verify_strict`
  pub public_key : ℕ → ℕ
  pub sign : ℕ → Bytes → Bytes
  pub ed25519_key : ℕ → Bool
  pub is_weak : ℕ → Bool
  pub verify_strict : ℕ → Bytes → ℕ → Bool
  -- frost_ed25519: `VerifyingShare::deserialize` and `VerifyingKey::deserialize`
  pub frost_share : ℕ → Bool
  pub frost_key : ℕ → Bool
  -- p256: a compressed point on the curve, a low-s signature, `verify_prehash`
  pub p256_point : ℕ → Bool
  pub p256_signature : ℕ → Bool
  pub p256_verify : ℕ → ℕ → ℕ → Bool

-- What an encoder has written: its items, one behind the other.
abbrev pub items : List Bytes → Bytes
items [] = []
items (b ∷ bs) = b ++ items bs

-- a byte string of fixed width
abbrev pub fixed_item : External → ℕ → ℕ → Bytes
fixed_item x width n = x.bytes (to_be_bytes width n)

-- A definite item that was written is read back, whatever follows it.
pub record IsCbor (x : External) : Type 0 where
  pub array_read :
      (n : ℕ) (rest : Bytes) → n < 2 ^ 64 → x.read_array (x.array n ++ rest) ≡ some (some n, rest)
  pub u8_read : (n : ℕ) (rest : Bytes) → n < 2 ^ 8 → x.read_u8 (x.u8 n ++ rest) ≡ some (n, rest)
  pub u16_read : (n : ℕ) (rest : Bytes) → n < 2 ^ 16 → x.read_u16 (x.u16 n ++ rest) ≡ some (n, rest)
  pub u64_read : (n : ℕ) (rest : Bytes) → n < 2 ^ 64 → x.read_u64 (x.u64 n ++ rest) ≡ some (n, rest)
  pub bytes_read : (b rest : Bytes) → x.read_bytes (x.bytes b ++ rest) ≡ some (b, rest)
  pub str_read : (s rest : Bytes) → x.read_str (x.str s ++ rest) ≡ some (s, rest)

-- What a secret key signs verifies under its public key.
pub record IsSigning (x : External) : Type 0 where
  pub verified :
      (secret : ℕ) (message : Bytes)
      → x.verify_strict (x.public_key secret) message (from_be_bytes (x.sign secret message)) ≡ true
  pub width : (secret : ℕ) (message : Bytes) → length (x.sign secret message) ≡ 64
