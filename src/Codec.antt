-- ===== src/Codec.antt =====
-- The strict codec that the records of a hive share: readers of the bytes that are left, a reader
-- run to the end of its input, and the comparison of what was read with its own encoding.
pub mod Reads
pub mod Steps
use supgang.Base.{
  ℕ, zero, suc, ◌≡◌, ◌↔◌, refl, ap, sym, ==_refl, Bool, true, false, not, List, [], ◌∷◌, ◌++◌,
  Option, none, some, Result, ok, err, ok_or, refuse_if, ◌==◌, ltb, if◌then◌else◌, list_eq,
  list_eq_iff, length, Bytes, from_be_bytes, to_be_bytes, from-to_be_bytes, length-to_be_bytes, All,
  map, arith, ◌<◌, ◌^◌,
}
use supgang.External.{External, items}

abbrev pub Reader {ℓ} : Type 0 → Type ℓ → Type ℓ
Reader Failure A = Bytes → Result Failure (A × Bytes)

infixl 5 ◌>>=◌ ◌>>◌
unfoldable pub ◌>>=◌ {ℓ κ} :
    {Failure : Type 0} {A : Type ℓ} {B : Type κ}
    → Reader Failure A
    → (A → Reader Failure B)
    → Reader Failure B
(m >>= f) input = elim (m input) [ err e ↦ err e | ok (a, rest) ↦ f a rest ]

abbrev pub ◌>>◌ {ℓ κ} :
    {Failure : Type 0} {A : Type ℓ} {B : Type κ}
    → Reader Failure A
    → Reader Failure B
    → Reader Failure B
m >> k = m >>= λ _. k

abbrev pub returns {ℓ} : {Failure : Type 0} {A : Type ℓ} → A → Reader Failure A
returns a input = ok (a, input)

-- A check that reads nothing.
unfoldable pub lift {ℓ} : {Failure : Type 0} {A : Type ℓ} → Result Failure A → Reader Failure A
lift (ok a) input = ok (a, input)
lift (err e) input = err e

-- `for _ in 0..n`
unfoldable pub repeat {ℓ} :
    {Failure : Type 0} {A : Type ℓ} → ℕ → Reader Failure A → Reader Failure (List A)
repeat zero m = returns []
repeat (suc n) m = m >>= λ a. repeat n m >>= λ rest. returns (a ∷ rest)

abbrev pub is_empty {ℓ} : {A : Type ℓ} → List A → Bool
is_empty [] = true
is_empty (a ∷ rest) = false

pub is_empty_iff {ℓ} : {A : Type ℓ} (xs : List A) → (is_empty xs ≡ true) ↔ (xs ≡ [])
is_empty_iff [] = (λ _. refl, λ _. refl)
is_empty_iff (a ∷ rest) = ground arith

-- A reader whose input must end where it stops: `decoder.position() != input.len()`.
unfoldable pub run_to_end {ℓ} :
    {Failure : Type 0} {A : Type ℓ} → Failure → Reader Failure A → Bytes → Result Failure A
run_to_end trailing m input = elim (m input) [
  | err e ↦ err e
  | ok (a, rest) ↦ if is_empty rest then ok a else err trailing
]

-- `map_err`
abbrev pub map_err {ℓ} :
    {Failure Other : Type 0} {A : Type ℓ} → (Failure → Other) → Result Failure A → Result Other A
map_err f (err e) = err (f e)
map_err f (ok a) = ok a

pub map_err-inv {ℓ} :
    {Failure Other : Type 0} {A : Type ℓ} (f : Failure → Other) (r : Result Failure A) {a : A}
    → map_err f r ≡ ok a
    → r ≡ ok a
map_err-inv f (err e) h = cc
map_err-inv f (ok a) h = cc

module _ (x : External) {Failure : Type 0} (malformed : Failure) where
  unfoldable pub read_u8 : Reader Failure ℕ
  read_u8 input = ok_or (x.read_u8 input) malformed

  unfoldable pub read_u16 : Reader Failure ℕ
  read_u16 input = ok_or (x.read_u16 input) malformed

  unfoldable pub read_u64 : Reader Failure ℕ
  read_u64 input = ok_or (x.read_u64 input) malformed

  unfoldable pub read_bytes : Reader Failure Bytes
  read_bytes input = ok_or (x.read_bytes input) malformed

  unfoldable pub read_str : Reader Failure Bytes
  read_str input = ok_or (x.read_str input) malformed

  -- an array's header; an indefinite one has its own error
  unfoldable pub read_size : Failure → Reader Failure ℕ
  read_size indefinite input = elim (x.read_array input) [
    | none ↦ err malformed
    | some (none, rest) ↦ err indefinite
    | some (some n, rest) ↦ ok (n, rest)
  ]

  -- `fn require_array`
  unfoldable pub require_array : Failure → ℕ → Reader Failure (Unit {0})
  require_array mismatch expected =
      read_size mismatch >>= λ n. lift (refuse_if (not (n == expected)) mismatch)

  -- `fn read_fixed::<N>`
  unfoldable pub read_fixed : Failure → ℕ → Reader Failure ℕ
  read_fixed mismatch width = read_bytes >>= λ b.
      if length b == width then returns (from_be_bytes b) else lift (err mismatch)

-- The envelope that a root signs: a version, a payload and a signature.
module _ (x : External) {Failure : Type 0} (decode malformed version_error : Failure) where
  unfoldable pub read_envelope : Reader Failure (Bytes × Bytes)
  read_envelope = do
    require_array x decode malformed 3
    version ← read_u16 x decode
    lift (refuse_if (not (version == 1)) version_error)
    payload ← read_bytes x decode
    signature ← read_bytes x decode
    returns (payload, signature)

-- `output` of an envelope
abbrev pub envelope : External → Bytes → Bytes → Bytes
envelope x payload signature =
    items (x.array 3 ∷ x.u16 1 ∷ x.bytes payload ∷ x.bytes signature ∷ [])

-- Re-encoding what was read must give the input back.
module _ {Failure : Type 0} {A : Type 0} (write : A → Result Failure Bytes)
    (mismatch : Failure) where
  unfoldable pub recoded : Bytes → A → Result Failure A
  recoded input a = elim (write a) [
    | err e ↦ err e
    | ok encoded ↦ if list_eq encoded input then ok a else err mismatch
  ]

  pub recoded-inv :
      (input : Bytes) (a : A) {v : A} → recoded input a ≡ ok v → (v ≡ a) × (write v ≡ ok input)
  unfolding recoded
  recoded-inv input a {v} h = given (write a) refl
    where
      given : (w : Result Failure Bytes) → write a ≡ w → (v ≡ a) × (write v ≡ ok input)
      given (err e) q = cc
      given (ok encoded) q = ground (arith, list_eq_iff encoded input)

  pub recoded-same : (input : Bytes) (a : A) → write a ≡ ok input → recoded input a ≡ ok a
  unfolding recoded
  recoded-same input a h = rw (recoded, h, (list_eq_iff input input).1 refl) refl
