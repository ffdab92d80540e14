-- ===== src/Threshold/Canonical.antt =====
-- Canonical decoding: what a threshold decoder accepts is byte for byte what the encoder writes for
-- the value that it returns, so no value has two encodings.
use supgang.Base.{
  ◌≡◌, refl, Result, ok, err, Bytes, list_eq_iff, ltb, length, arith, Bool-cases, inl, inr,
}
use supgang.External.{External}
use supgang.Threshold.{Error, Reader, max_step_bytes, canonical}
use supgang.Threshold.Reading.{◌>>=◌, ◌>>◌, returns, lift, run}
use supgang.Threshold.Records.{RootStep}
use supgang.Threshold.Step.{encode as encode_step}
use supgang.Threshold.Step.Decode.{decode_step, read_step}
use supgang.Threshold.Grant.{Grant, Revocation, encode as encode_grant, encode_revocation}
use supgang.Threshold.Grant.Decode.{decode_grant, read_grant, decode_revocation, read_revocation}
use supgang.Threshold.Founding.{GroupDescriptor, RecoveryDescriptor, encode_group, encode_recovery}
use supgang.Threshold.Founding.Decode.{decode_group, read_group, decode_recovery, read_recovery}
use supgang.Threshold.Regroup.{Succession, encode as encode_succession}
use supgang.Threshold.Regroup.Decode.{decode_succession, read_succession}
use supgang.Threshold.Renewal.{
  Policy, SignedPolicy, Ledger, encode_policy, encode_signed_policy, encode_ledger,
}
use supgang.Threshold.Renewal.Decode.{
  read_policy, read_signed_policy, read_ledger, decode_policy, decode_signed_policy, decode_ledger,
}

canonical_same : (b e : Bytes) {u : Unit {0}} → canonical b e ≡ ok u → b ≡ e
unfolding canonical
canonical_same b e h = ground (arith, list_eq_iff b e)

abbrev read_as : {A : Type 0} → Result Error (A × Bytes) → Reader A
read_as r b = r

-- The end that the decoders share: encode what was read, compare, and return it.
module _ {A : Type 0} (write : A → Result Error Bytes) (b : Bytes) where
  compared :
      (a : A) (rest e : Bytes) (t : Result Error (Unit {0}))
      → canonical b e ≡ t
      → write a ≡ ok e
      → {v : A} → run (lift t >> returns a) rest ≡ ok v
      → write v ≡ ok b
  compared a rest e (err e') p q h = cc
  compared a rest e (ok u) p q h = let s : b ≡ e = canonical_same b e p in ground arith

  written :
      (a : A) (rest : Bytes) (w : Result Error Bytes)
      → write a ≡ w
      → {v : A} → run (do encoded ← lift w; lift (canonical b encoded); returns a) rest ≡ ok v
      → write v ≡ ok b
  written a rest (err e) q h = cc
  written a rest (ok e) q h = compared a rest e (canonical b e) refl q h

  checked :
      (r : Result Error (A × Bytes)) {v : A}
      → run (do a ← read_as r; encoded ← lift (write a); lift (canonical b encoded); returns a) b
        ≡ ok v
      → write v ≡ ok b
  checked (err e) h = cc
  checked (ok (a, rest)) h = written a rest (write a) refl h

module _ (x : External) where
  -- A root step that decodes is encoded as the bytes that it was decoded from.
  pub decode_step-canonical :
      (b : Bytes) {s : RootStep} → decode_step x b ≡ ok s → encode_step x s ≡ ok b
  unfolding decode_step
  decode_step-canonical b h = elim (Bool-cases (ltb max_step_bytes (length b))) [
    | inl o ↦ ground arith
    | inr o ↦ checked (encode_step x) b (read_step x b) (ground arith)
  ]

  -- A grant that decodes is encoded as the bytes that it was decoded from.
  pub decode_grant-canonical :
      (b : Bytes) {v : Grant} → decode_grant x b ≡ ok v → encode_grant x v ≡ ok b
  unfolding decode_grant
  decode_grant-canonical b h = elim (Bool-cases (ltb 12288 (length b))) [
    | inl o ↦ ground arith
    | inr o ↦ checked (encode_grant x) b (read_grant x b) (ground arith)
  ]

  -- A revocation that decodes is encoded as the bytes that it was decoded from.
  pub decode_revocation-canonical :
      (b : Bytes) {v : Revocation} → decode_revocation x b ≡ ok v → encode_revocation x v ≡ ok b
  unfolding decode_revocation
  decode_revocation-canonical b h = elim (Bool-cases (ltb 256 (length b))) [
    | inl o ↦ ground arith
    | inr o ↦ checked (encode_revocation x) b (read_revocation x b) (ground arith)
  ]

  -- A group descriptor that decodes is encoded as the bytes that it was decoded from.
  pub decode_group-canonical :
      (b : Bytes) {v : GroupDescriptor} → decode_group x b ≡ ok v → encode_group x v ≡ ok b
  unfolding decode_group
  decode_group-canonical b h = elim (Bool-cases (ltb 4096 (length b))) [
    | inl o ↦ ground arith
    | inr o ↦ checked (encode_group x) b (read_group x b) (ground arith)
  ]

  -- A recovery descriptor that decodes is encoded as the bytes that it was decoded from.
  pub decode_recovery-canonical :
      (b : Bytes) {v : RecoveryDescriptor} → decode_recovery x b ≡ ok v → encode_recovery x v ≡ ok b
  unfolding decode_recovery
  decode_recovery-canonical b h = elim (Bool-cases (ltb 4200 (length b))) [
    | inl o ↦ ground arith
    | inr o ↦ checked (encode_recovery x) b (read_recovery x b) (ground arith)
  ]

  -- A succession that decodes is encoded as the bytes that it was decoded from.
  pub decode_succession-canonical :
      (b : Bytes) {v : Succession} → decode_succession x b ≡ ok v → encode_succession x v ≡ ok b
  unfolding decode_succession
  decode_succession-canonical b h = elim (Bool-cases (ltb 12288 (length b))) [
    | inl o ↦ ground arith
    | inr o ↦ checked (encode_succession x) b (read_succession x b) (ground arith)
  ]

  -- A renewal policy that decodes is encoded as the bytes that it was decoded from.
  pub decode_policy-canonical :
      (b : Bytes) {v : Policy} → decode_policy x b ≡ ok v → encode_policy x v ≡ ok b
  unfolding decode_policy
  decode_policy-canonical b h = elim (Bool-cases (ltb 256 (length b))) [
    | inl o ↦ ground arith
    | inr o ↦ checked (encode_policy x) b (read_policy x b) (ground arith)
  ]

  -- A signed renewal policy that decodes is encoded as the bytes that it was decoded from.
  pub decode_signed_policy-canonical :
      (b : Bytes) {v : SignedPolicy}
      → decode_signed_policy x b ≡ ok v
      → encode_signed_policy x v ≡ ok b
  unfolding decode_signed_policy
  decode_signed_policy-canonical b h = elim (Bool-cases (ltb 384 (length b))) [
    | inl o ↦ ground arith
    | inr o ↦ checked (encode_signed_policy x) b (read_signed_policy x b) (ground arith)
  ]

  -- A ledger that decodes is encoded as the bytes that it was decoded from.
  pub decode_ledger-canonical :
      (b : Bytes) {v : Ledger} → decode_ledger x b ≡ ok v → encode_ledger x v ≡ ok b
  unfolding decode_ledger
  decode_ledger-canonical b h = elim (Bool-cases (ltb 256 (length b))) [
    | inl o ↦ ground arith
    | inr o ↦ checked (encode_ledger x) b (read_ledger x b) (ground arith)
  ]
