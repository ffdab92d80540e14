-- ===== src/Threshold/Step/Laws.antt =====
-- Root steps on the wire: what the encoder writes is read back.
use supgang.Base.{
  ℕ, ◌<◌, ◌^◌, ◌≡◌, refl, [], ◌∷◌, ◌++◌, ok, >>=-inv, refuse_if, ltb, ◌==◌, ◌||◌, ==_refl, length,
  false, Bytes, list_eq_iff, to_be_bytes, from-to_be_bytes, length-to_be_bytes, arith, sym, subst,
}
use supgang.External.{External, IsCbor}
use supgang.Threshold.{array, fixed, canonical, items, fixed_item, max_step_bytes, bound}
use supgang.Threshold.Reading.{◌>>=◌, ◌>>◌, run}
use supgang.Threshold.Records.{RootStep, operation_text, operation-parse-text}
use supgang.Threshold.Grant.Decode.{validate_step}
use supgang.Threshold.Step.{encode}
use supgang.Threshold.Step.Decode.{read_step, decode_step}

-- A step whose fields fit their widths on the wire.
pub record IsSized (s : RootStep) : Type 0 where
  pub ids : (s.hive < 256 ^ 32) × (s.predecessor < 256 ^ 32) × (s.proposer < 256 ^ 32)
  pub counters : (s.sequence < 2 ^ 64) × (s.epoch < 2 ^ 64) × (s.recovery_gen < 2 ^ 64)
  pub time : s.proposed_at < 2 ^ 64

-- The items of a step.
abbrev step_items : External → RootStep → Bytes
step_items x s = items (
    x.array 10
    ∷ x.u8 1
    ∷ fixed_item x 32 s.hive
    ∷ fixed_item x 32 s.predecessor
    ∷ x.u64 s.sequence
    ∷ x.u64 s.epoch
    ∷ x.u64 s.recovery_gen
    ∷ x.str (operation_text s.operation)
    ∷ x.bytes s.payload
    ∷ x.u64 s.proposed_at
    ∷ fixed_item x 32 s.proposer
    ∷ [])

module _ (x : External) (cbor : IsCbor x) where
  array_reads : (n : ℕ) (rest : Bytes) → n < 2 ^ 64 → array x n (x.array n ++ rest) ≡ ok (tt, rest)
  unfolding array
  array_reads n rest h = rw (array, cbor.array_read n rest h, ==_refl n) refl

  fixed_reads :
      (width n : ℕ) (rest : Bytes)
      → n < 256 ^ width
      → fixed x width (fixed_item x width n ++ rest) ≡ ok (n, rest)
  unfolding fixed
  fixed_reads width n rest h =
      rw
        (
          fixed,
          cbor.bytes_read (to_be_bytes width n) rest,
          length-to_be_bytes width n,
          ==_refl width,
          from-to_be_bytes width n h,
        )
        refl

  read_step-items : (s : RootStep) → IsSized s → read_step x (step_items x s) ≡ ok (s, [])
  unfolding read_step
  read_step-items s z =
      let r10 = fixed_item x 32 s.proposer ++ [] in
      let r9 = x.u64 s.proposed_at ++ r10 in
      let r8 = x.bytes s.payload ++ r9 in
      let r7 = x.str (operation_text s.operation) ++ r8 in
      let r6 = x.u64 s.recovery_gen ++ r7 in
      let r5 = x.u64 s.epoch ++ r6 in
      let r4 = x.u64 s.sequence ++ r5 in
      let r3 = fixed_item x 32 s.predecessor ++ r4 in
      let r2 = fixed_item x 32 s.hive ++ r3 in
      rw
        (
          read_step,
          ◌>>◌,
          ◌>>=◌,
          array_reads 10 (x.u8 1 ++ r2) (omega arith),
          cbor.u8_read 1 r2 (omega arith),
          fixed_reads 32 s.hive r3 z.ids.0,
          fixed_reads 32 s.predecessor r4 z.ids.1,
          cbor.u64_read s.sequence r5 z.counters.0,
          cbor.u64_read s.epoch r6 z.counters.1,
          cbor.u64_read s.recovery_gen r7 z.counters.2,
          cbor.str_read (operation_text s.operation) r8,
          operation-parse-text s.operation,
          cbor.bytes_read s.payload r9,
          cbor.u64_read s.proposed_at r10 z.time,
          fixed_reads 32 s.proposer [] z.ids.2,
        )
        refl

  encoded_facts :
      (s : RootStep) {b : Bytes}
      → encode x s ≡ ok b
      → (b ≡ step_items x s) × (ltb max_step_bytes (length (step_items x s)) ≡ false)
  unfolding encode
  encoded_facts s h =
      let (u, few, rest) =
        >>=-inv (refuse_if (s.sequence == 0 || ltb 12288 (length s.payload)) bound) _ h in
      let (u', valid, last) = >>=-inv (validate_step x s) _ rest in (ground arith, ground arith)

  -- A step that is encoded decodes to itself, if its fields fit their widths and the CBOR reader
  -- returns what the writer wrote.
  pub decode-encode_step :
      (s : RootStep) {b : Bytes} → IsSized s → encode x s ≡ ok b → decode_step x b ≡ ok s
  unfolding decode_step canonical
  decode-encode_step s {b} z h =
      let (same, small) = encoded_facts s h in
      let items : Bytes = step_items x s in
      let written : encode x s ≡ ok items = rw (sym same) h in
      let canon : canonical items items ≡ ok tt =
        rw (canonical, (list_eq_iff items items).1 refl) refl in
      let decoded : decode_step x items ≡ ok s =
        rw (decode_step, small, run, ◌>>=◌, read_step-items s z, written, ◌>>◌, canon) refl in
      subst (λ c. decode_step x c ≡ ok s) (sym same) decoded
