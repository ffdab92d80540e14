-- ===== src/Hive/Revocation/Laws.antt =====
-- Revocations: what is signed verifies, and the codec is a canonical round trip.
use supgang.Base.{
  ℕ, ◌<◌, ◌≤◌, ◌^◌, ◌≡◌, ◌↔◌, refl, sym, true, false, [], ok, arith, Bytes, length, ◌==◌, ==_refl,
  >>=-inv, ltb, All, List, ◌∷◌,
}
use supgang.External.{External, IsCbor, IsSigning, fixed_item}
use supgang.Codec.{
  run_to_end, recoded-inv, recoded-same, read_envelope, read_fixed, envelope, is_empty,
  is_empty_iff,
}
use supgang.Codec.Steps
use supgang.Codec.Steps.{step-inv}
use supgang.Codec.Reads.{
  Reads, ◌⟨◌⟩◌, lift-Reads, returns-Reads, run_to_end-Reads, u16-Reads, u64-Reads, array-Reads,
  size-Reads, fixed-Reads, repeat-Reads, envelope-Reads,
}
use supgang.Hive.Ids.{hive_id, verify_domain, sign_domain, verify-sign_domain, length-sign_domain}
use supgang.Hive.Revocation.{
  RevocationList, SignedRevocationList, validate_shape, is_sorted, list_bytes, encode_list,
  encode_signed_revocations, sign, verify, domain, max_revoked_nodes, max_signed_revocation_bytes,
  decode, malformed, unsupported_version, non_canonical,
}
use supgang.Hive.Revocation.Read.{read_list}
use supgang.Hive.Revocation.Decode.{decode_list, decode_signed_revocations}

-- A snapshot whose fields fit their widths on the wire.
pub record IsSized (list : RevocationList) : Type 0 where
  pub hive : list.hive_id < 256 ^ 32
  pub serial : list.serial < 2 ^ 64
  pub issued : list.issued_at < 2 ^ 64
  pub nodes : All (λ node. node < 256 ^ 32) list.revoked_nodes

-- What the shape of a snapshot guarantees.
pub record IsShaped (list : RevocationList) : Type 0 where
  pub current : list.version ≡ 1
  pub bounded : length list.revoked_nodes ≤ max_revoked_nodes
  pub ordered : is_sorted list.revoked_nodes ≡ true
  pub numbered : (list.serial ≡ 0) ↔ (list.revoked_nodes ≡ [])

pub validate-IsShaped :
    (list : RevocationList) {u : Unit {0}} → validate_shape list ≡ ok u → IsShaped list
unfolding validate_shape
validate-IsShaped list h = record {
  current = ground arith;
  bounded = ground arith;
  ordered = ground arith;
  numbered = (
    ground (arith, is_empty_iff list.revoked_nodes),
    ground (arith, is_empty_iff list.revoked_nodes),
  );
}

module _ (x : External) where
  signed_fields :
      (list : RevocationList) (root : ℕ) {s : SignedRevocationList}
      → sign x list root ≡ ok s
      → (s.list ≡ list)
        × (s.signature ≡ sign_domain x root domain (list_bytes x list))
        × (validate_shape list ≡ ok tt)
        × (list.hive_id ≡ hive_id x (x.public_key root))
  unfolding sign encode_list
  signed_fields list root h = (ground arith, ground arith, ground arith, ground arith)

  -- A snapshot that the holder of a root key signs verifies under the public key.
  pub sign-verify :
      IsSigning x
      → (list : RevocationList) (root : ℕ) {s : SignedRevocationList} → sign x list root ≡ ok s
      → verify x s (x.public_key root) ≡ ok tt
  unfolding verify encode_list
  sign-verify signing list root {s} h =
      let (same, signature, shaped, hive) = signed_fields list root h in
      let hived : (list.hive_id == hive_id x (x.public_key root)) ≡ true =
        rw hive (==_refl (hive_id x (x.public_key root))) in
      let long : length s.signature ≡ 64 =
        rw signature (length-sign_domain x signing root domain (list_bytes x list)) in
      let signed : verify_domain x (x.public_key root) domain (list_bytes x list) s.signature
          ≡ true =
        rw signature (verify-sign_domain x signing root domain (list_bytes x list)) in
      rw (same, shaped, hived, long, signed) refl

  -- A snapshot that verifies was issued in the hive of the root key; it is sorted, names at most 256
  -- devices, and names none exactly if its serial is zero.
  pub verify-IsShaped :
      (s : SignedRevocationList) (root_key : ℕ)
      → verify x s root_key ≡ ok tt
      → IsShaped s.list × (s.list.hive_id ≡ hive_id x root_key)
  unfolding verify
  verify-IsShaped s root_key h =
      let (u, shaped, rest) = >>=-inv (validate_shape s.list) _ h in
      (validate-IsShaped s.list shaped, ground arith)

  -- A signed snapshot that decodes is encoded as the bytes that it was decoded from.
  pub decode_signed_revocations-canonical :
      (input : Bytes) {s : SignedRevocationList}
      → decode_signed_revocations x input ≡ ok s
      → encode_signed_revocations x s ≡ ok input
  unfolding decode_signed_revocations
  decode_signed_revocations-canonical input h =
      let (u, small, rest) = step-inv h in
      let (envelope, read, rest') = step-inv rest in
      let (w, wide, rest'') = step-inv rest' in
      let (list, decoded, last) = step-inv rest'' in
      (recoded-inv (encode_signed_revocations x) non_canonical input _ last).1

module _ (x : External) (cbor : IsCbor x) where
  nodes_read :
      (nodes : List ℕ)
      → All (λ node. node < 256 ^ 32) nodes
      → All (λ node. Reads (read_fixed x decode malformed 32) (fixed_item x 32 node) node) nodes
  nodes_read [] h = tt
  nodes_read (node ∷ rest) h =
      (fixed-Reads x cbor decode malformed 32 node h.0, nodes_read rest h.1)

  few :
      (list : RevocationList)
      → IsShaped list
      → ltb max_revoked_nodes (length list.revoked_nodes) ≡ false
  few list shaped = ground (arith, shaped.bounded)

  list-Reads :
      (list : RevocationList)
      → IsSized list
      → IsShaped list
      → Reads (read_list x) (list_bytes x list) list
  unfolding read_list
  list-Reads list sized shaped =
      array-Reads x cbor decode malformed 5 (omega arith)
      ⟨ _ ⟩ u16-Reads x cbor decode list.version (omega (arith, shaped.current))
      ⟨ _ ⟩ fixed-Reads x cbor decode malformed 32 list.hive_id sized.hive
      ⟨ _ ⟩ u64-Reads x cbor decode list.serial sized.serial
      ⟨ _ ⟩ u64-Reads x cbor decode list.issued_at sized.issued
      ⟨ _ ⟩
        size-Reads x cbor decode malformed (length list.revoked_nodes)
          (omega (arith, shaped.bounded))
      ⟨ _ ⟩ lift-Reads (rw (few list shaped) refl)
      ⟨ _ ⟩
        repeat-Reads (read_fixed x decode malformed 32) (fixed_item x 32) list.revoked_nodes
          (nodes_read list.revoked_nodes sized.nodes)
      ⟨ _ ⟩ returns-Reads _

  decode-encode_list :
      (list : RevocationList)
      → IsSized list
      → validate_shape list ≡ ok tt
      → decode_list x (list_bytes x list) ≡ ok list
  unfolding decode_list Steps.◌>>=◌ encode_list
  decode-encode_list list sized valid =
      let read =
        run_to_end-Reads malformed (list-Reads list sized (validate-IsShaped list valid)) in
      let written : encode_list x list ≡ ok (list_bytes x list) = rw valid refl in
      rw (read, valid, recoded-same (encode_list x) non_canonical (list_bytes x list) list written)
        refl

  encoded_facts :
      (s : SignedRevocationList) {output : Bytes}
      → encode_signed_revocations x s ≡ ok output
      → (ltb max_signed_revocation_bytes (length output) ≡ false)
        × ((length s.signature == 64) ≡ true)
        × (envelope x (list_bytes x s.list) s.signature ≡ output)
        × (validate_shape s.list ≡ ok tt)
  unfolding encode_signed_revocations encode_list
  encoded_facts s h = (ground arith, ground arith, ground arith, ground arith)

  -- A signed snapshot that is encoded decodes to itself, if its fields fit their widths, its bytes are
  -- not none, and the CBOR reader returns what the writer wrote.
  pub decode-encode_signed_revocations :
      (s : SignedRevocationList) {output : Bytes}
      → IsSized s.list
      → is_empty output ≡ false
      → encode_signed_revocations x s ≡ ok output
      → decode_signed_revocations x output ≡ ok s
  unfolding decode_signed_revocations Steps.◌>>=◌
  decode-encode_signed_revocations s {output} sized nonempty encoded =
      let (small, wide, written, valid) = encoded_facts s encoded in
      let payload = list_bytes x s.list in
      let read : run_to_end malformed (read_envelope x decode malformed unsupported_version) output
          ≡ ok (payload, s.signature) =
        rw (sym written) (
          run_to_end-Reads malformed
            (envelope-Reads x cbor decode malformed unsupported_version payload s.signature)) in
      rw
        (
          nonempty,
          small,
          read,
          wide,
          decode-encode_list s.list sized valid,
          recoded-same (encode_signed_revocations x) non_canonical output s encoded,
        )
        refl
