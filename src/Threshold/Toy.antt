-- ===== src/Threshold/Toy.antt =====
-- A small instance of the code that the program calls, to run the model on concrete records: one
-- byte per number, a length before each string, a checksum for a hash, and the key as a signature.
use supgang.Base.{
  ℕ, zero, suc, ◌+◌, ◌*◌, ◌%◌, true, false, [], ◌∷◌, ◌++◌, ◌≡◌, refl, Option, none, some, Bytes,
  ◌==◌, ==_refl, length, to_be_bytes, from_be_bytes, arith,
}
use supgang.External.{External, IsCbor, IsSigning}

unfoldable pub checksum : ℕ → Bytes → ℕ
checksum acc [] = acc
checksum acc (b ∷ bs) = checksum ((acc * 31 + b) % 4294967296) bs

abbrev pop : Bytes → Option (ℕ × Bytes)
pop [] = none
pop (b ∷ bs) = some (b, bs)

abbrev pop_size : Bytes → Option (Option ℕ × Bytes)
pop_size [] = none
pop_size (b ∷ bs) = some (some b, bs)

abbrev push : ℕ → Option (Bytes × Bytes) → Option (Bytes × Bytes)
push b none = none
push b (some (l, r)) = some (b ∷ l, r)

unfoldable pub split : ℕ → Bytes → Option (Bytes × Bytes)
split zero bs = some ([], bs)
split (suc n) [] = none
split (suc n) (b ∷ bs) = push b (split n bs)

unfoldable pub pop_string : Bytes → Option (Bytes × Bytes)
pop_string [] = none
pop_string (n ∷ bs) = split n bs

abbrev pub toy : External
toy = record {
  array = λ n. n ∷ [];
  u8 = λ n. n ∷ [];
  u16 = λ n. n ∷ [];
  u64 = λ n. n ∷ [];
  bytes = λ b. length b ∷ b;
  str = λ b. length b ∷ b;
  null = 0 ∷ [];
  read_array = pop_size;
  read_u8 = pop;
  read_u16 = pop;
  read_u64 = pop;
  read_bytes = pop_string;
  read_str = pop_string;
  sha256 = checksum 7;
  public_key = λ k. k;
  sign = λ k message. to_be_bytes 63 0 ++ (k ∷ []);
  ed25519_key = λ k. true;
  is_weak = λ k. false;
  verify_strict = λ key message signature. key == signature;
  frost_share = λ k. true;
  frost_key = λ k. true;
  p256_point = λ k. true;
  p256_signature = λ s. true;
  p256_verify = λ key digest signature. key == signature;
}

split_append : (b rest : Bytes) → split (length b) (b ++ rest) ≡ some (b, rest)
unfolding split
split_append [] rest = refl
split_append (c ∷ b) rest = rw (split_append b rest) refl

pub toy-IsCbor : IsCbor toy
unfolding pop_string
toy-IsCbor = record {
  array_read = λ n rest h. refl;
  u8_read = λ n rest h. refl;
  u16_read = λ n rest h. refl;
  u64_read = λ n rest h. refl;
  bytes_read = split_append;
  str_read = split_append;
}

toy_signed : (k : ℕ) → from_be_bytes (to_be_bytes 63 0 ++ (k ∷ [])) ≡ k
unfolding from_be_bytes to_be_bytes
toy_signed k = omega arith

pub toy-IsSigning : IsSigning toy
unfolding to_be_bytes
toy-IsSigning = record {
  verified = λ k message. rw (toy_signed k) (==_refl k);
  width = λ k message. refl;
}
