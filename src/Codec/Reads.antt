-- ===== src/Codec/Reads.antt =====
-- Readers of what was written: a reader reads a value from its bytes, whatever follows them.
use supgang.Base.{
  ℕ, ◌≡◌, refl, ap, sym, subst, ==_refl, List, [], ◌∷◌, ◌++◌, Result, ok, Bytes, to_be_bytes,
  from-to_be_bytes, length-to_be_bytes, All, map, ◌<◌, ◌^◌, length, arith,
}
use supgang.External.{External, IsCbor, items}
use supgang.Codec.{
  Reader, ◌>>=◌, returns, lift, repeat, run_to_end, read_u8, read_u16, read_u64, read_bytes,
  read_str, read_size, require_array, read_fixed, read_envelope, envelope,
}

append_assoc : (a b c : Bytes) → (a ++ b) ++ c ≡ a ++ (b ++ c)
append_assoc [] b c = refl
append_assoc (n ∷ a) b c = ap (λ r. n ∷ r) (append_assoc a b c)

append_nil : (a : Bytes) → a ++ [] ≡ a
append_nil [] = refl
append_nil (n ∷ a) = ap (λ r. n ∷ r) (append_nil a)

-- A reader reads a value from its bytes, whatever follows them.
pub record Reads {ℓ} {Failure : Type 0} {A : Type ℓ} (m : Reader Failure A) (b : Bytes) (v : A)
    : Type ℓ where
  pub reads : (rest : Bytes) → m (b ++ rest) ≡ ok (v, rest)

module _ {ℓ κ} {Failure : Type 0} {A : Type ℓ} {B : Type κ} where
  bind-reads :
      (m : Reader Failure A) (f : A → Reader Failure B) (b c : Bytes) (a : A) (v : B) (rest : Bytes)
      → m (b ++ (c ++ rest)) ≡ ok (a, c ++ rest)
      → f a (c ++ rest) ≡ ok (v, rest)
      → (m >>= f) ((b ++ c) ++ rest) ≡ ok (v, rest)
  unfolding ◌>>=◌
  bind-reads m f b c a v rest p q = rw (append_assoc b c rest, ◌>>=◌, p) q

  -- One reader behind another.
  infixr 4 ◌⟨◌⟩◌
  pub ◌⟨◌⟩◌ :
      {m : Reader Failure A} {b c : Bytes} {a : A} {v : B}
      → Reads m b a
      → (f : A → Reader Failure B) → Reads (f a) c v
      → Reads (m >>= f) (b ++ c) v
  ◌⟨◌⟩◌ {m} {b} {c} {a} {v} p f q = record {
    reads = λ rest. bind-reads m f b c a v rest (p.reads (c ++ rest)) (q.reads rest);
  }

  pub map-Reads :
      {m : Reader Failure A} (g : A → B) {b : Bytes} {a : A}
      → Reads m b a
      → Reads (m >>= λ v. returns (g v)) b (g a)
  unfolding ◌>>=◌
  map-Reads g p = record { reads = λ rest. rw (◌>>=◌, p.reads rest) refl }

-- A check that passes takes no bytes.
pub lift-Reads {ℓ} :
    {Failure : Type 0} {A : Type ℓ} {r : Result Failure A} {a : A} → r ≡ ok a → Reads (lift r) [] a
unfolding lift
lift-Reads p = record { reads = λ rest. rw p refl }

pub returns-Reads {ℓ} :
    {Failure : Type 0} {A : Type ℓ} (a : A) → Reads {Failure = Failure} (returns a) [] a
returns-Reads a = record { reads = λ rest. refl }

pub trim-Reads {ℓ} :
    {Failure : Type 0} {A : Type ℓ} {m : Reader Failure A} (b : Bytes) {v : A}
    → Reads m (b ++ []) v
    → Reads m b v
trim-Reads {m} b {v} p = subst (λ c. Reads m c v) (append_nil b) p

run_read {ℓ} :
    {Failure : Type 0} {A : Type ℓ} (trailing : Failure) (m : Reader Failure A) (b : Bytes) (v : A)
    → m (b ++ []) ≡ ok (v, [])
    → run_to_end trailing m b ≡ ok v
unfolding run_to_end
run_read trailing m b v p =
    let q : m b ≡ ok (v, []) = rw (sym (append_nil b)) p in rw (run_to_end, q) refl

pub run_to_end-Reads {ℓ} :
    {Failure : Type 0} {A : Type ℓ} (trailing : Failure) {m : Reader Failure A} {b : Bytes} {v : A}
    → Reads m b v
    → run_to_end trailing m b ≡ ok v
run_to_end-Reads trailing {m} {b} {v} p = run_read trailing m b v (p.reads [])

module _ (x : External) (cbor : IsCbor x) {Failure : Type 0} (malformed : Failure) where
  pub u16-Reads : (n : ℕ) → n < 2 ^ 16 → Reads (read_u16 x malformed) (x.u16 n) n
  unfolding read_u16
  u16-Reads n h = record { reads = λ rest. rw (cbor.u16_read n rest h) refl }

  pub u8-Reads : (n : ℕ) → n < 2 ^ 8 → Reads (read_u8 x malformed) (x.u8 n) n
  unfolding read_u8
  u8-Reads n h = record { reads = λ rest. rw (cbor.u8_read n rest h) refl }

  pub u64-Reads : (n : ℕ) → n < 2 ^ 64 → Reads (read_u64 x malformed) (x.u64 n) n
  unfolding read_u64
  u64-Reads n h = record { reads = λ rest. rw (cbor.u64_read n rest h) refl }

  pub bytes-Reads : (b : Bytes) → Reads (read_bytes x malformed) (x.bytes b) b
  unfolding read_bytes
  bytes-Reads b = record { reads = λ rest. rw (cbor.bytes_read b rest) refl }

  pub str-Reads : (s : Bytes) → Reads (read_str x malformed) (x.str s) s
  unfolding read_str
  str-Reads s = record { reads = λ rest. rw (cbor.str_read s rest) refl }

  pub size-Reads :
      (indefinite : Failure) (n : ℕ)
      → n < 2 ^ 64
      → Reads (read_size x malformed indefinite) (x.array n) n
  unfolding read_size
  size-Reads indefinite n h = record {
    reads = λ rest. rw (read_size, cbor.array_read n rest h) refl;
  }

  pub array-Reads :
      (mismatch : Failure) (n : ℕ)
      → n < 2 ^ 64
      → Reads (require_array x malformed mismatch n) (x.array n) tt
  unfolding require_array ◌>>=◌ lift
  array-Reads mismatch n h = record {
    reads = λ rest. rw (require_array, ◌>>=◌, (size-Reads mismatch n h).reads rest, ==_refl n) refl;
  }

  pub fixed-Reads :
      (mismatch : Failure) (width n : ℕ)
      → n < 256 ^ width
      → Reads (read_fixed x malformed mismatch width) (x.bytes (to_be_bytes width n)) n
  unfolding read_fixed ◌>>=◌
  fixed-Reads mismatch width n h = record {
    reads = λ rest.
        rw
          (
            read_fixed,
            ◌>>=◌,
            (bytes-Reads (to_be_bytes width n)).reads rest,
            length-to_be_bytes width n,
            ==_refl width,
            from-to_be_bytes width n h,
          )
          refl;
  }

  pub envelope-Reads :
      (mismatch version_error : Failure) (payload signature : Bytes)
      → Reads
          (read_envelope x malformed mismatch version_error)
          (envelope x payload signature)
          (payload, signature)
  unfolding read_envelope
  envelope-Reads mismatch version_error payload signature =
      array-Reads mismatch 3 (omega arith)
      ⟨ _ ⟩ u16-Reads 1 (omega arith)
      ⟨ _ ⟩ lift-Reads refl
      ⟨ _ ⟩ bytes-Reads payload
      ⟨ _ ⟩ bytes-Reads signature
      ⟨ _ ⟩ returns-Reads _

-- A list, whose items are read one behind the other.
pub repeat-Reads :
    {Failure A : Type 0} (m : Reader Failure A) (write : A → Bytes) (values : List A)
    → All (λ a. Reads m (write a) a) values
    → Reads (repeat (length values) m) (items (map write values)) values
unfolding repeat
repeat-Reads m write [] h = returns-Reads []
repeat-Reads m write (a ∷ rest) h =
    h.0 ⟨ _ ⟩ map-Reads (λ others. a ∷ others) (repeat-Reads m write rest h.1)
