-- ===== src/Network/Tunnel/Laws.antt =====
-- Names on the wire, and what a change of the policy does.
use supgang.Base.{
  ℕ, zero, suc, ◌≡◌, ◌≤◌, refl, ap, true, false, not, List, [], ◌∷◌, ◌++◌, all, none, some, ok,
  ◌==◌, if◌then◌else◌, length, list_eq, list_eq_iff, Bytes, retain, Bool-cases, inl, inr, arith,
  refuse_if, >>=-inv,
}
use supgang.Codec.{map_err-inv}
use supgang.Hive.Record.{service_name, portable}
use supgang.Network.Tunnel.{
  Exposure, TunnelPolicy, find_port, port, set_exposures, set, pad_name, encoded_name, until_zero,
  zero_padded, decoded_name, has_other_name, pushed, as_name, bad_padding, is_zero,
}

named_bytes :
    (name : Bytes) {n : Bytes}
    → service_name name ≡ ok n
    → (n ≡ name) × (all portable name ≡ true) × (length name ≤ 16)
unfolding service_name
named_bytes name h = (ground arith, ground arith, ground arith)

until_zeros :
    (width : ℕ) → (until_zero (pad_name width []) ≡ []) × (all is_zero (pad_name width []) ≡ true)
unfolding until_zero pad_name
until_zeros zero = (refl, refl)
until_zeros (suc width) = (refl, ground (arith, until_zeros width))

zeros_padded : (width : ℕ) → zero_padded (pad_name width []) ≡ true
unfolding zero_padded pad_name
zeros_padded zero = refl
zeros_padded (suc width) = (until_zeros width).1

until-pad_name :
    (width : ℕ) (name : Bytes)
    → all portable name ≡ true
    → length name ≤ width
    → (until_zero (pad_name width name) ≡ name) × (zero_padded (pad_name width name) ≡ true)
unfolding until_zero pad_name zero_padded
until-pad_name width [] h l = ((until_zeros width).0, zeros_padded width)
until-pad_name zero (byte ∷ rest) h l = ground arith
until-pad_name (suc width) (byte ∷ rest) h l =
    let nonzero : (byte == 0) ≡ false = ground arith in
    let (kept, padded) = until-pad_name width rest (ground arith) (ground arith) in
    (rw (nonzero, kept) refl, rw nonzero padded)

all_zero :
    (width : ℕ) (rest : Bytes)
    → length rest ≡ width
    → all is_zero rest ≡ true
    → pad_name width [] ≡ rest
unfolding pad_name
all_zero zero [] l z = refl
all_zero zero (byte ∷ rest) l z = ground arith
all_zero (suc width) [] l z = ground arith
all_zero (suc width) (byte ∷ rest) l z =
    let none_left : byte ≡ 0 = ground arith in
    rw none_left (ap (λ more. 0 ∷ more) (all_zero width rest (ground arith) (ground arith)))

pad-until_zero :
    (width : ℕ) (bytes : Bytes)
    → length bytes ≡ width
    → zero_padded bytes ≡ true
    → pad_name width (until_zero bytes) ≡ bytes
unfolding until_zero pad_name zero_padded
pad-until_zero zero [] l z = refl
pad-until_zero zero (byte ∷ rest) l z = ground arith
pad-until_zero (suc width) [] l z = ground arith
pad-until_zero (suc width) (byte ∷ rest) l z = elim (Bool-cases (byte == 0)) [
  | inl y ↦
      let none_left : byte ≡ 0 = ground arith in
      rw (y, none_left) (ap (λ more. 0 ∷ more) (all_zero width rest (ground arith) (ground arith)))
  | inr n ↦
      rw n (ap (λ more. byte ∷ more) (pad-until_zero width rest (ground arith) (ground arith)))
]

-- A service name is decoded from its padded form, and sixteen bytes that decode are the padded form of
-- the name that they decode to: a name has one encoding.
pub decoded-encoded_name :
    (name bytes : Bytes) {n : Bytes}
    → service_name name ≡ ok name
    → length bytes ≡ 16
    → decoded_name bytes ≡ ok n
    → (decoded_name (encoded_name name) ≡ ok name) × (encoded_name n ≡ bytes)
unfolding decoded_name encoded_name
decoded-encoded_name name bytes valid wide h =
    let (u, padded, rest) = >>=-inv (refuse_if (not (zero_padded bytes)) bad_padding) _ h in
    let known = map_err-inv as_name (service_name (until_zero bytes)) rest in
    let (same, portable_bytes, short) = named_bytes name valid in
    let (text, tail) = until-pad_name 16 name portable_bytes short in
    (
      rw (tail, text, valid) refl,
      rw ((named_bytes (until_zero bytes) known).0) (pad-until_zero 16 bytes wide (ground arith)),
    )

changed_port :
    (name other : Bytes) (number : ℕ) (entries : List Exposure)
    → find_port other (retain (has_other_name name) entries ++ pushed name number) ≡ (
        if list_eq name other
        then (if number == 0 then none else some number)
        else find_port other entries)
unfolding find_port
changed_port name other number [] = ground arith
changed_port name other number (entry ∷ rest) = ground (
  arith,
  changed_port name other number rest,
  list_eq_iff entry.name name,
  list_eq_iff entry.name other,
  list_eq_iff name other,
)

-- After a change of a policy the changed name has the new port, or none if the port is zero, and every
-- other name has the port that it had.
pub port-set :
    (p : TunnelPolicy) (name other : Bytes) (number : ℕ)
    → port (set p name number).1 other
      ≡ (if list_eq name other then (if number == 0 then none else some number) else port p other)
unfolding set set_exposures
port-set p name other number = changed_port name other number p.exposures
