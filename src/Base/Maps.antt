-- ===== src/Base/Maps.antt =====
-- `BTreeMap` with keys of a fixed number of bytes, read as numbers: an association list in key
-- order. A `BTreeSet` is a map to the unit type.
use Prim.Native.Nat.{ℕ, ◌+◌, ◌≤◌, ◌<◌}
use mathlib.Core.Path.{◌≡◌, refl, subst}
use mathlib.Core.Bool.{Bool, true}
use mathlib.Core.List.{List, [], ◌∷◌}
use mathlib.Core.Option.{Option, none, some}
use native.Mathlib.Omega.{arith}
use mathlib.Core.Logic.{inl, inr}
use supgang.Base.Tests.{Bool-cases, ltb, ◌==◌, if◌then◌else◌, is_some}
use supgang.Base.Lists.{length}

abbrev pub Map {ℓ} : Type ℓ → Type ℓ
Map V = List (ℕ × V)

module _ {ℓ} {V : Type ℓ} where
  unfoldable pub lookup : ℕ → Map V → Option V
  lookup key [] = none
  lookup key ((first, value) ∷ others) = if first == key then some value else lookup key others

  -- an entry of the same key is replaced, a new one goes before the first larger key
  unfoldable pub insert : ℕ → V → Map V → Map V
  insert key value [] = (key, value) ∷ []
  insert key value ((first, old) ∷ others) =
      if ltb key first
      then (key, value) ∷ (first, old) ∷ others
      else if first == key
      then (key, value) ∷ others
      else (first, old) ∷ insert key value others

  unfoldable pub remove : ℕ → Map V → Map V
  remove key [] = []
  remove key ((first, value) ∷ others) =
      let rest = remove key others in if first == key then rest else (first, value) ∷ rest

  abbrev pub contains_key : ℕ → Map V → Bool
  contains_key key entries = is_some (lookup key entries)

  pub lookup-insert :
      (key other : ℕ) (value : V) (entries : Map V)
      → lookup other (insert key value entries)
        ≡ (if key == other then some value else lookup other entries)
  unfolding lookup insert
  lookup-insert key other value [] = refl
  lookup-insert key other value ((first, old) ∷ entries) =
      ground (arith, lookup-insert key other value entries)

  pub lookup-remove :
      (key other : ℕ) (entries : Map V)
      → lookup other (remove key entries) ≡ (if key == other then none else lookup other entries)
  unfolding lookup remove
  lookup-remove key other [] = ground arith
  lookup-remove key other ((first, old) ∷ entries) = ground (arith, lookup-remove key other entries)

  pub length-insert : (k : ℕ) (v : V) (m : Map V) → length (insert k v m) ≤ length m + 1
  unfolding insert
  length-insert k v [] = omega arith
  length-insert k v ((j, w) ∷ m) = ground (arith, length-insert k v m)

  pub length-remove : (k : ℕ) (m : Map V) → length (remove k m) ≤ length m
  unfolding remove
  length-remove k [] = omega arith
  length-remove k ((j, w) ∷ m) = ground (arith, length-remove k m)

  pub length-remove_found :
      (k : ℕ) (m : Map V) → contains_key k m ≡ true → length (remove k m) < length m
  unfolding remove lookup
  length-remove_found k [] h = ground arith
  length-remove_found k ((j, w) ∷ m) h = ground (arith, length-remove_found k m, length-remove k m)

  -- What an insertion adds to a property of all entries, which may speak of the key.
  pub lookup-insert_each {κ} :
      (P : ℕ → V → Type κ) (k : ℕ) (v : V) (m : Map V)
      → P k v
      → ((j : ℕ) (w : V) → lookup j m ≡ some w → P j w)
      → (j : ℕ) (w : V) → lookup j (insert k v m) ≡ some w
      → P j w
  lookup-insert_each P k v m p h j w e = elim (Bool-cases (k == j)) [
    | inl y ↦
        let i : k ≡ j = ground arith in
        let q : v ≡ w = ground (arith, lookup-insert k j v m) in
        subst (λ n. P n w) i (subst (P k) q p)
    | inr n ↦ h j w (ground (arith, lookup-insert k j v m))
  ]

  pub lookup-insert_all {κ} :
      (P : V → Type κ) (k : ℕ) (v : V) (m : Map V)
      → P v
      → ((j : ℕ) (w : V) → lookup j m ≡ some w → P w)
      → (j : ℕ) (w : V) → lookup j (insert k v m) ≡ some w
      → P w
  lookup-insert_all P k v m = lookup-insert_each (λ j w. P w) k v m

  -- What a removal leaves of one.
  pub lookup-remove_each {κ} :
      (P : ℕ → V → Type κ) (k : ℕ) (m : Map V)
      → ((j : ℕ) (w : V) → lookup j m ≡ some w → P j w)
      → (j : ℕ) (w : V) → lookup j (remove k m) ≡ some w
      → P j w
  lookup-remove_each P k m h j w e = h j w (ground (arith, lookup-remove k j m))

  -- A removed key is gone, and no other key appears.
  pub lookup-remove-some :
      (k j : ℕ) (w : V) (m : Map V) → lookup j (remove k m) ≡ some w → lookup j m ≡ some w
  lookup-remove-some k j w m e = ground (arith, lookup-remove k j m)
