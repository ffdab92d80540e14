-- ===== src/Base/Keys.antt =====
-- Maps in key order: a key that stands in a map stands there once.
use Prim.Native.Nat.{ℕ, ◌<◌}
use mathlib.Core.Path.{◌≡◌, refl, subst}
use mathlib.Core.List.{[], ◌∷◌}
use mathlib.Core.Bool.{true}
use mathlib.Core.Option.{none}
use native.Mathlib.Omega.{arith}
use supgang.Base.Maps.{Map, lookup, insert, remove, contains_key}
use supgang.Base.Lists.{length}

module _ {ℓ} {V : Type ℓ} where
  -- every key is larger than this one
  abbrev pub IsAbove : ℕ → Map V → Type 0
  IsAbove low [] = Unit
  IsAbove low ((key, value) ∷ rest) = (low < key) × IsAbove low rest

  abbrev pub IsOrdered : Map V → Type 0
  IsOrdered [] = Unit
  IsOrdered ((key, value) ∷ rest) = IsAbove key rest × IsOrdered rest

  IsAbove-trans : (low high : ℕ) (m : Map V) → low < high → IsAbove high m → IsAbove low m
  IsAbove-trans low high [] l a = tt
  IsAbove-trans low high ((key, value) ∷ rest) l a =
      (omega (arith, a.0), IsAbove-trans low high rest l a.1)

  pub lookup-IsAbove : (low : ℕ) (m : Map V) → IsAbove low m → lookup low m ≡ none
  unfolding lookup
  lookup-IsAbove low [] a = refl
  lookup-IsAbove low ((key, value) ∷ rest) a = ground (arith, a.0, lookup-IsAbove low rest a.1)

  insert-IsAbove :
      (low key : ℕ) (value : V) (m : Map V)
      → low < key
      → IsAbove low m
      → IsAbove low (insert key value m)
  unfolding insert
  insert-IsAbove low key value [] l a = (l, tt)
  insert-IsAbove low key value ((first, old) ∷ rest) l a =
      ground (arith, l, a, insert-IsAbove low key value rest l a.1)

  pub insert-IsOrdered :
      (key : ℕ) (value : V) (m : Map V) → IsOrdered m → IsOrdered (insert key value m)
  unfolding insert
  insert-IsOrdered key value [] o = (tt, tt)
  insert-IsOrdered key value ((first, old) ∷ rest) o =
      let before : key < first → IsAbove key rest = λ l. IsAbove-trans key first rest l o.0 in
      let behind : first < key → IsAbove first (insert key value rest) =
        λ l. insert-IsAbove first key value rest l o.0 in
      let same : first ≡ key → IsAbove key rest = λ e. subst (λ k. IsAbove k rest) e o.0 in
      ground (arith, before, behind, same, o, insert-IsOrdered key value rest o.1)

  remove-IsAbove : (low key : ℕ) (m : Map V) → IsAbove low m → IsAbove low (remove key m)
  unfolding remove
  remove-IsAbove low key [] a = tt
  remove-IsAbove low key ((first, old) ∷ rest) a =
      ground (arith, a, remove-IsAbove low key rest a.1)

  pub remove-IsOrdered : (key : ℕ) (m : Map V) → IsOrdered m → IsOrdered (remove key m)
  unfolding remove
  remove-IsOrdered key [] o = tt
  remove-IsOrdered key ((first, old) ∷ rest) o =
      ground (arith, remove-IsAbove first key rest o.0, remove-IsOrdered key rest o.1)

  -- The entry of a key that stands in a map is replaced.
  pub length-insert_found :
      (key : ℕ) (value : V) (m : Map V)
      → IsOrdered m
      → contains_key key m ≡ true
      → length (insert key value m) ≡ length m
  unfolding insert lookup
  length-insert_found key value [] o found = cc
  length-insert_found key value ((first, old) ∷ rest) o found =
      let absent : key < first → lookup key rest ≡ none =
        λ l. lookup-IsAbove key rest (IsAbove-trans key first rest l o.0) in
      let shorter : contains_key key rest ≡ true → length (insert key value rest) ≡ length rest =
        λ h. length-insert_found key value rest o.1 h in
      ground (arith, absent, shorter, found)
