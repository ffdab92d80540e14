-- ===== src/Base/Entries.antt =====
-- A property of every entry of a map.
use Prim.Native.Nat.{ℕ}
use mathlib.Core.Path.{◌≡◌, subst}
use mathlib.Core.List.{[], ◌∷◌}
use mathlib.Core.Option.{some}
use mathlib.Core.Logic.{inl, inr}
use supgang.Base.Tests.{Bool-cases, ◌==◌}
use native.Mathlib.Omega.{arith}
use supgang.Base.Maps.{Map, lookup, insert, remove}

module _ {V : Type 0} (P : V → Type 0) where
  abbrev pub Each : Map V → Type 0
  Each [] = Unit
  Each ((key, value) ∷ rest) = P value × Each rest

  pub insert-Each : (key : ℕ) (value : V) (m : Map V) → P value → Each m → Each (insert key value m)
  unfolding insert
  insert-Each key value [] p h = (p, tt)
  insert-Each key value ((first, old) ∷ rest) p h =
      ground (arith, p, h, insert-Each key value rest p h.1)

  pub remove-Each : (key : ℕ) (m : Map V) → Each m → Each (remove key m)
  unfolding remove
  remove-Each key [] h = tt
  remove-Each key ((first, old) ∷ rest) h = ground (arith, h, remove-Each key rest h.1)

  pub lookup-Each : (key : ℕ) (value : V) (m : Map V) → Each m → lookup key m ≡ some value → P value
  unfolding lookup
  lookup-Each key value [] h e = cc
  lookup-Each key value ((first, old) ∷ rest) h e = elim (Bool-cases (first == key)) [
    | inl y ↦ let q : old ≡ value = ground arith in subst P q h.0
    | inr n ↦ lookup-Each key value rest h.1 (ground arith)
  ]
