-- ===== src/Prelude/Assoc.antt =====
-- Association lists for Go's maps with string keys.
use mathlib.Core.Path.{◌≡◌, refl}
use mathlib.Core.Option.{Option, none, some}
use mathlib.Core.List.{List, [], ◌∷◌}
use Prim.Native.String.{String}
use text.Mathlib.Text.{◌==◌ as str_eq}
use text.Mathlib.TextEquality.{eq_iff}
use native.Mathlib.Omega.{arith}
use spool.Prelude.Tests.{if◌then◌else◌}

-- A map lists each key once; Go's iteration order is the order of the list, chosen by no code.
abbrev pub Map {ℓ} : Type ℓ → Type ℓ
Map V = List (String × V)

module _ {ℓ} {V : Type ℓ} where
  unfoldable pub lookup : String → Map V → Option V
  lookup key [] = none
  lookup key (entry ∷ rest) = if str_eq entry.0 key then some entry.1 else lookup key rest

  unfoldable pub insert : String → V → Map V → Map V
  insert key value [] = (key, value) ∷ []
  insert key value (entry ∷ rest) =
      let others = insert key value rest in
      if str_eq entry.0 key then (key, value) ∷ rest else entry ∷ others

  unfoldable pub erase : String → Map V → Map V
  erase key [] = []
  erase key (entry ∷ rest) =
      let others = erase key rest in if str_eq entry.0 key then others else entry ∷ others

  pub lookup-insert :
      (key asked : String) (value : V) (m : Map V)
      → lookup asked (insert key value m)
        ≡ (if str_eq key asked then some value else lookup asked m)
  unfolding lookup insert
  lookup-insert key asked value [] = refl
  lookup-insert key asked value (entry ∷ rest) = ground (
    arith,
    lookup-insert key asked value rest,
    eq_iff entry.0 key,
    eq_iff entry.0 asked,
    eq_iff key asked,
  )

  pub lookup-erase :
      (key asked : String) (m : Map V)
      → lookup asked (erase key m) ≡ (if str_eq key asked then none else lookup asked m)
  unfolding lookup erase
  lookup-erase key asked [] = ground arith
  lookup-erase key asked (entry ∷ rest) = ground (
    arith,
    lookup-erase key asked rest,
    eq_iff entry.0 key,
    eq_iff entry.0 asked,
    eq_iff key asked,
  )
