-- ===== src/Prelude/Maps.antt =====
-- The number of keys in a map, for maps that list each key once, as Go's do.
use Prim.Native.Nat.{suc, ◌≤◌}
use mathlib.Core.Path.{◌≡◌, refl}
use mathlib.Core.Bool.{Bool, true, false}
use mathlib.Core.Option.{none, some}
use mathlib.Core.List.{[], ◌∷◌}
use Prim.Native.String.{String}
use text.Mathlib.Text.{◌==◌ as str_eq}
use text.Mathlib.TextEquality.{eq_iff}
use native.Mathlib.Omega.{arith}
use mathlib.Core.Logic.{inl, inr}
use spool.Prelude.Tests.{if◌then◌else◌, Bool-cases}
use spool.Prelude.Lists.{length}
use spool.Prelude.Assoc.{Map, lookup, insert, erase, lookup-insert, lookup-erase}

module _ {ℓ} {V : Type ℓ} where
  -- `_, ok := m[key]`
  abbrev pub has : String → Map V → Bool
  has key m = elim (lookup key m) [ none ↦ false | some v ↦ true ]

  abbrev pub Unique : Map V → Type 0
  Unique [] = Unit
  Unique (entry ∷ rest) = (has entry.0 rest ≡ false) × Unique rest

  pub has-insert :
      (key asked : String) (v : V) (m : Map V)
      → has asked (insert key v m) ≡ (if str_eq key asked then true else has asked m)
  has-insert key asked v m = ground (arith, lookup-insert key asked v m)

  pub has-erase :
      (key asked : String) (m : Map V)
      → has asked (erase key m) ≡ (if str_eq key asked then false else has asked m)
  has-erase key asked m = ground (arith, lookup-erase key asked m)

  pub insert-Unique : (key : String) (v : V) (m : Map V) → Unique m → Unique (insert key v m)
  unfolding insert lookup
  insert-Unique key v [] u = (refl, tt)
  insert-Unique key v (entry ∷ rest) u = elim (Bool-cases (str_eq entry.0 key)) [
    | inl same ↦ rw same (ground (arith, eq_iff entry.0 key, u.0), u.1)
    | inr other ↦ rw other (
      ground (arith, has-insert key entry.0 v rest, eq_iff entry.0 key, eq_iff key entry.0, u.0),
      insert-Unique key v rest u.1,
    )
  ]

  pub erase-Unique : (key : String) (m : Map V) → Unique m → Unique (erase key m)
  unfolding erase
  erase-Unique key [] u = tt
  erase-Unique key (entry ∷ rest) u = elim (Bool-cases (str_eq entry.0 key)) [
    | inl same ↦ rw same (erase-Unique key rest u.1)
    | inr other ↦
        rw other (ground (arith, has-erase key entry.0 rest, u.0), erase-Unique key rest u.1)
  ]

  pub length-insert :
      (key : String) (v : V) (m : Map V)
      → length (insert key v m) ≡ (if has key m then length m else suc (length m))
  unfolding insert lookup
  length-insert key v [] = refl
  length-insert key v (entry ∷ rest) = ground (arith, length-insert key v rest)

  erase-absent : (key : String) (m : Map V) → has key m ≡ false → length (erase key m) ≡ length m
  unfolding erase lookup
  erase-absent key [] h = refl
  erase-absent key (entry ∷ rest) h = ground (arith, erase-absent key rest)

  pub length-erase :
      (key : String) (m : Map V)
      → Unique m
      → length m ≡ (if has key m then suc (length (erase key m)) else length (erase key m))
  unfolding erase lookup
  length-erase key [] u = refl
  length-erase key (entry ∷ rest) u =
      ground (arith, length-erase key rest u.1, erase-absent key rest, eq_iff entry.0 key, u.0)

-- A map whose keys are all keys of another one is not larger.
pub length_le_of_has {ℓ} :
    {V W : Type ℓ} (a : Map V) (b : Map W)
    → Unique a
    → Unique b
    → ((key : String) → has key a ≡ true → has key b ≡ true)
    → length a ≤ length b
unfolding lookup
length_le_of_has [] b u v sub = omega arith
length_le_of_has (entry ∷ rest) b u v sub =
    let here : has entry.0 b ≡ true = sub entry.0 (ground (arith, eq_iff entry.0 entry.0)) in
    let le =
      length_le_of_has rest (erase entry.0 b) u.1 (erase-Unique entry.0 b v)
        (λ key h. ground (arith, has-erase entry.0 key b, sub key, h, u.0, eq_iff entry.0 key)) in
    ground (arith, le, here, length-erase entry.0 b v)
