-- ===== src/Effect.antt =====
-- Fallible code over a state: Go's `(value, error)` results, with the state threaded through. An
-- effect keeps the state that it reached when it fails.
use spool.Prelude.{Bool, true, false, Option, none, some}

pub data Result (E A : Type 0) : Type 0 where
  ok : A → Result E A
  err : E → Result E A

abbrev pub M : Type 0 → Type 0 → Type 0 → Type 0
M S E A = S → Result E A × S

infixl 5 ◌>>=◌ ◌>>◌
abbrev pub ◌>>=◌ : {S E A B : Type 0} → M S E A → (A → M S E B) → M S E B
◌>>=◌ m f s = elim (m s).0 [ ok a ↦ f a (m s).1 | err e ↦ (err e, (m s).1) ]

abbrev pub ◌>>◌ : {S E A B : Type 0} → M S E A → M S E B → M S E B
m >> k = m >>= λ _. k

abbrev pub return : {S E A : Type 0} → A → M S E A
return a s = (ok a, s)

abbrev pub throw : {S E A : Type 0} → E → M S E A
throw e s = (err e, s)

-- A command whose error is not looked at.
abbrev pub ignore : {S E B : Type 0} → (S → B × S) → M S E (Unit {0})
ignore c s = (ok tt, (c s).1)

-- A command that tells whether it succeeded, with the error returned if it did not.
abbrev pub or_throw : {S E : Type 0} → (S → Bool × S) → E → M S E (Unit {0})
or_throw c e s = elim (c s).0 [ true ↦ (ok tt, (c s).1) | false ↦ (err e, (c s).1) ]

-- A pure value, or the error.
abbrev pub from_option : {S E A : Type 0} → Option A → E → M S E A
from_option (some a) e s = (ok a, s)
from_option none e s = (err e, s)

-- A command that gives a value, or the error.
abbrev pub value_or_throw : {S E A : Type 0} → (S → Option A × S) → E → M S E A
value_or_throw c e s = from_option (c s).0 e (c s).1

-- `if err != nil { cleanup; return err }`
abbrev pub on_error : {S E A : Type 0} → M S E A → M S E (Unit {0}) → M S E A
on_error m cleanup s = elim (m s).0 [
  | ok a ↦ (ok a, (m s).1)
  | err e ↦ (err e, (cleanup (m s).1).1)
]
