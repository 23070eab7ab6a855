-- ===== src/Queue/Priority.antt =====
-- internal/queue/priority.go: the names of the priorities.
use spool.Prelude.{
  ℕ, zero, suc, String, Bool, false, Option, none, some, pos, negsuc, ◌==ℤ◌, ◌≡◌, ◌==◌, ◌<◌, refl,
  ◌||◌, arith, if◌then◌else◌, str_eq, eq_iff,
}
use Prim.Native.String.{◌++◌}
use spool.Task.{Priority, priority_low, priority_normal, priority_high, priority_critical}

unfoldable pub priority_string : Priority → String
priority_string p =
    if p ==ℤ priority_critical
    then "critical"
    else if p ==ℤ priority_high
    then "high"
    else if p ==ℤ priority_normal
    then "normal"
    else if p ==ℤ priority_low
    then "low"
    else "unknown"

-- The priority, and the text of the error.
unfoldable pub parse_priority : String → Priority × Option String
parse_priority s =
    if str_eq s "critical"
    then (priority_critical, none)
    else if str_eq s "high"
    then (priority_high, none)
    else if str_eq s "normal"
    then (priority_normal, none)
    else if str_eq s "low"
    then (priority_low, none)
    else (priority_normal, some ("unknown priority: " ++ s))

-- The four named priorities.
unfoldable pub is_named : Priority → Bool
is_named p =
    p ==ℤ priority_critical || p ==ℤ priority_high || p ==ℤ priority_normal || p ==ℤ priority_low

above : (n k : ℕ) → k < 4 → (suc (suc (suc (suc n))) == k) ≡ false
above n k h = ground arith

print_then_parse :
    (p : Priority)
    → parse_priority (priority_string p) ≡ (
        if is_named p
        then (p, none)
        else (priority_normal, some ("unknown priority: " ++ "unknown")))
unfolding parse_priority priority_string is_named
print_then_parse (negsuc n) = refl
print_then_parse (pos zero) = refl
print_then_parse (pos (suc zero)) = refl
print_then_parse (pos (suc (suc zero))) = refl
print_then_parse (pos (suc (suc (suc zero)))) = refl
print_then_parse (pos (suc (suc (suc (suc n))))) =
    rw
      (
        above n 3 (omega arith),
        above n 2 (omega arith),
        above n 1 (omega arith),
        above n 0 (omega arith),
      )
      refl

parse_then_print :
    (s : String)
    → priority_string (parse_priority s).0
      ≡ elim (parse_priority s).1 as (λ _. String) [ none ↦ s | some _ ↦ "normal" ]
unfolding parse_priority priority_string
parse_then_print s =
    ground (arith, eq_iff s "critical", eq_iff s "high", eq_iff s "normal", eq_iff s "low")

-- The name of a priority is read back as this priority if it is one of the four, and refused, with
-- the normal priority, if it is not; a name that is read without an error is the name of what it is
-- read as, and any other is read as the normal priority.
pub parse_priority-priority_string :
    (p : Priority) (s : String)
    → (parse_priority (priority_string p)
        ≡ (if is_named p then (p, none) else (priority_normal, some "unknown priority: unknown")))
      × (priority_string (parse_priority s).0
          ≡ elim (parse_priority s).1 as (λ _. String) [ none ↦ s | some _ ↦ "normal" ])
parse_priority-priority_string p s = (print_then_parse p, parse_then_print s)
