-- ===== src/Task/Lifecycle.antt =====
-- The life of a task as internal/task/task.go moves it: how failures use up its retries.
use spool.Prelude.{
  ℕ, suc, ◌+◌, ◌<◌, ◌≡◌, inl, inr, refl, String, Bool-cases, true, List, [], ◌∷◌, pos, arith, ltb_ℤ,
  wrap64, ◌↔◌, ◌+ℤ◌, length, if◌then◌else◌,
}
use spool.Task.{Task, state_retrying, state_dead_letter, mark_failed, mark_started, should_retry}

-- A task that fails once for each message: it is started, and its handler's error is recorded.
pub fail_all : Task → List (String × ℕ) → Task
fail_all t [] = t
fail_all t ((message, now) ∷ rest) = fail_all (mark_failed (mark_started t now) message now) rest

-- The count after a failure, and the state that the retries left decide.
mark_failed_cases :
    (t : Task) (message : String) (now k m : ℕ)
    → t.retry_count ≡ pos k
    → t.max_retries ≡ pos m
    → k < 9223372036854775807
    → let t' = mark_failed t message now in
      (t'.retry_count ≡ pos (k + 1))
      × (t'.max_retries ≡ pos m)
      × (t'.state ≡ (if ltb_ℤ (pos k) (pos m) then state_retrying else state_dead_letter))
unfolding mark_failed wrap64 ◌+ℤ◌
mark_failed_cases t message now k m e f h = ground arith

-- A task that has failed n + 1 times in a row after k retries has a count of k + n + 1; it waits
-- for a retry while its retries last, and is dead after one failure more.
pub fail_all-state :
    (t : Task) (message : String) (now k m : ℕ) (rest : List (String × ℕ))
    → t.retry_count ≡ pos k
    → t.max_retries ≡ pos m
    → k + length rest < 9223372036854775807
    → let t' = fail_all t ((message, now) ∷ rest) in
      (t'.retry_count ≡ pos (k + length rest + 1))
      × (t'.state
          ≡ (if ltb_ℤ (pos (k + length rest)) (pos m) then state_retrying else state_dead_letter))
unfolding fail_all mark_started
fail_all-state t message now k m [] e f h =
    let c = mark_failed_cases (mark_started t now) message now k m e f (omega arith) in
    let z : k + 0 ≡ k = omega arith in rw z (c.0, c.2)
fail_all-state t message now k m ((message', now') ∷ rest) e f h =
    let c = mark_failed_cases (mark_started t now) message now k m e f (omega arith) in
    let z : k + suc (length rest) ≡ k + 1 + length rest = omega arith in
    rw z (
      fail_all-state (mark_failed (mark_started t now) message now) message' now' (k + 1) m rest c.0
        c.1 (omega arith))

dead_letter-ne-retrying : ◌≡◌ {A = String} state_dead_letter state_retrying → ⊥
dead_letter-ne-retrying = λ e. cc

-- A failed task is to be retried exactly if `ShouldRetry` said so before the failure.
pub mark_failed-should_retry :
    (t : Task) (message : String) (now : ℕ)
    → ((mark_failed t message now).state ≡ state_retrying) ↔ (should_retry t ≡ true)
unfolding mark_failed should_retry
mark_failed-should_retry t message now = elim (Bool-cases (ltb_ℤ t.retry_count t.max_retries)) [
  | inl more ↦ rw more (λ h. refl, λ h. refl)
  | inr done ↦ rw done (λ h. absurd (dead_letter-ne-retrying h), λ h. cc)
]
