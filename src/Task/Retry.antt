-- ===== src/Task/Retry.antt =====
-- The retry delay of internal/task/task.go against its formula, min(base * 2^n, max).
use spool.Prelude.{
  inl, inr, Bool-cases, ltb→lt, ◌-◌, ◌≤ℤ◌, ℕ, zero, suc, ◌+◌, ◌*◌, ◌^◌, ◌≤◌, ◌<◌, min, ◌≡◌, refl,
  Bool, true, ◌&&◌, ◌==ℤ◌, ℤ, pos, negsuc, arith, ltb, wrap64, scale,
}
use spool.Task.{Task, base_delay, max_delay, get_retry_delay, delay_for}

eq_of_==ℤ : (a b : ℤ) → (a ==ℤ b) ≡ true → a ≡ b
eq_of_==ℤ (pos a) (pos b) h = ground arith
eq_of_==ℤ (pos a) (negsuc b) h = ground arith
eq_of_==ℤ (negsuc a) (pos b) h = ground arith
eq_of_==ℤ (negsuc a) (negsuc b) h = ground arith

-- Two functions agree on the numbers below a count, by evaluation.
agree : (ℕ → ℤ) → (ℕ → ℤ) → ℕ → Bool
agree f g zero = true
agree f g (suc count) = agree f g count && (f count ==ℤ g count)

agree_at : (f g : ℕ → ℤ) (count n : ℕ) → n < count → agree f g count ≡ true → f n ≡ g n
unfolding agree
agree_at f g zero n below t = absurd (omega arith)
agree_at f g (suc count) n below t = elim (Bool-cases (ltb n count)) [
  | inl earlier ↦ agree_at f g count n (ltb→lt n count earlier) (ground arith)
  | inr last ↦
      (let e : n ≡ count = ground arith in rw e (eq_of_==ℤ (f count) (g count) (ground arith)))
]

formula : ℕ → ℤ
formula n = pos (min (base_delay * 2 ^ n) max_delay)

tail_table : agree (λ k. delay_for (pos (55 + k))) (λ k. pos 0) 9 ≡ true
unfolding agree delay_for wrap64 scale
tail_table = refl

delay_for_tail : (n : ℕ) → 55 ≤ n → n < 64 → delay_for (pos n) ≡ pos 0
delay_for_tail n h k =
    let e : n ≡ 55 + (n - 55) = omega arith in
    rw e (agree_at _ _ 9 (n - 55) (omega arith) tail_table)

delay_for_all_bits : (n : ℕ) → 64 ≤ n → delay_for (pos n) ≡ pos 0
unfolding delay_for wrap64 scale
delay_for_all_bits n h = ground arith

-- From 55 retries on the product with the base delay is a multiple of 2^64: there is no delay.
pub get_retry_delay-overflow :
    (t : Task) (n : ℕ) → t.retry_count ≡ pos n → 55 ≤ n → get_retry_delay t ≡ pos 0
unfolding get_retry_delay
get_retry_delay-overflow t n e h = elim (Bool-cases (ltb n 64)) [
  | inl small ↦ rw e (delay_for_tail n h (ltb→lt n 64 small))
  | inr large ↦ rw e (delay_for_all_bits n (ground arith))
]

-- Whatever the retry count, a worker never sleeps for more than five minutes.
pub get_retry_delay-le : (t : Task) → get_retry_delay t ≤ℤ pos max_delay
unfolding get_retry_delay delay_for
get_retry_delay-le t = ground arith
