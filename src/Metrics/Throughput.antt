-- ===== src/Metrics/Throughput.antt =====
-- The throughput samples of internal/monitoring/metrics.go.
use spool.Prelude.{
  ap, Bool-cases, inl, inr, false, ltb_ℤ, ◌∙◌, ℕ, ◌*◌, ◌+◌, ◌≤◌, ◌<◌, ◌≡◌, arith, some, List, [],
  ◌∷◌, ◌++◌, ℤ, pos, pos_part, neg_part, ◌-ℤ◌, wrap64, sub_ℕ, refl, length, drop, ltb,
}
use spool.Task.{second}
use spool.Metrics.{at_most, Metrics, ThroughputSample}
use spool.Metrics.Tasks.{
  Floats, last_sample, update_throughput, get_throughput, get_last_total_tasks,
}

-- Subtracting what a subtraction left gives back what it took, whatever wraps around.
wrap64-sub :
    (c k : ℤ)
    → pos_part k < 9223372036854775808
    → neg_part k ≤ 9223372036854775808
    → wrap64 (c -ℤ wrap64 (c -ℤ k)) ≡ k
unfolding wrap64 ◌-ℤ◌
wrap64-sub c k h g = ground arith

module _ {F : Type 0} where
  last_sample-append :
      (xs : List (ThroughputSample F)) (x : ThroughputSample F)
      → last_sample (xs ++ (x ∷ [])) ≡ some x
  last_sample-append [] x = refl
  last_sample-append (y ∷ xs) x = rw (last_sample-append xs x) refl

  last_sample-drop :
      (xs : List (ThroughputSample F)) → 1 < length xs → last_sample (drop 1 xs) ≡ last_sample xs
  last_sample-drop [] h = absurd (omega arith)
  last_sample-drop (x ∷ []) h = absurd (omega arith)
  last_sample-drop (x ∷ y ∷ xs) h = ground arith

  last_sample-at_most :
      (xs : List (ThroughputSample F)) (x : ThroughputSample F)
      → last_sample (at_most 100 (xs ++ (x ∷ []))) ≡ some x
  last_sample-at_most xs x = elim (Bool-cases (ltb 100 (length (xs ++ (x ∷ []))))) [
    | inl full ↦
        rw full (last_sample-drop (xs ++ (x ∷ [])) (ground arith) ∙ last_sample-append xs x)
    | inr room ↦ rw room (last_sample-append xs x)
  ]

  -- Once there is a sample, the throughput that the next one reports, five seconds or more later,
  -- follows from that sample and the time alone: it is the same for every number c of tasks
  -- processed since (with the tasks of the last window an int64).
  pub throughput_echo :
      (floats : Floats F) (m : Metrics F) (last : ThroughputSample F) (now : ℕ) (c : ℤ)
      → last_sample m.throughput_samples ≡ some last
      → m.last_sample_time + 5 * second ≤ now
      → pos_part (floats.tasks_in last.tasks_per_sec last.window_size) < 9223372036854775808
      → neg_part (floats.tasks_in last.tasks_per_sec last.window_size) ≤ 9223372036854775808
      → get_throughput floats (update_throughput floats now (record m { tasks_processed = c }))
        ≡ floats.per_second
            (floats.tasks_in last.tasks_per_sec last.window_size)
            (sub_ℕ now m.last_sample_time)
  unfolding update_throughput get_throughput get_last_total_tasks
  throughput_echo floats m last now c e t h g =
      let late : ltb_ℤ (sub_ℕ now m.last_sample_time) (pos (5 * second)) ≡ false = ground arith in
      rw (late, get_throughput, last_sample-at_most m.throughput_samples _, get_last_total_tasks, e)
        (ap (λ n. floats.per_second n (sub_ℕ now m.last_sample_time)) (wrap64-sub c _ h g))
