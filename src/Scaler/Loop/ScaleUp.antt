-- ===== src/Scaler/Loop/ScaleUp.antt =====
-- A scale-up of internal/monitoring/scaler.go on the pool of internal/worker/pool.go.
use spool.Prelude.{
  ℕ, zero, suc, ◌+◌, ◌≤◌, ◌<◌, ◌≡◌, refl, ap, ◌∙◌, String, false, none, some, ℤ, pos, negsuc,
  pos_part, arith, length, ◌≤ℤ◌, ◌<ℤ◌, wrap32, ◌-ℤ◌, leb_ℤ,
}
use spool.Pool.{Pool, add_worker, worker_id}
use spool.Pool.Soundness.{IsSound, add_worker-IsSound}
use spool.Pool.Capacity.{add_worker_lem}
use spool.Pool.Startup.{add_worker-number, add_worker-limits}
use spool.Scaler.{AutoScaler, Snapshot, scale_up, decide}
use spool.Scaler.Decisions.{decide-IsBounded}
use spool.Scaler.Loop.{add_workers, scale_up_by, execute}
use spool.Scaler.Loop.OnPool.{pool_world, pool_control}

-- How many workers the loop is asked for.
asked_for :
    (x : ℤ) (n high : ℕ)
    → pos n <ℤ x
    → x ≤ℤ pos high
    → high < 1073741824
    → (n + pos_part (wrap32 (x -ℤ pos n)) ≤ high)
      × (pos (n + pos_part (wrap32 (x -ℤ pos n))) ≡ x)
      × (pos_part (wrap32 (x -ℤ pos n)) < 1073741824)
unfolding wrap32 ◌-ℤ◌
asked_for (pos t) n high h k b = ground arith
asked_for (negsuc t) n high h k b = absurd (ground arith)

module _ {F : Type 0} (int_text : ℤ → String)
    (distinct : (a b : ℕ) → int_text (pos a) ≡ int_text (pos b) → a ≡ b) where
  add_worker-room :
      (now most : ℕ) (p : Pool F)
      → IsSound int_text p
      → p.max_workers ≡ pos most
      → length p.workers < most
      → ((add_worker int_text now p).0 ≡ some (worker_id int_text p.next_worker_id))
        × (length (add_worker int_text now p).1.workers ≡ suc (length p.workers))
  add_worker-room now most p k e h =
      let a = add_worker_lem int_text distinct now p k in
      let room : leb_ℤ p.max_workers (pos (length p.workers)) ≡ false = ground (arith, e, h) in
      (a.1 ∙ rw room refl, a.2 ∙ rw room refl)

  -- With room for all of them, the loop adds the workers without an error.
  add_workers-room :
      (n number most errors : ℕ) (s : ℕ × Pool F)
      → IsSound int_text s.1
      → s.1.next_worker_id ≤ℤ pos number
      → number + n < 9223372036854775807
      → s.1.max_workers ≡ pos most
      → length s.1.workers + n ≤ most
      → let (failed, s') = add_workers (pool_world F) (pool_control int_text F) n tt errors s in
        (failed ≡ errors) × (length s'.1.workers ≡ length s.1.workers + n)
  unfolding add_workers pool_control
  add_workers-room zero number most errors s k le bound e h = (refl, omega arith)
  add_workers-room (suc n) number most errors s k le bound e h =
      let p' = (add_worker int_text s.0 s.1).1 in
      let (added, one) = add_worker-room s.0 most s.1 k e (omega (arith, h)) in
      let rest =
        add_workers-room n (suc number) most errors (s.0, p')
          (add_worker-IsSound int_text distinct s.0 s.1 k (omega (arith, le, bound)))
          (add_worker-number int_text distinct s.0 number s.1 le (omega arith) k) (omega arith)
          ((add_worker-limits int_text s.0 s.1).1 ∙ e) (omega (arith, one, h)) in
      rw (add_workers, added) (rest.0, omega (arith, rest.1, one))

  -- A decision to scale up, taken for a sound pool with its number of workers between the minimum and
  -- the maximum, is carried out without an error: the pool then has as many workers as the decision
  -- wants. The maximum is that of the pool and below 2^30, and enough numbers for new workers are
  -- left.
  pub execute-scale_up :
      (a : AutoScaler F) (v : Snapshot F) (low high i number : ℕ) (s : ℕ × Pool F)
      → a.config.min_workers ≡ pos low
      → a.config.max_workers ≡ pos high
      → v.idle_workers ≡ pos i
      → (low ≤ length s.1.workers)
        × (length s.1.workers ≤ high)
        × (high < 1073741824)
        × (i < 2147483648)
      → IsSound int_text s.1
      → s.1.max_workers ≡ pos high
      → s.1.next_worker_id ≤ℤ pos number
      → number + 1073741824 < 9223372036854775807
      → (decide a v (pos (length s.1.workers)) s.0).0.action ≡ scale_up
      → let d = (decide a v (pos (length s.1.workers)) s.0).0 in
        let (error, _, s') = execute (pool_world F) (pool_control int_text F) a tt d s in
        (error ≡ none) × (pos (length s'.1.workers) ≡ d.desired_count)
  unfolding execute scale_up_by
  execute-scale_up a v low high i number s least most idle range k e le bound up =
      let n = length s.1.workers in
      let d = (decide a v (pos n) s.0).0 in
      let b = decide-IsBounded a v s.0 n low high i least most idle range in
      let (fits, sum, small) = asked_for d.desired_count n high (b.grows up).0 b.below range.2 in
      let (failed, size) =
        add_workers-room (pos_part (wrap32 (d.desired_count -ℤ pos n))) number high 0 s k le
          (omega (arith, small, bound)) e fits in
      rw (execute, up, b.current, failed) (refl, ap pos size ∙ sum)
