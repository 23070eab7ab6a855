-- ===== src/Examples/Pools.antt =====
-- The theorems on the pool of workers, also under the scaler, at concrete inputs, with numbers written in strokes.
use spool.Prelude.{
  wrap32, sym, str_eq, wrap64, ◌+ℤ◌, ℕ, zero, suc, ◌≡◌, ◌≢◌, refl, ap, String, true, none, ℤ, pos,
  negsuc, arith, length, ◌≤ℤ◌, insert,
}
use Prim.Native.String.{◌++◌}
use text.Mathlib.TextLemmas.{append_cancel_left, append-eq-nil_iff}
use spool.Worker.{panics, new_worker, start as start_worker}
use spool.Pool.{
  Pool, PoolConfig, new_pool, start, add_worker, add_workers, remove_worker, get_stats,
}
use spool.Pool.Soundness.{IsSound}
use spool.Pool.Capacity.{here, next, adds, capacity}
use spool.Pool.Startup.{start_lem}
use spool.Scaler.{AutoScaler, decide, should_scale_up}
use spool.Scaler.Loop.{Sensors, execute, evaluate}
use spool.Scaler.Loop.OnPool.{pool_world, pool_control, evaluate-IsSound}
use spool.Scaler.Loop.ScaleUp.{execute-scale_up}
use spool.Examples.Scaling.{limits, scaler, backlog}

strokes : ℕ → String
strokes zero = ""
strokes (suc n) = "1" ++ strokes n

unfoldable text_of : ℤ → String
unfolding strokes
text_of (pos n) = strokes n
text_of (negsuc n) = "-" ++ strokes n

suc_not_empty : (n : ℕ) → strokes (suc n) ≢ ""
unfolding strokes
suc_not_empty n e = cc (ap (λ t. str_eq t "") (append-eq-nil_iff.0 e).0)

strokes_injective : (a b : ℕ) → strokes a ≡ strokes b → a ≡ b
unfolding strokes
strokes_injective zero zero e = refl
strokes_injective zero (suc b) e = absurd (suc_not_empty b (sym e))
strokes_injective (suc a) zero e = absurd (suc_not_empty a e)
strokes_injective (suc a) (suc b) e =
    ap (λ n. suc n) (strokes_injective a b (append_cancel_left "1" _ _ e))

text_of_distinct : (a b : ℕ) → text_of (pos a) ≡ text_of (pos b) → a ≡ b
unfolding text_of
text_of_distinct a b e = strokes_injective a b e

abbrev config : PoolConfig
config = record {
  min_workers = pos 1;
  max_workers = pos 2;
  poll_interval = pos 0;
  shutdown_timeout = pos 0;
}

abbrev small : Pool ℕ
unfolding new_pool
small = new_pool none config

abbrev started : Pool ℕ
unfolding start
started = (start text_of 5 small).1

started-IsSound : IsSound text_of started
unfolding started small
started-IsSound = (start_lem text_of text_of_distinct 5 none config (omega arith)).1

capacity_example :
    let q = (add_worker text_of 6 started).1 in
    (pos 1 ≤ℤ pos (length q.workers))
    × (pos (length q.workers) ≤ℤ q.max_workers)
    × ((remove_worker "worker-1" q).0 ≢ panics)
    × ((get_stats q).idle_workers ≡ pos (length q.workers))
    × ((get_stats q).busy_workers ≡ pos 0)
unfolding started small new_pool start add_workers add_worker new_worker start_worker insert text_of
    strokes wrap64 ◌+ℤ◌
capacity_example =
    capacity text_of text_of_distinct started (add_worker text_of 6 started).1 1 "worker-1"
      started-IsSound refl (omega arith) (next here (adds 6 (omega arith)))

-- The scaler with the limits of the pool.
abbrev narrow : AutoScaler ℕ
narrow = record scaler { config = record limits { min_workers = pos 1; max_workers = pos 2 } }

abbrev sensors : Sensors (pool_world ℕ) ℕ
sensors = record { update_queue_depth = λ c s. (true, s); snapshot = λ s. backlog }

evaluate-IsSound_example :
    let q = (evaluate (pool_world ℕ) (pool_control text_of ℕ) sensors narrow tt (5, started)).2.1 in
    IsSound text_of q
    × (pos 1 ≤ℤ pos (length q.workers))
    × (pos (length q.workers) ≤ℤ q.max_workers)
unfolding started small new_pool start add_workers add_worker new_worker start_worker insert text_of
    strokes wrap64 ◌+ℤ◌
evaluate-IsSound_example =
    evaluate-IsSound text_of text_of_distinct sensors narrow 1 2 (5, started) started-IsSound refl
      (omega arith) (omega arith) (omega arith) (none, refl)

execute-scale_up_example :
    let d = (decide narrow backlog (pos (length started.workers)) 5).0 in
    let (error, _, s') = execute (pool_world ℕ) (pool_control text_of ℕ) narrow tt d (5, started) in
    (error ≡ none) × (pos (length s'.1.workers) ≡ d.desired_count)
unfolding started small new_pool start add_workers add_worker new_worker start_worker insert text_of
    strokes wrap64 ◌+ℤ◌ decide should_scale_up wrap32
execute-scale_up_example =
    execute-scale_up text_of text_of_distinct narrow backlog 1 2 0 2 (5, started) refl refl refl
      (omega arith) started-IsSound refl (omega arith) (omega arith) refl
