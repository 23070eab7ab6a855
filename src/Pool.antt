-- ===== src/Pool.antt =====
-- internal/worker/pool.go: a pool of workers that grows and shrinks. `now` is the clock's reading in
-- the call; the loops of the workers run beside the pool and are not part of it.
pub mod Soundness
pub mod Capacity
pub mod Startup
use spool.Prelude.{
  ℕ, zero, suc, ◌+◌, ◌*◌, String, Bool, true, false, Option, none, some, List, [], ◌∷◌, ℤ, pos,
  negsuc, pos_part, ltb, ltb_ℤ, leb_ℤ, ◌==ℤ◌, ◌+ℤ◌, wrap32, wrap64, if◌then◌else◌, length, Map,
  lookup, insert, erase,
}
use Prim.Native.String.{◌++◌}
use spool.Task.{second}
use spool.Worker.{
  Worker, new_worker, millisecond, Outcome, returns_nil, returns_error, panics,
  start as start_worker, stop as stop_worker,
}
use spool.Metrics.{Metrics, register_worker, unregister_worker}

pub data WorkerState : Type 0 where
  idle busy shutting_down : WorkerState

pub record PoolConfig : Type 0 where
  pub min_workers : ℤ
  pub max_workers : ℤ
  pub poll_interval : ℤ
  pub shutdown_timeout : ℤ

-- `metrics` is the collector that the pool points to, none for nil.
pub record Pool (F : Type 0) : Type 0 where
  pub workers : Map Worker
  pub worker_states : Map WorkerState
  pub next_worker_id : ℤ
  pub ctx_cancelled : Bool
  pub min_workers : ℤ
  pub max_workers : ℤ
  pub poll_interval : ℤ
  pub shutdown_timeout : ℤ
  pub metrics : Option (Metrics F)

pub record PoolStats : Type 0 where
  pub total_workers : ℤ
  pub idle_workers : ℤ
  pub busy_workers : ℤ
  pub min_workers : ℤ
  pub max_workers : ℤ

-- How many entries have a state.
abbrev pub count_state : (WorkerState → Bool) → Map WorkerState → ℕ
count_state f [] = 0
count_state f (entry ∷ rest) =
    let others = count_state f rest in if f entry.1 then suc others else others

abbrev pub is_idle : WorkerState → Bool
is_idle idle = true
is_idle busy = false
is_idle shutting_down = false

abbrev pub is_busy : WorkerState → Bool
is_busy idle = false
is_busy busy = true
is_busy shutting_down = false

-- `fmt.Sprintf("worker-%d", n)`, where a parameter gives the text of a number.
abbrev pub worker_id : (ℤ → String) → ℤ → String
worker_id int_text n = "worker-" ++ int_text n

-- The first entry in the order of the range that is idle, or the empty text.
abbrev pub first_idle : Map WorkerState → String
first_idle [] = ""
first_idle (entry ∷ rest) =
    let other = first_idle rest in if is_idle entry.1 then entry.0 else other

module _ {F : Type 0} where
  unfoldable pub new_pool : Option (Metrics F) → PoolConfig → Pool F
  new_pool metrics cfg =
      let low = if ltb_ℤ cfg.min_workers (pos 1) then pos 1 else cfg.min_workers in
      record {
        workers = [];
        worker_states = [];
        next_worker_id = pos 1;
        ctx_cancelled = false;
        min_workers = low;
        max_workers = if ltb_ℤ cfg.max_workers low then low else cfg.max_workers;
        poll_interval =
            if cfg.poll_interval ==ℤ pos 0 then pos (100 * millisecond) else cfg.poll_interval;
        shutdown_timeout =
            if cfg.shutdown_timeout ==ℤ pos 0 then pos (30 * second) else cfg.shutdown_timeout;
        metrics = metrics;
      }

  abbrev pub on_metrics : (Metrics F → Metrics F) → Option (Metrics F) → Option (Metrics F)
  on_metrics f none = none
  on_metrics f (some m) = some (f m)

  -- The id of the new worker, or none for an error.
  unfoldable pub add_worker : (ℤ → String) → ℕ → Pool F → Option String × Pool F
  unfolding new_worker start_worker
  add_worker int_text now p =
      let id = worker_id int_text p.next_worker_id in
      let p1 : Pool F = record p { next_worker_id = wrap64 (p.next_worker_id +ℤ pos 1) } in
      let (outcome, v) = start_worker (new_worker id p.poll_interval "") in
      if leb_ℤ p.max_workers (pos (length p.workers)) then (none, p) else elim outcome [
        | returns_nil ↦ (
          some id,
          record p1 {
            workers = insert id v p.workers;
            worker_states = insert id idle p.worker_states;
            metrics = on_metrics (register_worker now id) p.metrics;
          },
        )
        | returns_error ↦ (none, p1)
        | panics ↦ (none, p1)
      ]

  -- An error of the worker's Shutdown is only logged; a panic in it leaves the pool at once.
  unfoldable pub remove_worker : String → Pool F → Outcome × Pool F
  unfolding stop_worker
  remove_worker id p =
      let p1 : Pool F = record p { worker_states = insert id shutting_down p.worker_states } in
      let p2 : Pool F = record p1 {
        workers = erase id p1.workers;
        worker_states = erase id p1.worker_states;
        metrics = on_metrics (unregister_worker id) p1.metrics;
      } in
      elim (lookup id p.workers) [
        | none ↦ (returns_error, p)
        | some v ↦
            if leb_ℤ (pos (length p.workers)) p.min_workers
            then (returns_error, p)
            else elim (stop_worker v).0 [
              | panics ↦ (panics, p1)
              | returns_nil ↦ (returns_nil, p2)
              | returns_error ↦ (returns_nil, p2)
            ]
      ]

  unfoldable pub get_worker_count : Pool F → ℤ
  get_worker_count p = wrap32 (pos (length p.workers))

  unfoldable pub get_idle_worker : Pool F → String
  get_idle_worker p = first_idle p.worker_states

  -- The loop of Start, which goes on after an error.
  unfoldable pub add_workers : (ℤ → String) → ℕ → ℕ → Pool F → Pool F
  unfolding add_worker
  add_workers int_text now zero p = p
  add_workers int_text now (suc n) p = add_workers int_text now n (add_worker int_text now p).1

  -- True if the error is nil.
  unfoldable pub start : (ℤ → String) → ℕ → Pool F → Bool × Pool F
  unfolding add_workers get_worker_count
  start int_text now p =
      let p' = add_workers int_text now (pos_part p.min_workers) p in
      (if get_worker_count p' ==ℤ pos 0 then false else true, p')

  -- Shutdown up to the wait, which ends at once: no worker is added to the wait group.
  unfoldable pub shutdown : Pool F → Pool F
  shutdown p = record p { ctx_cancelled = true }

  -- A copy of the map, which is the map.
  unfoldable pub get_worker_states : Pool F → Map WorkerState
  get_worker_states p = p.worker_states

  unfoldable pub get_stats : Pool F → PoolStats
  get_stats p = record {
    total_workers = pos (length p.workers);
    idle_workers = pos (count_state is_idle p.worker_states);
    busy_workers = pos (count_state is_busy p.worker_states);
    min_workers = p.min_workers;
    max_workers = p.max_workers;
  }
