-- ===== src/Scaler/Loop/OnPool.antt =====
-- The scaler of internal/monitoring/scaler.go with the pool of internal/worker/pool.go as its controller.
-- Outside the pool there is a clock, which stands still in an evaluation.
use spool.Prelude.{
  ℕ, zero, suc, ◌+◌, ◌≤◌, ◌<◌, ◌≡◌, refl, String, Bool, true, false, Option, none, some, ℤ, pos,
  pos_part, arith, length, ◌≤ℤ◌, ◌<ℤ◌, wrap32, wrap32_range, ◌-ℤ◌, Bool-cases, inl, inr, str_eq,
  if◌then◌else◌,
}
use spool.Env.{World}
use spool.Worker.{Outcome, returns_nil, returns_error, panics}
use spool.Metrics.{Metrics}
use spool.Pool.{Pool, add_worker, remove_worker, get_worker_count, get_idle_worker}
use spool.Pool.Soundness.{IsSound, add_worker-IsSound}
use spool.Pool.Capacity.{adds, removes, Reach, Reach-IsSound, capacity, here, next}
use spool.Pool.Startup.{add_worker-number}
use spool.Scaler.{
  AutoScaler, ScalingDecision, ScalingAction, scale_up, scale_down, no_action, decide,
  record_decision,
}
use spool.Scaler.Loop.{
  Controller, Sensors, add_workers, remove_workers, scale_up_by, scale_down_by, execute, evaluate,
}

abbrev pub pool_world : Type 0 → World
pool_world F = record {
  S = ℕ × Pool F;
  Ctx = Unit {0};
  now = λ s. s.0;
  sleep = λ d s. s;
  background = tt;
  with_timeout = λ c d s. c;
  ctx_err = λ c s. none;
}

abbrev pub is_nil : Outcome → Bool
is_nil returns_nil = true
is_nil returns_error = false
is_nil panics = false

unfoldable pub pool_control : (ℤ → String) → (F : Type 0) → Controller (pool_world F)
unfolding add_worker remove_worker get_worker_count get_idle_worker
pool_control int_text F = record {
  get_worker_count = λ s. get_worker_count s.1;
  add_worker = λ c s. let (id, p) = add_worker int_text s.0 s.1 in (id, (s.0, p));
  remove_worker = λ c id s. let (outcome, p) = remove_worker id s.1 in (is_nil outcome, (s.0, p));
  get_idle_worker = λ s. (get_idle_worker s.1, s);
}

module _ {F : Type 0} (int_text : ℤ → String) where
  module _ (distinct : (a b : ℕ) → int_text (pos a) ≡ int_text (pos b) → a ≡ b) where
    joined :
        {p q r : Pool F}
        → Reach int_text distinct p q
        → Reach int_text distinct q r
        → Reach int_text distinct p r
    joined a here = a
    joined a (next b st) = next (joined a b) st

    add_workers-Reach :
        (n number : ℕ) (ctx : Unit {0}) (errors : ℕ) (s : ℕ × Pool F)
        → IsSound int_text s.1
        → s.1.next_worker_id ≤ℤ pos number
        → number + n < 9223372036854775807
        → Reach int_text distinct s.1
            (add_workers (pool_world F) (pool_control int_text F) n ctx errors s).1.1
    unfolding add_workers pool_control
    add_workers-Reach zero number ctx errors s k le bound = here
    add_workers-Reach (suc n) number ctx errors s k le bound =
        let room : s.1.next_worker_id <ℤ pos 9223372036854775807 = omega (arith, le, bound) in
        let p' = (add_worker int_text s.0 s.1).1 in
        joined (next here (adds s.0 room)) (
          add_workers-Reach n (suc number) ctx
            (elim (add_worker int_text s.0 s.1).0 as (λ _. ℕ) [
              | none ↦ errors + 1
              | some id ↦ errors
            ])
            (s.0, p') (add_worker-IsSound int_text distinct s.0 s.1 k room)
            (add_worker-number int_text distinct s.0 number s.1 le (omega arith) k) (omega arith))

    remove_workers-Reach :
        (n : ℕ) (ctx : Unit {0}) (errors : ℕ) (s : ℕ × Pool F)
        → Reach int_text distinct s.1
            (remove_workers (pool_world F) (pool_control int_text F) n ctx errors s).1.1
    unfolding remove_workers pool_control
    remove_workers-Reach zero ctx errors s = here
    remove_workers-Reach (suc n) ctx errors s =
        let id = get_idle_worker s.1 in
        let p' = (remove_worker id s.1).1 in
        let rest = joined (next here (removes id)) (
          remove_workers-Reach n ctx
            (if is_nil (remove_worker id s.1).0 then errors else errors + 1) (s.0, p')) in
        elim (Bool-cases (str_eq id "")) [
          | inl nobody ↦ rw nobody here
          | inr someone ↦ rw someone rest
        ]

    execute-Reach :
        (a : AutoScaler F) (d : ScalingDecision F) (number : ℕ) (s : ℕ × Pool F)
        → IsSound int_text s.1
        → s.1.next_worker_id ≤ℤ pos number
        → number + 2147483648 < 9223372036854775807
        → Reach int_text distinct s.1
            (execute (pool_world F) (pool_control int_text F) a tt d s).2.1
    unfolding execute scale_up_by scale_down_by
    execute-Reach a d number s k le bound = go d.action refl
      where
        go :
            (action : ScalingAction)
            → d.action ≡ action
            → Reach int_text distinct s.1
                (execute (pool_world F) (pool_control int_text F) a tt d s).2.1
        go scale_up e = rw e (
            add_workers-Reach (pos_part (wrap32 (d.desired_count -ℤ d.current_count))) number tt 0 s
              k le (omega (arith, (wrap32_range (d.desired_count -ℤ d.current_count)).0, bound)))
        go scale_down e =
            rw e
              (remove_workers-Reach (pos_part (wrap32 (d.current_count -ℤ d.desired_count))) tt 0 s)
        go no_action e = rw e here

    -- What is sound stays so with another collector.
    with_metrics-IsSound :
        (p : Pool F) (m : Option (Metrics F))
        → IsSound int_text p
        → IsSound int_text (record p { metrics = m })
    with_metrics-IsSound p m k = record {
      workers_Unique = k.workers_Unique;
      states_Unique = k.states_Unique;
      same_keys = k.same_keys;
      all_idle = k.all_idle;
      live = k.live;
      number = k.number;
      number_is = k.number_is;
      free = k.free;
      most = k.most;
      most_is = k.most_is;
      within = k.within;
    }

    -- An evaluation of the scaler over a sound pool with at least its minimum of workers leaves a
    -- sound pool with between its minimum and its maximum of workers, whatever the scaler decides, if
    -- the sensors change nothing of the pool but the collector and enough numbers for new workers
    -- are left.
    pub evaluate-IsSound :
        (sensors : Sensors (pool_world F) F) (a : AutoScaler F) (low number : ℕ) (s : ℕ × Pool F)
        → IsSound int_text s.1
        → s.1.min_workers ≡ pos low
        → low ≤ length s.1.workers
        → s.1.next_worker_id ≤ℤ pos number
        → number + 2147483648 < 9223372036854775807
        → ((m : Option (Metrics F)) × ((sensors.update_queue_depth tt s).1
              ≡ (s.0, record s.1 { metrics = m })))
        → let q = (evaluate (pool_world F) (pool_control int_text F) sensors a tt s).2.1 in
          IsSound int_text q
          × (pos low ≤ℤ pos (length q.workers))
          × (pos (length q.workers) ≤ℤ q.max_workers)
    unfolding evaluate
    evaluate-IsSound sensors a low number s k e h le bound (m, same) =
        let p1 = record s.1 { metrics = m } in
        let k1 = with_metrics-IsSound s.1 m k in
        let r : Reach int_text distinct p1
            (evaluate (pool_world F) (pool_control int_text F) sensors a tt s).2.1 =
          elim (Bool-cases (sensors.update_queue_depth tt s).0) [
            | inl read ↦
                (let s1 : ℕ × Pool F = (s.0, p1) in
                  let (d, a1) =
                    decide a (sensors.snapshot s1) ((pool_control int_text F).get_worker_count s1)
                      s.0 in
                  rw (read, same) (execute-Reach (record_decision a1 d) d number s1 k1 le bound))
            | inr failed ↦ rw (failed, same) here
          ] in
        let bounds =
          capacity int_text distinct p1
            (evaluate (pool_world F) (pool_control int_text F) sensors a tt s).2.1 low "" k1 e h
            r in
        (Reach-IsSound int_text distinct r k1, bounds.0, bounds.1)
