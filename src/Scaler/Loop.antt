-- ===== src/Scaler/Loop.antt =====
-- The evaluation step of internal/monitoring/scaler.go: the scaler asks the metrics, decides, and has
-- a controller of workers carry the decision out.
pub mod Execution
pub mod OnPool
pub mod ScaleUp
use spool.Prelude.{
  ℕ, zero, suc, ◌+◌, String, Bool, true, false, Option, none, some, ℤ, pos, pos_part, ◌+ℤ◌, ◌-ℤ◌,
  wrap32, wrap64, if◌then◌else◌, str_eq, leb, ltb,
}
use spool.Env.{World}
use spool.Scaler.{
  AutoScaler, Snapshot, ScalingDecision, ScalingAction, scale_up, scale_down, no_action, decide,
  record_decision,
}

module _ (w : World) where
  open w use {S, Ctx, now}

  -- `WorkerController`; an empty id means that no worker is idle.
  pub record Controller : Type 0 where
    pub get_worker_count : S → ℤ
    pub add_worker : Ctx → S → Option String × S
    pub remove_worker : Ctx → String → S → Bool × S
    pub get_idle_worker : S → String × S

  -- The methods of `Metrics` that the scaler calls; true if the error is nil.
  pub record Sensors (F : Type 0) : Type 0 where
    pub update_queue_depth : Ctx → S → Bool × S
    pub snapshot : S → Snapshot F

  pub data Error : Type 0 where
    depth_failed : Error
    scale_up_errors scale_down_errors : ℕ → Error

  module _ (control : Controller) where
    -- The loop of `scaleUp` over the workers to add; the number counts the errors.
    unfoldable pub add_workers : ℕ → Ctx → ℕ → S → ℕ × S
    add_workers zero ctx errors s = (errors, s)
    add_workers (suc n) ctx errors s =
        let (added, s') = control.add_worker ctx s in
        add_workers n ctx (elim added [ none ↦ errors + 1 | some id ↦ errors ]) s'

    -- The loop of `scaleDown`, which ends when no worker is idle.
    unfoldable pub remove_workers : ℕ → Ctx → ℕ → S → ℕ × S
    remove_workers zero ctx errors s = (errors, s)
    remove_workers (suc n) ctx errors s =
        let (id, s1) = control.get_idle_worker s in
        let (removed, s2) = control.remove_worker ctx id s1 in
        let rest = remove_workers n ctx (if removed then errors else errors + 1) s2 in
        if str_eq id "" then (errors, s1) else rest

  module _ (control : Controller) {F : Type 0} where
    unfoldable pub scale_up_by :
        AutoScaler F → Ctx → ScalingDecision F → S → Option Error × AutoScaler F × S
    unfolding add_workers
    scale_up_by a ctx d s =
        let (errors, s') =
          add_workers control (pos_part (wrap32 (d.desired_count -ℤ d.current_count))) ctx 0 s in
        (
          if ltb 0 errors then some (scale_up_errors errors) else none,
          record a {
            last_scale_up = some (now s');
            scale_up_count = wrap64 (a.scale_up_count +ℤ pos 1);
          },
          s',
        )

    unfoldable pub scale_down_by :
        AutoScaler F → Ctx → ScalingDecision F → S → Option Error × AutoScaler F × S
    unfolding remove_workers
    scale_down_by a ctx d s =
        let (errors, s') =
          remove_workers control (pos_part (wrap32 (d.current_count -ℤ d.desired_count))) ctx 0 s in
        (
          if ltb 0 errors then some (scale_down_errors errors) else none,
          record a {
            last_scale_down = some (now s');
            scale_down_count = wrap64 (a.scale_down_count +ℤ pos 1);
            consecutive_idle = pos 0;
          },
          s',
        )

    unfoldable pub execute :
        AutoScaler F → Ctx → ScalingDecision F → S → Option Error × AutoScaler F × S
    unfolding scale_up_by scale_down_by
    execute a ctx d s = elim d.action [
      | scale_up ↦ scale_up_by a ctx d s
      | scale_down ↦ scale_down_by a ctx d s
      | no_action ↦ (none, a, s)
    ]

    unfoldable pub evaluate : Sensors F → AutoScaler F → Ctx → S → Option Error × AutoScaler F × S
    unfolding execute
    evaluate sensors a ctx s =
        let (fine, s1) = sensors.update_queue_depth ctx s in
        if fine
        then (let (decision, a1) =
              decide a (sensors.snapshot s1) (control.get_worker_count s1) (now s1) in
            execute (record_decision a1 decision) ctx decision s1)
        else (some depth_failed, a, s1)
