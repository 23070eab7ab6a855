-- ===== src/Scaler.antt =====
-- internal/monitoring/scaler.go: how many workers there should be. Counts are int32 and depths and
-- durations int64, as the integers that they stand for; F is the type of float64.
pub mod Targets
pub mod Decisions
pub mod Loop
pub mod History
use spool.Prelude.{
  ℕ, suc, ◌+◌, ◌-◌, ◌*◌, String, Bool, true, false, ◌&&◌, not, Option, none, some, List, [], ◌∷◌,
  ◌++◌, ℤ, pos, negsuc, ltb, ltb_ℤ, leb_ℤ, ◌==ℤ◌, ◌+ℤ◌, ◌-ℤ◌, quot, scale, wrap32, wrap64, sub_ℕ,
  if◌then◌else◌, length, drop, str_eq,
}
use spool.Task.{second}
use spool.Config.{AutoScalingConfig}
use spool.Env.{since}

pub data ScalingAction : Type 0 where
  scale_up scale_down no_action : ScalingAction

-- The sentence that `fmt.Sprintf` makes, by its kind and its values.
pub data Reason : Type 0 where
  no_reason : Reason
  depth_exceeds : ℤ → ℤ → Reason
  idle_for : ℤ → ℤ → ℤ → ℤ → Reason

-- The fields of `MetricsSnapshot` that the scaler reads.
pub record Snapshot (F : Type 0) : Type 0 where
  pub queue_depth : ℤ
  pub idle_workers : ℤ
  pub oldest_idle_time : ℤ
  pub current_throughput : F

pub record ScalingDecision (F : Type 0) : Type 0 where
  pub action : ScalingAction
  pub current_count : ℤ
  pub desired_count : ℤ
  pub reason : Reason
  pub queue_depth : ℤ
  pub idle_time : ℤ
  pub throughput : F
  pub decision_time : ℕ

-- The last scalings are none at the zero time.
pub record AutoScaler (F : Type 0) : Type 0 where
  pub config : AutoScalingConfig
  pub running : Bool
  pub stop_closed : Bool
  pub decisions : List (ScalingDecision F)
  pub last_scale_up : Option ℕ
  pub last_scale_down : Option ℕ
  pub consecutive_idle : ℤ
  pub scale_up_count : ℤ
  pub scale_down_count : ℤ
  pub scale_up_cooldown : ℤ
  pub scale_down_cooldown : ℤ

-- "Always maintain minimum workers."
at_least : ℤ → ℤ → ℤ
at_least minimum desired = if ltb_ℤ desired minimum then minimum else desired

-- "Scale gradually: remove at most 25% of current workers at once."
gradually : ℤ → ℤ → ℤ
gradually current desired =
    let quarter = quot current 4 in
    let max_decrease = if ltb_ℤ quarter (pos 1) then pos 1 else quarter in
    if ltb_ℤ max_decrease (wrap32 (current -ℤ desired))
    then wrap32 (current -ℤ max_decrease)
    else desired

module _ {F : Type 0} where
  unfoldable pub new_auto_scaler : AutoScalingConfig → AutoScaler F
  new_auto_scaler cfg = record {
    config = cfg;
    running = false;
    stop_closed = false;
    decisions = [];
    last_scale_up = none;
    last_scale_down = none;
    consecutive_idle = pos 0;
    scale_up_count = pos 0;
    scale_down_count = pos 0;
    scale_up_cooldown = pos (30 * second);
    scale_down_cooldown = pos (120 * second);
  }

  -- `go s.run(ctx)` apart, Start and Stop only move the flags; `stop_closed` is `stopChan`.
  unfoldable pub start : AutoScaler F → Bool × AutoScaler F
  start s = if s.running then (false, s) else (true, record s { running = true })

  unfoldable pub stop : AutoScaler F → AutoScaler F
  stop s = if s.running then record s { running = false; stop_closed = true } else s

  unfoldable pub should_scale_up : AutoScaler F → Snapshot F → ℤ → ℕ → Bool
  unfolding since
  should_scale_up s snapshot current now =
      if leb_ℤ (wrap32 s.config.max_workers) current
      then false
      else if ltb_ℤ (since now s.last_scale_up) s.scale_up_cooldown
      then false
      else if ltb_ℤ s.config.scale_up_threshold snapshot.queue_depth
      then true
      else if snapshot.idle_workers ==ℤ pos 0 && ltb_ℤ (pos 0) snapshot.queue_depth
      then true
      else if ltb_ℤ (wrap32 (scale 10 current)) snapshot.queue_depth
      then true
      else false

  -- The test, and `consecutiveIdle` after it.
  unfoldable pub should_scale_down : AutoScaler F → Snapshot F → ℤ → ℕ → Bool × ℤ
  unfolding since
  should_scale_down s snapshot current now =
      if leb_ℤ current (wrap32 s.config.min_workers)
      then (false, s.consecutive_idle)
      else if snapshot.idle_workers ==ℤ pos 0
      then (false, pos 0)
      else if ltb_ℤ (since now s.last_scale_down) s.scale_down_cooldown
      then (false, s.consecutive_idle)
      else if ltb_ℤ s.config.scale_down_idle_time snapshot.oldest_idle_time
      then (let idle = wrap64 (s.consecutive_idle +ℤ pos 1) in (leb_ℤ (pos 2) idle, idle))
      else if snapshot.queue_depth ==ℤ pos 0 && leb_ℤ (quot current 2) snapshot.idle_workers
      then (true, s.consecutive_idle)
      else (false, pos 0)

  -- One worker for each 50 tasks, up to the maximum, and half as many again at most at once.
  unfoldable pub calculate_scale_up_target : AutoScaler F → Snapshot F → ℤ → ℤ
  calculate_scale_up_target s snapshot current =
      let wanted = wrap32 (current +ℤ wrap32 (quot snapshot.queue_depth 50)) in
      let at_least = if leb_ℤ wanted current then wrap32 (current +ℤ pos 1) else wanted in
      let capped =
        if ltb_ℤ (wrap32 s.config.max_workers) at_least
        then wrap32 s.config.max_workers
        else at_least in
      let max_increase = wrap32 (quot current 2 +ℤ pos 1) in
      if ltb_ℤ (wrap32 (current +ℤ max_increase)) capped
      then wrap32 (current +ℤ max_increase)
      else capped

  unfoldable pub calculate_scale_down_target : AutoScaler F → Snapshot F → ℤ → ℤ
  unfolding at_least gradually
  calculate_scale_down_target s snapshot current =
      gradually current
        (at_least (wrap32 s.config.min_workers) (wrap32 (current -ℤ snapshot.idle_workers)))

  -- The decision, and the scaler with its count of idle checks.
  unfoldable pub decide : AutoScaler F → Snapshot F → ℤ → ℕ → ScalingDecision F × AutoScaler F
  decide s snapshot current now =
      let decision : ScalingDecision F = record {
        action = no_action;
        current_count = current;
        desired_count = current;
        reason = no_reason;
        queue_depth = snapshot.queue_depth;
        idle_time = snapshot.oldest_idle_time;
        throughput = snapshot.current_throughput;
        decision_time = now;
      } in
      if should_scale_up s snapshot current now
      then (
        record decision {
          action = scale_up;
          desired_count = calculate_scale_up_target s snapshot current;
          reason = depth_exceeds snapshot.queue_depth s.config.scale_up_threshold;
        },
        s,
      )
      else (let (down, idle) = should_scale_down s snapshot current now in
          let s' : AutoScaler F = record s { consecutive_idle = idle } in
          if down
          then (
            record decision {
              action = scale_down;
              desired_count = calculate_scale_down_target s snapshot current;
              reason =
                  idle_for snapshot.oldest_idle_time s.config.scale_down_idle_time
                    snapshot.idle_workers current;
            },
            s',
          )
          else (decision, s'))

  unfoldable pub record_decision : AutoScaler F → ScalingDecision F → AutoScaler F
  record_decision s decision =
      let decisions = s.decisions ++ (decision ∷ []) in
      record s { decisions = if ltb 100 (length decisions) then drop 1 decisions else decisions }

  -- `copy` of the last `limit` decisions.
  unfoldable pub get_decision_history : AutoScaler F → ℤ → List (ScalingDecision F)
  get_decision_history s limit =
      let n = length s.decisions in
      if leb_ℤ limit (pos 0)
      then s.decisions
      else if ltb_ℤ (pos n) limit
      then s.decisions
      else elim limit [ pos k ↦ drop (n - k) s.decisions | negsuc k ↦ s.decisions ]
