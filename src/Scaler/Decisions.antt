-- ===== src/Scaler/Decisions.antt =====
-- What decide of internal/monitoring/scaler.go may decide.
use spool.Prelude.{ℕ, ◌≤◌, ◌<◌, ◌≡◌, inl, inr, refl, Bool-cases, true, pos, arith, ◌≤ℤ◌, ◌<ℤ◌}
use spool.Env.{since}
use spool.Scaler.{
  AutoScaler, Snapshot, ScalingDecision, scale_up, scale_down, no_action, decide, should_scale_up,
  should_scale_down,
}
use spool.Scaler.Targets.{scale_up_target_bounds, scale_down_target_bounds, wrap32_pos}

module _ {F : Type 0} (s : AutoScaler F) (snapshot : Snapshot F) (now : ℕ) where
  -- A scale-up wants room below the maximum and a cooldown that is over.
  should_scale_up_room :
      (n m : ℕ)
      → s.config.max_workers ≡ pos m
      → m < 2147483648
      → should_scale_up s snapshot (pos n) now ≡ true
      → (n < m) × (s.scale_up_cooldown ≤ℤ since now s.last_scale_up)
  unfolding should_scale_up
  should_scale_up_room n m e h t = ground (arith, wrap32_pos m h)

  should_scale_down_room :
      (n m i : ℕ)
      → s.config.min_workers ≡ pos m
      → snapshot.idle_workers ≡ pos i
      → m < 2147483648
      → (should_scale_down s snapshot (pos n) now).0 ≡ true
      → (m < n) × (0 < i) × (s.scale_down_cooldown ≤ℤ since now s.last_scale_down)
  unfolding should_scale_down
  should_scale_down_room n m i e f h t = ground (arith, wrap32_pos m h)

  -- The decision agrees with its action, and keeps the fleet between the minimum and the maximum.
  pub record IsBounded (n low high : ℕ) (d : ScalingDecision F) : Type 0 where
    pub current : d.current_count ≡ pos n
    pub above : pos low ≤ℤ d.desired_count
    pub below : d.desired_count ≤ℤ pos high
    pub grows :
        d.action ≡ scale_up
        → (pos n <ℤ d.desired_count) × (s.scale_up_cooldown ≤ℤ since now s.last_scale_up)
    pub shrinks :
        d.action ≡ scale_down
        → (d.desired_count <ℤ pos n) × (s.scale_down_cooldown ≤ℤ since now s.last_scale_down)
    pub stays : d.action ≡ no_action → d.desired_count ≡ pos n

  module _ (n low high i : ℕ) (least : s.config.min_workers ≡ pos low)
      (most : s.config.max_workers ≡ pos high) (idle : snapshot.idle_workers ≡ pos i)
      (in_range : (low ≤ n) × (n ≤ high) × (high < 1073741824) × (i < 2147483648)) where
    -- A fleet of n workers between the minimum and the maximum gets a decision within them: it
    -- grows or shrinks where the action says so, and then only if the cooldown is over. The maximum
    -- is below 2^30, and the count of idle workers is not negative and fits into an int32.
    pub decide-IsBounded : IsBounded n low high (decide s snapshot (pos n) now).0
    unfolding decide
    decide-IsBounded = elim (Bool-cases (should_scale_up s snapshot (pos n) now)) [
      | inl up ↦
          let (room, cool) = should_scale_up_room n high most (omega arith) up in
          let (a, b, c) =
            scale_up_target_bounds s snapshot n high most (omega arith) room (omega arith) in
          rw up (record {
            current = refl;
            above = omega arith;
            below = b;
            grows = λ e. (a, cool);
            shrinks = λ e. cc;
            stays = λ e. cc;
          })
      | inr not_up ↦ elim (Bool-cases (should_scale_down s snapshot (pos n) now).0) [
        | inl down ↦
            let (room, some_idle, cool) =
              should_scale_down_room n low i least idle (omega arith) down in
            let (a, b, c) =
              scale_down_target_bounds s snapshot n low i least idle room (omega arith) some_idle
                (omega arith) in
            rw (not_up, down)
              (record {
                current = refl;
                above = a;
                below = omega arith;
                grows = λ e. cc;
                shrinks = λ e. (b, cool);
                stays = λ e. cc;
              })
        | inr not_down ↦
            rw (not_up, not_down)
              (record {
                current = refl;
                above = omega arith;
                below = omega arith;
                grows = λ e. cc;
                shrinks = λ e. cc;
                stays = λ e. refl;
              })
      ]
    ]
