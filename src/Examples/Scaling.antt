-- ===== src/Examples/Scaling.antt =====
-- The scaler's and the configuration's theorems at concrete inputs.
use spool.Prelude.{ℕ, ◌≡◌, ◌↔◌, refl, String, true, false, none, [], pos, arith}
use spool.Config.{AutoScalingConfig, default, validate}
use spool.Config.Validation.{IsValid, validate_iff}
use spool.Scaler.{AutoScaler, Snapshot, decide}
use spool.Scaler.Decisions.{IsBounded, decide-IsBounded}

abbrev pub limits : AutoScalingConfig
limits = record {
  enabled = true;
  min_workers = pos 2;
  max_workers = pos 10;
  scale_up_threshold = pos 100;
  scale_down_idle_time = pos 300000000000;
  check_interval = pos 30000000000;
}

abbrev pub scaler : AutoScaler ℕ
scaler = record {
  config = limits;
  running = true;
  stop_closed = false;
  decisions = [];
  last_scale_up = none;
  last_scale_down = none;
  consecutive_idle = pos 0;
  scale_up_count = pos 0;
  scale_down_count = pos 0;
  scale_up_cooldown = pos 30000000000;
  scale_down_cooldown = pos 120000000000;
}

abbrev pub backlog : Snapshot ℕ
backlog = record {
  queue_depth = pos 400;
  idle_workers = pos 0;
  oldest_idle_time = pos 0;
  current_throughput = 7;
}

abbrev quiet : Snapshot ℕ
quiet = record {
  queue_depth = pos 0;
  idle_workers = pos 4;
  oldest_idle_time = pos 0;
  current_throughput = 0;
}

decide-IsBounded_example : IsBounded scaler backlog 5 4 2 10 (decide scaler backlog (pos 4) 5).0
decide-IsBounded_example = decide-IsBounded scaler backlog 5 4 2 10 0 refl refl refl (omega arith)

no_environment : String → String
no_environment key = ""

validate_iff_example : (validate (default no_environment) ≡ none) ↔ IsValid (default no_environment)
validate_iff_example = validate_iff (default no_environment)
