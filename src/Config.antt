-- ===== src/Config.antt =====
-- internal/config/config.go: the configuration, its defaults and its validation.
pub mod Validation
use spool.Prelude.{
  ℕ, ◌*◌, String, Bool, true, false, Option, none, some, ℤ, pos, ltb_ℤ, if◌then◌else◌, str_eq,
}
use spool.Task.{second}

pub record RedisConfig : Type 0 where
  pub host : String
  pub port : ℤ
  pub password : String
  pub db : ℤ
  pub pool_size : ℤ

pub record AutoScalingConfig : Type 0 where
  pub enabled : Bool
  pub min_workers : ℤ
  pub max_workers : ℤ
  pub scale_up_threshold : ℤ
  pub scale_down_idle_time : ℤ
  pub check_interval : ℤ

pub record WorkerConfig : Type 0 where
  pub concurrency : ℤ
  pub id : String
  pub shutdown_timeout : ℤ
  pub default_timeout : ℤ
  pub health_check_interval : ℤ
  pub auto_scaling : AutoScalingConfig

pub record BrokerConfig : Type 0 where
  pub listen_addr : String
  pub retention_period : ℤ
  pub dlq_enabled : Bool
  pub dlq_retention_day : ℤ

pub record DashboardConfig : Type 0 where
  pub enabled : Bool
  pub listen_addr : String
  pub refresh_ms : ℤ

pub record LoggingConfig : Type 0 where
  pub level : String
  pub format : String

pub record Config : Type 0 where
  pub redis : RedisConfig
  pub worker : WorkerConfig
  pub broker : BrokerConfig
  pub dashboard : DashboardConfig
  pub logging : LoggingConfig

-- `env` is `os.Getenv`, which gives the empty string for a variable that is not set.
unfoldable pub get_env : (String → String) → String → String → String
get_env env key default_value =
    let value = env key in if str_eq value "" then default_value else value

unfoldable pub default : (String → String) → Config
default env = record {
  redis = record {
    host = get_env env "REDIS_HOST" "localhost";
    port = pos 6379;
    password = get_env env "REDIS_PASSWORD" "";
    db = pos 0;
    pool_size = pos 10;
  };
  worker = record {
    concurrency = pos 5;
    id = "";
    shutdown_timeout = pos (30 * second);
    default_timeout = pos (30 * second);
    health_check_interval = pos (10 * second);
    auto_scaling = record {
      enabled = false;
      min_workers = pos 1;
      max_workers = pos 10;
      scale_up_threshold = pos 100;
      scale_down_idle_time = pos (300 * second);
      check_interval = pos (30 * second);
    };
  };
  broker = record {
    listen_addr = ":8080";
    retention_period = pos (86400 * second);
    dlq_enabled = true;
    dlq_retention_day = pos 7;
  };
  dashboard = record { enabled = true; listen_addr = ":8080"; refresh_ms = pos 1000 };
  logging = record { level = "info"; format = "text" };
}

pub data Invalid : Type 0 where
  empty_redis_host low_concurrency low_min_workers max_below_min : Invalid

unfoldable pub validate : Config → Option Invalid
validate c =
    if str_eq c.redis.host ""
    then some empty_redis_host
    else if ltb_ℤ c.worker.concurrency (pos 1)
    then some low_concurrency
    else if c.worker.auto_scaling.enabled
    then (if ltb_ℤ c.worker.auto_scaling.min_workers (pos 1)
        then some low_min_workers
        else if ltb_ℤ c.worker.auto_scaling.max_workers c.worker.auto_scaling.min_workers
        then some max_below_min
        else none)
    else none
