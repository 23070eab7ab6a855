-- ===== src/Config/Validation.antt =====
-- What Validate of internal/config/config.go accepts.
use spool.Prelude.{
  Bool-cases, inl, inr, ◌≡◌, ◌≢◌, ◌↔◌, String, true, none, pos, arith, str_eq, eq_iff, ◌≤ℤ◌,
}
use spool.Config.{Config, validate, get_env, default}

-- The configurations that the program means to run with.
pub record IsValid (c : Config) : Type 0 where
  pub named_host : c.redis.host ≢ ""
  pub some_worker : pos 1 ≤ℤ c.worker.concurrency
  pub some_minimum :
      c.worker.auto_scaling.enabled ≡ true → pos 1 ≤ℤ c.worker.auto_scaling.min_workers
  pub ordered :
      c.worker.auto_scaling.enabled ≡ true
      → c.worker.auto_scaling.min_workers ≤ℤ c.worker.auto_scaling.max_workers

-- Validate returns nil exactly for the valid configurations.
pub validate_iff : (c : Config) → (validate c ≡ none) ↔ IsValid c
unfolding validate
validate_iff c =
    (λ h. ground (arith, eq_iff c.redis.host ""), λ v. ground (arith, eq_iff c.redis.host ""))

get_env-ne : (env : String → String) (key value : String) → value ≢ "" → get_env env key value ≢ ""
unfolding get_env
get_env-ne env key value n = elim (Bool-cases (str_eq (env key) "")) [
  | inl e ↦ rw e n
  | inr e ↦ rw e (λ x. cc (e, (eq_iff (env key) "").1 x))
]

-- The default configuration is valid in every environment.
pub default-IsValid : (env : String → String) → IsValid (default env)
unfolding default
default-IsValid env = record {
  named_host = get_env-ne env "REDIS_HOST" "localhost" (λ e. cc);
  some_worker = omega arith;
  some_minimum = λ e. cc;
  ordered = λ e. cc;
}
