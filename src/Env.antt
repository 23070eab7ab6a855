-- ===== src/Env.antt =====
-- What the program takes from Go's library: contexts, the clock and sleeping. S is the state of all
-- that lies outside the program (the clock, the Redis server, what handlers do).
use spool.Prelude.{ℕ, Option, none, some, ℤ, pos, sub_ℕ}

-- `context.Canceled` and `context.DeadlineExceeded`
pub data CtxError : Type 0 where
  canceled deadline_exceeded : CtxError

pub record World : Type 1 where
  pub S : Type 0
  pub Ctx : Type 0
  -- `time.Now`, in nanoseconds
  pub now : S → ℕ
  pub sleep : ℤ → S → S
  pub background : Ctx
  -- `context.WithTimeout`, counted from the present state
  pub with_timeout : Ctx → ℤ → S → Ctx
  -- `ctx.Err()`, with none for nil
  pub ctx_err : Ctx → S → Option CtxError

-- `time.Since(t)`: the difference saturates, so since the zero time it is the largest duration.
unfoldable pub since : ℕ → Option ℕ → ℤ
since now none = pos 9223372036854775807
since now (some t) = sub_ℕ now t
