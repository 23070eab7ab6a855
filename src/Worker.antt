-- ===== src/Worker.antt =====
-- internal/worker/worker.go: the worker's state and its life. The channel and the flag are what Start,
-- Stop and Shutdown move; closing a closed channel panics.
pub mod Polling
pub mod Life
pub mod Running
pub mod Draining
use spool.Prelude.{
  String, Bool, true, false, Option, none, some, ℤ, pos, if◌then◌else◌, str_eq, ℕ, ◌*◌, negsuc,
  ◌==◌,
}
use spool.Task.{second}

pub record Worker : Type 0 where
  pub id : String
  pub poll_freq : ℤ
  pub shutdown_closed : Bool
  pub running : Bool
  pub tasks_processed : ℤ
  pub tasks_failed : ℤ
  pub tasks_retried : ℤ

abbrev pub millisecond : ℕ
millisecond = 1000000

-- `config.ID` and `config.PollInterval`; `generated` is the id made from the time.
unfoldable pub new_worker : String → ℤ → String → Worker
new_worker id poll_interval generated = record {
  id = if str_eq id "" then generated else id;
  poll_freq = elim poll_interval [
    | pos n ↦ if n == 0 then pos (100 * millisecond) else pos n
    | negsuc n ↦ negsuc n
  ];
  shutdown_closed = false;
  running = false;
  tasks_processed = pos 0;
  tasks_failed = pos 0;
  tasks_retried = pos 0;
}

-- The outcome of a method of the life cycle.
pub data Outcome : Type 0 where
  returns_nil returns_error panics : Outcome

-- Start sets the flag and starts the loop.
unfoldable pub start : Worker → Outcome × Worker
start v = if v.running then (returns_error, v) else (returns_nil, record v { running = true })

-- Stop and Shutdown up to the wait for the loop: `close` of a closed channel panics.
unfoldable pub stop : Worker → Outcome × Worker
stop v =
    if v.running
    then (let v' = record v { running = false } in
        if v.shutdown_closed
        then (panics, v')
        else (returns_nil, record v' { shutdown_closed = true }))
    else (returns_error, v)

-- The deferred end of the loop.
unfoldable pub loop_ends : Worker → Worker
loop_ends v = record v { running = false }

-- The loop's `select` with a closed channel or a context that is done: it ends at once.
unfoldable pub loop_must_end : Worker → Bool → Bool
loop_must_end v ctx_done = if ctx_done then true else v.shutdown_closed
