-- ===== src/Task.antt =====
-- internal/task/task.go: the unit of work. A Go method that changes its receiver returns the new
-- record. Times are nanoseconds since the epoch and durations are int64 nanoseconds.
pub mod Registry
pub mod Retry
pub mod Lifecycle
use spool.Prelude.{
  ℕ, ◌+◌, ◌*◌, ◌^◌, String, Bool, Option, none, some, [], ℤ, pos, negsuc, ltb_ℤ, wrap64, scale,
  ◌+ℤ◌, if◌then◌else◌, ltb, Map,
}

-- `type Priority int`: any integer can arrive by JSON; the named levels are four of them.
abbrev pub Priority : Type 0
Priority = ℤ

abbrev pub priority_low : Priority
priority_low = pos 0

abbrev pub priority_normal : Priority
priority_normal = pos 1

abbrev pub priority_high : Priority
priority_high = pos 2

abbrev pub priority_critical : Priority
priority_critical = pos 3

-- `type State string`
abbrev pub State : Type 0
State = String

abbrev pub state_pending : State
state_pending = "pending"

abbrev pub state_processing : State
state_processing = "processing"

abbrev pub state_completed : State
state_completed = "completed"

abbrev pub state_failed : State
state_failed = "failed"

abbrev pub state_retrying : State
state_retrying = "retrying"

abbrev pub state_dead_letter : State
state_dead_letter = "dead_letter"

abbrev pub second : ℕ
second = 1000000000

-- `type` is `kind` here, a payload is its JSON text, and metadata holds the JSON text of each value.
pub record Task : Type 0 where
  pub id : String
  pub kind : String
  pub payload : String
  pub priority : Priority
  pub state : State
  pub max_retries : ℤ
  pub retry_count : ℤ
  pub timeout : ℤ
  pub created_at : ℕ
  pub scheduled_at : ℕ
  pub started_at : Option ℕ
  pub completed_at : Option ℕ
  pub error : String
  pub metadata : Map String

-- `uuid` and `now` are what `uuid.New` and `time.Now` give; the payload is what `json.Marshal`
-- makes of its argument, `none` where that fails.
unfoldable pub new_task : String → Option String → String → ℕ → Option Task
new_task task_type none uuid now = none
new_task task_type (some payload_bytes) uuid now = some (record {
  id = uuid;
  kind = task_type;
  payload = payload_bytes;
  priority = priority_normal;
  state = state_pending;
  max_retries = pos 3;
  retry_count = pos 0;
  timeout = pos (30 * second);
  created_at = now;
  scheduled_at = 0;
  started_at = none;
  completed_at = none;
  error = "";
  metadata = [];
})

unfoldable pub with_priority : Task → Priority → Task
with_priority t p = record t { priority = p }

unfoldable pub with_max_retries : Task → ℤ → Task
with_max_retries t max = record t { max_retries = max }

unfoldable pub with_timeout : Task → ℤ → Task
with_timeout t d = record t { timeout = d }

unfoldable pub with_schedule_at : Task → ℕ → Task
with_schedule_at t at = record t { scheduled_at = at }

unfoldable pub should_retry : Task → Bool
should_retry t = ltb_ℤ t.retry_count t.max_retries

-- `1 << n` at an int64: the bits that are shifted out are lost.
shl64 : ℕ → ℤ
shl64 n = if ltb n 64 then wrap64 (pos (2 ^ n)) else pos 0

-- `1 << uint(r)`: a negative count becomes one of at least 2^63, which shifts every bit out.
shift_by : ℤ → ℤ
unfolding shl64
shift_by (pos n) = shl64 n
shift_by (negsuc n) = pos 0

abbrev pub base_delay : ℕ
base_delay = 1 * second

abbrev pub max_delay : ℕ
max_delay = 300 * second

-- The product of two int64 wraps as well.
delay_for : ℤ → ℤ
unfolding shift_by
delay_for retry_count =
    let delay = wrap64 (scale base_delay (shift_by retry_count)) in
    if ltb_ℤ (pos max_delay) delay then pos max_delay else delay

unfoldable pub get_retry_delay : Task → ℤ
unfolding delay_for
get_retry_delay t = delay_for t.retry_count

unfoldable pub mark_started : Task → ℕ → Task
mark_started t now = record t { started_at = some now; state = state_processing }

unfoldable pub mark_completed : Task → ℕ → Task
mark_completed t now = record t { completed_at = some now; state = state_completed }

-- `message` is `err.Error()`; the test is made before the count is raised.
unfoldable pub mark_failed : Task → String → ℕ → Task
mark_failed t message now =
    let retry = ltb_ℤ t.retry_count t.max_retries in
    let t' = record t { error = message; retry_count = wrap64 (t.retry_count +ℤ pos 1) } in
    if retry
    then record t' { state = state_retrying }
    else record t' { state = state_dead_letter; completed_at = some now }
