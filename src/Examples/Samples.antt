-- ===== src/Examples/Samples.antt =====
-- Tasks, servers and parameters for the examples.
use spool.Prelude.{◌*◌, true, false, none, some, [], ◌∷◌, pos, if◌then◌else◌}
use spool.Task.{Task, priority_high, state_pending, second}
use spool.Task.Registry.{Registry, encoded}
use spool.Redis.Keys.{queue, high, critical, task}
use spool.Redis.KeyEquality.{key_eq}
use spool.Redis.Laws.{missing, text, items}
use spool.Redis.Memory.{Memory, memory_world}
use spool.Queue.RedisQueue.{Codec}
use spool.Worker.{Worker}
use spool.Worker.Polling.{Format}

abbrev pub job : Task
job = record {
  id = "a";
  kind = "email";
  payload = "{}";
  priority = priority_high;
  state = state_pending;
  max_retries = pos 3;
  retry_count = pos 0;
  timeout = pos (30 * second);
  created_at = 1;
  scheduled_at = 0;
  started_at = none;
  completed_at = none;
  error = "";
  metadata = [];
}

-- The same task after all its retries.
abbrev pub tired : Task
tired = record job { retry_count = pos 3 }

-- A task of no known priority.
abbrev pub odd : Task
odd = record job { priority = pos 7 }

-- A codec under which one task stands for all.
abbrev pub codec_for : Task → Codec
codec_for t = record {
  marshal = λ _. some "x";
  unmarshal = λ _. some t;
  dead_letter_text = λ id reason now count. "meta";
  int_text = λ n. "1";
}

abbrev pub empty_server : Memory
empty_server = record { time = 5000000000; held = λ k. missing }

-- Two ids wait in the high queue, and the first has its data.
abbrev pub busy_server : Memory
busy_server = record {
  time = 5000000000;
  held = λ k.
      if key_eq k (queue high)
      then items ("a" ∷ "b" ∷ [])
      else if key_eq k (task "a")
      then text "x"
      else missing;
}

-- The critical queue holds two ids without data.
abbrev pub stale_server : Memory
stale_server = record {
  time = 5000000000;
  held = λ k. if key_eq k (queue critical) then items ("a" ∷ "b" ∷ []) else missing;
}

-- The list of the high queue is a text by mistake.
abbrev pub wrong_server : Memory
wrong_server = record {
  time = 5000000000;
  held = λ k. if key_eq k (queue high) then text "x" else missing;
}

abbrev pub handlers : Registry memory_world
handlers = ("email", λ ctx payload s. (encoded "1", s)) ∷ []

abbrev pub plain_format : Format
plain_format = record { duration_text = λ d. "30s"; int_text = λ n. "3" }

abbrev pub idle_worker : Worker
idle_worker = record {
  id = "worker-1";
  poll_freq = pos 100000000;
  shutdown_closed = false;
  running = true;
  tasks_processed = pos 0;
  tasks_failed = pos 0;
  tasks_retried = pos 0;
}
