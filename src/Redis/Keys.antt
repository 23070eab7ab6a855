-- ===== src/Redis/Keys.antt =====
-- The Redis keys of internal/queue/redis.go and internal/storage/redis_store.go: a constructor for
-- each prefix constant, with what the code appends to it.
use spool.Prelude.{arith, ap, ◌≡◌, ◌≢◌, refl, Bool, true, false, String, pos, negsuc, zero, suc}
use spool.Task.{Priority, priority_critical, priority_high, priority_normal, priority_low}
use Prim.Native.String.{◌++◌}

-- The four keys of the map `queueKeys`.
pub data Level : Type 0 where
  critical high normal low : Level

pub data Stat : Type 0 where
  total completed failed dlq last_enqueue last_dequeue : Stat

-- `unnamed` is the empty string, which a map lookup gives for a key that is not there.
pub data Key : Type 0 where
  unnamed : Key
  queue : Level → Key
  processing task dlq_meta : String → Key
  stats : Stat → Key
  dlq_tasks : Key
  stored_task stored_result state_index : String → Key

-- The patterns that the code scans for.
pub data KeyKind : Type 0 where
  all_tasks all_processing : KeyKind

level_text : Level → String
level_text critical = "critical"
level_text high = "high"
level_text normal = "normal"
level_text low = "low"

stat_text : Stat → String
stat_text total = "total"
stat_text completed = "completed"
stat_text failed = "failed"
stat_text dlq = "dlq"
stat_text last_enqueue = "last_enqueue"
stat_text last_dequeue = "last_dequeue"

-- The text of a key, as the code concatenates it.
key_text : Key → String
unfolding level_text stat_text
key_text unnamed = ""
key_text (queue l) = "spool:queue:" ++ level_text l
key_text (processing id) = "spool:processing:" ++ id
key_text (task id) = "spool:task:" ++ id
key_text (stats s) = "spool:stats:" ++ stat_text s
key_text dlq_tasks = "spool:dlq:" ++ "tasks"
key_text (dlq_meta id) = "spool:dlq:meta:" ++ id
key_text (stored_task id) = "spool:store:task:" ++ id
key_text (stored_result id) = "spool:store:result:" ++ id
key_text (state_index state) = "spool:index:state:" ++ state

-- `rq.queueKeys[p]`: the map holds the four named levels.
unfoldable pub queue_key : Priority → Key
queue_key (pos zero) = queue low
queue_key (pos (suc zero)) = queue normal
queue_key (pos (suc (suc zero))) = queue high
queue_key (pos (suc (suc (suc zero)))) = queue critical
queue_key (pos (suc (suc (suc (suc n))))) = unnamed
queue_key (negsuc n) = unnamed

-- The keys of task queues, the unnamed one that an unknown priority selects among them.
abbrev pub is_queue : Key → Bool
is_queue unnamed = true
is_queue (queue l) = true
is_queue _ = false

pub queue_key-is_queue : (p : Priority) → is_queue (queue_key p) ≡ true
unfolding queue_key
queue_key-is_queue (pos zero) = refl
queue_key-is_queue (pos (suc zero)) = refl
queue_key-is_queue (pos (suc (suc zero))) = refl
queue_key-is_queue (pos (suc (suc (suc zero)))) = refl
queue_key-is_queue (pos (suc (suc (suc (suc n))))) = refl
queue_key-is_queue (negsuc n) = refl

-- Keys of two kinds differ.
pub ne_of_is_queue : (a b : Key) → is_queue a ≡ true → is_queue b ≡ false → a ≢ b
ne_of_is_queue a b h k e = cc (ap is_queue e)

-- The priority of a level.
unfoldable pub level_of : Level → Priority
level_of critical = priority_critical
level_of high = priority_high
level_of normal = priority_normal
level_of low = priority_low

pub queue_key-level_of : (l : Level) → queue_key (level_of l) ≡ queue l
unfolding queue_key level_of
queue_key-level_of critical = refl
queue_key-level_of high = refl
queue_key-level_of normal = refl
queue_key-level_of low = refl

-- The keys of the task store, which share the server with those of the queue.
abbrev pub is_stored : Key → Bool
is_stored (stored_task id) = true
is_stored (stored_result id) = true
is_stored (state_index state) = true
is_stored _ = false

pub not_stored_of_is_queue : (k : Key) → is_queue k ≡ true → is_stored k ≡ false
not_stored_of_is_queue k h = ground arith
