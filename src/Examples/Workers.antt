-- ===== src/Examples/Workers.antt =====
-- The worker's and the task's theorems at concrete inputs.
use spool.Prelude.{◌≡◌, refl, true, false, none, List, [], ◌∷◌, ◌++◌ as append, pos, arith, lookup}
use spool.Task.{Task, mark_started, mark_failed, should_retry, state_retrying, get_retry_delay}
use spool.Task.Retry.{get_retry_delay-overflow}
use spool.Task.Lifecycle.{fail_all, fail_all-state}
use spool.Redis.Keys.{queue_key, critical, high, normal, low, task, processing, Level}
use spool.Redis.KeyEquality.{key_eq}
use spool.Redis.Laws.{missing}
use spool.Redis.Memory.{Memory, memory_world, memory_redis, memory_laws, memory_up}
use spool.Queue.{Queue}
use spool.Queue.RedisQueue.{Codec, dead_lettered, enqueue, dequeue, fresh}
use spool.Queue.RedisQueue.Admin.{redis_queue}
use spool.Queue.RedisQueue.Admin.DeadLetters.{dead_letters}
use spool.Queue.RedisQueue.Enqueueing.{Queued}
use spool.Worker.{Worker, panics, start, stop, loop_must_end}
use spool.Worker.Polling
use spool.Worker.Polling.{save_task, handle_task_failure, poll_and_execute}
use spool.Worker.Polling.Counters.{Counts, poll_and_execute-Counted}
use spool.Worker.Polling.Failures.{
  IsUndisturbed, reason, handle_task_failure-retry, handle_task_failure-dead,
}
use spool.Worker.Life.{here, stopped_for_good}
use spool.Examples.Samples.{
  job, tired, codec_for, empty_server, busy_server, handlers, plain_format, idle_worker,
}

abbrev order : List Level
order = critical ∷ high ∷ normal ∷ low ∷ []

abbrev memory_queue : Codec → Queue memory_world
memory_queue j = redis_queue memory_world memory_redis j order

undisturbed :
    (j : Codec)
    → IsUndisturbed memory_world plain_format memory_redis j memory_laws order handlers none
unfolding save_task
undisturbed j = record { saving = λ ctx t s k h. refl; sleeping = λ d s k h. refl }

handle_task_failure-retry_example :
    Queued memory_world memory_redis
      (codec_for job)
      memory_laws
      (mark_failed job "boom" 5000000000)
      empty_server
      (handle_task_failure memory_world plain_format handlers
        (memory_queue (codec_for job))
        none
        idle_worker
        false
        job
        "boom"
        empty_server).2
unfolding should_retry handle_task_failure redis_queue enqueue mark_failed fresh queue_key key_eq
handle_task_failure-retry_example =
    handle_task_failure-retry memory_world plain_format memory_redis (codec_for job) memory_laws
      order handlers none idle_worker false job "boom" empty_server (undisturbed (codec_for job))
      refl refl

abbrev corpse : Task
corpse = dead_lettered (mark_failed tired "boom" 5000000000) (
    reason memory_world plain_format memory_redis (codec_for job) memory_laws order handlers none
      (mark_failed tired "boom" 5000000000) "boom")

abbrev last_failure : Polling.Poll × Worker × Memory
last_failure =
    handle_task_failure memory_world plain_format handlers (memory_queue (codec_for corpse)) none
      idle_worker false tired "boom" busy_server

handle_task_failure-dead_example :
    (last_failure.0 ≡ Polling.returns_nil)
    × (dead_letters memory_world memory_redis (codec_for corpse) memory_laws last_failure.2
        ≡ append
            (dead_letters memory_world memory_redis (codec_for corpse) memory_laws busy_server)
            (corpse ∷ []))
    × (last_failure.2.held (task "a") ≡ missing)
    × (last_failure.2.held (processing "a") ≡ missing)
unfolding should_retry key_eq
handle_task_failure-dead_example =
    handle_task_failure-dead memory_world plain_format memory_redis (codec_for corpse) memory_laws
      order handlers none idle_worker false tired "boom" busy_server "x"
      (undisturbed (codec_for corpse)) memory_up refl (λ e. cc) ([], refl) refl refl

poll_and_execute-Counted_example :
    Counts memory_world plain_format handlers
      (memory_queue (codec_for job))
      none
      (poll_and_execute memory_world plain_format handlers
        (memory_queue (codec_for job))
        none
        idle_worker
        false
        busy_server).1
      1
      0
      0
unfolding redis_queue dequeue key_eq queue_key lookup mark_started
poll_and_execute-Counted_example =
    poll_and_execute-Counted memory_world plain_format handlers (memory_queue (codec_for job)) none
      idle_worker false busy_server 0 0 0
      (record { processed = refl; failed = refl; retried = refl }) (omega arith)

abbrev old : Task
old = record job { retry_count = pos 70; max_retries = pos 100 }

get_retry_delay-overflow_example : get_retry_delay old ≡ pos 0
get_retry_delay-overflow_example = get_retry_delay-overflow old 70 refl (omega arith)

abbrev failing_twice : Task
failing_twice = fail_all job (("boom", 7) ∷ ("boom", 9) ∷ [])

fail_all-state_example :
    (failing_twice.retry_count ≡ pos 2) × (failing_twice.state ≡ state_retrying)
fail_all-state_example = fail_all-state job "boom" 7 0 3 (("boom", 9) ∷ []) refl refl (omega arith)

abbrev stopped_worker : Worker
stopped_worker = (stop idle_worker).1

stopped_for_good_example :
    (loop_must_end (start stopped_worker).1 false ≡ true)
    × ((stop (start stopped_worker).1).0 ≡ panics)
unfolding start stop
stopped_for_good_example = stopped_for_good idle_worker stopped_worker refl here refl
