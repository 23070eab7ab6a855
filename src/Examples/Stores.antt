-- ===== src/Examples/Stores.antt =====
-- The theorems on the task store at concrete inputs.
use spool.Prelude.{false, ◌≡◌, refl, some, str_eq, ap, inl}
use spool.Effect.{ok, err}
use spool.Task.{state_completed, state_pending}
use spool.Redis.Keys.{state_index}
use spool.Redis.KeyEquality.{key_eq}
use spool.Redis.Memory.{Memory, memory_world, memory_redis, memory_laws, memory_up}
use spool.Storage.RedisStorage.{save_task, get_task, delete_task}
use spool.Storage.SaveAndGet.{get_task-save_task, save_task-stale_index}
use spool.Storage.{not_found}
use spool.Storage.Deleting.{delete_task-get_task}
use spool.Examples.Samples.{job, codec_for, empty_server}

get_task-save_task_example :
    (get_task memory_world memory_redis
      (codec_for job)
      false
      "a"
      (save_task memory_world memory_redis (codec_for job) false (some job) empty_server).1).0
    ≡ ok job
unfolding save_task
get_task-save_task_example =
    get_task-save_task memory_laws (codec_for job) false job "x" empty_server memory_up refl refl
      refl

save_task-stale_index_example :
    (save_task memory_world memory_redis (codec_for job) false (some job) empty_server).1.held
      (state_index state_completed)
    ≡ empty_server.held (state_index state_completed)
save_task-stale_index_example =
    save_task-stale_index memory_laws (codec_for job) false job state_completed empty_server
      (λ e. cc (ap (λ t. str_eq t state_pending) e))

abbrev stored_job : Memory
stored_job = (save_task memory_world memory_redis (codec_for job) false (some job) empty_server).1

delete_task-get_task_example :
    let (result, s') = delete_task memory_world memory_redis (codec_for job) false "a" stored_job in
    (result ≡ ok tt)
    × ((get_task memory_world memory_redis (codec_for job) false "a" s').0 ≡ err not_found)
    × ((get_task memory_world memory_redis (codec_for job) false "b" s').0
        ≡ (get_task memory_world memory_redis (codec_for job) false "b" stored_job).0)
unfolding save_task get_task key_eq
delete_task-get_task_example =
    delete_task-get_task memory_laws (codec_for job) false "a" "b" job stored_job memory_up refl
      (λ e. cc (ap (λ x. str_eq x "a") e)) (inl refl)
