-- ===== src/Queue.antt =====
-- internal/queue/queue.go: the interface of a task queue, as the worker and the broker use it. A
-- task pointer is an Option, with none for nil.
pub mod Priority
pub mod RedisQueue
use spool.Prelude.{ℕ, String, Bool, Option, List, ℤ}
use spool.Env.{World}
use spool.Effect.{M}
use spool.Task.{Task}

-- One constructor for each error message of internal/queue/redis.go.
pub data Error : Type 0 where
  nil_task marshal_failed store_failed enqueue_failed : Error
  dequeue_failed retrieve_failed unmarshal_failed peek_failed : Error
  empty_id requeue_retrieve_failed requeue_failed : Error
  size_failed purge_failed task_data_failed processing_data_failed : Error
  dlq_marshal_failed dlq_enqueue_failed dlq_size_failed dlq_tasks_failed : Error
  ping_failed : Error

module _ (w : World) where
  open w use {S, Ctx}

  pub record Queue : Type 0 where
    pub enqueue : Ctx → Option Task → M S Error (Unit {0})
    pub dequeue : Ctx → M S Error (Option Task)
    pub peek : Ctx → M S Error (Option Task)
    pub ack : Ctx → String → M S Error (Unit {0})
    pub nack : Ctx → String → Bool → M S Error (Unit {0})
    pub size : Ctx → M S Error ℕ
    pub purge : Ctx → M S Error (Unit {0})
    pub enqueue_dlq : Ctx → Option Task → String → M S Error (Unit {0})
    pub get_dlq_size : Ctx → M S Error ℕ
    pub get_dlq_tasks : Ctx → ℤ → M S Error (List Task)
    pub health : Ctx → M S Error (Unit {0})
