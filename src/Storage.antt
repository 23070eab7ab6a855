-- ===== src/Storage.antt =====
-- internal/storage/storage.go: the interface of a task store.
pub mod RedisStorage
pub mod Deleting
pub mod SaveAndGet
use spool.Prelude.{String, Option, List, ℤ}
use spool.Env.{World}
use spool.Effect.{M}
use spool.Task.{Task, State}
use spool.Task.Registry.{Result}

-- One constructor for each error message of internal/storage/redis_store.go.
pub data Error : Type 0 where
  invalid_task marshal_failed save_failed index_failed : Error
  empty_id not_found get_failed unmarshal_failed : Error
  invalid_result result_marshal_failed result_save_failed : Error
  result_not_found result_get_failed result_unmarshal_failed : Error
  ids_failed delete_failed : Error

module _ (w : World) where
  open w use {S, Ctx}

  pub record Storage : Type 0 where
    pub save_task : Ctx → Option Task → M S Error (Unit {0})
    pub get_task : Ctx → String → M S Error Task
    pub update_task_state : Ctx → String → State → M S Error (Unit {0})
    pub save_result : Ctx → Option Result → M S Error (Unit {0})
    pub get_result : Ctx → String → M S Error Result
    pub get_tasks_by_state : Ctx → State → ℤ → M S Error (List Task)
    pub delete_task : Ctx → String → M S Error (Unit {0})
