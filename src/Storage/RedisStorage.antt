-- ===== src/Storage/RedisStorage.antt =====
-- internal/storage/redis_store.go: the task store on the Redis server, as functions of the commands r
-- and two JSON codecs.
use spool.Prelude.{
  ◌*◌, String, Option, none, some, List, [], ◌∷◌, ℤ, pos, ltb_ℤ, if◌then◌else◌, str_eq,
}
use spool.Env.{World}
use spool.Effect.{M, ok, err, ◌>>=◌, ◌>>◌, throw, ignore, or_throw, from_option}
use spool.Task.{Task, State, second}
use spool.Task.Registry as Registry
use spool.Redis.{Redis, Reply, value, absent, failed}
use spool.Redis.Keys.{stored_task, stored_result, state_index}
use spool.Queue.RedisQueue.{Codec}
use spool.Storage.{
  Storage, Error, invalid_task, marshal_failed, save_failed, index_failed, empty_id, not_found,
  get_failed, unmarshal_failed, invalid_result, result_marshal_failed, result_save_failed,
  result_not_found, result_get_failed, result_unmarshal_failed, ids_failed, delete_failed,
}

abbrev pub task_ttl : ℤ
task_ttl = pos (7 * 24 * 3600 * second)

abbrev result_ttl : ℤ
result_ttl = pos (30 * 24 * 3600 * second)

-- `json.Marshal` and `json.Unmarshal` at results.
pub record ResultCodec : Type 0 where
  pub marshal : Registry.Result → Option String
  pub unmarshal : String → Option Registry.Result

module _ (w : World) (r : Redis w) (j : Codec) where
  open w use {S, Ctx}

  -- `t == nil || t.ID == ""`
  unfoldable pub save_task : Ctx → Option Task → M S Error (Unit {0})
  save_task ctx none = throw invalid_task
  save_task ctx (some t) = if str_eq t.id "" then throw invalid_task else (do
    d ← from_option (j.marshal t) marshal_failed
    or_throw (r.set ctx (stored_task t.id) d task_ttl) save_failed
    or_throw (r.sadd ctx (state_index t.state) t.id) index_failed)

  unfoldable pub decode_reply : Reply → M S Error Task
  decode_reply (value d) = from_option (j.unmarshal d) unmarshal_failed
  decode_reply absent = throw not_found
  decode_reply failed = throw get_failed

  unfoldable pub get_task : Ctx → String → M S Error Task
  unfolding decode_reply
  get_task ctx id s =
      if str_eq id ""
      then (err empty_id, s)
      else (let (reply, s') = r.get ctx (stored_task id) s in decode_reply reply s')

  unfoldable pub update_task_state : Ctx → String → State → M S Error (Unit {0})
  unfolding get_task save_task
  update_task_state ctx id state = if str_eq id "" then throw empty_id else (do
    t ← get_task ctx id
    ignore (r.srem ctx (state_index t.state) id)
    save_task ctx (some (record t { state = state })))

  -- The tasks that can be read, the others are skipped.
  get_each : Ctx → List String → S → List Task × S
  unfolding get_task
  get_each ctx [] s = ([], s)
  get_each ctx (id ∷ ids) s =
      let (found, s1) = get_task ctx id s in
      let (others, s2) = get_each ctx ids s1 in
      (elim found [ ok t ↦ t ∷ others | err e ↦ others ], s2)

  unfoldable pub get_tasks_by_state : Ctx → State → ℤ → M S Error (List Task)
  unfolding get_each
  get_tasks_by_state ctx state limit s =
      let (ids, s1) =
        (if ltb_ℤ (pos 0) limit
          then r.srand_member_n ctx (state_index state) limit s
          else r.smembers ctx (state_index state) s) in
      elim ids [
        | none ↦ (err ids_failed, s1)
        | some xs ↦ (let (tasks, s2) = get_each ctx xs s1 in (ok tasks, s2))
      ]

  unfoldable pub delete_task : Ctx → String → M S Error (Unit {0})
  unfolding get_task
  delete_task ctx id = if str_eq id "" then throw empty_id else (do
    t ← get_task ctx id
    ignore (r.srem ctx (state_index t.state) id)
    or_throw (r.del ctx (stored_task id)) delete_failed
    ignore (r.del ctx (stored_result id)))

  module _ (results : ResultCodec) where
    unfoldable pub save_result : Ctx → Option Registry.Result → M S Error (Unit {0})
    save_result ctx none = throw invalid_result
    save_result ctx (some v) = if str_eq v.task_id "" then throw invalid_result else (do
      d ← from_option (results.marshal v) result_marshal_failed
      or_throw (r.set ctx (stored_result v.task_id) d result_ttl) result_save_failed)

    decode_result : Reply → M S Error Registry.Result
    decode_result (value d) = from_option (results.unmarshal d) result_unmarshal_failed
    decode_result absent = throw result_not_found
    decode_result failed = throw result_get_failed

    unfoldable pub get_result : Ctx → String → M S Error Registry.Result
    unfolding decode_result
    get_result ctx id s =
        if str_eq id ""
        then (err empty_id, s)
        else (let (reply, s') = r.get ctx (stored_result id) s in decode_result reply s')

    -- The store that the worker and the broker are given.
    unfoldable pub redis_storage : Storage w
    unfolding save_task get_task update_task_state save_result get_result get_tasks_by_state
        delete_task
    redis_storage = record {
      save_task = save_task;
      get_task = get_task;
      update_task_state = update_task_state;
      save_result = save_result;
      get_result = get_result;
      get_tasks_by_state = get_tasks_by_state;
      delete_task = delete_task;
    }
