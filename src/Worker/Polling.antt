-- ===== src/Worker/Polling.antt =====
-- The work of internal/worker/worker.go: one poll of the queue, the execution of the task and what
-- follows a failure. Log lines are left out; the counters are the worker's own.
pub mod Counters
pub mod Failures
pub mod Executing
pub mod Outcomes
use spool.Prelude.{
  ℕ, ◌*◌, String, Bool, true, false, not, Option, none, some, ℤ, pos, ◌==ℤ◌, ◌+ℤ◌, wrap64, sub_ℕ,
  if◌then◌else◌, str_eq, Map,
}
use Prim.Native.String.{◌++◌}
use spool.Env.{World, CtxError, canceled, deadline_exceeded}
use spool.Effect.{M, Result, ok, err}
use spool.Task.{
  Task, second, state_retrying, get_retry_delay, mark_started, mark_completed, mark_failed,
}
use spool.Task.Registry.{
  Registry, execute, already_registered, no_handler, handler_error, marshal_error,
}
use spool.Task.Registry
use spool.Queue.{Queue}
use spool.Queue
use spool.Storage.{Storage}
use spool.Worker.{Worker}

-- How `fmt` prints a duration and an int.
pub record Format : Type 0 where
  pub duration_text : ℤ → String
  pub int_text : ℤ → String

-- `err.Error()` of an error of `Registry.Execute`.
unfoldable pub message : Registry.Error → String
message (already_registered kind) = "handler for task type '" ++ (kind ++ "' already registered")
message (no_handler kind) = "no handler registered for task type '" ++ (kind ++ "'")
message (handler_error text) = text
message (marshal_error text) = text

-- What a poll returns: nil, `queue.ErrNoTask`, or an error of the queue.
pub data Poll : Type 0 where
  returns_nil no_task : Poll
  returns_error : Queue.Error → Poll

-- An error of the queue, returned as it is.
abbrev pub to_poll : Result Queue.Error (Unit {0}) → Poll
to_poll (ok _) = returns_nil
to_poll (err e) = returns_error e

module _ (w : World) (f : Format) (registry : Registry w) (q : Queue w)
    (storage : Option (Storage w)) where
  open w use {S, Ctx, now, sleep, with_timeout, ctx_err}

  -- `if w.storage != nil`, with the error only logged.
  unfoldable pub save_task : Ctx → Task → S → S
  save_task ctx t s = elim storage [ none ↦ s | some st ↦ (st.save_task ctx (some t) s).1 ]

  unfoldable pub save_result : Ctx → Registry.Result → S → S
  save_result ctx result s = elim storage [
    | none ↦ s
    | some st ↦ (st.save_result ctx (some result) s).1
  ]

  save_result? : Ctx → Option Registry.Result → ℤ → S → S
  unfolding save_result
  save_result? ctx result duration s = elim result [
    | none ↦ s
    | some r ↦ save_result ctx (record r { duration = duration }) s
  ]

  pub default_timeout : ℤ → ℤ
  default_timeout timeout = if timeout ==ℤ pos 0 then pos (30 * second) else timeout

  is_deadline : Option CtxError → Bool
  is_deadline (some deadline_exceeded) = true
  is_deadline (some canceled) = false
  is_deadline none = false

  -- The end of executeTask where Execute returned an error.
  conclude_error :
      Ctx → Task → ℤ → ℤ → Bool → Option Registry.Result → Registry.Error → S → String × S
  unfolding save_result save_result?
  conclude_error ctx t timeout duration timed_out result e s =
      if timed_out
      then (let text = "task timed out after " ++ f.duration_text timeout in
          (
            text,
            save_result ctx
                (record {
                  task_id = t.id;
                  success = false;
                  output = "";
                  error = text;
                  completed_at = now s;
                  duration = duration;
                })
                s,
          ))
      else (message e, save_result? ctx result duration s)

  -- The end of executeTask where it returned none.
  conclude_result : Ctx → Task → ℤ → Option Registry.Result → S → Option String × Task × S
  unfolding save_result
  conclude_result ctx t duration none s = (none, mark_completed t (now s), s)
  conclude_result ctx t duration (some result) s = (
    if result.success then none else some ("task execution failed: " ++ result.error),
    mark_completed t (now s),
    save_result ctx (record result { duration = duration; completed_at = now s }) s,
  )

  -- The error's text, the task as it was left, and the state.
  unfoldable pub execute_task : Ctx → Task → S → Option String × Task × S
  unfolding conclude_error conclude_result default_timeout is_deadline message
  execute_task parent t s =
      let timeout = default_timeout t.timeout in
      let ctx = with_timeout parent timeout s in
      let (result, e, s1) = execute w registry ctx t s in
      let duration = sub_ℕ (now s1) (now s) in
      elim e [
        | none ↦ conclude_result parent t duration result s1
        | some e' ↦
            let (text, s2) =
              conclude_error parent t timeout duration (is_deadline (ctx_err ctx s1)) result e'
                s1 in
            (some text, t, s2)
      ]

  -- The task is back in the queue, or among the dead letters.
  unfoldable pub handle_task_failure : Worker → Ctx → Task → String → S → Poll × Worker × S
  unfolding save_task
  handle_task_failure v ctx t text s =
      let t' = mark_failed t text (now s) in
      let s1 = save_task ctx t' s in
      if str_eq t'.state state_retrying
      then (let v' = record v { tasks_retried = wrap64 (v.tasks_retried +ℤ pos 1) } in
          let (result, s2) = q.enqueue ctx (some t') (sleep (get_retry_delay t') s1) in
          (to_poll result, v', s2))
      else (let reason =
            "Exceeded max retries ("
            ++ (f.int_text t'.max_retries ++ ("). Last error: " ++ text)) in
          let s2 = (q.enqueue_dlq ctx (some t') reason s1).1 in
          let (result, s3) = q.nack ctx t.id false s2 in (to_poll result, v, s3))

  -- What follows the execution of the task t, which has been started.
  unfoldable pub settle : Worker → Ctx → Task → Option String → S → Poll × Worker × S
  unfolding handle_task_failure save_task
  settle v ctx t none s =
      let v' = record v { tasks_processed = wrap64 (v.tasks_processed +ℤ pos 1) } in
      let t' = mark_completed t (now s) in
      let (result, s2) = q.ack ctx t.id (save_task ctx t' s) in (to_poll result, v', s2)
  settle v ctx t (some text) s =
      handle_task_failure (record v { tasks_failed = wrap64 (v.tasks_failed +ℤ pos 1) }) ctx t text
        s

  unfoldable pub poll_and_execute : Worker → Ctx → S → Poll × Worker × S
  unfolding settle execute_task save_task
  poll_and_execute v ctx s =
      let (found, s1) = q.dequeue ctx s in
      elim found [
        | err e ↦ (returns_error e, v, s1)
        | ok none ↦ (no_task, v, s1)
        | ok (some t) ↦
            let t' = mark_started t (now s1) in
            let (failure, t'', s3) = execute_task ctx t' (save_task ctx t' s1) in
            settle v ctx t'' failure s3
      ]
