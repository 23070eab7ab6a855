-- ===== src/Worker/Running.antt =====
-- The loop `run` of internal/worker/worker.go and the methods that read the worker. The loop waits in a
-- `select`; a run is given by the case that it takes each time around.
use spool.Prelude.{String, Bool, true, false, if◌then◌else◌, Option, List, [], ◌∷◌, ℤ}
use spool.Env.{World}
use spool.Task.Registry.{Registry}
use spool.Queue.{Queue}
use spool.Storage.{Storage}
use spool.Worker.{Worker, Outcome, returns_nil, returns_error, panics, stop, loop_ends}
use spool.Worker.Polling.{Format, poll_and_execute}

-- The cases of the loop's `select`.
pub data Case : Type 0 where
  ctx_done shutdown_received ticked : Case

unfoldable pub is_running : Worker → Bool
is_running v = v.running

unfoldable pub stats : Worker → ℤ × ℤ × ℤ
stats v = (v.tasks_processed, v.tasks_failed, v.tasks_retried)

unfoldable pub id : Worker → String
id v = v.id

-- `ended` tells whether the loop ends before the context is done, whose error Shutdown returns
-- otherwise.
unfoldable pub shutdown : Bool → Worker → Outcome × Worker
shutdown ended v =
    let v' = record v { running = false } in
    if v.running
    then (if v.shutdown_closed
        then (panics, v')
        else (if ended then returns_nil else returns_error, record v' { shutdown_closed = true }))
    else (returns_error, v)

-- Once a signal has come: an error of Stop is only logged.
unfoldable pub wait_for_shutdown : Worker → Outcome × Worker
unfolding stop
wait_for_shutdown v =
    let (outcome, v') = stop v in
    elim outcome [
      | panics ↦ (panics, v')
      | returns_nil ↦ (returns_nil, v')
      | returns_error ↦ (returns_nil, v')
    ]

module _ (w : World) (f : Format) (registry : Registry w) (q : Queue w)
    (storage : Option (Storage w)) where
  open w use {S, Ctx}

  -- The error of a poll is only logged. With no case left the loop waits.
  unfoldable pub run : Ctx → List Case → Worker → S → Worker × S
  run ctx [] v s = (v, s)
  run ctx (ctx_done ∷ cases) v s = (loop_ends v, s)
  run ctx (shutdown_received ∷ cases) v s = (loop_ends v, s)
  run ctx (ticked ∷ cases) v s =
      let (result, v', s') = poll_and_execute w f registry q storage v ctx s in run ctx cases v' s'
