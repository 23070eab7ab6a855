-- ===== src/Dashboard/Feed/Loops.antt =====
-- The two loops of web/server.go that run until the server stops: the one that hands updates to the
-- clients and the one that collects them. A run is given by the cases that its `select` takes.
use spool.Prelude.{Bool, Option, none, some, List, [], ◌∷◌}
use spool.Worker.{Outcome, returns_nil, returns_error, panics}
use spool.Dashboard.Feed.{Feed, queue_update, broadcast_update}

pub data BroadcastCase : Type 0 where
  broadcast_done update_received : BroadcastCase

module _ {U : Type 0} where
  -- A panic of the loop ends the program.
  unfoldable pub broadcast_metrics : List BroadcastCase → Feed U → Outcome × Feed U
  unfolding broadcast_update
  broadcast_metrics [] f = (returns_nil, f)
  broadcast_metrics (broadcast_done ∷ cases) f = (returns_nil, f)
  broadcast_metrics (update_received ∷ cases) f =
      let (outcome, f') = broadcast_update f in
      let rest = broadcast_metrics cases f' in
      elim outcome [ panics ↦ (panics, f') | returns_nil ↦ rest | returns_error ↦ rest ]

  -- A tick comes with the update that is collected then, and none stands for `done`.
  unfoldable pub update_metrics_loop : List (Option U) → Feed U → Feed U
  unfolding queue_update
  update_metrics_loop [] f = f
  update_metrics_loop (none ∷ cases) f = f
  update_metrics_loop (some u ∷ cases) f = update_metrics_loop cases (queue_update u f).1

  unfoldable pub ready : Feed U → Bool
  ready f = f.ready_closed
