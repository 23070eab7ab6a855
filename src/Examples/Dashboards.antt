-- ===== src/Examples/Dashboards.antt =====
-- The theorems on the dashboard at concrete inputs.
use spool.Prelude.{◌≡◌, refl, Bool, true, false, some, List, [], ◌∷◌, ℤ, pos, arith, length, map}
use mathlib.Core.List.{Perm}
use spool.Effect.{ok, err}
use spool.Storage.{Storage}
use spool.Storage
use spool.Worker.{returns_nil, panics}
use spool.Metrics.{Metrics, new_metrics}
use spool.Redis.Memory.{memory_world}
use spool.Http.{json, blank}
use spool.Dashboard.{Texts, TaskDetail, listed_detail}
use spool.Dashboard.Sorting.{IsDescending}
use spool.Dashboard.Handlers.{Page, Server, tasks_page, older, fetch_tasks, serve}
use spool.Dashboard.Handlers.Listing.{asks_tasks, serve-tasks}
use spool.Dashboard.Feed.{Feed, TaskEvent, broadcasts, apply, disconnect, stop, new_feed}
use spool.Dashboard.Feed.Connections.{IsRunning, apply-IsRunning, disconnect-stop}
use spool.Examples.Samples.{job, empty_server}
use spool.Examples.Monitoring.{integers}
use spool.Examples.Brokers.{idle_queue}

abbrev texts : Texts
texts = record {
  rfc3339 = λ t. "2024-01-01T00:00:00Z";
  in_seconds = λ d. "1s";
  in_milliseconds = λ d. "1ms";
}

-- A store that has one task in each state.
abbrev store : Storage memory_world
store = record {
  save_task = λ ctx t s. (ok tt, s);
  get_task = λ ctx id s. (ok job, s);
  update_task_state = λ ctx id state s. (ok tt, s);
  save_result = λ ctx result s. (ok tt, s);
  get_result = λ ctx id s. (err Storage.result_not_found, s);
  get_tasks_by_state = λ ctx state limit s. (ok (job ∷ []), s);
  delete_task = λ ctx id s. (ok tt, s);
}

abbrev server : Server memory_world
server = record {
  queue = idle_queue;
  measured = idle_queue;
  storage = some store;
  index_html = some "<html/>";
}

abbrev collector : Metrics ℤ
unfolding new_metrics
collector = new_metrics 5

abbrev encodes : Page ℤ → Bool
encodes page = true

serve-tasks_example :
    let tasks = (fetch_tasks memory_world store false empty_server).0 in
    let res =
      (serve texts memory_world integers
        (λ n d. n)
        encodes
        server
        (asks_tasks false)
        blank
        (collector, empty_server)).0 in
    (ds : List TaskDetail) × (res.status ≡ some 200)
    × (res.body ≡ json (tasks_page ds (length ds)) ∷ [])
    × Perm (map (listed_detail texts) tasks) ds
    × IsDescending older ds
serve-tasks_example =
    serve-tasks texts memory_world integers (λ n d. n) encodes server store false collector
      empty_server refl (λ ds n. refl)

abbrev event : TaskEvent
event = record { id = "a"; kind = "email"; status = "success"; duration = "1ms"; timestamp = "12" }

-- A feed of numbers that keeps two events, with one client and one update to broadcast.
abbrev feed : Feed ℤ
unfolding new_feed
feed = record new_feed {
  connections = record { number = 1; registered = true; send = []; send_closed = false } ∷ [];
  broadcast = pos 7 ∷ [];
  max_recent_events = 2;
}

feed-IsRunning : IsRunning feed
unfolding feed new_feed
feed-IsRunning = (refl, ((refl, refl, omega arith), tt), omega arith)

apply-IsRunning_example :
    ((apply broadcasts feed).0 ≡ returns_nil) × IsRunning (apply broadcasts feed).1
apply-IsRunning_example = apply-IsRunning broadcasts feed feed-IsRunning

disconnect-stop_example :
    let (outcome, f') = disconnect 1 (stop true feed).1 in (outcome ≡ panics) × (f'.mu_held ≡ true)
unfolding feed new_feed
disconnect-stop_example = disconnect-stop true 1 feed feed-IsRunning refl refl
