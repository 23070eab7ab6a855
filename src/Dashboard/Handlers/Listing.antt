-- ===== src/Dashboard/Handlers/Listing.antt =====
-- The list of tasks that web/server.go gives.
use spool.Prelude.{ℕ, ◌≡◌, refl, Bool, true, some, List, [], ◌∷◌, map, ℤ, length}
use mathlib.Core.List.{Perm}
use spool.Env.{World}
use spool.Storage.{Storage}
use spool.Metrics.{Metrics}
use spool.Metrics.Tasks.{Floats}
use spool.Http.{Request, blank, json, with_cors}
use spool.Dashboard.{Texts, TaskDetail, listed_detail}
use spool.Dashboard.Sorting.{sort, IsDescending, sort-IsDescending}
use spool.Dashboard.TextOrder.{text_lt-asym, text_lt-not_trans}
use spool.Dashboard.Handlers.{
  Page, Server, tasks_page, older, fetch_tasks, handle_tasks, route, serve,
}

-- A request for the list of tasks.
abbrev pub asks_tasks : {C : Type 0} → C → Request (Unit {0}) C
asks_tasks ctx = record { method = "GET"; path = "/api/tasks"; body = tt; ctx = ctx }

-- With a store, the list of tasks is answered by the details of the completed, the failed and the
-- processing tasks that the store gives, each as often as the store gives it, with their number, and
-- none was created before one that stands behind it, by the texts of their times.
pub serve-tasks :
    (f : Texts) (w : World) {F : Type 0} (floats : Floats F) (percent : ℤ → ℤ → F)
    (encodes : Page F → Bool) (v : Server w) (st : Storage w) (ctx : w.Ctx) (m : Metrics F)
    (s : w.S)
    → v.storage ≡ some st
    → ((ds : List TaskDetail) (n : ℕ) → encodes (tasks_page ds n) ≡ true)
    → let tasks = (fetch_tasks w st ctx s).0 in
      let res = (serve f w floats percent encodes v (asks_tasks ctx) blank (m, s)).0 in
      (ds : List TaskDetail) × (res.status ≡ some 200)
      × (res.body ≡ json (tasks_page ds (length ds)) ∷ [])
      × Perm (map (listed_detail f) tasks) ds
      × IsDescending older ds
unfolding serve with_cors route handle_tasks
serve-tasks f w floats percent encodes v st ctx m s e c =
    let tasks = (fetch_tasks w st ctx s).0 in
    let sorted =
      sort-IsDescending older (λ x y. text_lt-asym x.created_at y.created_at)
        (λ x y z. text_lt-not_trans x.created_at y.created_at z.created_at)
        (map (listed_detail f) tasks) in
    (sort older (map (listed_detail f) tasks), rw (e, c) refl, rw (e, c) refl, sorted.0, sorted.1)
