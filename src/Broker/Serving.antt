-- ===== src/Broker/Serving.antt =====
-- Requests that internal/broker/broker.go serves: what they leave alone, and what the health check sends.
use spool.Prelude.{
  ℕ, ◌≡◌, refl, String, Bool, true, false, Option, none, some, [], ◌∷◌, lookup, insert, pos,
  Option-cases, inl, inr, if◌then◌else◌, str_eq,
}
use spool.Env.{World}
use spool.Effect.{Result, ok, err}
use spool.Storage.{Storage}
use spool.Queue
use text.Mathlib.Text.{starts_with}
use spool.Http.{
  json, panic, http_error, Request, Response, blank, with_cors, path_from, set_header,
  application_json, content_type, Chunk,
}
use spool.Broker.{
  Broker, Decoder, Reply, healthy, unhealthy, handle_list, get_by_id, read_stats, handle_tasks,
  handle_batch_submit, handle_task_by_id, handle_queue_stats, handle_purge, handle_health, route,
  serve,
}

module _ (w : World) (P : w.S → Type 0) where
  open w use {S, Ctx}

  -- The calls that only read keep what holds of the state.
  pub record ReadsKeep (b : Broker w) : Type 0 where
    pub size_keeps : (ctx : Ctx) (s : S) → P s → P (b.queue.size ctx s).1
    pub dlq_size_keeps : (ctx : Ctx) (s : S) → P s → P (b.queue.get_dlq_size ctx s).1
    pub health_keeps : (ctx : Ctx) (s : S) → P s → P (b.queue.health ctx s).1
    pub store_keeps :
        (st : Storage w)
        → b.storage ≡ some st
        → ((ctx : Ctx) (s : S) → P s → P (st.get_tasks_by_state ctx "pending" (pos 50) s).1)
          × ((ctx : Ctx) (id : String) (s : S) → P s → P (st.get_task ctx id s).1)

  abbrev Reached : Type 0
  Reached = Response Reply × S

  if-keeps : (t : Bool) (x y : Reached) → P x.1 → P y.1 → P (if t then x else y).1
  if-keeps true x y h k = h
  if-keeps false x y h k = k

  Result-keeps :
      {E A : Type 0} (result : Result E A) (f : E → Response Reply) (g : A → Response Reply)
      (s t : S)
      → P s
      → P t
      → P (elim result as (λ _. Reached) [ err e ↦ (f e, s) | ok a ↦ (g a, t) ]).1
  Result-keeps (err e) f g s t h k = h
  Result-keeps (ok a) f g s t h k = k

  health-keeps :
      {E A : Type 0} (result : Result E A) (f : E → Response Reply) (g : A → Response Reply) (s : S)
      → P s
      → P (elim result as (λ _. Reached) [ ok a ↦ (g a, s) | err e ↦ (f e, s) ]).1
  health-keeps (err e) f g s h = h
  health-keeps (ok a) f g s h = h

  module _ {B : Type 0} (d : Decoder B) (encodes : Reply → Bool) (b : Broker w)
      (reads : ReadsKeep b) (q : Request B Ctx) (res : Response Reply) (s : S) (h : P s) where
    handle_list-keeps : P (handle_list w d encodes b q res s).1
    unfolding handle_list
    handle_list-keeps = elim (Option-cases b.storage) [
      | inl e ↦ rw e h
      | inr (st, e) ↦ rw e (
          let kept = (reads.store_keeps st e).0 q.ctx s h in
          Result-keeps (st.get_tasks_by_state q.ctx "pending" (pos 50) s).0 _ _ _ _ kept kept)
    ]

    get_by_id-keeps : (id : String) → P (get_by_id w d encodes b q.ctx id res s).1
    unfolding get_by_id
    get_by_id-keeps id = elim (Option-cases b.storage) [
      | inl e ↦ rw e h
      | inr (st, e) ↦ rw e (
          let kept = (reads.store_keeps st e).1 q.ctx id s h in
          Result-keeps (st.get_task q.ctx id s).0 _ _ _ _ kept kept)
    ]

    handle_task_by_id-keeps : P (handle_task_by_id w d encodes b q res s).1
    unfolding handle_task_by_id
    handle_task_by_id-keeps = if-keeps (str_eq q.method "GET") _ _ (of_path (path_from 11 q.path)) h
      where
        of_path :
            (id : Option String)
            → P
                (elim id as (λ _. Reached) [
                  | none ↦ (panic res, s)
                  | some id ↦
                      if str_eq id ""
                      then (http_error "Task ID required" 400 res, s)
                      else get_by_id w d encodes b q.ctx id res s
                ]).1
        of_path none = h
        of_path (some id) = if-keeps (str_eq id "") _ _ h (get_by_id-keeps id)

    handle_queue_stats-keeps : P (handle_queue_stats w d encodes b q res s).1
    unfolding handle_queue_stats read_stats
    handle_queue_stats-keeps =
        let kept = reads.size_keeps q.ctx s h in
        let kept' = reads.dlq_size_keeps q.ctx (b.queue.size q.ctx s).1 kept in
        if-keeps (str_eq q.method "GET") _ _
          (Result-keeps (b.queue.size q.ctx s).0 _ _ _ _ kept kept') h

    handle_health-keeps : P (handle_health w d encodes b q res s).1
    unfolding handle_health
    handle_health-keeps =
        let kept = reads.health_keeps q.ctx s h in
        health-keeps (b.queue.health q.ctx s).0 _ _ _ kept

    -- A request that is not a POST changes nothing through a handler.
    route-keeps : str_eq q.method "POST" ≡ false → P (route w d encodes b q res s).1
    unfolding route handle_tasks handle_batch_submit handle_purge
    route-keeps other = rw other (
        if-keeps (str_eq q.path "/api/tasks") _ _
          (if-keeps (str_eq q.method "GET") _ _ handle_list-keeps h)
          (if-keeps (str_eq q.path "/api/tasks/batch") _ _ h (
            if-keeps (starts_with q.path "/api/tasks/") _ _ handle_task_by_id-keeps (
              if-keeps (str_eq q.path "/api/queue/stats") _ _ handle_queue_stats-keeps (
                if-keeps (str_eq q.path "/api/queue/purge") _ _ h
                  (if-keeps (str_eq q.path "/health") _ _ handle_health-keeps h))))))

  -- The response as withCORS hands it on.
  abbrev allowed : Response Reply
  allowed = set_header "Access-Control-Allow-Headers" "Content-Type, Authorization" (
      set_header "Access-Control-Allow-Methods" "GET, POST, PUT, DELETE, OPTIONS"
        (set_header "Access-Control-Allow-Origin" "*" blank))

  -- A request whose method is not POST keeps what holds of the state, if the reading calls of the
  -- queue and of the store keep it.
  pub serve-reads :
      {B : Type 0} (d : Decoder B) (encodes : Reply → Bool) (b : Broker w) (q : Request B Ctx)
      (s : S)
      → ReadsKeep b
      → P s
      → str_eq q.method "POST" ≡ false
      → P (serve w d encodes b q blank s).1
  unfolding serve with_cors
  serve-reads d encodes b q s reads h other =
      if-keeps (str_eq q.method "OPTIONS") _ _ h (route-keeps d encodes b reads q allowed s h other)

-- A request for the health of the queue.
abbrev pub asks_health : {B C : Type 0} → B → C → Request B C
asks_health body ctx = record { method = "GET"; path = "/health"; body = body; ctx = ctx }

-- What the response tells of the health of the queue; `detect` is `http.DetectContentType`.
abbrev pub Tells :
    (Chunk Reply → String) → ℕ → Result Queue.Error (Unit {0}) → Response Reply → Type 0
Tells detect now (ok _) res =
    (res.status ≡ some 200)
    × (content_type detect res ≡ some application_json)
    × (res.body ≡ json (healthy now) ∷ [])
Tells detect now (err e) res =
    (res.status ≡ some 503)
    × (content_type detect res ≡ some (detect (json (unhealthy now e))))
    × (res.body ≡ json (unhealthy now e) ∷ [])

-- The health check sends 200 with the content type application/json for a healthy queue. For an
-- unhealthy one it sends 503 with the error, and the content type that net/http detects in the JSON
-- text takes the place of application/json. The condition is that every reply has a JSON text.
pub serve-health :
    (w : World) {B : Type 0} (d : Decoder B) (encodes : Reply → Bool) (b : Broker w) (body : B)
    (ctx : w.Ctx) (s : w.S) (detect : Chunk Reply → String)
    → ((v : Reply) → encodes v ≡ true)
    → Tells detect
        (w.now s)
        (b.queue.health ctx s).0
        (serve w d encodes b (asks_health body ctx) blank s).0
unfolding serve with_cors route handle_health lookup insert
serve-health w d encodes b body ctx s detect c = go (b.queue.health ctx s).0 refl
  where
    go :
        (result : Result Queue.Error (Unit {0}))
        → (b.queue.health ctx s).0 ≡ result
        → Tells detect
            (w.now s)
            (b.queue.health ctx s).0
            (serve w d encodes b (asks_health body ctx) blank s).0
    go (ok a) e = rw (Tells, route, handle_health, e, c) (refl, refl, refl)
    go (err x) e = rw (Tells, route, handle_health, e, c) (refl, refl, refl)
