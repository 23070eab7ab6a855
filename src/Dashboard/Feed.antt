-- ===== src/Dashboard/Feed.antt =====
-- web/server.go: the live feed, that is the recent events, the channels and the connections of the
-- clients. A channel is the list of what it buffers. U is the type of a metrics update.
pub mod Events
pub mod Connections
pub mod Streams
pub mod Loops
use spool.Prelude.{
  ℕ, suc, String, Bool, true, false, not, ◌&&◌, List, [], ◌∷◌, ◌++◌, ltb, ◌==◌, length, drop, keep,
  if◌then◌else◌,
}
use spool.Worker.{Outcome, returns_nil, returns_error, panics}

pub record TaskEvent : Type 0 where
  pub id : String
  pub kind : String
  pub status : String
  pub duration : String
  pub timestamp : String

-- The handler of a client: whether it stands in `connections`, and its channel. The number stands for
-- the pointer.
pub record Connection (U : Type 0) : Type 0 where
  pub number : ℕ
  pub registered : Bool
  pub send : List U
  pub send_closed : Bool

-- `mu_held` tells whether the lock was left locked; `server` whether Start has set the server.
pub record Feed (U : Type 0) : Type 0 where
  pub connections : List (Connection U)
  pub broadcast : List U
  pub task_events : List TaskEvent
  pub recent_events : List TaskEvent
  pub max_recent_events : ℕ
  pub server : Bool
  pub done_closed : Bool
  pub ready_closed : Bool
  pub mu_held : Bool

-- A send that gives up on a full channel.
abbrev pub offer : {A : Type 0} → ℕ → A → List A → List A
offer room a buffered = if ltb (length buffered) room then buffered ++ (a ∷ []) else buffered

-- What a client may do, and the loops, in any order.
pub data Op (U : Type 0) : Type 0 where
  connects disconnects receives : ℕ → Op U
  queues : U → Op U
  broadcasts : Op U
  tells : TaskEvent → Op U

module _ {U : Type 0} where
  unfoldable pub new_feed : Feed U
  new_feed = record {
    connections = [];
    broadcast = [];
    task_events = [];
    recent_events = [];
    max_recent_events = 20;
    server = false;
    done_closed = false;
    ready_closed = false;
    mu_held = false;
  }

  -- BroadcastTaskEvent, of an event with its texts.
  unfoldable pub broadcast_task_event : TaskEvent → Feed U → Feed U
  broadcast_task_event event f =
      let events = f.recent_events ++ (event ∷ []) in
      record f {
        recent_events = if ltb f.max_recent_events (length events) then drop 1 events else events;
        task_events = offer 100 event f.task_events;
      }

  unfoldable pub get_recent_events : Feed U → List TaskEvent
  get_recent_events f = f.recent_events

  -- What handleWebSocket does before its loop: a client is registered.
  unfoldable pub connect : ℕ → Feed U → Outcome × Feed U
  connect n f = (
    returns_nil,
    record f {
      connections =
          record { number = n; registered = true; send = []; send_closed = false } ∷ f.connections;
    },
  )

  -- The handler of a client that is gone: `close` of a closed channel panics, and the lock, which is
  -- not released by `defer`, stays locked.
  unfoldable pub close_send : ℕ → List (Connection U) → Bool
  close_send n [] = false
  close_send n (c ∷ cs) =
      let later = close_send n cs in if c.number == n then c.send_closed else later

  unfoldable pub disconnect : ℕ → Feed U → Outcome × Feed U
  unfolding close_send
  disconnect n f =
      let f' = record f { connections = keep (λ c. not (c.number == n)) f.connections } in
      if close_send n f.connections
      then (panics, record f' { mu_held = true })
      else (returns_nil, f')

  -- The loop of updateMetricsLoop, with the update that it collected.
  unfoldable pub queue_update : U → Feed U → Outcome × Feed U
  queue_update u f = (returns_nil, record f { broadcast = offer 100 u f.broadcast })

  -- An update for one client; a send on a closed channel panics.
  unfoldable pub deliver : U → Connection U → Connection U
  deliver u c = if c.registered then record c { send = offer 10 u c.send } else c

  unfoldable pub deliver_all : U → List (Connection U) → List (Connection U)
  unfolding deliver
  deliver_all u [] = []
  deliver_all u (c ∷ cs) = deliver u c ∷ deliver_all u cs

  unfoldable pub any_closed : List (Connection U) → Bool
  any_closed [] = false
  any_closed (c ∷ cs) =
      let later = any_closed cs in if c.registered && c.send_closed then true else later

  -- One round of broadcastMetrics, which takes an update if there is one; its panic ends the program.
  unfoldable pub broadcast_update : Feed U → Outcome × Feed U
  unfolding deliver_all any_closed
  broadcast_update f = elim f.broadcast [
    | [] ↦ (returns_nil, f)
    | u ∷ us ↦
        let f' = record f { broadcast = us } in
        if any_closed f.connections
        then (panics, f')
        else (returns_nil, record f' { connections = deliver_all u f.connections })
  ]

  -- The handler of a client takes the first update of its channel.
  unfoldable pub take_first : ℕ → List (Connection U) → List (Connection U)
  take_first n [] = []
  take_first n (c ∷ cs) =
      let later = take_first n cs in
      if c.number == n then record c { send = drop 1 c.send } ∷ cs else c ∷ later

  unfoldable pub receive : ℕ → Feed U → Outcome × Feed U
  unfolding take_first
  receive n f = (returns_nil, record f { connections = take_first n f.connections })

  unfoldable pub apply : Op U → Feed U → Outcome × Feed U
  unfolding connect disconnect receive queue_update broadcast_update broadcast_task_event
  apply (connects n) f = connect n f
  apply (disconnects n) f = disconnect n f
  apply (receives n) f = receive n f
  apply (queues u) f = queue_update u f
  apply broadcasts f = broadcast_update f
  apply (tells event) f = (returns_nil, broadcast_task_event event f)

  -- Start up to ListenAndServe.
  unfoldable pub start : Feed U → Outcome × Feed U
  start f =
      let f' = record f { server = true } in
      if f.ready_closed then (panics, f') else (returns_nil, record f' { ready_closed = true })

  unfoldable pub close_all : List (Connection U) → List (Connection U)
  close_all [] = []
  close_all (c ∷ cs) =
      (if c.registered then record c { registered = false; send_closed = true } else c)
      ∷ close_all cs

  -- `shuts_down` tells whether the server's own Shutdown returns nil.
  unfoldable pub stop : Bool → Feed U → Outcome × Feed U
  unfolding close_all
  stop shuts_down f =
      let f' = record f { done_closed = true; connections = close_all f.connections } in
      if f.done_closed
      then (panics, f)
      else if f.server
      then (if shuts_down then (returns_nil, f') else (returns_error, f'))
      else (returns_nil, f')
