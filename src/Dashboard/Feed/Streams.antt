-- ===== src/Dashboard/Feed/Streams.antt =====
-- web/server.go: what handleWebSocket writes to its clients. Each client's handler has a goroutine that
-- takes task events from the channel of the server and hands them to its own.
pub mod Copies
use Prim.Native.String.{◌++◌ as concat}
use spool.Prelude.{
  ℕ, String, Bool, true, false, Option, none, some, List, [], ◌∷◌, ◌++◌, map, ◌==◌, if◌then◌else◌,
}
use spool.Dashboard.Feed.{
  Feed, Connection, TaskEvent, offer, connect, receive, broadcast_task_event, get_recent_events,
}

-- `json.Marshal` at an update and at an event.
pub record Texts (U : Type 0) : Type 0 where
  pub update_text : U → Option String
  pub event_text : TaskEvent → Option String

-- A message of the event stream, before its JSON text is made.
pub data Message (U : Type 0) : Type 0 where
  metrics_message : U → Message U
  task_message : TaskEvent → Message U

-- `taskEventCh` of a handler, and what it has written: on opening, and in its loop.
pub record Stream (U : Type 0) : Type 0 where
  pub number : ℕ
  pub task_event_ch : List TaskEvent
  pub opening : List (Message U)
  pub written : List (Message U)

pub record Server (U : Type 0) : Type 0 where
  pub feed : Feed U
  pub streams : List (Stream U)

-- What happens to the streams: a client comes, with the metrics that are collected for it; the
-- goroutine of one takes an event; a handler writes an event or an update.
pub data StreamOp (U : Type 0) : Type 0 where
  opens : ℕ → U → StreamOp U
  takes_event writes_event writes_update : ℕ → StreamOp U
  tells_event : TaskEvent → StreamOp U

module _ {U : Type 0} where
  unfoldable pub message_text : Texts U → Message U → Option String
  message_text texts (metrics_message u) = texts.update_text u
  message_text texts (task_message e) = texts.event_text e

  name : Message U → String
  name (metrics_message u) = "metrics"
  name (task_message e) = "task"

  -- The frame of a message with its text.
  unfoldable pub frame : Message U → String → String
  unfolding name
  frame m text = concat "event: " (concat (name m) (concat "\ndata: " (concat text "\n\n")))

  -- The first messages, with the recent events after the metrics. Errors of Marshal are not looked at.
  unfoldable pub open_stream : ℕ → U → Server U → Server U
  unfolding connect get_recent_events
  open_stream n u s = record {
    feed = (connect n s.feed).1;
    streams =
        record {
          number = n;
          task_event_ch = [];
          opening = metrics_message u ∷ map task_message (get_recent_events s.feed);
          written = [];
        }
        ∷ s.streams;
  }

  -- The stream of a number is changed.
  unfoldable pub at_stream : ℕ → (Stream U → Stream U) → List (Stream U) → List (Stream U)
  at_stream n f [] = []
  at_stream n f (c ∷ cs) =
      let later = at_stream n f cs in if c.number == n then f c ∷ cs else c ∷ later

  -- The goroutine of a client takes an event from the server's channel, and skips it if the
  -- handler's own is full.
  unfoldable pub take_event : ℕ → Server U → Server U
  unfolding at_stream
  take_event n s = elim s.feed.task_events [
    | [] ↦ s
    | e ∷ es ↦ record {
      feed = record s.feed { task_events = es };
      streams =
          at_stream n (λ c. record c { task_event_ch = offer 10 e c.task_event_ch }) s.streams;
    }
  ]

  -- A message without a text is not written.
  unfoldable pub write : Texts U → Message U → Stream U → Stream U
  unfolding message_text
  write texts m c = elim (message_text texts m) [
    | none ↦ c
    | some text ↦ record c { written = c.written ++ (m ∷ []) }
  ]

  unfoldable pub write_event : Texts U → Stream U → Stream U
  unfolding write
  write_event texts c = elim c.task_event_ch [
    | [] ↦ c
    | e ∷ es ↦ write texts (task_message e) (record c { task_event_ch = es })
  ]

  -- The first update of the client's channel.
  unfoldable pub next_update : ℕ → List (Connection U) → Option U
  next_update n [] = none
  next_update n (c ∷ cs) =
      let later = next_update n cs in
      if c.number == n then (elim c.send [ [] ↦ none | u ∷ us ↦ some u ]) else later

  unfoldable pub write_update : Texts U → ℕ → Server U → Server U
  unfolding at_stream next_update write receive
  write_update texts n s = elim (next_update n s.feed.connections) [
    | none ↦ s
    | some u ↦ record {
      feed = (receive n s.feed).1;
      streams = at_stream n (write texts (metrics_message u)) s.streams;
    }
  ]

  unfoldable pub stream_step : Texts U → StreamOp U → Server U → Server U
  unfolding open_stream take_event write_event write_update at_stream broadcast_task_event
  stream_step texts (opens n u) s = open_stream n u s
  stream_step texts (takes_event n) s = take_event n s
  stream_step texts (writes_event n) s = record s {
    streams = at_stream n (write_event texts) s.streams;
  }
  stream_step texts (writes_update n) s = write_update texts n s
  stream_step texts (tells_event e) s = record s { feed = broadcast_task_event e s.feed }
