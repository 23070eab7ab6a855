-- ===== src/Examples/Streams.antt =====
-- Two clients of the dashboard and one event.
use spool.Prelude.{ℕ, ◌≤◌, true, some, List, [], ◌∷◌, refl}
use spool.Dashboard.Feed.{TaskEvent, new_feed}
use spool.Dashboard.Feed.Streams.{
  Texts, Server, StreamOp, opens, takes_event, writes_event, tells_event,
}
use spool.Dashboard.Feed.Streams.Copies.{stream_steps, all_written, told, all_written_le}

abbrev finished : TaskEvent
finished = record {
  id = "a";
  kind = "email";
  status = "completed";
  duration = "1s";
  timestamp = "t";
}

abbrev plain_texts : Texts ℕ
plain_texts = record { update_text = λ u. some "{}"; event_text = λ e. some "{}" }

abbrev nobody : Server ℕ
nobody = record { feed = new_feed; streams = [] }

-- Both clients are ready for the event, which is told once.
abbrev two_clients : List (StreamOp ℕ)
two_clients =
    opens 1 0
    ∷ opens 2 0
    ∷ tells_event finished
    ∷ takes_event 1
    ∷ takes_event 2
    ∷ writes_event 1
    ∷ writes_event 2
    ∷ []

all_written_le_example :
    all_written (λ e. true) (stream_steps plain_texts two_clients nobody).streams
    ≤ told (λ e. true) two_clients
unfolding new_feed
all_written_le_example = all_written_le (λ e. true) plain_texts two_clients nobody refl refl
