-- ===== src/Dashboard/Feed/Events.antt =====
-- The recent events that web/server.go keeps.
use spool.Prelude.{
  ◌-◌, ◌≤◌, ◌≡◌, refl, ap, ◌∙◌, List, [], ◌∷◌, ◌++◌, arith, length, length-append, length-drop, inl,
  inr, Bool-cases, ltb,
}
use mathlib.Core.List.{append_assoc, append-nil}
use spool.Scaler.History.{last, last-append}
use spool.Dashboard.Feed.{Feed, TaskEvent, broadcast_task_event, get_recent_events}

module _ {U : Type 0} where
  -- The feed after some events, the first one first.
  abbrev pub broadcast_all : List TaskEvent → Feed U → Feed U
  broadcast_all [] f = f
  broadcast_all (e ∷ es) f = broadcast_all es (broadcast_task_event e f)

  recent_event :
      (e : TaskEvent) (f : Feed U)
      → length f.recent_events ≤ f.max_recent_events
      → (broadcast_task_event e f).recent_events
        ≡ last f.max_recent_events (f.recent_events ++ (e ∷ []))
  unfolding broadcast_task_event
  recent_event e f h =
      let grown = length-append f.recent_events (e ∷ []) in
      elim (Bool-cases (ltb f.max_recent_events (length (f.recent_events ++ (e ∷ []))))) [
        | inl full ↦
            (let one : length (f.recent_events ++ (e ∷ [])) - f.max_recent_events ≡ 1 =
                ground (arith, grown) in
              rw (full, one) refl)
        | inr room ↦
            (let none : length (f.recent_events ++ (e ∷ [])) - f.max_recent_events ≡ 0 =
                ground (arith, grown) in
              rw (room, none) refl)
      ]

  max-broadcast_task_event :
      (e : TaskEvent) (f : Feed U)
      → (broadcast_task_event e f).max_recent_events ≡ f.max_recent_events
  unfolding broadcast_task_event
  max-broadcast_task_event e f = refl

  channel-broadcast_task_event :
      (e : TaskEvent) (f : Feed U)
      → length f.task_events ≤ 100
      → length (broadcast_task_event e f).task_events ≤ 100
  unfolding broadcast_task_event
  channel-broadcast_task_event e f h = ground (arith, length-append f.task_events (e ∷ []))

  recent_length :
      (e : TaskEvent) (f : Feed U)
      → length f.recent_events ≤ f.max_recent_events
      → length (broadcast_task_event e f).recent_events
        ≤ (broadcast_task_event e f).max_recent_events
  recent_length e f h = ground (
    arith,
    recent_event e f h,
    max-broadcast_task_event e f,
    length-append f.recent_events (e ∷ []),
    length-drop (length (f.recent_events ++ (e ∷ [])) - f.max_recent_events)
        (f.recent_events ++ (e ∷ [])),
  )

  -- A feed that keeps as many events as it may, or fewer, keeps the last ones of all that came, and
  -- its channel of events never holds more than a hundred.
  pub get_recent_events-last :
      (es : List TaskEvent) (f : Feed U)
      → length f.recent_events ≤ f.max_recent_events
      → length f.task_events ≤ 100
      → (get_recent_events (broadcast_all es f) ≡ last f.max_recent_events (f.recent_events ++ es))
        × (length (broadcast_all es f).task_events ≤ 100)
  unfolding get_recent_events
  get_recent_events-last [] f h k = (
    (let none : length f.recent_events - f.max_recent_events ≡ 0 = omega arith in
        rw (append-nil f.recent_events, none) refl),
    k,
  )
  get_recent_events-last (e ∷ es) f h k =
      let f' = broadcast_task_event e f in
      let n = f.max_recent_events in
      let rest =
        get_recent_events-last es f' (recent_length e f h) (channel-broadcast_task_event e f k) in
      (
        rest.0
            ∙ rw (max-broadcast_task_event e f, recent_event e f h)
                (last-append n (f.recent_events ++ (e ∷ [])) es)
            ∙ ap (last n) (append_assoc f.recent_events (e ∷ []) es),
        rest.1,
      )
