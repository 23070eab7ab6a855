-- ===== src/Dashboard/Feed/Streams/Copies.antt =====
-- How many clients of web/server.go a task event reaches.
use spool.Prelude.{
  ℕ, ◌+◌, ◌≤◌, ◌≡◌, refl, ap, Bool, List, [], ◌∷◌, ◌++◌, ◌==◌, arith, if◌then◌else◌, length, ltb,
  Bool-cases, Option-cases, inl, inr,
}
use spool.Dashboard.Feed.{Feed, TaskEvent, offer, broadcast_task_event, connect, receive}
use spool.Dashboard.Feed.Streams.{
  Message, metrics_message, task_message, Stream, Server, StreamOp, opens, takes_event,
  writes_event, writes_update, tells_event, Texts, at_stream, take_event, write, write_event,
  write_update, open_stream, stream_step, message_text, next_update,
}

-- The server after some steps, the first one first.
abbrev pub stream_steps : {U : Type 0} → Texts U → List (StreamOp U) → Server U → Server U
stream_steps texts [] s = s
stream_steps texts (o ∷ os) s = stream_steps texts os (stream_step texts o s)

module _ (matches : TaskEvent → Bool) where
  abbrev one_if : Bool → ℕ
  one_if b = if b then 1 else 0

  -- Copies of an event: in a channel, in what a handler wrote, with a handler.
  abbrev pub in_channel : List TaskEvent → ℕ
  in_channel [] = 0
  in_channel (e ∷ es) = one_if (matches e) + in_channel es

  module _ {U : Type 0} where
    abbrev pub in_written : List (Message U) → ℕ
    in_written [] = 0
    in_written (metrics_message u ∷ ms) = in_written ms
    in_written (task_message e ∷ ms) = one_if (matches e) + in_written ms

    abbrev pub all_written : List (Stream U) → ℕ
    all_written [] = 0
    all_written (c ∷ cs) = in_written c.written + all_written cs

    abbrev with_stream : Stream U → ℕ
    with_stream c = in_channel c.task_event_ch + in_written c.written

    abbrev with_streams : List (Stream U) → ℕ
    with_streams [] = 0
    with_streams (c ∷ cs) = with_stream c + with_streams cs

    abbrev pub copies : Server U → ℕ
    copies s = in_channel s.feed.task_events + with_streams s.streams

    -- How often the event is told.
    abbrev pub told : List (StreamOp U) → ℕ
    told [] = 0
    told (tells_event e ∷ os) = one_if (matches e) + told os
    told (opens n u ∷ os) = told os
    told (takes_event n ∷ os) = told os
    told (writes_event n ∷ os) = told os
    told (writes_update n ∷ os) = told os

  in_channel-append :
      (es : List TaskEvent) (e : TaskEvent)
      → in_channel (es ++ (e ∷ [])) ≡ in_channel es + one_if (matches e)
  in_channel-append [] e = omega arith
  in_channel-append (x ∷ es) e = omega (arith, in_channel-append es e)

  in_channel-offer :
      (room : ℕ) (e : TaskEvent) (es : List TaskEvent)
      → in_channel (offer room e es) ≤ in_channel es + one_if (matches e)
  in_channel-offer room e es = elim (Bool-cases (ltb (length es) room)) [
    | inl fits ↦ rw (offer, fits) (omega (arith, in_channel-append es e))
    | inr full ↦ rw (offer, full) (omega arith)
  ]

  module _ {U : Type 0} (texts : Texts U) where
    in_written-append :
        (ms : List (Message U)) (m : Message U)
        → in_written (ms ++ (m ∷ [])) ≡ in_written ms + in_written (m ∷ [])
    in_written-append [] m = omega arith
    in_written-append (metrics_message u ∷ ms) m = in_written-append ms m
    in_written-append (task_message e ∷ ms) m = omega (arith, in_written-append ms m)

    -- A change of one stream that adds at most k copies.
    at_stream_le :
        (n k : ℕ) (f : Stream U → Stream U) (cs : List (Stream U))
        → ((c : Stream U) → with_stream (f c) ≤ with_stream c + k)
        → with_streams (at_stream n f cs) ≤ with_streams cs + k
    unfolding at_stream
    at_stream_le n k f [] h = omega arith
    at_stream_le n k f (c ∷ cs) h = elim (Bool-cases (c.number == n)) [
      | inl e ↦ rw e (omega (arith, h c))
      | inr e ↦ rw e (omega (arith, at_stream_le n k f cs h))
    ]

    write_le :
        (m : Message U) (c : Stream U)
        → with_stream (write texts m c) ≤ with_stream c + in_written (m ∷ [])
    unfolding write
    write_le m c = elim (Option-cases (message_text texts m)) [
      | inl e ↦ rw (write, e) (omega arith)
      | inr (d, e) ↦ rw (write, e) (omega (arith, in_written-append c.written m))
    ]

    write_event_le : (c : Stream U) → with_stream (write_event texts c) ≤ with_stream c + 0
    unfolding write_event
    write_event_le c = go c.task_event_ch refl
      where
        go :
            (es : List TaskEvent)
            → c.task_event_ch ≡ es
            → with_stream (write_event texts c) ≤ with_stream c + 0
        go [] e =
            let held : in_channel c.task_event_ch ≡ 0 = ap in_channel e in
            rw (write_event, e) (omega (arith, held))
        go (x ∷ es) e =
            let held : in_channel c.task_event_ch ≡ one_if (matches x) + in_channel es =
              ap in_channel e in
            rw (write_event, e)
              (omega (arith, held, write_le (task_message x) (record c { task_event_ch = es })))

    take_event_le : (n : ℕ) (s : Server U) → copies (take_event n s) ≤ copies s
    unfolding take_event
    take_event_le n s = go s.feed.task_events refl
      where
        go : (es : List TaskEvent) → s.feed.task_events ≡ es → copies (take_event n s) ≤ copies s
        go [] e = rw (take_event, e) (omega (arith, ap in_channel e))
        go (x ∷ es) e =
            let held : in_channel s.feed.task_events ≡ one_if (matches x) + in_channel es =
              ap in_channel e in
            rw (take_event, e)
              (omega (
                arith,
                held,
                at_stream_le n (one_if (matches x))
                    (λ c. record c { task_event_ch = offer 10 x c.task_event_ch }) s.streams
                    (λ c. omega (arith, in_channel-offer 10 x c.task_event_ch)),
              ))

    write_update_le : (n : ℕ) (s : Server U) → copies (write_update texts n s) ≤ copies s
    unfolding write_update receive
    write_update_le n s = elim (Option-cases (next_update n s.feed.connections)) [
      | inl e ↦ rw (write_update, e) (omega arith)
      | inr (u, e) ↦
          rw (write_update, e)
            (omega (
              arith,
              at_stream_le n 0 (write texts (metrics_message u)) s.streams
                  (write_le (metrics_message u)),
            ))
    ]

    tell_le :
        (e : TaskEvent) (f : Feed U)
        → in_channel (broadcast_task_event e f).task_events
          ≤ in_channel f.task_events + one_if (matches e)
    unfolding broadcast_task_event
    tell_le e f = in_channel-offer 100 e f.task_events

    step_le :
        (o : StreamOp U) (s : Server U) → copies (stream_step texts o s) ≤ copies s + told (o ∷ [])
    unfolding stream_step open_stream connect
    step_le (opens n u) s = omega arith
    step_le (takes_event n) s = omega (arith, take_event_le n s)
    step_le (writes_event n) s =
        omega (arith, at_stream_le n 0 (write_event texts) s.streams write_event_le)
    step_le (writes_update n) s = omega (arith, write_update_le n s)
    step_le (tells_event e) s = omega (arith, tell_le e s.feed)

    told-cons : (o : StreamOp U) (os : List (StreamOp U)) → told (o ∷ os) ≡ told (o ∷ []) + told os
    told-cons (opens n u) os = omega arith
    told-cons (takes_event n) os = omega arith
    told-cons (writes_event n) os = omega arith
    told-cons (writes_update n) os = omega arith
    told-cons (tells_event e) os = omega arith

    steps_le :
        (os : List (StreamOp U)) (s : Server U)
        → copies (stream_steps texts os s) ≤ copies s + told os
    steps_le [] s = omega arith
    steps_le (o ∷ os) s =
        omega (arith, step_le o s, steps_le os (stream_step texts o s), told-cons o os)

    written_le : (cs : List (Stream U)) → all_written cs ≤ with_streams cs
    written_le [] = omega arith
    written_le (c ∷ cs) = omega (arith, written_le cs)

    -- On a server without clients and with an empty channel of task events, the handlers of all the
    -- clients that come later together write the events of a kind no more often, after what they
    -- write on opening, than events of that kind are told: an event that is told once is written to
    -- at most one of the clients.
    pub all_written_le :
        (os : List (StreamOp U)) (s : Server U)
        → s.feed.task_events ≡ []
        → s.streams ≡ []
        → all_written (stream_steps texts os s).streams ≤ told os
    all_written_le os s e k =
        let a : in_channel s.feed.task_events ≡ 0 = ap in_channel e in
        let b : with_streams s.streams ≡ 0 = ap with_streams k in
        omega (arith, a, b, steps_le os s, written_le (stream_steps texts os s).streams)
