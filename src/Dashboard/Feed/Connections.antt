-- ===== src/Dashboard/Feed/Connections.antt =====
-- The connections of web/server.go: what holds as long as the server runs, and what Stop leaves.
use spool.Prelude.{
  ℕ, ◌≤◌, ◌≡◌, refl, Bool, true, false, not, List, [], ◌∷◌, ◌==◌, length, keep, arith,
  if◌then◌else◌, length-append, length-drop, inl, inr, Bool-cases,
}
use spool.Worker.{returns_nil, panics}
use spool.Queue.RedisQueue.Lines.{All}
use spool.Dashboard.Feed.{
  Feed, Connection, Op, connects, disconnects, receives, queues, broadcasts, tells, apply, connect,
  disconnect, receive, queue_update, broadcast_update, broadcast_task_event, offer, close_send,
  deliver, deliver_all, any_closed, take_first, close_all, stop,
}

offer-length :
    {A : Type 0} (room : ℕ) (a : A) (xs : List A)
    → length xs ≤ room
    → length (offer room a xs) ≤ room
offer-length room a xs h = ground (arith, length-append xs (a ∷ []))

module _ {U : Type 0} where
  -- A client that is registered, with an open channel that holds ten updates at most.
  abbrev pub IsOpen : Connection U → Type 0
  IsOpen c = (c.registered ≡ true) × (c.send_closed ≡ false) × (length c.send ≤ 10)

  abbrev pub IsRunning : Feed U → Type 0
  IsRunning f = (f.mu_held ≡ false) × All IsOpen f.connections × (length f.broadcast ≤ 100)

  others-IsOpen :
      (n : ℕ) (cs : List (Connection U))
      → All IsOpen cs
      → All IsOpen (keep (λ c. not (c.number == n)) cs)
  others-IsOpen n [] h = tt
  others-IsOpen n (c ∷ cs) h = elim (Bool-cases (c.number == n)) [
    | inl e ↦ rw e (others-IsOpen n cs h.1)
    | inr e ↦ rw e (h.0, others-IsOpen n cs h.1)
  ]

  close_send-open : (n : ℕ) (cs : List (Connection U)) → All IsOpen cs → close_send n cs ≡ false
  unfolding close_send
  close_send-open n [] h = refl
  close_send-open n (c ∷ cs) h = elim (Bool-cases (c.number == n)) [
    | inl e ↦ rw e h.0.1
    | inr e ↦ rw e (close_send-open n cs h.1)
  ]

  any_closed-open : (cs : List (Connection U)) → All IsOpen cs → any_closed cs ≡ false
  unfolding any_closed
  any_closed-open [] h = refl
  any_closed-open (c ∷ cs) h = rw (h.0.0, h.0.1) (any_closed-open cs h.1)

  deliver_all-IsOpen :
      (u : U) (cs : List (Connection U)) → All IsOpen cs → All IsOpen (deliver_all u cs)
  unfolding deliver_all deliver
  deliver_all-IsOpen u [] h = tt
  deliver_all-IsOpen u (c ∷ cs) h =
      rw h.0.0 ((refl, h.0.1, offer-length 10 u c.send h.0.2), deliver_all-IsOpen u cs h.1)

  take_first-IsOpen :
      (n : ℕ) (cs : List (Connection U)) → All IsOpen cs → All IsOpen (take_first n cs)
  unfolding take_first
  take_first-IsOpen n [] h = tt
  take_first-IsOpen n (c ∷ cs) h = elim (Bool-cases (c.number == n)) [
    | inl e ↦ rw e ((h.0.0, h.0.1, omega (arith, length-drop 1 c.send, h.0.2)), h.1)
    | inr e ↦ rw e (h.0, take_first-IsOpen n cs h.1)
  ]

  broadcast_update-IsRunning :
      (f : Feed U)
      → IsRunning f
      → ((broadcast_update f).0 ≡ returns_nil) × IsRunning (broadcast_update f).1
  unfolding broadcast_update
  broadcast_update-IsRunning f h = go f.broadcast refl
    where
      go :
          (us : List U)
          → f.broadcast ≡ us
          → ((broadcast_update f).0 ≡ returns_nil) × IsRunning (broadcast_update f).1
      go [] e = rw e (refl, (h.0, h.1, omega arith))
      go (u ∷ us) e =
          rw (e, any_closed-open f.connections h.1)
            (refl, (h.0, deliver_all-IsOpen u f.connections h.1, ground (arith, e, h.2)))

  -- Whatever clients do and the loops do, in any order: no step panics, and afterwards the lock is
  -- free, each client is registered, its channel is open and holds ten updates at most, and the
  -- channel of the broadcasts holds a hundred at most, if this was so before.
  pub apply-IsRunning :
      (op : Op U) (f : Feed U)
      → IsRunning f
      → ((apply op f).0 ≡ returns_nil) × IsRunning (apply op f).1
  unfolding apply connect disconnect receive queue_update broadcast_task_event
  apply-IsRunning (connects n) f h = (refl, (h.0, ((refl, refl, omega arith), h.1), h.2))
  apply-IsRunning (disconnects n) f h =
      rw (close_send-open n f.connections h.1) (refl, (h.0, others-IsOpen n f.connections h.1, h.2))
  apply-IsRunning (receives n) f h = (refl, (h.0, take_first-IsOpen n f.connections h.1, h.2))
  apply-IsRunning (queues u) f h = (refl, (h.0, h.1, offer-length 100 u f.broadcast h.2))
  apply-IsRunning broadcasts f h = broadcast_update-IsRunning f h
  apply-IsRunning (tells event) f h = (refl, h)

  abbrev pub is_among : ℕ → List (Connection U) → Bool
  is_among n [] = false
  is_among n (c ∷ cs) = let later = is_among n cs in if c.number == n then true else later

  close_send-close_all :
      (n : ℕ) (cs : List (Connection U))
      → All IsOpen cs
      → is_among n cs ≡ true
      → close_send n (close_all cs) ≡ true
  unfolding close_send close_all
  close_send-close_all n [] h e = absurd (ground arith)
  close_send-close_all n (c ∷ cs) h e = elim (Bool-cases (c.number == n)) [
    | inl this ↦ rw (h.0.0, this) refl
    | inr other ↦ rw (h.0.0, other) (close_send-close_all n cs h.1 (ground (arith, other, e)))
  ]

  -- If a server that runs as above is stopped for the first time, and one of its clients leaves
  -- afterwards, the handler of this client panics, and leaves the lock of the server locked.
  pub disconnect-stop :
      (shuts_down : Bool) (n : ℕ) (f : Feed U)
      → IsRunning f
      → f.done_closed ≡ false
      → is_among n f.connections ≡ true
      → let (outcome, f') = disconnect n (stop shuts_down f).1 in
        (outcome ≡ panics) × (f'.mu_held ≡ true)
  unfolding disconnect stop
  disconnect-stop shuts_down n f h first e = elim (Bool-cases f.server) [
    | inl started ↦ elim (Bool-cases shuts_down) [
      | inl nil ↦ rw (first, started, nil, close_send-close_all n f.connections h.1 e) (refl, refl)
      | inr error ↦
          rw (first, started, error, close_send-close_all n f.connections h.1 e) (refl, refl)
    ]
    | inr unstarted ↦ rw (first, unstarted, close_send-close_all n f.connections h.1 e) (refl, refl)
  ]
