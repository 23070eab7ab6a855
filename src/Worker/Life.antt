-- ===== src/Worker/Life.antt =====
-- The life of a worker: what Start and Stop do in sequence.
use spool.Prelude.{◌≡◌, ◌≢◌, true, false, arith}
use spool.Worker.{Worker, returns_nil, panics, start, stop, loop_ends, loop_must_end}

-- What Start, Stop and the loop may do to a worker, one step at a time.
pub data Step : Worker → Worker → Type 0 where
  starts : {v : Worker} → Step v (start v).1
  stops : {v : Worker} → (stop v).0 ≢ panics → Step v (stop v).1
  ends : {v : Worker} → Step v (loop_ends v)

pub data Reach (v : Worker) : Worker → Type 0 where
  here : Reach v v
  next : {a b : Worker} → Reach v a → Step a b → Reach v b

-- A worker that was stopped is never of use again: its channel stays closed, so that a loop which
-- a later Start begins must end at once.
Step-closed : {a b : Worker} → Step a b → a.shutdown_closed ≡ true → b.shutdown_closed ≡ true
unfolding start stop loop_ends
Step-closed starts h = ground arith
Step-closed (stops n) h = ground arith
Step-closed ends h = h

Reach-closed : {a b : Worker} → Reach a b → a.shutdown_closed ≡ true → b.shutdown_closed ≡ true
Reach-closed here h = h
Reach-closed (next r st) h = Step-closed st (Reach-closed r h)

-- After a Stop that returns nil, whatever steps follow, the loop that a Start begins must end at
-- once, and a Stop before it has ended panics.
pub stopped_for_good :
    (v v' : Worker)
    → (stop v).0 ≡ returns_nil
    → Reach (stop v).1 v'
    → (start v').0 ≡ returns_nil
    → (loop_must_end (start v').1 false ≡ true) × ((stop (start v').1).0 ≡ panics)
unfolding stop start loop_must_end
stopped_for_good v v' h r k = let closed = Reach-closed r (ground arith) in ground (arith, closed)
