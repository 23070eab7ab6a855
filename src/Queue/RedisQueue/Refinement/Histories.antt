-- ===== src/Queue/RedisQueue/Refinement/Histories.antt =====
-- Histories of calls of the queue of internal/queue/redis.go, against the histories of the lines.
use spool.Prelude.{◌≡◌, refl, ap, List, [], ◌∷◌, true, none, some, ℤ}
use spool.Env.{World}
use spool.Effect.{Result, ok, err}
use spool.Redis.{Redis}
use spool.Redis.Laws.{Laws, IsUp}
use spool.Queue.{Error}
use spool.Queue.RedisQueue.{Codec, enqueue, dequeue, ack, nack, fresh}
use spool.Queue.RedisQueue.Lines.{
  Lines, Call, enqueues, dequeues, acks, requeues, Answer, answer, answers,
}
use spool.Queue.RedisQueue.Refinement.Steps.{Stands, IsAllowed, enqueue-Represents}
use spool.Queue.RedisQueue.Refinement.Taking.{dequeue-Represents, ack-Represents, nack-Represents}

-- A call that returns an error or nil.
abbrev pub no_task : Result Error (Unit {0}) → Answer
no_task (ok a) = ok none
no_task (err e) = err e

-- Each call keeps to what the lines allow when it comes.
abbrev pub AreAllowed : Codec → List Call → Lines → Type 0
AreAllowed j [] q = Unit
AreAllowed j (c ∷ cs) q = IsAllowed j c q × AreAllowed j cs (answer c q).1

module _ (w : World) (r : Redis w) (j : Codec) where
  open w use {S, Ctx}

  unfoldable pub call : Ctx → Call → S → Answer × S
  call ctx (enqueues t) s = let (a, s') = enqueue w r j ctx (some t) s in (no_task a, s')
  call ctx dequeues s = dequeue w r j ctx s
  call ctx (acks id) s = let (a, s') = ack w r j ctx id s in (no_task a, s')
  call ctx (requeues id) s = let (a, s') = nack w r j ctx id true s in (no_task a, s')

  unfoldable pub calls : Ctx → List Call → S → List Answer × S
  unfolding call
  calls ctx [] s = ([], s)
  calls ctx (c ∷ cs) s =
      let (a, s1) = call ctx c s in let (rest, s2) = calls ctx cs s1 in (a ∷ rest, s2)

module _ (w : World) (r : Redis w) (j : Codec) (laws : Laws w r) where
  open w use {S, Ctx}

  -- The server is up under a context, and under the one that a call may take in its place.
  pub record StaysUp (ctx : Ctx) : Type 0 where
    pub as_given : IsUp w r laws ctx
    pub renewed : (timeout : ℤ) (s : S) → IsUp w r laws (fresh w r j timeout ctx s)

  call-Represents :
      (ctx : Ctx) (up : StaysUp ctx) (c : Call) (s : S) (q : Lines)
      → Stands w r j laws s q
      → IsAllowed j c q
      → ((call w r j ctx c s).0 ≡ (answer c q).0)
        × Stands w r j laws (call w r j ctx c s).1 (answer c q).1
  unfolding call
  call-Represents ctx up (enqueues t) s q v a =
      let e = enqueue-Represents w r j laws ctx t s q (up.renewed _ s) v a in (ap no_task e.0, e.1)
  call-Represents ctx up dequeues s q v a = dequeue-Represents w r j laws ctx s q (up.renewed _ s) v
  call-Represents ctx up (acks id) s q v a =
      let e = ack-Represents w r j laws ctx id s q up.as_given v a in (ap no_task e.0, e.1)
  call-Represents ctx up (requeues id) s q v (named, (t, l, found, known)) =
      let e = nack-Represents w r j laws ctx id s q up.as_given v (named, (t, l, found, known)) in
      (rw (answer, found) (ap no_task e.0), e.1)

  -- On a server that stays up, every history of enqueues, dequeues, acknowledgements and requeues
  -- gives the answers of the four lines, first in and first out and the most urgent line first, and
  -- the server stands for the lines after it. The tasks that are queued have a known priority, a JSON
  -- text that decodes to them and an id that no task of the queue has; no task is acknowledged while
  -- it waits, and only a task that was taken is requeued.
  pub calls-refine-answers :
      (ctx : Ctx) (cs : List Call) (s : S) (q : Lines)
      → StaysUp ctx
      → Stands w r j laws s q
      → AreAllowed j cs q
      → ((calls w r j ctx cs s).0 ≡ (answers cs q).0)
        × Stands w r j laws (calls w r j ctx cs s).1 (answers cs q).1
  unfolding calls
  calls-refine-answers ctx [] s q up v a = (refl, v)
  calls-refine-answers ctx (c ∷ cs) s q up v a =
      let one = call-Represents ctx up c s q v a.0 in
      let rest = calls-refine-answers ctx cs (call w r j ctx c s).1 (answer c q).1 up one.1 a.1 in
      (cc (one.0, rest.0), rest.1)
