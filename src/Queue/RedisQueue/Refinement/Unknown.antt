-- ===== src/Queue/RedisQueue/Refinement/Unknown.antt =====
-- A task of an unknown priority, in internal/queue/redis.go: Enqueue takes it, and the queue goes on
-- as if it had not.
use spool.Prelude.{
  ◌≡◌, ◌≢◌, ◌∙◌, refl, sym, ap, subst, String, none, some, List, [], ◌∷◌, ◌++◌, pos, negsuc, zero,
  suc,
}
use spool.Env.{World}
use spool.Effect.{ok}
use spool.Task.{Task, Priority}
use spool.Redis.{Redis}
use spool.Redis.Keys.{unnamed, task, queue_key}
use spool.Redis.Laws.{Laws, HoldsList, items, items_of}
use spool.Queue.RedisQueue.{Codec, enqueue}
use spool.Queue.RedisQueue.Enqueueing.{Queued, enqueue-Queued, enqueue-total}
use spool.Queue.RedisQueue.Enqueueing.Frame.{enqueue-frame}
use spool.Queue.RedisQueue.Lines.{Lines, Call, line_of, answers}
use spool.Queue.RedisQueue.Refinement.Steps.{Stands, NotWaiting, NotTaken, Saved-kept_but}
use spool.Queue.RedisQueue.Refinement.Histories.{calls, StaysUp, AreAllowed, calls-refine-answers}

queue_key-unknown : (p : Priority) → line_of p ≡ none → queue_key p ≡ unnamed
unfolding queue_key
queue_key-unknown (pos zero) e = absurd (cc e)
queue_key-unknown (pos (suc zero)) e = absurd (cc e)
queue_key-unknown (pos (suc (suc zero))) e = absurd (cc e)
queue_key-unknown (pos (suc (suc (suc zero)))) e = absurd (cc e)
queue_key-unknown (pos (suc (suc (suc (suc n))))) e = refl
queue_key-unknown (negsuc n) e = refl

module _ (w : World) (r : Redis w) (j : Codec) (laws : Laws w r) where
  open w use {S, Ctx}
  open laws use {at}

  -- An Enqueue under the empty key leaves the lines as they were.
  enqueue-Stands :
      (ctx : Ctx) (t : Task) (s : S) (q : Lines)
      → queue_key t.priority ≡ unnamed
      → NotWaiting t.id q
      → NotTaken t.id q
      → Stands w r j laws s q
      → (enqueue w r j ctx (some t) s).0 ≡ ok tt
      → Stands w r j laws (enqueue w r j ctx (some t) s).1 q
  enqueue-Stands ctx t s q key waits takes v done = record {
    listed = λ l. added.others_kept l (λ x. cc (x, key)) ∙ v.listed l;
    saved = λ l. Saved-kept_but j (at s) (at s') t.id (q.waiting l) frame (waits l) (v.saved l);
    taken_saved = Saved-kept_but j (at s) (at s') t.id q.taken frame takes v.taken_saved;
  }
    where
      s' : S
      s' = (enqueue w r j ctx (some t) s).1

      added : Queued w r j laws t s s'
      added = enqueue-Queued w r j laws ctx t s done

      frame : (x : Task) → x.id ≢ t.id → at s' (task x.id) ≡ at s (task x.id)
      frame x n =
          enqueue-frame w r j laws ctx t s (task x.id) done (λ a. n (cc)) (λ a. cc (a, key))
            (λ i a. cc)

  -- On a server that stays up, Enqueue returns nil for a task whose priority is none of the four
  -- levels, if the task has a JSON text and a new id and the empty key holds a list or nothing: the
  -- id is left at the end of the list under the empty key, and the four lines are as they were.
  -- Every later history of calls as in the refinement of the lines gives the answers of the lines
  -- as they were before the task.
  pub calls-enqueue_unknown :
      (ctx : Ctx) (t : Task) (d : String) (cs : List Call) (s : S) (q : Lines)
      → StaysUp w r j laws ctx
      → Stands w r j laws s q
      → line_of t.priority ≡ none
      → j.marshal t ≡ some d
      → NotWaiting t.id q
      → NotTaken t.id q
      → HoldsList (at s unnamed)
      → AreAllowed j cs q
      → let (result, s1) = enqueue w r j ctx (some t) s in
        (result ≡ ok tt)
        × (at s1 unnamed ≡ items (items_of (at s unnamed) ++ (t.id ∷ [])))
        × Stands w r j laws s1 q
        × ((calls w r j ctx cs s1).0 ≡ (answers cs q).0)
  calls-enqueue_unknown ctx t d cs s q up v unknown m waits takes holds allowed =
      let key = queue_key-unknown t.priority unknown in
      let done =
        enqueue-total w r j laws ctx t d s (up.renewed _ s) m
          (subst HoldsList (ap (at s) (sym key)) holds) in
      let s1 = (enqueue w r j ctx (some t) s).1 in
      let added = enqueue-Queued w r j laws ctx t s done in
      let stands = enqueue-Stands ctx t s q key waits takes v done in
      (
        done,
        subst (λ k. at s1 k ≡ items (items_of (at s k) ++ (t.id ∷ []))) key added.appended,
        stands,
        (calls-refine-answers w r j laws ctx cs s1 q up stands allowed).0,
      )
