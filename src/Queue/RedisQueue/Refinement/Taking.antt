-- ===== src/Queue/RedisQueue/Refinement/Taking.antt =====
-- Dequeue, Ack and Nack of internal/queue/redis.go, against what they do to the lines.
use spool.Prelude.{◌≡◌, ◌≢◌, refl, sym, ap, ◌∙◌, subst, String, Option, none, some, List, ◌∷◌, true}
use spool.Env.{World}
use spool.Effect.{ok}
use spool.Task.{Task}
use spool.Redis.{Redis}
use spool.Redis.Keys.{Level, queue, task, level_of, queue_key-level_of}
use spool.Redis.KeyEquality.{Level-discrete}
use spool.Redis.Laws.{Laws, IsUp}
use spool.Queue.RedisQueue.{Codec, dequeue, ack, nack}
use spool.Queue.RedisQueue.Delivery.{Delivered}
use spool.Queue.RedisQueue.Dequeueing.{dequeue_ctx, dequeue-select, dequeue-empty}
use spool.Queue.RedisQueue.Settling.{ack-Gone, nack-Requeued}
use spool.Queue.RedisQueue.Lines.{
  Lines, All, put, put_self, put_other, queue_key-line_of, by_urgency, first, without, answer,
  dequeues, acks, requeues,
}
use spool.Queue.RedisQueue.Refinement.Parts.{
  ids, find-All, without-All, without-ne, Saved, Represents, lists, select-none, select-some,
}
use spool.Queue.RedisQueue.Refinement.Steps.{
  Stands, IsAllowed, Saved-kept, Saved-kept_but, joined, joined-All, queue_ne, holds_list,
}

-- The line that a task is taken from.
pub put-All :
    (P : Task → Type 0) (q : Level → List Task) (l : Level) (ts : List Task)
    → ((k : Level) → All P (q k))
    → All P ts
    → (k : Level) → All P (put q l ts k)
put-All P q l ts all a k = elim (Level-discrete k l) [
  | yes same ↦ rw (same, put_self q l ts) a
  | no other ↦ rw (put_other q l k ts other) (all k)
]

module _ (w : World) (r : Redis w) (j : Codec) (laws : Laws w r) where
  open w use {S, Ctx}
  open laws use {at}

  pub dequeue-none :
      (ctx : Ctx) (s : S) (q : Lines)
      → IsUp w r laws (dequeue_ctx w r j laws ctx s)
      → Stands w r j laws s q
      → first q.waiting by_urgency ≡ none
      → ((dequeue w r j ctx s).0 ≡ ok none) × Stands w r j laws (dequeue w r j ctx s).1 q
  unfolding level_of
  dequeue-none ctx s q up v e =
      let (answered, same) =
        dequeue-empty w r j laws ctx s up (lists (at s) q.waiting v.listed by_urgency)
          (select-none (at s) q.waiting v.listed by_urgency e) in
      (answered, subst (λ held. Represents j held q) (sym same) v)

  taken_from :
      (s s' : S) (q : Lines) (l : Level) (t : Task) (behind : List Task)
      → Stands w r j laws s q
      → q.waiting l ≡ t ∷ behind
      → Delivered w r j laws (level_of l) t.id (ids behind) s s'
      → Stands w r j laws s' (record q { waiting = put q.waiting l behind; taken = t ∷ q.taken })
  taken_from s s' q l t behind v e g = record {
    listed = λ k. elim (Level-discrete k l) [
      | yes same ↦
          rw (same, put_self q.waiting l behind)
            (ap (at s') (sym (queue_key-level_of l)) ∙ g.popped)
      | no other ↦ rw (put_other q.waiting l k behind other) (
          g.others_kept (queue k) (λ x. queue_ne k l other (x ∙ queue_key-level_of l)) (λ x. cc)
            (λ x. cc)
          ∙ v.listed k)
    ];
    saved =
        put-All (Saved j (at s')) q.waiting l behind
          (λ k. Saved-kept j (at s) (at s') (q.waiting k) frame (v.saved k)) here.1;
    taken_saved = (here.0, Saved-kept j (at s) (at s') q.taken frame v.taken_saved);
  }
    where
      frame : (x : Task) → Saved j (at s) x → at s' (task x.id) ≡ at s (task x.id)
      frame x a = g.others_kept (task x.id) (λ x. cc (x, queue_key-level_of l)) (λ x. cc) (λ x. cc)

      here : All (Saved j (at s')) (t ∷ behind)
      here =
          subst (All (Saved j (at s'))) e
            (Saved-kept j (at s) (at s') (q.waiting l) frame (v.saved l))

  pub dequeue-some :
      (ctx : Ctx) (s : S) (q : Lines) (l : Level) (t : Task) (behind : List Task)
      → IsUp w r laws (dequeue_ctx w r j laws ctx s)
      → Stands w r j laws s q
      → first q.waiting by_urgency ≡ some (l, t, behind)
      → ((dequeue w r j ctx s).0 ≡ ok (some t))
        × Stands w r j laws
            (dequeue w r j ctx s).1
            (record q { waiting = put q.waiting l behind; taken = t ∷ q.taken })
  unfolding level_of
  dequeue-some ctx s q l t behind up v e =
      let (found, line) = select-some (at s) q.waiting v.listed by_urgency l t behind e in
      let a = (subst (All (Saved j (at s))) line (v.saved l)).0 in
      let g =
        dequeue-select w r j laws ctx s (level_of l) t.id (ids behind) a.0 t up
          (lists (at s) q.waiting v.listed by_urgency) found a.1 a.2 in
      (g.0, taken_from s _ q l t behind v line g.1)

  pub dequeue-Represents :
      (ctx : Ctx) (s : S) (q : Lines)
      → IsUp w r laws (dequeue_ctx w r j laws ctx s)
      → Stands w r j laws s q
      → ((dequeue w r j ctx s).0 ≡ (answer dequeues q).0)
        × Stands w r j laws (dequeue w r j ctx s).1 (answer dequeues q).1
  dequeue-Represents ctx s q up v = go (first q.waiting by_urgency) refl
    where
      go :
          (o : Option (Level × Task × List Task))
          → first q.waiting by_urgency ≡ o
          → ((dequeue w r j ctx s).0 ≡ (answer dequeues q).0)
            × Stands w r j laws (dequeue w r j ctx s).1 (answer dequeues q).1
      go none e = rw (answer, e) (dequeue-none ctx s q up v e)
      go (some (l, t, behind)) e = rw (answer, e) (dequeue-some ctx s q l t behind up v e)

  pub ack-Represents :
      (ctx : Ctx) (id : String) (s : S) (q : Lines)
      → IsUp w r laws ctx
      → Stands w r j laws s q
      → IsAllowed j (acks id) q
      → ((ack w r j ctx id s).0 ≡ ok tt)
        × Stands w r j laws (ack w r j ctx id s).1 (answer (acks id) q).1
  ack-Represents ctx id s q up v (named, waits) =
      let (done, gone) = ack-Gone w r j laws ctx id s up named in
      let frame : (x : Task)
          → x.id ≢ id
          → at (ack w r j ctx id s).1 (task x.id) ≡ at s (task x.id) =
        λ x n. gone.others_kept (task x.id) (λ a. cc) (λ a. n (cc)) (λ i a. cc) in
      (
        done,
        record {
          listed = λ k. gone.others_kept (queue k) (λ a. cc) (λ a. cc) (λ i a. cc) ∙ v.listed k;
          saved = λ k.
              Saved-kept_but j (at s) (at (ack w r j ctx id s).1) id (q.waiting k) frame (waits k)
                (v.saved k);
          taken_saved =
              Saved-kept_but j (at s) (at (ack w r j ctx id s).1) id (without id q.taken) frame
                (without-ne id q.taken) (without-All (Saved j (at s)) id q.taken v.taken_saved);
        },
      )

  pub nack-Represents :
      (ctx : Ctx) (id : String) (s : S) (q : Lines)
      → IsUp w r laws ctx
      → Stands w r j laws s q
      → IsAllowed j (requeues id) q
      → ((nack w r j ctx id true s).0 ≡ ok tt)
        × Stands w r j laws (nack w r j ctx id true s).1 (answer (requeues id) q).1
  nack-Represents ctx id s q up v (named, (t, l, found, e)) =
      let (same, (d, stands, u)) = find-All (Saved j (at s)) id q.taken t found v.taken_saved in
      let (done, back) =
        nack-Requeued w r j laws ctx id t d s up named (ap (λ i. at s (task i)) (sym same) ∙ stands)
          u (holds_list w r j laws s q t l e v) in
      let key = queue_key-line_of t.priority l e in
      let frame : (x : Task)
          → Saved j (at s) x
          → at (nack w r j ctx id true s).1 (task x.id) ≡ at s (task x.id) =
        λ x a. back.others_kept (task x.id) (λ a. cc) (λ a. cc (a, key)) in
      (
        done,
        rw (answer, found)
            (record {
              listed =
                  joined j (at s) (at (nack w r j ctx id true s).1) q.waiting t l e v.listed
                    (rw same back.appended)
                    (λ k n. back.others_kept (queue k) (λ a. cc) (λ x. queue_ne k l n (x ∙ key)));
              saved =
                  joined-All (Saved j (at (nack w r j ctx id true s).1)) q.waiting t l e
                    (λ k.
                      Saved-kept j (at s) (at (nack w r j ctx id true s).1) (q.waiting k) frame
                        (v.saved k))
                    (d, frame t (d, stands, u) ∙ stands, u);
              taken_saved =
                  Saved-kept j (at s) (at (nack w r j ctx id true s).1) (without id q.taken) frame
                    (without-All (Saved j (at s)) id q.taken v.taken_saved);
            }),
      )
