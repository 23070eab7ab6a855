-- ===== src/Queue/RedisQueue/Refinement/Steps.antt =====
-- Each call of the queue of internal/queue/redis.go, against what it does to the lines.
use spool.Prelude.{◌≡◌, ◌≢◌, sym, ap, ◌∙◌, String, some, List, [], ◌∷◌, ◌++◌}
use spool.Env.{World}
use spool.Effect.{ok}
use spool.Task.{Task}
use spool.Redis.{Redis}
use spool.Redis.Keys.{Key, Level, queue, task, queue_key}
use spool.Redis.KeyEquality.{Level-discrete}
use spool.Redis.Laws.{Laws, IsUp, Entry, HoldsList, text, items, items_of, of_items}
use spool.Queue.RedisQueue.{Codec, enqueue, fresh, default_enqueue_timeout}
use spool.Queue.RedisQueue.Enqueueing.{Queued, enqueue-Queued, enqueue-total}
use spool.Queue.RedisQueue.Enqueueing.Frame.{enqueue-frame}
use spool.Queue.RedisQueue.Lines.{
  Lines, All, line_of, queue_key-line_of, find, join, join_self, join_other, answer, Call, enqueues,
  dequeues, acks, requeues,
}
use spool.Queue.RedisQueue.Refinement.Parts.{
  ids, of_items-append, ids-append, All-append, All-map, All-both, Saved, Represents,
}

module _ (j : Codec) where
  -- The text that a task has decodes to the task.
  abbrev pub Encodable : Task → Type 0
  Encodable t = (d : String) × (j.marshal t ≡ some d) × (j.unmarshal d ≡ some t)

-- No waiting task has the id.
abbrev pub NotWaiting : String → Lines → Type 0
NotWaiting id q = (l : Level) → All (λ (t : Task). t.id ≢ id) (q.waiting l)

abbrev pub NotTaken : String → Lines → Type 0
NotTaken id q = All (λ (t : Task). t.id ≢ id) q.taken

-- What callers keep to: a queued task has a known priority, a text and a new id, and no task is
-- acknowledged while it waits.
abbrev pub IsAllowed : Codec → Call → Lines → Type 0
IsAllowed j (enqueues t) q =
    ((l : Level) × (line_of t.priority ≡ some l))
    × Encodable j t
    × NotWaiting t.id q
    × All (λ (u : Task). u.id ≢ t.id) q.taken
IsAllowed j dequeues q = Unit
IsAllowed j (acks id) q = (id ≢ "") × NotWaiting id q
IsAllowed j (requeues id) q =
    (id ≢ "")
    × ((t : Task) × (l : Level) × (find id q.taken ≡ some t) × (line_of t.priority ≡ some l))

-- The texts stay where a server differs only on other keys.
pub Saved-kept :
    (j : Codec) (held held' : Key → Entry) (ts : List Task)
    → ((t : Task) → Saved j held t → held' (task t.id) ≡ held (task t.id))
    → All (Saved j held) ts
    → All (Saved j held') ts
Saved-kept j held held' ts same a = All-map ts (λ t s. (s.0, same t s ∙ s.1, s.2)) a

pub Saved-kept_but :
    (j : Codec) (held held' : Key → Entry) (id : String) (ts : List Task)
    → ((t : Task) → t.id ≢ id → held' (task t.id) ≡ held (task t.id))
    → All (λ (t : Task). t.id ≢ id) ts
    → All (Saved j held) ts
    → All (Saved j held') ts
Saved-kept_but j held held' id ts same other a =
    All-map ts (λ t s. (s.1.0, same t s.0 ∙ s.1.1, s.1.2))
      (All-both (λ t. t.id ≢ id) (Saved j held) ts other a)

-- A list that a task joins, in the lines and on the server.
pub joined :
    (j : Codec) (held held' : Key → Entry) (q : Level → List Task) (t : Task) (l : Level)
    → line_of t.priority ≡ some l
    → ((k : Level) → held (queue k) ≡ of_items (ids (q k)))
    → held' (queue_key t.priority) ≡ items (items_of (held (queue_key t.priority)) ++ (t.id ∷ []))
    → ((k : Level) → k ≢ l → held' (queue k) ≡ held (queue k))
    → (k : Level) → held' (queue k) ≡ of_items (ids (join t q k))
joined j held held' q t l e listed appended others k = elim (Level-discrete k l) [
  | yes same ↦
      rw (same, join_self t q l e, ids-append)
        (ap held' (sym key)
          ∙ appended
          ∙ ap (λ x. items (items_of x ++ (t.id ∷ []))) (ap held key ∙ listed l)
          ∙ of_items-append (ids (q l)) t.id)
  | no other ↦ rw (join_other t q l k e other) (others k other ∙ listed k)
]
  where
    key : queue_key t.priority ≡ queue l
    key = queue_key-line_of t.priority l e

-- So for a property of the tasks that wait.
pub joined-All :
    (P : Task → Type 0) (q : Level → List Task) (t : Task) (l : Level)
    → line_of t.priority ≡ some l
    → ((k : Level) → All P (q k))
    → P t
    → (k : Level) → All P (join t q k)
joined-All P q t l e all p k = elim (Level-discrete k l) [
  | yes same ↦ rw (same, join_self t q l e) (All-append P (q l) t (all l) p)
  | no other ↦ rw (join_other t q l k e other) (all k)
]

pub queue_ne : (k l : Level) → k ≢ l → queue k ≢ queue l
queue_ne k l n e = n (cc)

module _ (w : World) (r : Redis w) (j : Codec) (laws : Laws w r) where
  open w use {S, Ctx}
  open laws use {at}

  -- The server stands for lines.
  abbrev pub Stands : S → Lines → Type 0
  Stands s q = Represents j (at s) q

  pub holds_list :
      (s : S) (q : Lines) (t : Task) (l : Level)
      → line_of t.priority ≡ some l
      → Stands s q
      → HoldsList (at s (queue_key t.priority))
  holds_list s q t l e v =
      (ids (q.waiting l), ap (at s) (queue_key-line_of t.priority l e) ∙ v.listed l)

  pub enqueue-Represents :
      (ctx : Ctx) (t : Task) (s : S) (q : Lines)
      → IsUp w r laws (fresh w r j default_enqueue_timeout ctx s)
      → Stands s q
      → IsAllowed j (enqueues t) q
      → ((enqueue w r j ctx (some t) s).0 ≡ ok tt)
        × Stands (enqueue w r j ctx (some t) s).1 (answer (enqueues t) q).1
  enqueue-Represents ctx t s q up v ((l, e), (d, m, u), waits, takes) = (
    done,
    record {
      listed =
          joined j (at s) (at s') q.waiting t l e v.listed added.appended
            (λ k n. added.others_kept k (λ x. queue_ne k l n (x ∙ key)));
      saved =
          joined-All (Saved j (at s')) q.waiting t l e
            (λ k. Saved-kept_but j (at s) (at s') t.id (q.waiting k) frame (waits k) (v.saved k))
            (d, added.data_kept ∙ ap text (cc (added.marshalled, m)), u);
      taken_saved = Saved-kept_but j (at s) (at s') t.id q.taken frame takes v.taken_saved;
    },
  )
    where
      s' : S
      s' = (enqueue w r j ctx (some t) s).1

      key : queue_key t.priority ≡ queue l
      key = queue_key-line_of t.priority l e

      done : (enqueue w r j ctx (some t) s).0 ≡ ok tt
      done = enqueue-total w r j laws ctx t d s up m (holds_list s q t l e v)

      added : Queued w r j laws t s s'
      added = enqueue-Queued w r j laws ctx t s done

      frame : (x : Task) → x.id ≢ t.id → at s' (task x.id) ≡ at s (task x.id)
      frame x n =
          enqueue-frame w r j laws ctx t s (task x.id) done (λ a. n (cc)) (λ a. cc (a, key))
            (λ i a. cc)
