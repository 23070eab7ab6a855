-- ===== src/Queue/RedisQueue/Lines.antt =====
-- What the queue of internal/queue/redis.go promises, without Redis: four lines of tasks, first in and
-- first out, and the tasks that are with a worker.
use mathlib.Core.Logic.{ite, if_pos, if_neg}
use spool.Prelude.{
  ◌≡◌, ◌≢◌, refl, String, Option, none, some, List, [], ◌∷◌, ◌++◌, pos, negsuc, zero, suc, str_eq,
  if◌then◌else◌, keep, not,
}
use spool.Effect.{Result, ok}
use spool.Task.{Task, Priority}
use spool.Queue.{Error}
use spool.Redis.Keys.{Level, critical, high, normal, low, queue, queue_key}
use spool.Redis.KeyEquality.{Level-discrete}

pub record Lines : Type 0 where
  pub waiting : Level → List Task
  pub taken : List Task

abbrev pub All {ℓ} : {A : Type 0} → (A → Type ℓ) → List A → Type ℓ
All P [] = Unit
All P (x ∷ xs) = P x × All P xs

-- One line is replaced.
abbrev pub put : (Level → List Task) → Level → List Task → Level → List Task
put q l ts k = ite (Level-discrete k l) ts (q k)

pub put_self : (q : Level → List Task) (l : Level) (ts : List Task) → put q l ts l ≡ ts
put_self q l ts = if_pos (Level-discrete l l) refl ts (q l)

pub put_other : (q : Level → List Task) (l k : Level) (ts : List Task) → k ≢ l → put q l ts k ≡ q k
put_other q l k ts n = if_neg (Level-discrete k l) n ts (q k)

-- The line of a priority: 0 is low, and 3 is critical.
abbrev pub line_of : Priority → Option Level
line_of (pos zero) = some low
line_of (pos (suc zero)) = some normal
line_of (pos (suc (suc zero))) = some high
line_of (pos (suc (suc (suc zero)))) = some critical
line_of (pos (suc (suc (suc (suc n))))) = none
line_of (negsuc n) = none

pub queue_key-line_of : (p : Priority) (l : Level) → line_of p ≡ some l → queue_key p ≡ queue l
unfolding queue_key
queue_key-line_of (pos zero) l e = cc
queue_key-line_of (pos (suc zero)) l e = cc
queue_key-line_of (pos (suc (suc zero))) l e = cc
queue_key-line_of (pos (suc (suc (suc zero)))) l e = cc
queue_key-line_of (pos (suc (suc (suc (suc n))))) l e = cc
queue_key-line_of (negsuc n) l e = cc

abbrev pub by_urgency : List Level
by_urgency = critical ∷ high ∷ normal ∷ low ∷ []

-- The first line that is not empty, its first task and those behind it.
abbrev pub first : (Level → List Task) → List Level → Option (Level × Task × List Task)
first q [] = none
first q (l ∷ ls) =
    let later = first q ls in elim (q l) [ [] ↦ later | t ∷ behind ↦ some (l, t, behind) ]

-- The task of an id among those that are taken, and the others.
abbrev pub find : String → List Task → Option Task
find id [] = none
find id (t ∷ ts) = let later = find id ts in if str_eq t.id id then some t else later

abbrev pub without : String → List Task → List Task
without id = keep (λ t. not (str_eq t.id id))

pub data Call : Type 0 where
  enqueues : Task → Call
  dequeues : Call
  acks requeues : String → Call

-- What a caller gets: an error, or a task, or nil.
abbrev pub Answer : Type 0
Answer = Result Error (Option Task)

-- A task joins the end of its line.
abbrev pub join : Task → (Level → List Task) → Level → List Task
join t q = elim (line_of t.priority) [ none ↦ q | some l ↦ put q l (q l ++ (t ∷ [])) ]

pub join_self :
    (t : Task) (q : Level → List Task) (l : Level)
    → line_of t.priority ≡ some l
    → join t q l ≡ q l ++ (t ∷ [])
join_self t q l e = rw (join, e) (put_self q l (q l ++ (t ∷ [])))

pub join_other :
    (t : Task) (q : Level → List Task) (l k : Level)
    → line_of t.priority ≡ some l
    → k ≢ l
    → join t q k ≡ q k
join_other t q l k e n = rw (join, e) (put_other q l k (q l ++ (t ∷ [])) n)

abbrev pub answer : Call → Lines → Answer × Lines
answer (enqueues t) q = (ok none, record q { waiting = join t q.waiting })
answer dequeues q = elim (first q.waiting by_urgency) [
  | none ↦ (ok none, q)
  | some (l, t, behind) ↦
      (ok (some t), record q { waiting = put q.waiting l behind; taken = t ∷ q.taken })
]
answer (acks id) q = (ok none, record q { taken = without id q.taken })
answer (requeues id) q = elim (find id q.taken) [
  | none ↦ (ok none, q)
  | some t ↦ (ok none, record q { waiting = join t q.waiting; taken = without id q.taken })
]

abbrev pub answers : List Call → Lines → List Answer × Lines
answers [] q = ([], q)
answers (c ∷ cs) q = let (a, q1) = answer c q in let (rest, q2) = answers cs q1 in (a ∷ rest, q2)
