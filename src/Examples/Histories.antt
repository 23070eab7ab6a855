-- ===== src/Examples/Histories.antt =====
-- A task that is queued, taken, requeued, taken again and acknowledged.
use spool.Prelude.{◌≢◌, ◌≡◌, refl, [], ◌∷◌, false, List, none, some}
use spool.Task.{Task}
use spool.Redis.Keys.{Level, unnamed, critical, high, normal, low}
use spool.Redis.KeyEquality.{Level-discrete}
use spool.Redis.Memory.{memory_world, memory_redis, memory_laws, memory_up}
use spool.Effect.{ok}
use spool.Redis.Laws.{items}
use spool.Queue.RedisQueue.{fresh, enqueue}
use spool.Queue.RedisQueue.Refinement.Unknown.{calls-enqueue_unknown}
use spool.Queue.RedisQueue.Lines.{All, Lines, Call, enqueues, dequeues, acks, requeues, answers}
use spool.Queue.RedisQueue.Refinement.Steps.{Stands}
use spool.Queue.RedisQueue.Refinement.Histories.{calls, StaysUp, AreAllowed, calls-refine-answers}
use spool.Examples.Samples.{job, odd, codec_for, empty_server}

abbrev pub no_tasks : Lines
no_tasks = record { waiting = λ l. []; taken = [] }

abbrev retried_once : List Call
retried_once = enqueues job ∷ dequeues ∷ requeues "a" ∷ dequeues ∷ acks "a" ∷ []

pub stays_up : StaysUp memory_world memory_redis (codec_for job) memory_laws false
unfolding fresh
stays_up = record { as_given = memory_up; renewed = λ d s. memory_up }

pub empty_server-Stands :
    Stands memory_world memory_redis (codec_for job) memory_laws empty_server no_tasks
empty_server-Stands = record { listed = λ l. refl; saved = λ l. tt; taken_saved = tt }

retried_once-AreAllowed : AreAllowed (codec_for job) retried_once no_tasks
unfolding Level-discrete
retried_once-AreAllowed = (
  ((high, refl), ("x", refl, refl), (λ l. tt), tt),
  (tt, (((λ e. cc), (job, high, refl, refl)), (tt, (((λ e. cc), settled), tt)))),
)
  where
    settled :
        (l : Level)
        → All
            (λ (t : Task). t.id ≢ "a")
            ((answers (enqueues job ∷ dequeues ∷ requeues "a" ∷ dequeues ∷ []) no_tasks).1.waiting
              l)
    settled critical = tt
    settled high = tt
    settled normal = tt
    settled low = tt

calls-refine-answers_example :
    ((calls memory_world memory_redis (codec_for job) false retried_once empty_server).0
      ≡ (answers retried_once no_tasks).0)
    × Stands memory_world memory_redis
        (codec_for job)
        memory_laws
        (calls memory_world memory_redis (codec_for job) false retried_once empty_server).1
        (answers retried_once no_tasks).1
calls-refine-answers_example =
    calls-refine-answers memory_world memory_redis (codec_for job) memory_laws false retried_once
      empty_server no_tasks stays_up empty_server-Stands retried_once-AreAllowed

-- A task is queued and taken after a task of an unknown priority and with the same id.
abbrev after_odd : List Call
after_odd = enqueues job ∷ dequeues ∷ dequeues ∷ []

calls-enqueue_unknown_example :
    let (result, s1) =
      enqueue memory_world memory_redis (codec_for job) false (some odd) empty_server in
    (result ≡ ok tt)
    × (s1.held unnamed ≡ items ("a" ∷ []))
    × Stands memory_world memory_redis (codec_for job) memory_laws s1 no_tasks
    × ((calls memory_world memory_redis (codec_for job) false after_odd s1).0
        ≡ ok none ∷ ok (some job) ∷ ok none ∷ [])
unfolding Level-discrete
calls-enqueue_unknown_example =
    calls-enqueue_unknown memory_world memory_redis (codec_for job) memory_laws false odd "x"
      after_odd empty_server no_tasks stays_up empty_server-Stands refl refl (λ l. tt) tt ([], refl)
      (((high, refl), ("x", refl, refl), (λ l. tt), tt), (tt, (tt, tt)))
