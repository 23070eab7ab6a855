-- ===== src/Examples/Draining.antt =====
-- The worker's loop on a queue with a task that fails whenever it is executed.
use spool.Prelude.{
  Bool, false, ap, str_eq, lookup, Bool-cases, inl, inr, ◌≡◌, refl, none, List, [], ◌∷◌, arith,
  Option, if◌then◌else◌,
}
use spool.Task.{Task}
use spool.Task.Registry.{Registry, raised, execute, get}
use spool.Redis.Keys.{Level, critical, high, normal, low, queue, task}
use spool.Redis.KeyEquality.{key_eq}
use spool.Redis.Laws.{missing, items, text, of_items}
use spool.Redis.Memory.{Memory, memory_world, memory_redis, memory_laws, memory_up}
use spool.Queue.RedisQueue.{fresh, peek, dequeue}
use spool.Queue.RedisQueue.Peeking.{peek-dequeue}
use spool.Queue.RedisQueue.Refinement.Steps.{Stands}
use spool.Queue.RedisQueue.Lines.{All}
use spool.Queue.RedisQueue.Refinement.Parts.{ids, Saved}
use spool.Storage.{Storage}
use spool.Worker.Polling.{save_task, save_result}
use spool.Worker.Running.{run}
use spool.Worker.Draining.Families.{IsPlain, plain-IsCarried}
use spool.Worker.Draining.Settling.{Holds, redis}
use spool.Worker.Draining.Polls.{IsServed}
use spool.Worker.Draining.Loops.{ticks, run_empties}
use spool.Examples.Samples.{job, plain_format, idle_worker}
use spool.Examples.Codecs.Tasks.{task_text, full_codec, full_codec-Encodable}

abbrev order : List Level
order = critical ∷ high ∷ normal ∷ low ∷ []

abbrev failing : Registry memory_world
failing = ("email", λ ctx payload s. (raised "boom", s)) ∷ []

abbrev no_storage : Option (Storage memory_world)
no_storage = none

-- The job waits in the high queue.
abbrev job_server : Memory
job_server = record {
  time = 5000000000;
  held = λ k.
      if key_eq k (queue high)
      then items ("a" ∷ [])
      else if key_eq k (task "a")
      then text (task_text job)
      else missing;
}

abbrev waiting : Level → List Task
waiting critical = []
waiting high = job ∷ []
waiting normal = []
waiting low = []

failing_state : (ctx : Bool) (t : Task) (s : Memory) → (execute memory_world failing ctx t s).2 ≡ s
unfolding execute get lookup
failing_state ctx t s = elim (Bool-cases (str_eq "email" t.kind)) [
  | inl e ↦ rw (e, execute) refl
  | inr e ↦ rw (e, execute) refl
]

served :
    IsServed memory_world plain_format memory_redis full_codec memory_laws order failing no_storage
      IsPlain false
unfolding fresh save_task save_result execute
served = record {
  up = record { as_given = memory_up; renewed = λ d s. memory_up };
  calm = record { saving = λ ctx t s k h. refl; sleeping = λ d s k h. refl };
  quiet = record {
    handling = λ ctx t s k h. ap (λ (m : Memory). m.held k) (failing_state ctx t s);
    recording = λ ctx x s k h. refl;
  };
  carried = plain-IsCarried full_codec full_codec-Encodable;
}

waits :
    Holds memory_world plain_format memory_redis full_codec memory_laws order failing no_storage
      IsPlain job_server waiting
unfolding key_eq
waits = record {
  stands = record { listed = listed; saved = saved; taken_saved = tt };
  within = within;
  distinct = λ id. ground arith;
}
  where
    listed : (l : Level) → job_server.held (queue l) ≡ of_items (ids (waiting l))
    listed critical = refl
    listed high = refl
    listed normal = refl
    listed low = refl

    saved : (l : Level) → All (Saved full_codec job_server.held) (waiting l)
    saved critical = tt
    saved high = let e = full_codec-Encodable job in ((task_text job, refl, cc (e.1, e.2)), tt)
    saved normal = tt
    saved low = tt

    within : (l : Level) → All IsPlain (waiting l)
    within critical = tt
    within high =
        (((λ e. cc), (high, refl), (omega arith, omega arith), (omega arith, omega arith)), tt)
    within normal = tt
    within low = tt

run_empties_example :
    (run memory_world plain_format failing
        (redis memory_world plain_format memory_redis full_codec memory_laws order failing
          no_storage IsPlain)
        no_storage
        false
        (ticks 4)
        idle_worker
        job_server).1.held
      (queue high)
    ≡ missing
run_empties_example =
    run_empties memory_world plain_format memory_redis full_codec memory_laws order failing
      no_storage IsPlain 4 false idle_worker job_server waiting served waits (omega arith) high

peek-dequeue_example :
    ((peek memory_world memory_redis full_codec false job_server).0
      ≡ (dequeue memory_world memory_redis full_codec false job_server).0)
    × Stands memory_world memory_redis full_codec memory_laws
        (peek memory_world memory_redis full_codec false job_server).1
        (record { waiting = waiting; taken = [] })
peek-dequeue_example =
    peek-dequeue memory_world memory_redis full_codec memory_laws false job_server
      (record { waiting = waiting; taken = [] }) served.up waits.stands
