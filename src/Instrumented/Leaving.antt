-- ===== src/Instrumented/Leaving.antt =====
-- What the metrics know of the workers of a pool of internal/worker/instrumented.go that is shut down.
use spool.Prelude.{
  ◌≡◌, String, Bool, true, false, none, List, [], ◌∷◌, lookup, erase, lookup-erase, arith, eq_iff,
  sym, subst,
}
use spool.Queue.RedisQueue.Lines.{All}
use spool.Worker.Running.{shutdown as shutdown_worker}
use spool.Worker.{Outcome, returns_nil}
use spool.Metrics.{Metrics, unregister_worker}
use spool.Metrics.Tasks.{Floats}
use spool.Instrumented.{InstrumentedWorker}
use spool.Instrumented.Pools.{shutdown, shutdown_all}

gone : {V : Type 0} (id : String) (m : List (String × V)) → lookup id (erase id m) ≡ none
gone id m = ground (arith, lookup-erase id id m, eq_iff id id)

kept_gone :
    {V : Type 0} (id other : String) (m : List (String × V))
    → lookup id m ≡ none
    → lookup id (erase other m) ≡ none
kept_gone id other m e = ground (arith, lookup-erase other id m, e)

module _ {F : Type 0} where
  -- The collector knows nothing of a worker.
  pub record IsUnknown (m : Metrics F) (id : String) : Type 0 where
    pub no_stats : lookup id m.worker_stats ≡ none
    pub not_idle : lookup id m.worker_last_idle ≡ none
    pub no_task : lookup id m.worker_current_task ≡ none

  unregister_worker-IsUnknown :
      (m : Metrics F) (id : String) → IsUnknown (unregister_worker id m) id
  unfolding unregister_worker
  unregister_worker-IsUnknown m id = record {
    no_stats = gone id m.worker_stats;
    not_idle = gone id m.worker_last_idle;
    no_task = gone id m.worker_current_task;
  }

  unregister_worker_kept :
      (m : Metrics F) (id other : String)
      → IsUnknown m id
      → IsUnknown (unregister_worker other m) id
  unfolding unregister_worker
  unregister_worker_kept m id other h = record {
    no_stats = kept_gone id other m.worker_stats h.no_stats;
    not_idle = kept_gone id other m.worker_last_idle h.not_idle;
    no_task = kept_gone id other m.worker_current_task h.no_task;
  }

module _ {F : Type 0} (floats : Floats F) where
  -- A worker of a pool that is shut down: it runs no more, and both its channels are closed.
  pub record IsShut (v : InstrumentedWorker) : Type 0 where
    pub idle : v.worker.running ≡ false
    pub closed : v.worker.shutdown_closed ≡ true
    pub sync_closed : v.sync_closed ≡ true

  shutdown-eq-returns_nil :
      (ended : Bool) (v : InstrumentedWorker) (m : Metrics F)
      → (shutdown floats ended v m).0 ≡ returns_nil
      → ((shutdown floats ended v m).2 ≡ unregister_worker v.worker.id m)
        × IsShut (shutdown floats ended v m).1
  unfolding shutdown shutdown_worker
  shutdown-eq-returns_nil ended v m h = (
    ground arith,
    record { idle = ground arith; closed = ground arith; sync_closed = ground arith },
  )

  -- Where the pool's call returns nil, so did the first worker's and that of the others.
  shutdown_all-cons :
      (ended : String → Bool) (v : InstrumentedWorker) (vs : List InstrumentedWorker)
      (m : Metrics F)
      → (shutdown_all floats ended (v ∷ vs) m).0 ≡ returns_nil
      → let s = shutdown floats (ended v.worker.id) v m in
        let rest = shutdown_all floats ended vs s.2 in
        (s.0 ≡ returns_nil)
        × (rest.0 ≡ returns_nil)
        × (shutdown_all floats ended (v ∷ vs) m ≡ (returns_nil, s.1 ∷ rest.1, rest.2))
  unfolding shutdown_all
  shutdown_all-cons ended v vs m h = (ground arith, ground arith, ground arith)

  -- The other workers' calls keep a worker unknown.
  shutdown_all_kept :
      (ended : String → Bool) (vs : List InstrumentedWorker) (m : Metrics F) (id : String)
      → (shutdown_all floats ended vs m).0 ≡ returns_nil
      → IsUnknown m id
      → IsUnknown (shutdown_all floats ended vs m).2 id
  unfolding shutdown_all
  shutdown_all_kept ended [] m id h k = k
  shutdown_all_kept ended (v ∷ vs) m id h k =
      let (one, rest, e) = shutdown_all-cons ended v vs m h in
      let left = (shutdown-eq-returns_nil (ended v.worker.id) v m one).0 in
      rw e (
        shutdown_all_kept ended vs (shutdown floats (ended v.worker.id) v m).2 id rest
          (rw left (unregister_worker_kept m id v.worker.id k)))

  -- If ShutdownAll returns nil, the metrics know none of the pool's workers any more, no worker runs,
  -- and the channels of all are closed.
  pub shutdown_all-IsUnknown :
      (ended : String → Bool) (vs : List InstrumentedWorker) (m : Metrics F)
      → (shutdown_all floats ended vs m).0 ≡ returns_nil
      → All (λ v. IsUnknown (shutdown_all floats ended vs m).2 v.worker.id) vs
        × All IsShut (shutdown_all floats ended vs m).1
  unfolding shutdown_all
  shutdown_all-IsUnknown ended [] m h = (tt, tt)
  shutdown_all-IsUnknown ended (v ∷ vs) m h =
      let (one, rest, e) = shutdown_all-cons ended v vs m h in
      let (left, shut) = shutdown-eq-returns_nil (ended v.worker.id) v m one in
      let m1 = (shutdown floats (ended v.worker.id) v m).2 in
      let others = shutdown_all-IsUnknown ended vs m1 rest in
      let first : IsUnknown m1 v.worker.id = rw left (unregister_worker-IsUnknown m v.worker.id) in
      subst
        (λ (x : Outcome × List InstrumentedWorker × Metrics F).
          All (λ u. IsUnknown x.2 u.worker.id) (v ∷ vs) × All IsShut x.1)
        (sym e) ((shutdown_all_kept ended vs m1 v.worker.id rest first, others.0), (shut, others.1))
