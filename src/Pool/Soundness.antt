-- ===== src/Pool/Soundness.antt =====
-- What holds of the pool of internal/worker/pool.go between calls, and that each call keeps it.
use spool.Metrics.{unregister_worker}
use spool.Prelude.{
  ◌⊎◌, ℕ, suc, ◌≤◌, ◌<◌, ◌≡◌, refl, inl, inr, String, true, false, some, [], ◌∷◌, ℤ, pos, arith,
  leb_ℤ, length, Map, lookup, insert, erase, has, Unique, has-insert, has-erase, insert-Unique,
  erase-Unique, length-insert, length-erase, lookup-insert, lookup-erase, wrap64, ◌+ℤ◌, str_eq,
  eq_iff, Bool-cases, Option-cases, ◌<ℤ◌,
}
use text.Mathlib.TextLemmas.{append_cancel_left}
use spool.Worker.{
  Worker, new_worker, returns_nil, returns_error, start as start_worker, stop as stop_worker,
}
use spool.Pool.{
  on_metrics, Pool, WorkerState, idle, shutting_down, add_worker, remove_worker, worker_id,
}

abbrev pub AllIdle : Map WorkerState → Type 0
AllIdle [] = Unit
AllIdle (entry ∷ rest) = (entry.1 ≡ idle) × AllIdle rest

insert-AllIdle : (id : String) (m : Map WorkerState) → AllIdle m → AllIdle (insert id idle m)
unfolding insert
insert-AllIdle id [] a = (refl, tt)
insert-AllIdle id (entry ∷ rest) a = elim (Bool-cases (str_eq entry.0 id)) [
  | inl same ↦ rw same (refl, a.1)
  | inr other ↦ rw other (a.0, insert-AllIdle id rest a.1)
]

erase-AllIdle : (id : String) (m : Map WorkerState) → AllIdle m → AllIdle (erase id m)
unfolding erase
erase-AllIdle id [] a = tt
erase-AllIdle id (entry ∷ rest) a = elim (Bool-cases (str_eq entry.0 id)) [
  | inl same ↦ rw same (erase-AllIdle id rest a.1)
  | inr other ↦ rw other (a.0, erase-AllIdle id rest a.1)
]

-- Setting a key that is erased next changes nothing.
erase-insert :
    (id : String) (x : WorkerState) (m : Map WorkerState) → erase id (insert id x m) ≡ erase id m
unfolding erase insert
erase-insert id x [] = ground (arith, eq_iff id id)
erase-insert id x (entry ∷ rest) =
    ground (arith, erase-insert id x rest, eq_iff id id, eq_iff entry.0 id)

pub wrap64-next : (n : ℕ) → n < 9223372036854775807 → wrap64 (pos n +ℤ pos 1) ≡ pos (suc n)
unfolding wrap64 ◌+ℤ◌
wrap64-next n h = ground arith

worker_id_injective :
    (int_text : ℤ → String)
    → ((a b : ℕ) → int_text (pos a) ≡ int_text (pos b) → a ≡ b)
    → (a b : ℕ) → worker_id int_text (pos a) ≡ worker_id int_text (pos b)
    → a ≡ b
worker_id_injective int_text distinct a b e = distinct a b (append_cancel_left "worker-" _ _ e)

module _ (int_text : ℤ → String) {F : Type 0} where
  -- Each worker has one state, which is idle, and one that could still be stopped; ids from the next
  -- number on are free, and the pool is not above its maximum.
  pub record IsSound (p : Pool F) : Type 0 where
    pub workers_Unique : Unique p.workers
    pub states_Unique : Unique p.worker_states
    pub same_keys : (id : String) → has id p.worker_states ≡ has id p.workers
    pub all_idle : AllIdle p.worker_states
    pub live :
        (id : String) (v : Worker)
        → lookup id p.workers ≡ some v
        → (v.running ≡ true) × (v.shutdown_closed ≡ false)
    pub number : ℕ
    pub number_is : p.next_worker_id ≡ pos number
    pub free : (k : ℕ) → number ≤ k → has (worker_id int_text (pos k)) p.workers ≡ false
    pub most : ℕ
    pub most_is : p.max_workers ≡ pos most
    pub within : length p.workers ≤ most

  live_after :
      (p : Pool F) (k : IsSound p) (id : String) (v : Worker)
      → (v.running ≡ true) × (v.shutdown_closed ≡ false)
      → (j : String) (u : Worker) → lookup j (insert id v p.workers) ≡ some u
      → (u.running ≡ true) × (u.shutdown_closed ≡ false)
  live_after p k id v fine j u h = elim (Bool-cases (str_eq id j)) [
    | inl same ↦
        (let e : some v ≡ some u = cc (h, lookup-insert id j v p.workers, same) in
          ground (arith, e, fine))
    | inr other ↦ k.live j u (ground (arith, lookup-insert id j v p.workers, h, other))
  ]

  -- In a sound pool no worker has been stopped, so that its Shutdown cannot panic.
  stop-fine :
      (p : Pool F) (k : IsSound p) (id : String) (v : Worker)
      → lookup id p.workers ≡ some v
      → (stop_worker v).0 ≡ returns_nil
  unfolding stop_worker
  stop-fine p k id v e = let fine = k.live id v e in rw (fine.0, fine.1) refl

  -- RemoveWorker fails and changes nothing for an unknown worker or at the minimum, and removes
  -- the worker otherwise.
  pub remove_worker_cases :
      (id : String) (p : Pool F) (k : IsSound p)
      → (((has id p.workers ≡ false) ⊎ (leb_ℤ (pos (length p.workers)) p.min_workers ≡ true))
          × (remove_worker id p ≡ (returns_error, p)))
        ⊎ ((has id p.workers ≡ true)
            × (leb_ℤ (pos (length p.workers)) p.min_workers ≡ false)
            × (remove_worker id p ≡ (
              returns_nil,
              record p {
                workers = erase id p.workers;
                worker_states = erase id p.worker_states;
                metrics = on_metrics (unregister_worker id) p.metrics;
              },
            )))
  unfolding remove_worker
  remove_worker_cases id p k = elim (Option-cases (lookup id p.workers)) [
    | inl missing ↦ inl (inl (ground (arith, missing)), rw (remove_worker, missing) refl)
    | inr found ↦ elim (Bool-cases (leb_ℤ (pos (length p.workers)) p.min_workers)) [
      | inl least ↦ inl (inr least, rw (remove_worker, found.1, least) refl)
      | inr more ↦ inr (
        ground (arith, found.1),
        more,
        rw
            (
              remove_worker,
              found.1,
              more,
              stop-fine p k id found.0 found.1,
              erase-insert id shutting_down p.worker_states,
            )
            refl,
      )
    ]
  ]

  pub remove_worker-IsSound :
      (id : String) (p : Pool F) → IsSound p → IsSound (remove_worker id p).1
  remove_worker-IsSound id p k = elim (remove_worker_cases id p k) [
    | inl kept ↦ rw kept.1 k
    | inr removed ↦ rw removed.2 (record {
      workers_Unique = erase-Unique id p.workers k.workers_Unique;
      states_Unique = erase-Unique id p.worker_states k.states_Unique;
      same_keys = λ j.
          ground (arith, has-erase id j p.workers, has-erase id j p.worker_states, k.same_keys j);
      all_idle = erase-AllIdle id p.worker_states k.all_idle;
      live = λ j v h. k.live j v (ground (arith, lookup-erase id j p.workers, h));
      number = k.number;
      number_is = k.number_is;
      free = λ n h. ground (arith, has-erase id (worker_id int_text (pos n)) p.workers, k.free n h);
      most = k.most;
      most_is = k.most_is;
      within = ground (arith, length-erase id p.workers k.workers_Unique, k.within);
    })
  ]

  module _ (distinct : (a b : ℕ) → int_text (pos a) ≡ int_text (pos b) → a ≡ b) where
    pub free_id :
        (p : Pool F) (k : IsSound p) → has (worker_id int_text p.next_worker_id) p.workers ≡ false
    free_id p k = rw k.number_is (k.free k.number (omega arith))

    free_after :
        (p : Pool F) (k : IsSound p) (v : Worker) (n : ℕ)
        → k.number < n
        → has (worker_id int_text (pos n)) (insert (worker_id int_text (pos k.number)) v p.workers)
          ≡ false
    free_after p k v n h = ground (
      arith,
      has-insert (worker_id int_text (pos k.number)) (worker_id int_text (pos n)) v p.workers,
      k.free n (omega arith),
      eq_iff (worker_id int_text (pos k.number)) (worker_id int_text (pos n)),
      worker_id_injective int_text distinct k.number n,
    )

    pub add_worker-IsSound :
        (now : ℕ) (p : Pool F)
        → IsSound p
        → p.next_worker_id <ℤ pos 9223372036854775807
        → IsSound (add_worker int_text now p).1
    unfolding add_worker new_worker start_worker
    add_worker-IsSound now p k room =
        elim (Bool-cases (leb_ℤ p.max_workers (pos (length p.workers)))) [
          | inl full ↦ rw full k
          | inr below ↦ rw below (
              let id = worker_id int_text p.next_worker_id in
              let v = (start_worker (new_worker id p.poll_interval "")).1 in
              record {
                workers_Unique = insert-Unique id v p.workers k.workers_Unique;
                states_Unique = insert-Unique id idle p.worker_states k.states_Unique;
                same_keys = λ j. ground (
                  arith,
                  has-insert id j v p.workers,
                  has-insert id j idle p.worker_states,
                  k.same_keys j,
                );
                all_idle = insert-AllIdle id p.worker_states k.all_idle;
                live = λ j u h. live_after p k id v (refl, refl) j u h;
                number = suc k.number;
                number_is = rw k.number_is (wrap64-next k.number (ground (arith, k.number_is)));
                free = λ n h. rw k.number_is (free_after p k _ n (omega arith));
                most = k.most;
                most_is = k.most_is;
                within = ground (arith, length-insert id v p.workers, k.most_is, below);
              })
        ]
