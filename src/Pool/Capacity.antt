-- ===== src/Pool/Capacity.antt =====
-- How many workers the pool of internal/worker/pool.go has, call after call, and what it says of them.
use spool.Prelude.{
  sym, ◌∙◌, if◌then◌else◌, ℕ, suc, ◌≤◌, ◌≡◌, ◌≢◌, refl, inl, inr, String, false, some, none, [],
  ◌∷◌, ℤ, pos, arith, leb_ℤ, length, Map, has, length-insert, length-erase, ◌≤ℤ◌, ◌<ℤ◌, Bool-cases,
  length_le_of_has,
}
use spool.Worker.{panics, new_worker, start as start_worker}
use spool.Pool.{
  Pool, WorkerState, add_worker, remove_worker, get_stats, count_state, is_idle, is_busy, worker_id,
}
use spool.Pool.Soundness.{
  IsSound, AllIdle, add_worker-IsSound, remove_worker-IsSound, remove_worker_cases, free_id,
}

count_state-all : (m : Map WorkerState) → AllIdle m → count_state is_idle m ≡ length m
count_state-all [] a = refl
count_state-all (entry ∷ rest) a = rw (a.0, count_state-all rest a.1) refl

count_state-none : (m : Map WorkerState) → AllIdle m → count_state is_busy m ≡ 0
count_state-none [] a = refl
count_state-none (entry ∷ rest) a = rw (a.0, count_state-none rest a.1) refl

module _ (int_text : ℤ → String)
    (distinct : (a b : ℕ) → int_text (pos a) ≡ int_text (pos b) → a ≡ b) {F : Type 0} where
  -- The calls that change the pool, with ids left.
  pub data Step : Pool F → Pool F → Type 0 where
    adds :
        {p : Pool F} (now : ℕ)
        → p.next_worker_id <ℤ pos 9223372036854775807
        → Step p (add_worker int_text now p).1
    removes : {p : Pool F} (id : String) → Step p (remove_worker id p).1

  pub data Reach (p : Pool F) : Pool F → Type 0 where
    here : Reach p p
    next : {a b : Pool F} → Reach p a → Step a b → Reach p b

  Step-IsSound : {a b : Pool F} → Step a b → IsSound int_text a → IsSound int_text b
  Step-IsSound (adds now room) k = add_worker-IsSound int_text distinct now _ k room
  Step-IsSound (removes id) k = remove_worker-IsSound int_text id _ k

  pub Reach-IsSound : {a b : Pool F} → Reach a b → IsSound int_text a → IsSound int_text b
  Reach-IsSound here k = k
  Reach-IsSound (next r st) k = Step-IsSound st (Reach-IsSound r k)

  -- AddWorker fails at the maximum and adds one worker below it, under the id of the next number,
  -- which no worker of a sound pool has.
  pub add_worker_lem :
      (now : ℕ) (p : Pool F)
      → IsSound int_text p
      → let id = worker_id int_text p.next_worker_id in
        let full = leb_ℤ p.max_workers (pos (length p.workers)) in
        (has id p.workers ≡ false)
        × ((add_worker int_text now p).0 ≡ (if full then none else some id))
        × (length (add_worker int_text now p).1.workers
            ≡ (if full then length p.workers else suc (length p.workers)))
  unfolding add_worker new_worker start_worker
  add_worker_lem now p k =
      let free = free_id int_text distinct p k in
      let id = worker_id int_text p.next_worker_id in
      let v = (start_worker (new_worker id p.poll_interval "")).1 in
      elim (Bool-cases (leb_ℤ p.max_workers (pos (length p.workers)))) [
        | inl full ↦ (free, rw full refl, rw full refl)
        | inr below ↦
            (free, rw below refl, rw below (ground (arith, length-insert id v p.workers, free)))
      ]

  pub least_kept_by_add :
      (low now : ℕ) (p : Pool F)
      → p.min_workers ≡ pos low
      → (add_worker int_text now p).1.min_workers ≡ pos low
  unfolding add_worker new_worker start_worker
  least_kept_by_add low now p e = elim (Bool-cases (leb_ℤ p.max_workers (pos (length p.workers)))) [
    | inl full ↦ rw full e
    | inr below ↦ rw below e
  ]

  -- RemoveWorker never takes a pool below its minimum, and keeps one that is below as it is.
  Step-least :
      (low : ℕ) {a b : Pool F}
      → Step a b
      → IsSound int_text a
      → a.min_workers ≡ pos low
      → low ≤ length a.workers
      → (b.min_workers ≡ pos low) × (low ≤ length b.workers)
  Step-least low (adds now room) k e h =
      (least_kept_by_add low now _ e, ground (arith, (add_worker_lem now _ k).2, h))
  Step-least low (removes id) k e h = elim (remove_worker_cases int_text id _ k) [
    | inl kept ↦ rw kept.1 (e, h)
    | inr removed ↦
        rw removed.2
          (e, ground (arith, e, removed.1, length-erase id _ k.workers_Unique, removed.0))
  ]

  Reach-least :
      (low : ℕ) {a b : Pool F}
      → Reach a b
      → IsSound int_text a
      → a.min_workers ≡ pos low
      → low ≤ length a.workers
      → (b.min_workers ≡ pos low) × (low ≤ length b.workers)
  Reach-least low here k e h = (e, h)
  Reach-least low (next r st) k e h =
      let before = Reach-least low r k e h in
      Step-least low st (Reach-IsSound r k) before.0 before.1

  as_many_states : (p : Pool F) → IsSound int_text p → length p.worker_states ≡ length p.workers
  as_many_states p k =
      let le =
        length_le_of_has p.worker_states p.workers k.states_Unique k.workers_Unique
          (λ id h. sym (k.same_keys id) ∙ h) in
      let ge =
        length_le_of_has p.workers p.worker_states k.workers_Unique k.states_Unique
          (λ id h. k.same_keys id ∙ h) in
      omega (arith, le, ge)

  remove_worker_panics :
      (id : String) (p : Pool F) → IsSound int_text p → (remove_worker id p).0 ≢ panics
  remove_worker_panics id p k = elim (remove_worker_cases int_text id p k) [
    | inl kept ↦ λ h. cc (h, kept.1)
    | inr removed ↦ λ h. cc (h, removed.2)
  ]

  -- From a sound pool with at least its minimum of workers, whatever workers are added and removed,
  -- the pool has between its minimum and its maximum of workers, no RemoveWorker panics, and the
  -- statistics call each worker idle and none busy.
  pub capacity :
      (p q : Pool F) (low : ℕ) (id : String)
      → IsSound int_text p
      → p.min_workers ≡ pos low
      → low ≤ length p.workers
      → Reach p q
      → (pos low ≤ℤ pos (length q.workers))
        × (pos (length q.workers) ≤ℤ q.max_workers)
        × ((remove_worker id q).0 ≢ panics)
        × ((get_stats q).idle_workers ≡ pos (length q.workers))
        × ((get_stats q).busy_workers ≡ pos 0)
  unfolding get_stats
  capacity p q low id k e h r =
      let k' = Reach-IsSound r k in
      (
        ground (arith, (Reach-least low r k e h).1),
        ground (arith, k'.within, k'.most_is),
        remove_worker_panics id q k',
        rw (count_state-all q.worker_states k'.all_idle, as_many_states q k') refl,
        rw (count_state-none q.worker_states k'.all_idle) refl,
      )
