-- ===== src/Pool/Startup.antt =====
-- How Start of internal/worker/pool.go fills a new pool.
use spool.Prelude.{
  ℕ, zero, suc, ◌+◌, ◌≤◌, ◌<◌, ◌≡◌, refl, sym, ◌∙◌, String, true, Option, ℤ, pos, pos_part, arith,
  length, leb_ℤ, ◌<ℤ◌, ◌≤ℤ◌, lookup, ltb_ℤ, wrap32_id, if◌then◌else◌, Bool-cases, inl, inr,
}
use spool.Metrics.{Metrics}
use spool.Worker.{new_worker, start as start_worker}
use spool.Pool.{Pool, PoolConfig, new_pool, add_worker, add_workers, start, get_worker_count}
use spool.Pool.Soundness.{IsSound, add_worker-IsSound, wrap64-next}
use spool.Pool.Capacity.{add_worker_lem}

module _ (int_text : ℤ → String) {F : Type 0} where
  -- NewPool puts the minimum at one at least and the maximum at the minimum at least.
  new_pool-bounds :
      (metrics : Option (Metrics F)) (cfg : PoolConfig)
      → cfg.min_workers <ℤ pos 2147483648
      → let p = new_pool metrics cfg in
        ((pos 1 ≤ℤ p.min_workers) × (p.min_workers ≡ pos (pos_part p.min_workers)))
        × (pos_part p.min_workers < 2147483648)
        × (p.max_workers ≡ pos (pos_part p.max_workers))
        × (p.min_workers ≤ℤ p.max_workers)
        × (p.next_worker_id ≡ pos 1)
        × (length p.workers ≡ 0)
  unfolding new_pool
  new_pool-bounds metrics cfg h = ground arith

  new_pool-least :
      (metrics : Option (Metrics F)) (cfg : PoolConfig)
      → (new_pool metrics cfg).min_workers
        ≡ (if ltb_ℤ cfg.min_workers (pos 1) then pos 1 else cfg.min_workers)
  unfolding new_pool
  new_pool-least metrics cfg = refl

  new_pool-IsSound :
      (metrics : Option (Metrics F)) (cfg : PoolConfig) → IsSound int_text (new_pool metrics cfg)
  unfolding new_pool lookup
  new_pool-IsSound metrics cfg = record {
    workers_Unique = tt;
    states_Unique = tt;
    same_keys = λ id. refl;
    all_idle = tt;
    live = λ id v h. ground (arith, h);
    number = 1;
    number_is = refl;
    free = λ k h. refl;
    most = pos_part (new_pool metrics cfg).max_workers;
    most_is = ground arith;
    within = omega arith;
  }

  pub add_worker-limits :
      (now : ℕ) (p : Pool F)
      → let p' = (add_worker int_text now p).1 in
        (p'.min_workers ≡ p.min_workers) × (p'.max_workers ≡ p.max_workers)
  unfolding add_worker new_worker start_worker
  add_worker-limits now p = elim (Bool-cases (leb_ℤ p.max_workers (pos (length p.workers)))) [
    | inl full ↦ rw full (refl, refl)
    | inr below ↦ rw below (refl, refl)
  ]

  module _ (distinct : (a b : ℕ) → int_text (pos a) ≡ int_text (pos b) → a ≡ b) where
    pub add_worker-number :
        (now next : ℕ) (p : Pool F)
        → p.next_worker_id ≤ℤ pos next
        → next < 9223372036854775807
        → IsSound int_text p
        → (add_worker int_text now p).1.next_worker_id ≤ℤ pos (suc next)
    unfolding add_worker new_worker start_worker
    add_worker-number now next p le room k =
        elim (Bool-cases (leb_ℤ p.max_workers (pos (length p.workers)))) [
          | inl full ↦ rw full (omega (arith, le))
          | inr below ↦
              rw (below, k.number_is)
                (ground
                  (arith, wrap64-next k.number (ground (arith, k.number_is, le)), k.number_is, le))
        ]

    pub add_workers-full :
        (n now next most : ℕ) (p : Pool F)
        → IsSound int_text p
        → p.next_worker_id ≤ℤ pos next
        → next + n < 9223372036854775807
        → p.max_workers ≡ pos most
        → length p.workers + n ≤ most
        → IsSound int_text (add_workers int_text now n p)
          × (length (add_workers int_text now n p).workers ≡ length p.workers + n)
          × ((add_workers int_text now n p).min_workers ≡ p.min_workers)
    unfolding add_workers
    add_workers-full zero now next most p k le bound e h = (k, omega arith, refl)
    add_workers-full (suc n) now next most p k le bound e h =
        let p' = (add_worker int_text now p).1 in
        let a = add_worker_lem int_text distinct now p k in
        let limits = add_worker-limits now p in
        let room : p.next_worker_id <ℤ pos 9223372036854775807 = omega (arith, le, bound) in
        let one : length p'.workers ≡ suc (length p.workers) = ground (arith, a.2, e, h) in
        let rest =
          add_workers-full n now (suc next) most p'
            (add_worker-IsSound int_text distinct now p k room)
            (add_worker-number now next p le (omega arith) k) (omega arith) (limits.1 ∙ e)
            (omega (arith, one, h)) in
        (rest.0, omega (arith, rest.1, one), rest.2 ∙ limits.0)

    -- A new pool with a minimum below 2^31 starts: Start returns nil and the pool is sound and has as
    -- many workers as its minimum, which is that of the configuration or one.
    pub start_lem :
        (now : ℕ) (metrics : Option (Metrics F)) (cfg : PoolConfig)
        → cfg.min_workers <ℤ pos 2147483648
        → let p = new_pool metrics cfg in
          let (fine, p') = start int_text now p in
          (fine ≡ true)
          × IsSound int_text p'
          × (pos (length p'.workers) ≡ p'.min_workers)
          × (p'.min_workers ≡ (if ltb_ℤ cfg.min_workers (pos 1) then pos 1 else cfg.min_workers))
    unfolding start get_worker_count
    start_lem now metrics cfg h =
        let p = new_pool metrics cfg in
        let n = pos_part p.min_workers in
        let b = new_pool-bounds metrics cfg h in
        let f =
          add_workers-full n now 1 (pos_part p.max_workers) p (new_pool-IsSound metrics cfg)
            (ground (arith, b.4)) (omega (arith, b.1)) b.2 (ground (arith, b.3, b.5)) in
        let p' = add_workers int_text now n p in
        let size : length p'.workers ≡ n = ground (arith, f.1, b.5) in
        let count : get_worker_count p' ≡ pos n =
          rw size (wrap32_id (pos n) (omega (arith, b.1)) (omega arith)) in
        (
          rw count (ground (arith, b.0)),
          f.0,
          rw size (sym (f.2 ∙ b.0.1)),
          f.2 ∙ new_pool-least metrics cfg,
        )
