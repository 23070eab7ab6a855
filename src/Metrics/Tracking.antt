-- ===== src/Metrics/Tracking.antt =====
-- The worker counts of internal/monitoring/metrics.go against its maps.
use spool.Prelude.{
  Bool-cases, length_le_of_has, ◌-◌, ℕ, suc, ◌≤◌, ◌<◌, ◌≡◌, refl, String, true, false, Bool, ℤ, pos,
  arith, length, lookup, insert, erase, has, Unique, has-insert, has-erase, insert-Unique,
  erase-Unique, length-insert, length-erase, wrap32, ◌+ℤ◌, ◌-ℤ◌, eq_iff, inl, inr, Option-cases,
}
use spool.Metrics.{
  Metrics, WorkerStats, fresh_stats, new_metrics, register_worker, unregister_worker,
  mark_worker_busy, mark_worker_idle, record_worker_task_completed, add32, minus_one, update_stats,
}

-- Adding and taking away one within int32.
pub add32_one : (n : ℕ) → n < 2147483647 → add32 (pos n) (pos 1) ≡ pos (suc n)
unfolding wrap32 ◌+ℤ◌
add32_one n h = ground arith

add32_pred : (n : ℕ) → n < 2147483647 → add32 (pos (suc n)) minus_one ≡ pos n
unfolding wrap32 ◌+ℤ◌ ◌-ℤ◌
add32_pred n h = ground arith

module _ {F : Type 0} where
  -- Each worker with statistics is idle or busy, the idle ones are those with an idle time, and the
  -- three counts say how many there are.
  pub record IsTracked (m : Metrics F) : Type 0 where
    pub stats_Unique : Unique m.worker_stats
    pub idle_Unique : Unique m.worker_last_idle
    pub idle_known : (id : String) → has id m.worker_last_idle ≡ true → has id m.worker_stats ≡ true
    pub active_count : m.active_workers ≡ pos (length m.worker_stats)
    pub idle_count : m.idle_workers ≡ pos (length m.worker_last_idle)
    pub busy_count : m.busy_workers ≡ pos (length m.worker_stats - length m.worker_last_idle)
    pub few : length m.worker_stats < 2147483647

  pub idle_le : (m : Metrics F) → IsTracked m → length m.worker_last_idle ≤ length m.worker_stats
  idle_le m k =
      length_le_of_has m.worker_last_idle m.worker_stats k.idle_Unique k.stats_Unique k.idle_known

  pub new_metrics-IsTracked : (now : ℕ) → IsTracked (new_metrics now)
  unfolding new_metrics lookup
  new_metrics-IsTracked now = record {
    stats_Unique = tt;
    idle_Unique = tt;
    idle_known = λ id h. h;
    active_count = refl;
    idle_count = refl;
    busy_count = refl;
    few = omega arith;
  }

  pub register_worker-IsTracked :
      (now : ℕ) (id : String) (m : Metrics F)
      → IsTracked m
      → has id m.worker_stats ≡ false
      → length m.worker_stats < 2147483646
      → IsTracked (register_worker now id m)
  unfolding register_worker
  register_worker-IsTracked now id m k new room =
      let idle : has id m.worker_last_idle ≡ false = ground (arith, k.idle_known id, new) in
      let ns = length-insert id (fresh_stats now id) m.worker_stats in
      let ni = length-insert id now m.worker_last_idle in
      record {
        stats_Unique = insert-Unique id (fresh_stats now id) m.worker_stats k.stats_Unique;
        idle_Unique = insert-Unique id now m.worker_last_idle k.idle_Unique;
        idle_known = λ j h. ground (
          arith,
          has-insert id j now m.worker_last_idle,
          has-insert id j (fresh_stats now id) m.worker_stats,
          k.idle_known j,
          h,
        );
        active_count = rw (k.active_count, ns, new) (add32_one _ k.few);
        idle_count = rw (k.idle_count, ni, idle) (add32_one _ (omega (arith, k.few, idle_le m k)));
        busy_count = ground (arith, k.busy_count, ns, ni, new, idle);
        few = rw (ns, new) (omega arith);
      }

  pub unregister_worker-IsTracked :
      (id : String) (m : Metrics F)
      → IsTracked m
      → has id m.worker_stats ≡ true
      → IsTracked (unregister_worker id m)
  unfolding unregister_worker
  unregister_worker-IsTracked id m k known =
      let ns = length-erase id m.worker_stats k.stats_Unique in
      let ni = length-erase id m.worker_last_idle k.idle_Unique in
      let le : length (erase id m.worker_last_idle) ≤ length (erase id m.worker_stats) =
        length_le_of_has (erase id m.worker_last_idle) (erase id m.worker_stats)
          (erase-Unique id m.worker_last_idle k.idle_Unique)
          (erase-Unique id m.worker_stats k.stats_Unique)
          (λ j h. ground (
            arith,
            has-erase id j m.worker_last_idle,
            has-erase id j m.worker_stats,
            k.idle_known j,
            h,
          )) in
      record {
        stats_Unique = erase-Unique id m.worker_stats k.stats_Unique;
        idle_Unique = erase-Unique id m.worker_last_idle k.idle_Unique;
        idle_known = λ j h. ground (
          arith,
          has-erase id j m.worker_last_idle,
          has-erase id j m.worker_stats,
          k.idle_known j,
          h,
        );
        active_count = ground (
          arith,
          k.active_count,
          ns,
          known,
          k.few,
          add32_pred (length (erase id m.worker_stats)),
        );
        idle_count = ground (
          arith,
          k.idle_count,
          ni,
          idle_le m k,
          k.few,
          add32_pred (length (erase id m.worker_last_idle)),
        );
        busy_count = ground (
          arith,
          k.busy_count,
          ns,
          ni,
          known,
          k.idle_known id,
          idle_le m k,
          le,
          k.few,
          add32_pred (length (erase id m.worker_stats) - length (erase id m.worker_last_idle)),
        );
        few = ground (arith, ns, known, k.few);
      }

  update_stats-length :
      (id : String) (f : WorkerStats → WorkerStats) (m : Metrics F)
      → length (update_stats id f m) ≡ length m.worker_stats
  update_stats-length id f m = elim (Option-cases (lookup id m.worker_stats)) [
    | inl e ↦ rw (update_stats, e) refl
    | inr v ↦ rw (update_stats, v.1) (ground (arith, length-insert id (f v.0) m.worker_stats, v.1))
  ]

  update_stats-Unique :
      (id : String) (f : WorkerStats → WorkerStats) (m : Metrics F)
      → IsTracked m
      → Unique (update_stats id f m)
  update_stats-Unique id f m k = elim (Option-cases (lookup id m.worker_stats)) [
    | inl e ↦ rw (update_stats, e) k.stats_Unique
    | inr v ↦ rw (update_stats, v.1) (insert-Unique id (f v.0) m.worker_stats k.stats_Unique)
  ]

  pub has-update_stats :
      (id j : String) (f : WorkerStats → WorkerStats) (m : Metrics F)
      → has j (update_stats id f m) ≡ has j m.worker_stats
  has-update_stats id j f m = elim (Option-cases (lookup id m.worker_stats)) [
    | inl e ↦ rw (update_stats, e) refl
    | inr v ↦
        rw (update_stats, v.1)
          (ground (arith, has-insert id j (f v.0) m.worker_stats, v.1, eq_iff id j))
  ]

  pub mark_worker_busy-IsTracked :
      (now : ℕ) (id : String) (m : Metrics F) → IsTracked m → IsTracked (mark_worker_busy now id m)
  unfolding mark_worker_busy
  mark_worker_busy-IsTracked now id m k = elim (Bool-cases (has id m.worker_last_idle)) [
    | inr busy ↦ rw busy k
    | inl idle ↦ rw idle (record {
      stats_Unique = update_stats-Unique id _ m k;
      idle_Unique = erase-Unique id m.worker_last_idle k.idle_Unique;
      idle_known = λ j h.
          rw (has-update_stats id j _ m)
            (k.idle_known j (ground (arith, has-erase id j m.worker_last_idle, h)));
      active_count = rw (update_stats-length id _ m) k.active_count;
      idle_count = ground (
        arith,
        k.idle_count,
        length-erase id m.worker_last_idle k.idle_Unique,
        idle,
        idle_le m k,
        k.few,
        add32_pred (length (erase id m.worker_last_idle)),
      );
      busy_count = rw (update_stats-length id _ m) (
          ground (
            arith,
            k.busy_count,
            length-erase id m.worker_last_idle k.idle_Unique,
            idle,
            idle_le m k,
            k.few,
            add32_one (length m.worker_stats - length m.worker_last_idle),
          ));
      few = rw (update_stats-length id _ m) k.few;
    })
  ]

  pub mark_worker_idle-IsTracked :
      (now : ℕ) (id : String) (m : Metrics F)
      → IsTracked m
      → has id m.worker_stats ≡ true
      → IsTracked (mark_worker_idle now id m)
  unfolding mark_worker_idle
  mark_worker_idle-IsTracked now id m k known = elim (Bool-cases (has id m.worker_last_idle)) [
    | inl idle ↦ rw idle k
    | inr busy ↦ rw busy (
        let ni = length-insert id now m.worker_last_idle in
        let u = insert-Unique id now m.worker_last_idle k.idle_Unique in
        let sub : (j : String)
            → has j (insert id now m.worker_last_idle) ≡ true
            → has j m.worker_stats ≡ true =
          λ j h. ground (
            arith,
            has-insert id j now m.worker_last_idle,
            h,
            k.idle_known j,
            known,
            eq_iff id j,
          ) in
        let le = length_le_of_has _ m.worker_stats u k.stats_Unique sub in
        record {
          stats_Unique = update_stats-Unique id _ m k;
          idle_Unique = u;
          idle_known = λ j h. rw (has-update_stats id j _ m) (sub j h);
          active_count = rw (update_stats-length id _ m) k.active_count;
          idle_count =
              ground
                (arith, k.idle_count, ni, busy, le, k.few, add32_one (length m.worker_last_idle));
          busy_count = rw (update_stats-length id _ m) (
              ground (
                arith,
                k.busy_count,
                ni,
                busy,
                le,
                k.few,
                add32_pred (length m.worker_stats - length (insert id now m.worker_last_idle)),
              ));
          few = rw (update_stats-length id _ m) k.few;
        })
  ]

  pub record_worker_task_completed-IsTracked :
      (id : String) (duration : ℤ) (success : Bool) (m : Metrics F)
      → IsTracked m
      → IsTracked (record_worker_task_completed id duration success m)
  unfolding record_worker_task_completed
  record_worker_task_completed-IsTracked id duration success m k = record {
    stats_Unique = update_stats-Unique id _ m k;
    idle_Unique = k.idle_Unique;
    idle_known = λ j h. rw (has-update_stats id j _ m) (k.idle_known j h);
    active_count = rw (update_stats-length id _ m) k.active_count;
    idle_count = k.idle_count;
    busy_count = rw (update_stats-length id _ m) k.busy_count;
    few = rw (update_stats-length id _ m) k.few;
  }
