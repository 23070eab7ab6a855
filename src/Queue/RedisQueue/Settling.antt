-- ===== src/Queue/RedisQueue/Settling.antt =====
-- What Ack and Nack of internal/queue/redis.go leave of a delivered task.
use spool.Prelude.{
  ◌≡◌, ◌≢◌, refl, sym, ap, subst, ◌∙◌, String, true, false, some, [], ◌∷◌, ◌++◌, arith, str_eq,
  eq_iff, Bool-cases, inl, inr,
}
use spool.Env.{World}
use spool.Effect.{ok}
use spool.Task.{Task}
use spool.Redis.{Redis}
use spool.Redis.Laws.{Laws, IsUp, HoldsList, missing, text, items, items_of}
use spool.Redis.Keys.{
  Key, Stat, queue_key, is_queue, queue_key-is_queue, ne_of_is_queue, processing, task, stats,
  completed,
}
use spool.Redis.Keys
use spool.Queue.RedisQueue.{Codec, ack, nack}
use spool.Queue.RedisQueue.Delivery.{get_text}

pub str_ne : (a b : String) → a ≢ b → str_eq a b ≡ false
str_ne a b n = elim (Bool-cases (str_eq a b)) [ inl e ↦ absurd (n ((eq_iff a b).0 e)) | inr e ↦ e ]

module _ (w : World) (r : Redis w) (j : Codec) (laws : Laws w r) where
  open w use {S, Ctx}
  open laws use {at}

  -- Nothing is left of a task but statistics, from s to s'.
  pub record Gone (id : String) (s s' : S) : Type 0 where
    pub untracked : at s' (processing id) ≡ missing
    pub no_data : at s' (task id) ≡ missing
    pub others_kept :
        (k : Key) → k ≢ processing id → k ≢ task id → ((n : Stat) → k ≢ stats n) → at s' k ≡ at s k

  -- `Del` of the two keys of a task, and a counter.
  cleared : Ctx → String → Stat → S → S
  cleared c id n s = (r.incr c (stats n) (r.del c (task id) (r.del c (processing id) s).1).1).1

  cleared-Gone :
      (c : Ctx) (up : IsUp w r laws c) (id : String) (n : Stat) (s : S)
      → Gone id s (cleared c id n s)
  unfolding cleared
  cleared-Gone c up id n s = record {
    untracked =
        laws.incr_frame c (stats n) _ (processing id) (λ e. cc)
        ∙ laws.del_frame c (task id) _ (processing id) (λ e. cc)
        ∙ laws.del_ok c (processing id) s (up.del_up _ _);
    no_data =
        laws.incr_frame c (stats n) _ (task id) (λ e. cc)
        ∙ laws.del_ok c (task id) _ (up.del_up _ _);
    others_kept = λ k a b d.
        laws.incr_frame c (stats n) _ k (d n)
        ∙ laws.del_frame c (task id) _ k b
        ∙ laws.del_frame c (processing id) s k a;
  }

  -- With the connection up, Ack of a task with an id returns nil and clears all but statistics.
  pub ack-Gone :
      (c : Ctx) (id : String) (s : S)
      → IsUp w r laws c
      → id ≢ ""
      → ((ack w r j c id s).0 ≡ ok tt) × Gone id s (ack w r j c id s).1
  unfolding ack cleared
  ack-Gone c id s up n = rw (str_ne id "" n) (refl, cleared-Gone c up id completed s)

  -- So does Nack without a requeue: the task is dropped.
  pub nack-Gone :
      (c : Ctx) (id : String) (s : S)
      → IsUp w r laws c
      → id ≢ ""
      → ((nack w r j c id false s).0 ≡ ok tt) × Gone id s (nack w r j c id false s).1
  unfolding nack cleared
  nack-Gone c id s up n = rw (str_ne id "" n) (refl, cleared-Gone c up id Keys.failed s)

  -- The task is back at the end of the queue of its priority, its data as before.
  pub record Requeued (t : Task) (id : String) (s s' : S) : Type 0 where
    pub appended :
        at s' (queue_key t.priority) ≡ items (items_of (at s (queue_key t.priority)) ++ (id ∷ []))
    pub untracked : at s' (processing id) ≡ missing
    pub others_kept : (k : Key) → k ≢ processing id → k ≢ queue_key t.priority → at s' k ≡ at s k

  requeue-Requeued :
      (c : Ctx) (up : IsUp w r laws c) (t : Task) (id : String) (s : S)
      → let s2 = (r.get c (task id) (r.del c (processing id) s).1).1 in
        HoldsList (at s (queue_key t.priority))
        → ((r.rpush c (queue_key t.priority) id s2).0 ≡ true)
          × Requeued t id s (r.rpush c (queue_key t.priority) id s2).1
  requeue-Requeued c up t id s h = (
    pushed,
    record {
      appended = laws.rpush_ok c q id s2 pushed ∙ ap (λ e. items (items_of e ++ (id ∷ []))) same;
      untracked =
          laws.rpush_frame c q id s2 (processing id)
            (λ e. ne_of_is_queue q (processing id) k refl (sym e))
          ∙ laws.get_frame c (task id) _ (processing id)
          ∙ laws.del_ok c (processing id) s (up.del_up _ _);
      others_kept = λ x a b.
          laws.rpush_frame c q id s2 x b
          ∙ laws.get_frame c (task id) _ x
          ∙ laws.del_frame c (processing id) s x a;
    },
  )
    where
      q : Key
      q = queue_key t.priority

      k : is_queue q ≡ true
      k = queue_key-is_queue t.priority

      s2 : S
      s2 = (r.get c (task id) (r.del c (processing id) s).1).1

      same : at s2 q ≡ at s q
      same =
          laws.get_frame c (task id) _ q
          ∙ laws.del_frame c (processing id) s q (ne_of_is_queue q (processing id) k refl)

      pushed : (r.rpush c q id s2).0 ≡ true
      pushed = up.rpush_up q id s2 (subst HoldsList (sym same) h)

  -- With the connection up, Nack with a requeue puts a task whose data can be decoded back at the
  -- end of the queue of the priority in that data, and untracks it.
  pub nack-Requeued :
      (c : Ctx) (id : String) (t : Task) (d : String) (s : S)
      → IsUp w r laws c
      → id ≢ ""
      → at s (task id) ≡ text d
      → j.unmarshal d ≡ some t
      → HoldsList (at s (queue_key t.priority))
      → ((nack w r j c id true s).0 ≡ ok tt) × Requeued t id s (nack w r j c id true s).1
  unfolding nack
  nack-Requeued c id t d s up n e f h =
      let read =
        get_text w r j laws c up (task id) (r.del c (processing id) s).1 d
          (laws.del_frame c (processing id) s (task id) (λ x. cc) ∙ e) in
      let v = requeue-Requeued c up t id s h in
      let shape : nack w r j c id true s ≡ (
        ok tt,
        (r.rpush c (queue_key t.priority) id (r.get c (task id) (r.del c (processing id) s).1).1).1,
      ) =
        ground (arith, str_ne id "" n, read, f, v.0) in
      rw shape (refl, v.1)
