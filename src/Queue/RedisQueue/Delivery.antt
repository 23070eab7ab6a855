-- ===== src/Queue/RedisQueue/Delivery.antt =====
-- How the loop of Dequeue of internal/queue/redis.go runs, queue by queue.
use mathlib.Core.Path.{fun_ext}
use spool.Prelude.{
  ◌≡◌, ◌≢◌, refl, sym, ap, subst, ◌∙◌, String, Option, none, some, List, [], ◌∷◌, arith, pos, inl,
  inr,
}
use spool.Env.{World}
use spool.Effect.{M, Result, ok}
use spool.Task.{Task, Priority}
use spool.Redis.{Redis, Reply, value, absent, failed}
use spool.Redis.Laws.{Laws, IsUp, HoldsList, Entry, missing, text, items, items_of, of_items}
use spool.Redis.Pops.{lpop_absent-frame, lpop_missing, lpop_items}
use spool.Redis.Keys.{
  Key, queue_key, queue_key-is_queue, ne_of_is_queue, processing, task, stats, last_dequeue,
}
use spool.Queue.{Error}
use spool.Queue.RedisQueue.{Codec, dequeue_from, deliver, unix, hour}

-- The first queue that holds something, with the id at its head and those behind it.
unfoldable pub select : (Key → Entry) → List Priority → Option (Priority × String × List String)
select held [] = none
select held (p ∷ rest) =
    let later = select held rest in
    elim (items_of (held (queue_key p))) [ [] ↦ later | id ∷ behind ↦ some (p, id, behind) ]

pub select-skip :
    (held : Key → Entry) (q : Priority) (ps : List Priority)
    → held (queue_key q) ≡ missing
    → select held ps ≡ select held (q ∷ ps)
unfolding select
select-skip held q ps m = ground arith

pub select-hit :
    (held : Key → Entry) (q : Priority) (ps : List Priority) (x : String) (xs : List String)
    (p : Priority) (id : String) (behind : List String)
    → held (queue_key q) ≡ items (x ∷ xs)
    → select held (q ∷ ps) ≡ some (p, id, behind)
    → (q ≡ p) × (x ≡ id) × (xs ≡ behind)
unfolding select
select-hit held q ps x xs p id behind m e = ground arith

-- Each queue holds a list or nothing.
abbrev pub HoldLists : (Key → Entry) → List Priority → Type 0
HoldLists held [] = Unit {0}
HoldLists held (p ∷ rest) = HoldsList (held (queue_key p)) × HoldLists held rest

module _ (w : World) (r : Redis w) (j : Codec) (laws : Laws w r) where
  open w use {S, Ctx}
  open laws use {at}

  -- The server after the id at the head of the queue of p has been delivered, from s to s'.
  pub record Delivered (p : Priority) (id : String) (behind : List String) (s s' : S) : Type 0 where
    pub popped : at s' (queue_key p) ≡ of_items behind
    pub tracked : (d : String) × (at s' (processing id) ≡ text d)
    pub others_kept :
        (k : Key) → k ≢ queue_key p → k ≢ processing id → k ≢ stats last_dequeue → at s' k ≡ at s k

  pub get_text :
      (c : Ctx) (up : IsUp w r laws c) (k : Key) (s : S) (d : String)
      → at s k ≡ text d
      → (r.get c k s).0 ≡ value d
  get_text c up k s d e = go (r.get c k s).0 refl
    where
      go : (reply : Reply) → (r.get c k s).0 ≡ reply → (r.get c k s).0 ≡ value d
      go (value x) h = let f = laws.get_value c k s x h in ground arith
      go absent h = cc (e, laws.get_absent c k s h)
      go failed h = absurd (up.get_up k s (inr (d, e)) h)

  pub get_missing :
      (c : Ctx) (up : IsUp w r laws c) (k : Key) (s : S)
      → at s k ≡ missing
      → (r.get c k s).0 ≡ absent
  get_missing c up k s e = go (r.get c k s).0 refl
    where
      go : (reply : Reply) → (r.get c k s).0 ≡ reply → (r.get c k s).0 ≡ absent
      go (value x) h = cc (e, laws.get_value c k s x h)
      go absent h = h
      go failed h = absurd (up.get_up k s (inl e) h)

  -- The state after the three commands that follow a pop.
  after_delivery : Ctx → String → S → S
  after_delivery c id s =
      let s1 = (r.get c (task id) s).1 in
      let s2 = (r.set c (processing id) (unix w r j s1) (pos hour) s1).1 in
      (r.set c (stats last_dequeue) (unix w r j s2) (pos 0) s2).1

  deliver_lem :
      (c : Ctx) (up : IsUp w r laws c) (q : Key) (id : String) (next : M S Error (Option Task))
      (s : S) (d : String) (t : Task)
      → at s (task id) ≡ text d
      → j.unmarshal d ≡ some t
      → deliver w r j c q id next s ≡ (ok (some t), after_delivery c id s)
  unfolding deliver after_delivery
  deliver_lem c up q id next s d t e f = ground (arith, get_text c up (task id) s d e)

  after_delivery-frame :
      (c : Ctx) (id : String) (s : S) (k : Key)
      → k ≢ processing id
      → k ≢ stats last_dequeue
      → at (after_delivery c id s) k ≡ at s k
  unfolding after_delivery
  after_delivery-frame c id s k n m =
      laws.set_frame c (stats last_dequeue) _ (pos 0) _ k m
      ∙ laws.set_frame c (processing id) _ (pos hour) _ k n
      ∙ laws.get_frame c (task id) s k

  after_delivery-tracked :
      (c : Ctx) (up : IsUp w r laws c) (id : String) (s : S)
      → (d : String) × (at (after_delivery c id s) (processing id) ≡ text d)
  unfolding after_delivery
  after_delivery-tracked c up id s = (
    unix w r j (r.get c (task id) s).1,
    laws.set_frame c (stats last_dequeue) _ (pos 0) _ (processing id) (λ e. cc)
        ∙ laws.set_ok c (processing id) _ (pos hour) _ (up.set_up _ _ _ _),
  )

  delivery-Delivered :
      (c : Ctx) (up : IsUp w r laws c) (p : Priority) (id : String) (behind : List String) (s : S)
      → at s (queue_key p) ≡ items (id ∷ behind)
      → Delivered p id behind s (after_delivery c id (r.lpop c (queue_key p) s).1)
  delivery-Delivered c up p id behind s e = record {
    popped =
        after_delivery-frame c id _ (queue_key p)
          (ne_of_is_queue _ (processing id) (queue_key-is_queue p) refl)
          (ne_of_is_queue _ (stats last_dequeue) (queue_key-is_queue p) refl)
        ∙ (lpop_items w r laws c up (queue_key p) s id behind e).1;
    tracked = after_delivery-tracked c up id _;
    others_kept =
        λ k n m l. after_delivery-frame c id _ k m l ∙ laws.lpop_frame c (queue_key p) s k n;
  }

  -- An empty queue is passed over, and the server is as before.
  pub dequeue_from-skip :
      (c : Ctx) (up : IsUp w r laws c) (p : Priority) (rest : List Priority) (s : S)
      → at s (queue_key p) ≡ missing
      → dequeue_from w r j c (p ∷ rest) s ≡ dequeue_from w r j c rest (r.lpop c (queue_key p) s).1
  unfolding dequeue_from
  dequeue_from-skip c up p rest s e = ground (arith, lpop_missing w r laws c up (queue_key p) s e)

  pub dequeue_from-hit :
      (c : Ctx) (up : IsUp w r laws c) (p : Priority) (rest : List Priority) (s : S) (id : String)
      (behind : List String)
      → at s (queue_key p) ≡ items (id ∷ behind)
      → dequeue_from w r j c (p ∷ rest) s
        ≡ deliver w r j c (queue_key p) id (dequeue_from w r j c rest) (r.lpop c (queue_key p) s).1
  unfolding dequeue_from
  dequeue_from-hit c up p rest s id behind e =
      ground (arith, lpop_items w r laws c up (queue_key p) s id behind e)

  pub skip-frame :
      (c : Ctx) (up : IsUp w r laws c) (p : Priority) (s : S)
      → at s (queue_key p) ≡ missing
      → (at (r.lpop c (queue_key p) s).1) ≡ at s
  skip-frame c up p s e =
      fun_ext (
        lpop_absent-frame w r laws c (queue_key p) s (lpop_missing w r laws c up (queue_key p) s e))

  -- A run of the loop that delivers t, the head of the queue of p.
  abbrev pub Delivers :
      Result Error (Option Task) × S → Priority → String → List String → Task → S → Type 0
  Delivers run p id behind t s = (run.0 ≡ ok (some t)) × Delivered p id behind s run.1

  Delivered-source :
      (p : Priority) (id : String) (behind : List String) (s s1 s' : S)
      → at s1 ≡ at s
      → Delivered p id behind s1 s'
      → Delivered p id behind s s'
  Delivered-source p id behind s s1 s' e v = record {
    popped = v.popped;
    tracked = v.tracked;
    others_kept = λ k n m l. v.others_kept k n m l ∙ ap (λ f. f k) e;
  }

  hit-Delivers :
      (c : Ctx) (up : IsUp w r laws c) (p : Priority) (ps : List Priority) (s : S) (id : String)
      (behind : List String) (d : String) (t : Task)
      → at s (queue_key p) ≡ items (id ∷ behind)
      → at s (task id) ≡ text d
      → j.unmarshal d ≡ some t
      → Delivers (dequeue_from w r j c (p ∷ ps) s) p id behind t s
  hit-Delivers c up p ps s id behind d t m f g =
      rw
        (
          dequeue_from-hit c up p ps s id behind m,
          deliver_lem c up (queue_key p) id _ _ d t (popped_frame ∙ f) g,
        )
        (refl, delivery-Delivered c up p id behind s m)
    where
      popped_frame : at (r.lpop c (queue_key p) s).1 (task id) ≡ at s (task id)
      popped_frame =
          laws.lpop_frame c (queue_key p) s (task id)
            (λ e. ne_of_is_queue _ (task id) (queue_key-is_queue p) refl (sym e))

  -- The queue that `select` finds is the one that the loop delivers from.
  pub dequeue_from-select :
      (c : Ctx) (up : IsUp w r laws c) (ps : List Priority) (s : S) (p : Priority) (id : String)
      (behind : List String) (d : String) (t : Task)
      → HoldLists (at s) ps
      → select (at s) ps ≡ some (p, id, behind)
      → at s (task id) ≡ text d
      → j.unmarshal d ≡ some t
      → Delivers (dequeue_from w r j c ps s) p id behind t s
  unfolding select
  dequeue_from-select c up [] s p id behind d t h e f g = cc
  dequeue_from-select c up (q ∷ ps) s p id behind d t (([], m), h) e f g =
      let s1 = (r.lpop c (queue_key q) s).1 in
      let same : at s1 ≡ at s = skip-frame c up q s m in
      let ih =
        dequeue_from-select c up ps s1 p id behind d t
          (subst (λ held. HoldLists held ps) (sym same) h)
          (ap (λ held. select held ps) same ∙ select-skip (at s) q ps m ∙ e)
          (ap (λ held. held (task id)) same ∙ f) g in
      rw (dequeue_from-skip c up q ps s m) (ih.0, Delivered-source p id behind s s1 _ same ih.1)
  dequeue_from-select c up (q ∷ ps) s p id behind d t ((x ∷ xs, m), h) e f g =
      let (a, b, b') = select-hit (at s) q ps x xs p id behind m e in
      rw (← a, ← b, ← b') (hit-Delivers c up q ps s x xs d t m (ap (λ i. at s (task i)) b ∙ f) g)
