-- ===== src/Storage/Deleting.antt =====
-- DeleteTask of internal/storage/redis_store.go, and what GetTask returns after it.
use spool.Prelude.{
  Bool-cases, Option-cases, ◌≡◌, ◌≢◌, refl, String, false, none, some, inl, inr, arith, str_eq, ◌∙◌,
  sym, ap,
}
use spool.Env.{World}
use spool.Effect.{Result, ok, err}
use spool.Task.{Task}
use spool.Redis.{Redis, Reply, value, absent, failed}
use spool.Redis.Keys.{Key, stored_task, stored_result, state_index}
use spool.Redis.Laws.{Laws, IsUp, HoldsText, text, missing}
use spool.Queue.RedisQueue.{Codec}
use spool.Storage.{Error, not_found, unmarshal_failed}
use spool.Storage.RedisStorage.{decode_reply, get_task, delete_task}

abbrev id_of : Key → String
id_of (stored_task id) = id
id_of _ = ""

-- The task that a text stands for.
abbrev decoded : Codec → String → Result Error Task
decoded j d = elim (j.unmarshal d) [ some t ↦ ok t | none ↦ err unmarshal_failed ]

module _ {w : World} {r : Redis w} (laws : Laws w r) (j : Codec) where
  open w use {S, Ctx}
  open laws use {at}

  -- What GetTask returns is told by what the server holds under the task's key.
  get_task-text :
      (ctx : Ctx) (id d : String) (s : S)
      → IsUp w r laws ctx
      → str_eq id "" ≡ false
      → at s (stored_task id) ≡ text d
      → (get_task w r j ctx id s).0 ≡ decoded j d
  unfolding get_task decode_reply
  get_task-text ctx id d s up named stands = go (r.get ctx (stored_task id) s).0 refl
    where
      go :
          (reply : Reply)
          → (r.get ctx (stored_task id) s).0 ≡ reply
          → (get_task w r j ctx id s).0 ≡ decoded j d
      go (value x) e =
          let same : text x ≡ text d = sym (laws.get_value ctx _ _ x e) ∙ stands in
          let told : x ≡ d = cc same in
          elim (Option-cases (j.unmarshal d)) [
            | inl n ↦ ground (arith, named, e, told, n)
            | inr v ↦ ground (arith, named, e, told, v.1)
          ]
      go absent e = absurd (cc (laws.get_absent ctx _ _ e, stands))
      go failed e = absurd (up.get_up _ _ (inr (d, stands)) e)

  get_task-missing :
      (ctx : Ctx) (id : String) (s : S)
      → IsUp w r laws ctx
      → str_eq id "" ≡ false
      → at s (stored_task id) ≡ missing
      → (get_task w r j ctx id s).0 ≡ err not_found
  unfolding get_task decode_reply
  get_task-missing ctx id s up named stands = go (r.get ctx (stored_task id) s).0 refl
    where
      go :
          (reply : Reply)
          → (r.get ctx (stored_task id) s).0 ≡ reply
          → (get_task w r j ctx id s).0 ≡ err not_found
      go (value x) e = absurd (cc (laws.get_value ctx _ _ x e, stands))
      go absent e = ground (arith, named, e)
      go failed e = absurd (up.get_up _ _ (inl stands) e)

  get_task-frame :
      (ctx : Ctx) (id : String) (s : S) (k : Key) → at (get_task w r j ctx id s).1 k ≡ at s k
  unfolding get_task decode_reply
  get_task-frame ctx id s k = elim (Bool-cases (str_eq id "")) [
    | inl e ↦ rw e refl
    | inr e ↦ rw e (go (r.get ctx (stored_task id) s).0 refl)
  ]
    where
      go :
          (reply : Reply)
          → (r.get ctx (stored_task id) s).0 ≡ reply
          → at
              (decode_reply w r j
                (r.get ctx (stored_task id) s).0
                (r.get ctx (stored_task id) s).1).1
              k
            ≡ at s k
      go (value x) e = elim (Option-cases (j.unmarshal x)) [
        | inl n ↦ ground (arith, e, n, laws.get_frame ctx (stored_task id) s k)
        | inr v ↦ ground (arith, e, v.1, laws.get_frame ctx (stored_task id) s k)
      ]
      go absent e = rw e (laws.get_frame ctx _ s k)
      go failed e = rw e (laws.get_frame ctx _ s k)

  -- The state after the commands of DeleteTask.
  abbrev deleted : Ctx → String → Task → S → S
  deleted ctx id t s =
      let found = (get_task w r j ctx id s).1 in
      let unindexed = (r.srem ctx (state_index t.state) id found).1 in
      (r.del ctx (stored_result id) (r.del ctx (stored_task id) unindexed).1).1

  delete_task-deleted :
      (ctx : Ctx) (id : String) (t : Task) (s : S)
      → IsUp w r laws ctx
      → str_eq id "" ≡ false
      → (get_task w r j ctx id s).0 ≡ ok t
      → delete_task w r j ctx id s ≡ (ok tt, deleted ctx id t s)
  unfolding delete_task
  delete_task-deleted ctx id t s up named found =
      let unindexed = (r.srem ctx (state_index t.state) id (get_task w r j ctx id s).1).1 in
      ground (arith, named, found, up.del_up (stored_task id) unindexed)

  -- What DeleteTask leaves under the keys of tasks.
  deleted-missing :
      (ctx : Ctx) (id : String) (t : Task) (s : S)
      → IsUp w r laws ctx
      → at (deleted ctx id t s) (stored_task id) ≡ missing
  deleted-missing ctx id t s up =
      let unindexed = (r.srem ctx (state_index t.state) id (get_task w r j ctx id s).1).1 in
      laws.del_frame ctx (stored_result id) _ (stored_task id) (λ e. cc e)
      ∙ laws.del_ok ctx (stored_task id) unindexed (up.del_up (stored_task id) unindexed)

  deleted-others :
      (ctx : Ctx) (id other : String) (t : Task) (s : S)
      → other ≢ id
      → at (deleted ctx id t s) (stored_task other) ≡ at s (stored_task other)
  deleted-others ctx id other t s differ =
      laws.del_frame ctx (stored_result id) _ (stored_task other) (λ e. cc e)
      ∙ laws.del_frame ctx (stored_task id) _ (stored_task other) (λ e. differ (ap id_of e))
      ∙ laws.srem_frame ctx (state_index t.state) id _ (stored_task other) (λ e. cc e)
      ∙ get_task-frame ctx id s (stored_task other)

  -- Two states that hold the same text, or nothing, under a task's key give the same task.
  get_task-same :
      (ctx : Ctx) (id : String) (s s' : S)
      → IsUp w r laws ctx
      → HoldsText (at s (stored_task id))
      → at s' (stored_task id) ≡ at s (stored_task id)
      → (get_task w r j ctx id s').0 ≡ (get_task w r j ctx id s).0
  unfolding get_task
  get_task-same ctx id s s' up holds same = elim (Bool-cases (str_eq id "")) [
    | inl e ↦ rw e refl
    | inr named ↦ (elim holds [
      | inl e ↦
          get_task-missing ctx id s' up named (same ∙ e)
          ∙ sym (get_task-missing ctx id s up named e)
      | inr d ↦
          get_task-text ctx id d.0 s' up named (same ∙ d.1)
          ∙ sym (get_task-text ctx id d.0 s up named d.1)
    ])
  ]

  -- A task that is found has an id.
  get_task-named :
      (ctx : Ctx) (id : String) (t : Task) (s : S)
      → (get_task w r j ctx id s).0 ≡ ok t
      → str_eq id "" ≡ false
  unfolding get_task
  get_task-named ctx id t s found = elim (Bool-cases (str_eq id "")) [
    | inl e ↦ absurd (ground (arith, e, found))
    | inr e ↦ e
  ]

  -- DeleteTask of a task that GetTask finds returns nil, with the connection up. Afterwards GetTask
  -- finds no task under its id, and answers as before under every other id, if a text or nothing is
  -- stored there.
  pub delete_task-get_task :
      (ctx : Ctx) (id other : String) (t : Task) (s : S)
      → IsUp w r laws ctx
      → (get_task w r j ctx id s).0 ≡ ok t
      → other ≢ id
      → HoldsText (at s (stored_task other))
      → let (result, s') = delete_task w r j ctx id s in
        (result ≡ ok tt)
        × ((get_task w r j ctx id s').0 ≡ err not_found)
        × ((get_task w r j ctx other s').0 ≡ (get_task w r j ctx other s).0)
  delete_task-get_task ctx id other t s up found differ holds =
      let named = get_task-named ctx id t s found in
      let gone = get_task-missing ctx id _ up named (deleted-missing ctx id t s up) in
      let kept = get_task-same ctx other s _ up holds (deleted-others ctx id other t s differ) in
      rw (delete_task-deleted ctx id t s up named found) (refl, gone, kept)
