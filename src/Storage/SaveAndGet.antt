-- ===== src/Storage/SaveAndGet.antt =====
-- What is saved in the store of internal/storage/redis_store.go is what is read from it.
use spool.Prelude.{
  Option-cases, ◌≡◌, ◌≢◌, refl, String, false, some, inl, inr, arith, str_eq, ◌∙◌, sym, ap,
}
use spool.Env.{World}
use spool.Effect.{ok}
use spool.Task.{Task, State}
use spool.Redis.{Redis, Reply, value, absent, failed}
use spool.Redis.Keys.{Key, stored_task, state_index}
use spool.Redis.Laws.{Laws, IsUp, text}
use spool.Queue.RedisQueue.{Codec}
use spool.Storage.RedisStorage.{decode_reply, save_task, get_task, task_ttl}

abbrev state_of : Key → State
state_of (state_index state) = state
state_of _ = ""

module _ {w : World} {r : Redis w} (laws : Laws w r) (j : Codec) where
  open w use {S, Ctx}
  open laws use {at}

  -- A SaveTask that returns nil has a task with an id, and leaves its text under the id.
  save_task_lem :
      (ctx : Ctx) (t : Task) (d : String) (s : S)
      → j.marshal t ≡ some d
      → (save_task w r j ctx (some t) s).0 ≡ ok tt
      → (str_eq t.id "" ≡ false)
        × (at (save_task w r j ctx (some t) s).1 (stored_task t.id) ≡ text d)
  unfolding save_task
  save_task_lem ctx t d s m h =
      let ne : stored_task t.id ≢ state_index t.state = λ e. cc e in
      ground (
        arith,
        m,
        h,
        laws.set_ok ctx (stored_task t.id) d task_ttl s,
        laws.sadd_frame ctx (state_index t.state) t.id (r.set ctx (stored_task t.id) d task_ttl s).1
            (stored_task t.id) ne,
      )

  -- After a SaveTask that returns nil, GetTask returns the task, with the connection up and a codec
  -- that reads the text of the task back.
  pub get_task-save_task :
      (ctx : Ctx) (t : Task) (d : String) (s : S)
      → IsUp w r laws ctx
      → j.marshal t ≡ some d
      → j.unmarshal d ≡ some t
      → (save_task w r j ctx (some t) s).0 ≡ ok tt
      → (get_task w r j ctx t.id (save_task w r j ctx (some t) s).1).0 ≡ ok t
  unfolding get_task decode_reply
  get_task-save_task ctx t d s up m u h =
      let saved = save_task_lem ctx t d s m h in
      go saved.0 saved.1 (r.get ctx (stored_task t.id) (save_task w r j ctx (some t) s).1).0 refl
    where
      go :
          str_eq t.id "" ≡ false
          → at (save_task w r j ctx (some t) s).1 (stored_task t.id) ≡ text d
          → (reply : Reply)
          → (r.get ctx (stored_task t.id) (save_task w r j ctx (some t) s).1).0 ≡ reply
          → (get_task w r j ctx t.id (save_task w r j ctx (some t) s).1).0 ≡ ok t
      go named stands (value x) e =
          let same : text x ≡ text d = sym (laws.get_value ctx _ _ x e) ∙ stands in
          ground (arith, named, e, same, u)
      go named stands absent e = absurd (cc (laws.get_absent ctx _ _ e, stands))
      go named stands failed e = absurd (up.get_up _ _ (inr (d, stands)) e)

  -- Whatever SaveTask returns, the index of every state but the task's own is as it was: a task that
  -- is saved in a new state stays in the index of its old one.
  pub save_task-stale_index :
      (ctx : Ctx) (t : Task) (old : State) (s : S)
      → old ≢ t.state
      → at (save_task w r j ctx (some t) s).1 (state_index old) ≡ at s (state_index old)
  unfolding save_task
  save_task-stale_index ctx t old s other =
      let ne : state_index old ≢ state_index t.state = λ e. other (ap state_of e) in
      let ne' : state_index old ≢ stored_task t.id = λ e. cc e in
      elim (Option-cases (j.marshal t)) [
        | inl e ↦ ground (arith, e)
        | inr v ↦
            (let s1 = (r.set ctx (stored_task t.id) v.0 task_ttl s).1 in
              ground (
                arith,
                v.1,
                laws.set_frame ctx (stored_task t.id) v.0 task_ttl s (state_index old) ne',
                laws.sadd_frame ctx (state_index t.state) t.id s1 (state_index old) ne,
              ))
      ]
