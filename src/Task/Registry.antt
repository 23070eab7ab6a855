-- ===== src/Task/Registry.antt =====
-- internal/task/handler.go and result.go: the handlers by task type. A handler is code of the
-- application: from a context and a payload it does anything to the state of the world.
use spool.Prelude.{
  ℕ, String, Bool, true, false, Option, none, some, List, [], map, Map, lookup, insert, ℤ, pos,
}
use Prim.Native.String.{◌++◌}
use spool.Env.{World}
use spool.Task.{Task}

-- What a handler's call comes to: its output, as the JSON text that `json.Marshal` makes of it, or
-- the message with which that fails, or the handler's own error.
pub data Outcome : Type 0 where
  encoded not_encoded raised : String → Outcome

pub record Result : Type 0 where
  pub task_id : String
  pub success : Bool
  pub output : String
  pub error : String
  pub completed_at : ℕ
  pub duration : ℤ

-- What `Execute` returns as its error: that of Register or Get, or the message of the handler's or of
-- `json.Marshal`'s error.
pub data Error : Type 0 where
  already_registered no_handler : String → Error
  handler_error marshal_error : String → Error

pub data Fallible {ℓ} (A : Type ℓ) : Type ℓ where
  ok : A → Fallible A
  err : Error → Fallible A

module _ (w : World) where
  open w use {S, Ctx, now}

  abbrev pub Handler : Type 0
  Handler = Ctx → String → S → Outcome × S

  abbrev pub Registry : Type 0
  Registry = Map Handler

  pub new_registry : Registry
  new_registry = []

  unfoldable pub register : Registry → String → Handler → Fallible Registry
  register r task_type handler = elim (lookup task_type r) [
    | some _ ↦ err (already_registered task_type)
    | none ↦ ok (insert task_type handler r)
  ]

  unfoldable pub get : Registry → String → Fallible Handler
  get r task_type = elim (lookup task_type r) [
    | none ↦ err (no_handler task_type)
    | some handler ↦ ok handler
  ]

  pub types : Registry → List String
  types r = map (λ e. e.0) r

  -- The result of a call, once the handler has returned in the state s.
  unfoldable pub conclude : Task → Outcome → S → Option Result × Option Error
  conclude t (encoded output) s = (
    some (record {
      task_id = t.id;
      success = true;
      output = output;
      error = "";
      completed_at = now s;
      duration = pos 0;
    }),
    none,
  )
  conclude t (not_encoded message) s = (
    some (record {
      task_id = t.id;
      success = false;
      output = "";
      error = "failed to marshal output: " ++ message;
      completed_at = now s;
      duration = pos 0;
    }),
    some (marshal_error message),
  )
  conclude t (raised message) s = (
    some (record {
      task_id = t.id;
      success = false;
      output = "";
      error = message;
      completed_at = now s;
      duration = pos 0;
    }),
    some (handler_error message),
  )

  -- `(*Result, error)` and the state after the handler; no handler is called if none is registered.
  unfoldable pub execute : Registry → Ctx → Task → S → Option Result × Option Error × S
  unfolding conclude
  execute r ctx t s = elim (get r t.kind) [
    | err e ↦ (none, some e, s)
    | ok handler ↦
        let (outcome, s') = handler ctx t.payload s in
        let (result, e) = conclude t outcome s' in (result, e, s')
  ]
