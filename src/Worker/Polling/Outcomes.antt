-- ===== src/Worker/Polling/Outcomes.antt =====
-- What executeTask of internal/worker/worker.go makes of the outcome of the handler.
use spool.Prelude.{
  Option-cases, ◌≡◌, ◌⊎◌, refl, inl, inr, String, Bool, true, false, Option, none, some, lookup,
  pos, arith,
}
use spool.Env.{World}
use spool.Task.{Task}
use spool.Task.Registry.{
  Registry, Handler, Outcome, encoded, not_encoded, raised, execute, get, conclude, marshal_error,
  handler_error, no_handler,
}
use spool.Task.Registry
use spool.Queue.{Queue}
use spool.Storage.{Storage}
use spool.Worker.Polling.{Format, execute_task, conclude_result, default_timeout}

abbrev is_encoded : Outcome → Bool
is_encoded (encoded _) = true
is_encoded (not_encoded _) = false
is_encoded (raised _) = false

module _ (w : World) (registry : Registry w) where
  open w use {S, Ctx, now}

  -- A handler is registered for the task's type, and returns an output that has a JSON text.
  abbrev pub succeeds : Ctx → Task → S → Bool
  succeeds ctx t s = elim (lookup t.kind registry) [
    | none ↦ false
    | some handler ↦ is_encoded (handler ctx t.payload s).0
  ]

  -- Execute returns a successful result and no error, or an error.
  Ends : Ctx → Task → S → Type 0
  Ends ctx t s =
      (succeeds ctx t s ≡ true)
        × ((result : Registry.Result) × ((execute w registry ctx t s).0 ≡ some result)
            × (result.success ≡ true))
        × ((execute w registry ctx t s).1 ≡ none)
      ⊎ (succeeds ctx t s ≡ false)
        × ((e : Registry.Error) × ((execute w registry ctx t s).1 ≡ some e))

  execute-Ends : (ctx : Ctx) (t : Task) (s : S) → Ends ctx t s
  unfolding execute get conclude Ends
  execute-Ends ctx t s = go (lookup t.kind registry) refl
    where
      made : String → S → Registry.Result
      made output s' = record {
        task_id = t.id;
        success = true;
        output = output;
        error = "";
        completed_at = now s';
        duration = pos 0;
      }

      called :
          (handler : Handler w)
          → lookup t.kind registry ≡ some handler
          → (outcome : Outcome) → (handler ctx t.payload s).0 ≡ outcome
          → Ends ctx t s
      called handler e (encoded x) o = inl (
        ground (arith, e, o),
        (made x (handler ctx t.payload s).1, ground (arith, e, o), refl),
        ground (arith, e, o),
      )
      called handler e (not_encoded x) o =
          inr (ground (arith, e, o), (marshal_error x, ground (arith, e, o)))
      called handler e (raised x) o =
          inr (ground (arith, e, o), (handler_error x, ground (arith, e, o)))

      go : (found : Option (Handler w)) → lookup t.kind registry ≡ found → Ends ctx t s
      go none e = inr (ground (arith, e), (no_handler t.kind, ground (arith, e)))
      go (some handler) e = called handler e (handler ctx t.payload s).0 refl

module _ (w : World) (f : Format) (registry : Registry w) (q : Queue w)
    (storage : Option (Storage w)) where
  open w use {S, Ctx, with_timeout}

  -- The context that executeTask gives to the handler.
  abbrev pub limited : Ctx → Task → S → Ctx
  limited parent t s = with_timeout parent (default_timeout w f registry q storage t.timeout) s

  -- An execution has no failure to tell if the handler succeeds; otherwise it has one, and leaves the
  -- task as it was.
  pub execute_task-succeeds :
      (parent : Ctx) (t : Task) (s : S)
      → (succeeds w registry (limited parent t s) t s ≡ true)
          × ((execute_task w f registry q storage parent t s).0 ≡ none)
        ⊎ (succeeds w registry (limited parent t s) t s ≡ false)
          × ((text : String) × ((execute_task w f registry q storage parent t s).0 ≡ some text)
              × ((execute_task w f registry q storage parent t s).1 ≡ t))
  unfolding execute_task conclude_result Ends
  execute_task-succeeds parent t s = elim (execute-Ends w registry (limited parent t s) t s) [
    | inl (good, (result, e, success), quiet) ↦
        inl (good, rw (quiet, execute_task, e, conclude_result, success) refl)
    | inr (bad, (x, e)) ↦ inr (
      bad,
      elim (Option-cases (execute_task w f registry q storage parent t s).0) [
        | inl n ↦ absurd (ground (arith, e, n))
        | inr v ↦ (v.0, v.1, rw (e, execute_task) refl)
      ],
    )
  ]
