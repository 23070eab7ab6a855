-- ===== src/Examples/Codecs/Tasks.antt =====
-- A text for every task, in place of JSON, that decodes to the task.
use spool.Prelude.{
  ℕ, zero, suc, ◌≡◌, refl, ap, String, Option, none, some, List, [], ◌∷◌, ℤ, Map, length,
}
use spool.Task.{Task}
use spool.Queue.RedisQueue.{Codec}
use spool.Queue.RedisQueue.Refinement.Steps.{Encodable}
use spool.Examples.Codecs.Values.{
  Code, put_nat, get_nat, get_nat-put_nat, nat_code, text_code, pair_code, via, int_code, time_code,
}

-- The length of a list and then its elements.
put_all : {A : Type 0} → Code A → List A → String → String
put_all a [] rest = rest
put_all a (x ∷ xs) rest = a.put x (put_all a xs rest)

get_all : {A : Type 0} → Code A → ℕ → String → Option (List A × String)
get_all a zero s = some ([], s)
get_all a (suc n) s = elim (a.get s) [
  | none ↦ none
  | some (x, s') ↦ elim (get_all a n s') [ none ↦ none | some (xs, rest) ↦ some (x ∷ xs, rest) ]
]

get_all-put_all :
    {A : Type 0} (a : Code A) (xs : List A) (rest : String)
    → get_all a (length xs) (put_all a xs rest) ≡ some (xs, rest)
unfolding get_all put_all
get_all-put_all a [] rest = refl
get_all-put_all a (x ∷ xs) rest =
    rw (a.get-put x (put_all a xs rest), get_all-put_all a xs rest) refl

list_code : {A : Type 0} → Code A → Code (List A)
list_code a = record {
  put = λ xs rest. put_nat (length xs) (put_all a xs rest);
  get = λ s. elim (get_nat s) [ none ↦ none | some (n, s') ↦ get_all a n s' ];
  get-put =
      λ xs rest. rw (get_nat-put_nat (length xs) (put_all a xs rest)) (get_all-put_all a xs rest);
}

abbrev Texts : Type 0
Texts = String × (String × (String × (String × String)))

abbrev Numbers : Type 0
Numbers = ℤ × (ℤ × (ℤ × ℤ))

abbrev Times : Type 0
Times = (ℕ × ℕ) × (Option ℕ × Option ℕ)

abbrev Fields : Type 0
Fields = (Texts × Numbers) × (Times × Map String)

to_fields : Task → Fields
to_fields t = (
  (
    (t.id, (t.kind, (t.payload, (t.state, t.error)))),
    (t.priority, (t.max_retries, (t.retry_count, t.timeout))),
  ),
  (((t.created_at, t.scheduled_at), (t.started_at, t.completed_at)), t.metadata),
)

of_fields : Fields → Task
of_fields f = record {
  id = f.0.0.0;
  kind = f.0.0.1.0;
  payload = f.0.0.1.1.0;
  state = f.0.0.1.1.1.0;
  error = f.0.0.1.1.1.1;
  priority = f.0.1.0;
  max_retries = f.0.1.1.0;
  retry_count = f.0.1.1.1.0;
  timeout = f.0.1.1.1.1;
  created_at = f.1.0.0.0;
  scheduled_at = f.1.0.0.1;
  started_at = f.1.0.1.0;
  completed_at = f.1.0.1.1;
  metadata = f.1.1;
}

of_fields-to_fields : (t : Task) → of_fields (to_fields t) ≡ t
unfolding of_fields to_fields
of_fields-to_fields t = refl

task_code : Code Task
task_code = via to_fields of_fields of_fields-to_fields (
    pair_code
      (pair_code
        (pair_code text_code
          (pair_code text_code (pair_code text_code (pair_code text_code text_code))))
        (pair_code int_code (pair_code int_code (pair_code int_code int_code))))
      (pair_code (pair_code (pair_code nat_code nat_code) (pair_code time_code time_code))
        (list_code (pair_code text_code text_code))))

pub task_text : Task → String
task_text t = task_code.put t ""

abbrev value_of : Option (Task × String) → Option Task
value_of none = none
value_of (some (t, rest)) = some t

pub text_task : String → Option Task
text_task s = value_of (task_code.get s)

abbrev pub full_codec : Codec
full_codec = record {
  marshal = λ t. some (task_text t);
  unmarshal = text_task;
  dead_letter_text = λ id reason now count. "meta";
  int_text = λ n. "1";
}

pub full_codec-Encodable : (t : Task) → Encodable full_codec t
unfolding task_text text_task
full_codec-Encodable t = (task_text t, refl, ap value_of (task_code.get-put t ""))
