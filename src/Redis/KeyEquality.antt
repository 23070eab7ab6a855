-- ===== src/Redis/KeyEquality.antt =====
-- Equality of the program's Redis keys, decided.
use spool.Prelude.{
  ℕ, ◌≡◌, ◌≢◌, refl, sym, ap, ◌∙◌, Bool, true, false, arith, str_eq, eq_iff, eq_refl, Bool-cases,
  inl, inr, ◌==◌,
}
use spool.Redis.Keys.{
  Key, Level, Stat, unnamed, queue, processing, task, dlq_meta, stats, dlq_tasks, stored_task,
  stored_result, state_index, critical, high, normal, low, total, completed, dlq, last_enqueue,
  last_dequeue,
}

level_code : Level → ℕ
level_code critical = 0
level_code high = 1
level_code normal = 2
level_code low = 3

stat_code : Stat → ℕ
stat_code total = 0
stat_code completed = 1
stat_code Stat.failed = 2
stat_code dlq = 3
stat_code last_enqueue = 4
stat_code last_dequeue = 5

unfoldable pub key_eq : Key → Key → Bool
unfolding level_code stat_code
key_eq unnamed unnamed = true
key_eq (queue a) (queue b) = level_code a == level_code b
key_eq (processing a) (processing b) = str_eq a b
key_eq (task a) (task b) = str_eq a b
key_eq (dlq_meta a) (dlq_meta b) = str_eq a b
key_eq (stats a) (stats b) = stat_code a == stat_code b
key_eq dlq_tasks dlq_tasks = true
key_eq (stored_task a) (stored_task b) = str_eq a b
key_eq (stored_result a) (stored_result b) = str_eq a b
key_eq (state_index a) (state_index b) = str_eq a b
key_eq _ _ = false

pub key_eq_refl : (k : Key) → key_eq k k ≡ true
unfolding key_eq
key_eq_refl unnamed = refl
key_eq_refl (queue a) = ground arith
key_eq_refl (processing a) = eq_refl a
key_eq_refl (task a) = eq_refl a
key_eq_refl (dlq_meta a) = eq_refl a
key_eq_refl (stats a) = ground arith
key_eq_refl dlq_tasks = refl
key_eq_refl (stored_task a) = eq_refl a
key_eq_refl (stored_result a) = eq_refl a
key_eq_refl (state_index a) = eq_refl a

level_code-injective : (a b : Level) → (level_code a == level_code b) ≡ true → a ≡ b
unfolding level_code
level_code-injective a b h = ground arith

stat_code-injective : (a b : Stat) → (stat_code a == stat_code b) ≡ true → a ≡ b
unfolding stat_code
stat_code-injective a b h = ground arith

eq_of_key_eq : (k j : Key) → key_eq k j ≡ true → k ≡ j
unfolding key_eq
eq_of_key_eq unnamed unnamed h = refl
eq_of_key_eq (queue a) (queue b) h = ap queue (level_code-injective a b h)
eq_of_key_eq (processing a) (processing b) h = ap processing ((eq_iff a b).0 h)
eq_of_key_eq (task a) (task b) h = ap task ((eq_iff a b).0 h)
eq_of_key_eq (dlq_meta a) (dlq_meta b) h = ap dlq_meta ((eq_iff a b).0 h)
eq_of_key_eq (stats a) (stats b) h = ap stats (stat_code-injective a b h)
eq_of_key_eq dlq_tasks dlq_tasks h = refl
eq_of_key_eq (stored_task a) (stored_task b) h = ap stored_task ((eq_iff a b).0 h)
eq_of_key_eq (stored_result a) (stored_result b) h = ap stored_result ((eq_iff a b).0 h)
eq_of_key_eq (state_index a) (state_index b) h = ap state_index ((eq_iff a b).0 h)
eq_of_key_eq _ _ h = cc

pub key_ne : (k j : Key) → j ≢ k → key_eq k j ≡ false
key_ne k j n = elim (Bool-cases (key_eq k j)) [
  | inl e ↦ absurd (n (sym (eq_of_key_eq k j e)))
  | inr e ↦ e
]

pub Key-discrete : Discrete Key
Key-discrete k j = elim (Bool-cases (key_eq k j)) [
  | inl e ↦ yes (eq_of_key_eq k j e)
  | inr e ↦ no (λ p. cc (e, sym (key_eq_refl k) ∙ ap (key_eq k) p))
]

unfoldable pub Level-discrete : Discrete Level
Level-discrete = hlevel
