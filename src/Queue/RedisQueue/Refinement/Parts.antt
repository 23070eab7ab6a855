-- ===== src/Queue/RedisQueue/Refinement/Parts.antt =====
-- What the keys of a server stand for, and how the parts of that follow from each other.
use mathlib.Core.List.{map-append}
use spool.Prelude.{
  ◌≡◌, ◌≢◌, refl, sym, ap, ◌∙◌, subst, String, none, some, List, [], ◌∷◌, ◌++◌, map, str_eq, eq_iff,
  arith, Bool-cases, inl, inr,
}
use spool.Task.{Task}
use spool.Redis.Keys.{Key, Level, queue, task, queue_key, level_of, queue_key-level_of}
use spool.Redis.Laws.{Entry, text, items, items_of, of_items}
use spool.Queue.RedisQueue.{Codec}
use spool.Queue.RedisQueue.Delivery.{select, HoldLists}
use spool.Queue.RedisQueue.Lines.{Lines, All, first, find, without}

abbrev pub ids : List Task → List String
ids = map (λ (t : Task). t.id)

pub of_items-append :
    (xs : List String) (x : String)
    → items (items_of (of_items xs) ++ (x ∷ [])) ≡ of_items (xs ++ (x ∷ []))
of_items-append [] x = refl
of_items-append (y ∷ ys) x = refl

pub ids-append : (ts : List Task) (t : Task) → ids (ts ++ (t ∷ [])) ≡ ids ts ++ (t.id ∷ [])
ids-append ts t = map-append (λ (t : Task). t.id) ts (t ∷ [])

pub All-append {ℓ} :
    {A : Type 0} (P : A → Type ℓ) (xs : List A) (y : A) → All P xs → P y → All P (xs ++ (y ∷ []))
All-append P [] y a p = (p, tt)
All-append P (x ∷ xs) y a p = (a.0, All-append P xs y a.1 p)

pub All-map {ℓ κ} :
    {A : Type 0} {P : A → Type ℓ} {Q : A → Type κ} (xs : List A)
    → ((x : A) → P x → Q x)
    → All P xs
    → All Q xs
All-map [] f a = tt
All-map (x ∷ xs) f a = (f x a.0, All-map xs f a.1)

pub All-both {ℓ κ} :
    {A : Type 0} (P : A → Type ℓ) (Q : A → Type κ) (xs : List A)
    → All P xs
    → All Q xs
    → All (λ x. P x × Q x) xs
All-both P Q [] a b = tt
All-both P Q (x ∷ xs) a b = ((a.0, b.0), All-both P Q xs a.1 b.1)

-- What `find` finds is there, and has the id.
pub find-All {ℓ} :
    (P : Task → Type ℓ) (id : String) (ts : List Task) (t : Task)
    → find id ts ≡ some t
    → All P ts
    → (t.id ≡ id) × P t
find-All P id [] t e a = absurd (cc e)
find-All P id (u ∷ ts) t e a = elim (Bool-cases (str_eq u.id id)) [
  | inl same ↦
      (let f : u ≡ t = ground (arith, e, same) in
        (ap (λ (x : Task). x.id) (sym f) ∙ (eq_iff u.id id).0 same, subst P f a.0))
  | inr other ↦ find-All P id ts t (ground (arith, e, other)) a.1
]

pub without-All {ℓ} :
    (P : Task → Type ℓ) (id : String) (ts : List Task) → All P ts → All P (without id ts)
without-All P id [] a = tt
without-All P id (u ∷ ts) a = elim (Bool-cases (str_eq u.id id)) [
  | inl same ↦ rw same (without-All P id ts a.1)
  | inr other ↦ rw other (a.0, without-All P id ts a.1)
]

-- Those that `without` keeps have other ids.
pub without-ne : (id : String) (ts : List Task) → All (λ t. t.id ≢ id) (without id ts)
without-ne id [] = tt
without-ne id (u ∷ ts) = elim (Bool-cases (str_eq u.id id)) [
  | inl same ↦ rw same (without-ne id ts)
  | inr other ↦ rw other (λ e. cc (other, (eq_iff u.id id).1 e), without-ne id ts)
]

-- The server has the JSON text of a task under its id.
abbrev pub Saved : Codec → (Key → Entry) → Task → Type 0
Saved j held t = (d : String) × (held (task t.id) ≡ text d) × (j.unmarshal d ≡ some t)

-- The keys of a server stand for lines of tasks: each list has the ids of its line, and each task
-- that waits or is taken has its text.
pub record Represents (j : Codec) (held : Key → Entry) (q : Lines) : Type 0 where
  pub listed : (l : Level) → held (queue l) ≡ of_items (ids (q.waiting l))
  pub saved : (l : Level) → All (Saved j held) (q.waiting l)
  pub taken_saved : All (Saved j held) q.taken

module _ (held : Key → Entry) (q : Level → List Task)
    (listed : (l : Level) → held (queue l) ≡ of_items (ids (q l))) where
  pub listed_key : (l : Level) → held (queue_key (level_of l)) ≡ of_items (ids (q l))
  listed_key l = ap held (queue_key-level_of l) ∙ listed l

  pub lists : (ls : List Level) → HoldLists held (map level_of ls)
  lists [] = tt
  lists (l ∷ ls) = ((ids (q l), listed_key l), lists ls)

  pub select-none : (ls : List Level) → first q ls ≡ none → select held (map level_of ls) ≡ none
  unfolding select
  select-none [] e = refl
  select-none (l ∷ ls) e = go (q l) refl (select-none ls)
    where
      go :
          (ts : List Task)
          → q l ≡ ts
          → (first q ls ≡ none → select held (map level_of ls) ≡ none)
          → select held (map level_of (l ∷ ls)) ≡ none
      go [] f later = ground (arith, listed_key l, f, e, later)
      go (t ∷ ts) f later = ground (arith, e, f)

  pub select-some :
      (ls : List Level) (l : Level) (t : Task) (behind : List Task)
      → first q ls ≡ some (l, t, behind)
      → (select held (map level_of ls) ≡ some (level_of l, t.id, ids behind)) × (q l ≡ t ∷ behind)
  unfolding select
  select-some [] l t behind e = absurd (cc e)
  select-some (k ∷ ls) l t behind e = go (q k) refl (select-some ls l t behind)
    where
      go :
          (ts : List Task)
          → q k ≡ ts
          → (first q ls ≡ some (l, t, behind)
              → (select held (map level_of ls) ≡ some (level_of l, t.id, ids behind))
                × (q l ≡ t ∷ behind))
          → (select held (map level_of (k ∷ ls)) ≡ some (level_of l, t.id, ids behind))
            × (q l ≡ t ∷ behind)
      go [] f later = (ground (arith, listed_key k, f, e, later), (later (ground (arith, e, f))).1)
      go (u ∷ us) f later =
          let a : (k ≡ l) × (u ≡ t) × (us ≡ behind) = ground (arith, e, f) in
          rw (← a.0, ← a.1, ← a.2) (ground (arith, listed_key k, f), f)
