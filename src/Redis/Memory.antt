-- ===== src/Redis/Memory.antt =====
-- A server in memory that meets the laws: the commands on a function from keys to entries. A context
-- is a Bool, true if it is done, and a command under such a context fails.
use spool.Prelude.{
  ℕ, ◌+◌, ◌≡◌, ◌≢◌, refl, String, Bool, true, false, Option, none, some, List, [], ◌∷◌, ◌++◌, pos,
  arith, if◌then◌else◌, str_eq, length, pos_part,
}
use spool.Env.{World, canceled}
use spool.Redis.{Redis, Reply, value, absent, failed}
use spool.Redis.Keys.{Key}
use spool.Redis.KeyEquality.{key_eq, key_eq_refl, key_ne}
use spool.Redis.Laws.{
  Laws, IsUp, HoldsList, HoldsText, Entry, missing, text, items, members, items_of, of_items,
}

pub record Memory : Type 0 where
  pub time : ℕ
  pub held : Key → Entry

abbrev pub memory_world : World
memory_world = record {
  S = Memory;
  Ctx = Bool;
  now = λ s. s.time;
  sleep = λ d s. record s { time = s.time + pos_part d };
  background = false;
  with_timeout = λ c d s. false;
  ctx_err = λ c s. if c then some canceled else none;
}

abbrev put : Key → Entry → Memory → Memory
put k e s = record s { held = λ j. if key_eq k j then e else s.held j }

-- A write that fails under a context that is done.
abbrev write : Bool → Key → Entry → Memory → Bool × Memory
write c k e s = if c then (false, s) else (true, put k e s)

abbrev read : Entry → Reply
read missing = absent
read (text d) = value d
read (items xs) = failed
read (members xs) = failed

abbrev push : (List String → List String) → Bool → Key → Memory → Bool × Memory
push f c k s = elim (s.held k) [
  | missing ↦ write c k (items (f [])) s
  | text d ↦ (false, s)
  | items xs ↦ write c k (items (f xs)) s
  | members xs ↦ (false, s)
]

abbrev pop : Entry → Key → Memory → Reply × Memory
pop missing k s = (absent, put k missing s)
pop (items (x ∷ rest)) k s = (value x, put k (of_items rest) s)
pop _ k s = (failed, s)

abbrev head : Entry → Reply
head missing = absent
head (items (x ∷ rest)) = value x
head _ = failed

abbrev size_of : Entry → Option ℕ
size_of missing = some 0
size_of (items xs) = some (length xs)
size_of _ = none

abbrev elements : Entry → List String
elements (members xs) = xs
elements _ = []

abbrev has : String → List String → Bool
has x [] = false
has x (y ∷ ys) = if str_eq x y then true else has x ys

abbrev without : String → List String → List String
without x [] = []
without x (y ∷ ys) = let rest = without x ys in if str_eq x y then rest else y ∷ rest

-- Counters, scans and ranges play no part in the laws.
abbrev pub memory_redis : Redis memory_world
memory_redis = record {
  set = λ c k d ttl. write c k (text d);
  get = λ c k s. (if c then failed else read (s.held k), s);
  del = λ c k. write c k missing;
  incr = λ c k. write c k (text "1");
  rpush = λ c k x. push (λ xs. xs ++ (x ∷ [])) c k;
  lpush = λ c k x. push (λ xs. x ∷ xs) c k;
  lpop = λ c k s. if c then (failed, s) else pop (s.held k) k s;
  lindex = λ c k i s. (if c then failed else head (s.held k), s);
  llen = λ c k s. (if c then none else size_of (s.held k), s);
  lrange = λ c k a b s. (if c then none else some (items_of (s.held k)), s);
  sadd = λ c k x s.
      let xs = elements (s.held k) in write c k (members (if has x xs then xs else x ∷ xs)) s;
  srem = λ c k x s. write c k (members (without x (elements (s.held k)))) s;
  smembers = λ c k s. (if c then none else some (elements (s.held k)), s);
  srand_member_n = λ c k n s. (if c then none else some (elements (s.held k)), s);
  scan = λ c kind s. (([], true), s);
  ping = λ c s. (if c then false else true, s);
}

pub write_self :
    (c : Bool) (k : Key) (e : Entry) (s : Memory)
    → (write c k e s).0 ≡ true
    → (write c k e s).1.held k ≡ e
write_self c k e s h = ground (arith, key_eq_refl k)

pub write-frame :
    (c : Bool) (k : Key) (e : Entry) (s : Memory) (j : Key)
    → j ≢ k
    → (write c k e s).1.held j ≡ s.held j
write-frame c k e s j n = ground (arith, key_ne k j n)

pub push_self :
    (f : List String → List String) (c : Bool) (k : Key) (s : Memory)
    → (push f c k s).0 ≡ true
    → (push f c k s).1.held k ≡ items (f (items_of (s.held k)))
push_self f c k s h = ground (arith, key_eq_refl k)

pub push-frame :
    (f : List String → List String) (c : Bool) (k : Key) (s : Memory) (j : Key)
    → j ≢ k
    → (push f c k s).1.held j ≡ s.held j
push-frame f c k s j n = ground (arith, key_ne k j n)

abbrev pub lpop : Bool → Key → Memory → Reply × Memory
lpop = memory_redis.lpop

pub lpop-value :
    (c : Bool) (k : Key) (s : Memory) (x : String)
    → (lpop c k s).0 ≡ value x
    → (rest : List String) × (s.held k ≡ items (x ∷ rest)) × ((lpop c k s).1.held k ≡ of_items rest)
lpop-value c k s x h = ground (arith, key_eq_refl k)

pub lpop-absent :
    (c : Bool) (k : Key) (s : Memory)
    → (lpop c k s).0 ≡ absent
    → (s.held k ≡ missing) × ((lpop c k s).1.held k ≡ missing)
lpop-absent c k s h = ground (arith, key_eq_refl k)

pub lpop-frame :
    (c : Bool) (k : Key) (s : Memory) (j : Key) → j ≢ k → (lpop c k s).1.held j ≡ s.held j
lpop-frame c k s j n = ground (arith, key_ne k j n)

pub get-value :
    (c : Bool) (k : Key) (s : Memory) (d : String)
    → (memory_redis.get c k s).0 ≡ value d
    → s.held k ≡ text d
get-value c k s d h = ground arith

pub get-absent :
    (c : Bool) (k : Key) (s : Memory) → (memory_redis.get c k s).0 ≡ absent → s.held k ≡ missing
get-absent c k s h = ground arith

pub lindex-value :
    (c : Bool) (k : Key) (s : Memory) (x : String)
    → (memory_redis.lindex c k (pos 0) s).0 ≡ value x
    → (rest : List String) × (s.held k ≡ items (x ∷ rest))
lindex-value c k s x h = ground arith

pub lindex-absent :
    (c : Bool) (k : Key) (s : Memory)
    → (memory_redis.lindex c k (pos 0) s).0 ≡ absent
    → s.held k ≡ missing
lindex-absent c k s h = ground arith

pub llen-some :
    (c : Bool) (k : Key) (s : Memory) (n : ℕ)
    → (memory_redis.llen c k s).0 ≡ some n
    → n ≡ length (items_of (s.held k))
llen-some c k s n h = ground arith

abbrev pub memory_laws : Laws memory_world memory_redis
memory_laws = record {
  at = λ s. s.held;
  set_ok = λ c k d ttl s h. write_self c k (text d) s h;
  set_frame = λ c k d ttl s j n. write-frame c k (text d) s j n;
  get_value = get-value;
  get_absent = get-absent;
  get_frame = λ c k s j. refl;
  del_ok = λ c k s h. write_self c k missing s h;
  del_frame = λ c k s j n. write-frame c k missing s j n;
  incr_frame = λ c k s j n. write-frame c k (text "1") s j n;
  rpush_ok = λ c k x s h. push_self (λ xs. xs ++ (x ∷ [])) c k s h;
  rpush_frame = λ c k x s j n. push-frame (λ xs. xs ++ (x ∷ [])) c k s j n;
  lpush_ok = λ c k x s h. push_self (λ xs. x ∷ xs) c k s h;
  lpush_frame = λ c k x s j n. push-frame (λ xs. x ∷ xs) c k s j n;
  lpop_value = lpop-value;
  lpop_absent = lpop-absent;
  lpop_frame = lpop-frame;
  lindex_value = lindex-value;
  lindex_absent = lindex-absent;
  lindex_frame = λ c k i s j. refl;
  llen_some = llen-some;
  llen_frame = λ c k s j. refl;
  sadd_frame = λ c k x s j n. write-frame c k _ s j n;
  srem_frame = λ c k x s j n. write-frame c k _ s j n;
}

pub push-up :
    (f : List String → List String) (k : Key) (s : Memory)
    → HoldsList (s.held k)
    → (push f false k s).0 ≡ true
push-up f k s ([], e) = ground arith
push-up f k s (x ∷ xs, e) = ground arith

pub lpop-up : (k : Key) (s : Memory) → HoldsList (s.held k) → (lpop false k s).0 ≢ failed
lpop-up k s ([], e) = λ h. ground arith
lpop-up k s (x ∷ xs, e) = λ h. ground arith

pub llen-up : (k : Key) (s : Memory) → HoldsList (s.held k) → size_of (s.held k) ≢ none
llen-up k s ([], e) = λ h. ground arith
llen-up k s (x ∷ xs, e) = λ h. ground arith

pub get-up : (k : Key) (s : Memory) → HoldsText (s.held k) → read (s.held k) ≢ failed
get-up k s t = λ h. ground arith

pub lindex-up : (k : Key) (s : Memory) → HoldsList (s.held k) → head (s.held k) ≢ failed
lindex-up k s ([], e) = λ h. ground arith
lindex-up k s (x ∷ xs, e) = λ h. ground arith

abbrev pub memory_up : IsUp memory_world memory_redis memory_laws false
memory_up = record {
  set_up = λ k d ttl s. refl;
  del_up = λ k s. refl;
  get_up = get-up;
  rpush_up = λ k x s h. push-up (λ xs. xs ++ (x ∷ [])) k s h;
  lpop_up = lpop-up;
  lindex_up = lindex-up;
  llen_up = llen-up;
}
