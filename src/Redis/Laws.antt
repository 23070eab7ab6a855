-- ===== src/Redis/Laws.antt =====
-- What the documentation of Redis says of the commands, as hypotheses: the effect of a command that
-- succeeds on its key, and that no command touches another key, whether it succeeds or not. No key
-- expires while the laws are used: the time to live that Set takes has no effect here.
use spool.Prelude.{ℕ, ◌≡◌, ◌≢◌, ◌⊎◌, String, true, none, some, List, [], ◌∷◌, ◌++◌, ℤ, pos, length}
use spool.Env.{World}
use spool.Redis.{Redis, value, absent, failed}
use spool.Redis.Keys.{Key}

-- What the server holds under a key.
pub data Entry : Type 0 where
  missing : Entry
  text : String → Entry
  items : List String → Entry
  members : List String → Entry

abbrev pub items_of : Entry → List String
items_of missing = []
items_of (text d) = []
items_of (items xs) = xs
items_of (members xs) = []

-- An empty list is not kept.
abbrev pub of_items : List String → Entry
of_items [] = missing
of_items (x ∷ xs) = items (x ∷ xs)

-- The key holds a list, or nothing.
abbrev pub HoldsList : Entry → Type 0
HoldsList e = (xs : List String) × (e ≡ of_items xs)

-- The key holds a text, or nothing.
abbrev pub HoldsText : Entry → Type 0
HoldsText e = (e ≡ missing) ⊎ ((d : String) × (e ≡ text d))

module _ (w : World) (r : Redis w) where
  open w use {S, Ctx}

  pub record Laws : Type 0 where
    pub at : S → Key → Entry
    pub set_ok :
        (c : Ctx) (k : Key) (d : String) (ttl : ℤ) (s : S)
        → (r.set c k d ttl s).0 ≡ true
        → at (r.set c k d ttl s).1 k ≡ text d
    pub set_frame :
        (c : Ctx) (k : Key) (d : String) (ttl : ℤ) (s : S) (j : Key)
        → j ≢ k
        → at (r.set c k d ttl s).1 j ≡ at s j
    pub get_value :
        (c : Ctx) (k : Key) (s : S) (d : String) → (r.get c k s).0 ≡ value d → at s k ≡ text d
    pub get_absent : (c : Ctx) (k : Key) (s : S) → (r.get c k s).0 ≡ absent → at s k ≡ missing
    pub get_frame : (c : Ctx) (k : Key) (s : S) (j : Key) → at (r.get c k s).1 j ≡ at s j
    pub del_ok :
        (c : Ctx) (k : Key) (s : S) → (r.del c k s).0 ≡ true → at (r.del c k s).1 k ≡ missing
    pub del_frame : (c : Ctx) (k : Key) (s : S) (j : Key) → j ≢ k → at (r.del c k s).1 j ≡ at s j
    pub incr_frame : (c : Ctx) (k : Key) (s : S) (j : Key) → j ≢ k → at (r.incr c k s).1 j ≡ at s j
    pub rpush_ok :
        (c : Ctx) (k : Key) (x : String) (s : S)
        → (r.rpush c k x s).0 ≡ true
        → at (r.rpush c k x s).1 k ≡ items (items_of (at s k) ++ (x ∷ []))
    pub rpush_frame :
        (c : Ctx) (k : Key) (x : String) (s : S) (j : Key)
        → j ≢ k
        → at (r.rpush c k x s).1 j ≡ at s j
    pub lpush_ok :
        (c : Ctx) (k : Key) (x : String) (s : S)
        → (r.lpush c k x s).0 ≡ true
        → at (r.lpush c k x s).1 k ≡ items (x ∷ items_of (at s k))
    pub lpush_frame :
        (c : Ctx) (k : Key) (x : String) (s : S) (j : Key)
        → j ≢ k
        → at (r.lpush c k x s).1 j ≡ at s j
    pub lpop_value :
        (c : Ctx) (k : Key) (s : S) (x : String)
        → (r.lpop c k s).0 ≡ value x
        → (rest : List String) × (at s k ≡ items (x ∷ rest))
          × (at (r.lpop c k s).1 k ≡ of_items rest)
    pub lpop_absent :
        (c : Ctx) (k : Key) (s : S)
        → (r.lpop c k s).0 ≡ absent
        → (at s k ≡ missing) × (at (r.lpop c k s).1 k ≡ missing)
    pub lpop_frame : (c : Ctx) (k : Key) (s : S) (j : Key) → j ≢ k → at (r.lpop c k s).1 j ≡ at s j
    pub lindex_value :
        (c : Ctx) (k : Key) (s : S) (x : String)
        → (r.lindex c k (pos 0) s).0 ≡ value x
        → (rest : List String) × (at s k ≡ items (x ∷ rest))
    pub lindex_absent :
        (c : Ctx) (k : Key) (s : S) → (r.lindex c k (pos 0) s).0 ≡ absent → at s k ≡ missing
    pub lindex_frame :
        (c : Ctx) (k : Key) (i : ℤ) (s : S) (j : Key) → at (r.lindex c k i s).1 j ≡ at s j
    pub llen_some :
        (c : Ctx) (k : Key) (s : S) (n : ℕ)
        → (r.llen c k s).0 ≡ some n
        → n ≡ length (items_of (at s k))
    pub llen_frame : (c : Ctx) (k : Key) (s : S) (j : Key) → at (r.llen c k s).1 j ≡ at s j
    pub sadd_frame :
        (c : Ctx) (k : Key) (x : String) (s : S) (j : Key)
        → j ≢ k
        → at (r.sadd c k x s).1 j ≡ at s j
    pub srem_frame :
        (c : Ctx) (k : Key) (x : String) (s : S) (j : Key)
        → j ≢ k
        → at (r.srem c k x s).1 j ≡ at s j

  -- A connection that is up under a context: a command fails only where the key holds another type.
  pub record IsUp (laws : Laws) (c : Ctx) : Type 0 where
    pub set_up : (k : Key) (d : String) (ttl : ℤ) (s : S) → (r.set c k d ttl s).0 ≡ true
    pub del_up : (k : Key) (s : S) → (r.del c k s).0 ≡ true
    pub get_up : (k : Key) (s : S) → HoldsText (laws.at s k) → (r.get c k s).0 ≢ failed
    pub rpush_up :
        (k : Key) (x : String) (s : S) → HoldsList (laws.at s k) → (r.rpush c k x s).0 ≡ true
    pub lpop_up : (k : Key) (s : S) → HoldsList (laws.at s k) → (r.lpop c k s).0 ≢ failed
    pub lindex_up :
        (k : Key) (s : S) → HoldsList (laws.at s k) → (r.lindex c k (pos 0) s).0 ≢ failed
    pub llen_up : (k : Key) (s : S) → HoldsList (laws.at s k) → (r.llen c k s).0 ≢ none
