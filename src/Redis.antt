-- ===== src/Redis.antt =====
-- The Redis server as the program uses it: the keys that the program builds, and the commands, which
-- are code outside the repository and so a parameter.
pub mod Keys
pub mod Laws
pub mod KeyEquality
pub mod Pops
pub mod Memory
use spool.Prelude.{ℕ, String, Bool, Option, List, ℤ}
use spool.Env.{World}
use Keys.{Key, KeyKind}

-- `redis.Nil` is a reply of its own; any other error of a command is `failed`.
pub data Reply : Type 0 where
  value : String → Reply
  absent failed : Reply

module _ (w : World) where
  open w use {S, Ctx}

  -- The commands of `redis.Client`. A Bool is true if the error is nil, and none stands for an error.
  pub record Redis : Type 0 where
    -- the last number is the expiry in nanoseconds, 0 for none
    pub set : Ctx → Key → String → ℤ → S → Bool × S
    pub get : Ctx → Key → S → Reply × S
    pub del : Ctx → Key → S → Bool × S
    pub incr : Ctx → Key → S → Bool × S
    pub rpush : Ctx → Key → String → S → Bool × S
    pub lpush : Ctx → Key → String → S → Bool × S
    pub lpop : Ctx → Key → S → Reply × S
    pub lindex : Ctx → Key → ℤ → S → Reply × S
    pub llen : Ctx → Key → S → Option ℕ × S
    pub lrange : Ctx → Key → ℤ → ℤ → S → Option (List String) × S
    pub sadd : Ctx → Key → String → S → Bool × S
    pub srem : Ctx → Key → String → S → Bool × S
    pub smembers : Ctx → Key → S → Option (List String) × S
    pub srand_member_n : Ctx → Key → ℤ → S → Option (List String) × S
    -- the keys that an iterator over `Scan` gives, and whether its `Err` is nil
    pub scan : Ctx → KeyKind → S → (List Key × Bool) × S
    pub ping : Ctx → S → Bool × S
