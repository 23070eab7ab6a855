-- ===== src/Redis/Pops.antt =====
-- Popping from a list on a server that is up: what the laws of `LPop` come to.
use spool.Prelude.{◌≡◌, refl, sym, ◌∙◌, String, List, [], ◌∷◌, arith, subst}
use spool.Env.{World}
use spool.Redis.{Redis, Reply, value, absent, failed}
use spool.Redis.Keys.{Key}
use spool.Redis.KeyEquality.{Key-discrete}
use spool.Redis.Laws.{Laws, IsUp, missing, items, of_items}

module _ (w : World) (r : Redis w) (laws : Laws w r) where
  open w use {S, Ctx}
  open laws use {at}

  -- A pop that finds nothing changes nothing.
  pub lpop_absent-frame :
      (c : Ctx) (k : Key) (s : S)
      → (r.lpop c k s).0 ≡ absent
      → (i : Key) → at (r.lpop c k s).1 i ≡ at s i
  lpop_absent-frame c k s h i = elim (Key-discrete i k) [
    | yes e ↦
        let (before, after) = laws.lpop_absent c k s h in
        subst (λ x. at (r.lpop c k s).1 x ≡ at s x) (sym e) (after ∙ sym before)
    | no n ↦ laws.lpop_frame c k s i n
  ]

  module _ (c : Ctx) (up : IsUp w r laws c) (k : Key) (s : S) where
    pub lpop_missing : at s k ≡ missing → (r.lpop c k s).0 ≡ absent
    lpop_missing e = go (r.lpop c k s).0 refl
      where
        go : (reply : Reply) → (r.lpop c k s).0 ≡ reply → (r.lpop c k s).0 ≡ absent
        go (value x) h = cc (e, (laws.lpop_value c k s x h).1)
        go absent h = h
        go failed h = absurd (up.lpop_up k s ([], e) h)

    pub lpop_items :
        (x : String) (rest : List String)
        → at s k ≡ items (x ∷ rest)
        → ((r.lpop c k s).0 ≡ value x) × (at (r.lpop c k s).1 k ≡ of_items rest)
    lpop_items x rest e = go (r.lpop c k s).0 refl
      where
        go :
            (reply : Reply)
            → (r.lpop c k s).0 ≡ reply
            → ((r.lpop c k s).0 ≡ value x) × (at (r.lpop c k s).1 k ≡ of_items rest)
        go (value y) h = let (rest', before, after) = laws.lpop_value c k s y h in ground arith
        go absent h = cc (e, (laws.lpop_absent c k s h).0)
        go failed h = absurd (up.lpop_up k s (x ∷ rest, e) h)
