-- ===== src/Queue/RedisQueue/Peeking.antt =====
-- Peek of internal/queue/redis.go against Dequeue: it shows what Dequeue would take.
use spool.Prelude.{
  ◌≡◌, refl, sym, ap, ◌∙◌, subst, String, Option, none, some, List, [], ◌∷◌, map, pos,
}
use spool.Env.{World}
use spool.Effect.{ok}
use spool.Task.{Task}
use spool.Redis.{Redis, Reply, value, absent, failed}
use spool.Redis.Laws.{Laws, IsUp, missing, items, of_items}
use spool.Redis.Keys.{Key, Level, queue, task, level_of, queue_key}
use spool.Queue.RedisQueue.{Codec, peek, peek_from, dequeue}
use spool.Queue.RedisQueue.Delivery.{get_text}
use spool.Queue.RedisQueue.Lines.{Lines, All, first, by_urgency, answer, dequeues}
use spool.Queue.RedisQueue.Refinement.Parts.{ids, Saved, Represents, listed_key}
use spool.Queue.RedisQueue.Refinement.Steps.{Stands}
use spool.Queue.RedisQueue.Refinement.Taking.{dequeue-Represents}
use spool.Queue.RedisQueue.Refinement.Histories.{StaysUp}

-- The first task of the lines, if one waits.
abbrev front : (Level → List Task) → List Level → Option Task
front q ls = elim (first q ls) [ none ↦ none | some (l, t, behind) ↦ some t ]

module _ (w : World) (r : Redis w) (j : Codec) (laws : Laws w r) where
  open w use {S, Ctx}
  open laws use {at}

  module _ (ctx : Ctx) (up : IsUp w r laws ctx) where
    peek_missing : (k : Key) (s : S) → at s k ≡ missing → (r.lindex ctx k (pos 0) s).0 ≡ absent
    peek_missing k s e = go (r.lindex ctx k (pos 0) s).0 refl
      where
        go :
            (reply : Reply)
            → (r.lindex ctx k (pos 0) s).0 ≡ reply
            → (r.lindex ctx k (pos 0) s).0 ≡ absent
        go (value x) h = cc (e, (laws.lindex_value ctx k s x h).1)
        go absent h = h
        go failed h = absurd (up.lindex_up k s ([], e) h)

    peek_items :
        (k : Key) (s : S) (x : String) (rest : List String)
        → at s k ≡ items (x ∷ rest)
        → (r.lindex ctx k (pos 0) s).0 ≡ value x
    peek_items k s x rest e = go (r.lindex ctx k (pos 0) s).0 refl
      where
        go :
            (reply : Reply)
            → (r.lindex ctx k (pos 0) s).0 ≡ reply
            → (r.lindex ctx k (pos 0) s).0 ≡ value x
        go (value y) h =
            let (others, f) = laws.lindex_value ctx k s y h in
            let same : y ≡ x = cc (e, f) in h ∙ ap value same
        go absent h = cc (e, laws.lindex_absent ctx k s h)
        go failed h = absurd (up.lindex_up k s (x ∷ rest, e) h)

    -- Peek over some levels gives the first of their tasks and changes no key.
    peek_from_lem :
        (q : Level → List Task) (ls : List Level) (s : S)
        → ((l : Level) → at s (queue l) ≡ of_items (ids (q l)))
        → ((l : Level) → All (Saved j (at s)) (q l))
        → ((peek_from w r j ctx (map level_of ls) s).0 ≡ ok (front q ls))
          × (at (peek_from w r j ctx (map level_of ls) s).1 ≡ at s)
    unfolding peek_from
    peek_from_lem q [] s listed saved = (refl, refl)
    peek_from_lem q (l ∷ ls) s listed saved = go (q l) refl (
        peek_from_lem q ls (r.lindex ctx key (pos 0) s).1 (λ k. frame (queue k) ∙ listed k)
          (λ k. subst (λ held. All (Saved j held) (q k)) (sym same) (saved k)))
      where
        key : Key
        key = queue_key (level_of l)

        frame : (k : Key) → at (r.lindex ctx key (pos 0) s).1 k ≡ at s k
        frame k = laws.lindex_frame ctx key (pos 0) s k

        same : at (r.lindex ctx key (pos 0) s).1 ≡ at s
        same i k = frame k i

        s1 : S
        s1 = (r.lindex ctx key (pos 0) s).1

        Goal : Type 0
        Goal =
            ((peek_from w r j ctx (map level_of (l ∷ ls)) s).0 ≡ ok (front q (l ∷ ls)))
            × (at (peek_from w r j ctx (map level_of (l ∷ ls)) s).1 ≡ at s)

        go :
            (ts : List Task)
            → q l ≡ ts
            → ((peek_from w r j ctx (map level_of ls) s1).0 ≡ ok (front q ls))
              × (at (peek_from w r j ctx (map level_of ls) s1).1 ≡ at s1)
            → Goal
        go [] e rest =
            let empty : at s key ≡ missing =
              listed_key (at s) q listed l ∙ ap (λ ts. of_items (ids ts)) e in
            rw (peek_missing key s empty, front, first, e) (rest.0, rest.1 ∙ same)
        go (t ∷ behind) e rest =
            let full : at s key ≡ items (t.id ∷ ids behind) =
              listed_key (at s) q listed l ∙ ap (λ ts. of_items (ids ts)) e in
            let (d, stands, u) = (subst (All (Saved j (at s))) e (saved l)).0 in
            let read = get_text w r j laws ctx up (task t.id) s1 d (frame (task t.id) ∙ stands) in
            let unread : at (r.get ctx (task t.id) s1).1 ≡ at s1 =
              λ i k. laws.get_frame ctx (task t.id) s1 k i in
            rw (peek_items key s t.id (ids behind) full, read, u, front, first, e)
              (refl, unread ∙ same)

  front-answer : (q : Lines) → ok (front q.waiting by_urgency) ≡ (answer dequeues q).0
  front-answer q = go (first q.waiting by_urgency) refl
    where
      go :
          (o : Option (Level × Task × List Task))
          → first q.waiting by_urgency ≡ o
          → ok (front q.waiting by_urgency) ≡ (answer dequeues q).0
      go none e = rw (front, answer, e) refl
      go (some (l, t, behind)) e = rw (front, answer, e) refl

  -- On a server that stands for lines and stays up, Peek returns what Dequeue would return in its
  -- place, and the server stands for the same lines after it.
  pub peek-dequeue :
      (ctx : Ctx) (s : S) (q : Lines)
      → StaysUp w r j laws ctx
      → Stands w r j laws s q
      → ((peek w r j ctx s).0 ≡ (dequeue w r j ctx s).0) × Stands w r j laws (peek w r j ctx s).1 q
  unfolding peek level_of
  peek-dequeue ctx s q up v =
      let seen = peek_from_lem ctx up.as_given q.waiting by_urgency s v.listed v.saved in
      let taken = dequeue-Represents w r j laws ctx s q (up.renewed _ s) v in
      (seen.0 ∙ front-answer q ∙ sym taken.0, subst (λ held. Represents j held q) (sym seen.1) v)
