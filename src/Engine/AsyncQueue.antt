-- ===== src/Engine/AsyncQueue.antt =====
-- packages/engine/src/async-queue.js: the queue between the producer of an engine's events and
-- their one reader. A call of `next` makes a promise, which a number stands for, and an answer
-- settles one promise. Only a truthy error rejects, so an error is optional.
use infernet_protocol.Common.{
  ℕ, Bool, true, false, Option, none, some, List, [], ◌∷◌, ◌++◌, if◌then◌else◌,
}

pub data Answer (A E : Type 0) : Type 0 where
  value : A → Answer A E
  finished : Answer A E
  rejected : E → Answer A E

pub record AsyncQueue (A E : Type 0) : Type 0 where
  pub values : List A
  pub waiters : List ℕ
  pub closed : Bool
  pub error : Option E

module _ {A E : Type 0} where
  -- The constructor.
  abbrev pub new : AsyncQueue A E
  new = record { values = []; waiters = []; closed = false; error = none }

  -- What is left to read on a closed queue.
  abbrev pub closing : Option E → Answer A E
  closing none = finished
  closing (some e) = rejected e

  -- The first waiter gets the value, else the queue keeps it.
  abbrev hand : AsyncQueue A E → A → List ℕ → AsyncQueue A E × List (ℕ × Answer A E)
  hand q v [] = (record q { values = q.values ++ (v ∷ []) }, [])
  hand q v (w ∷ ws) = (record q { waiters = ws }, (w, value v) ∷ [])

  -- `push(v)`
  unfoldable pub push : A → AsyncQueue A E → AsyncQueue A E × List (ℕ × Answer A E)
  push v q = if q.closed then (q, []) else hand q v q.waiters

  -- The loop that answers each waiter.
  unfoldable pub answer_all : Answer A E → List ℕ → List (ℕ × Answer A E)
  answer_all a [] = []
  answer_all a (w ∷ ws) = (w, a) ∷ answer_all a ws

  -- `fail(err)`
  unfoldable pub fail : Option E → AsyncQueue A E → AsyncQueue A E × List (ℕ × Answer A E)
  fail err q = if q.closed then (q, []) else (
    record q { waiters = []; closed = true; error = err },
    answer_all (closing err) q.waiters,
  )

  -- `end()`
  unfoldable pub end : AsyncQueue A E → AsyncQueue A E × List (ℕ × Answer A E)
  end q =
      if q.closed
      then (q, [])
      else (record q { waiters = []; closed = true }, answer_all finished q.waiters)

  -- What `next` does with the values: settled at once, settled by the close, or kept waiting.
  abbrev take_next : ℕ → AsyncQueue A E → List A → AsyncQueue A E × List (ℕ × Answer A E)
  take_next promise q (v ∷ vs) = (record q { values = vs }, (promise, value v) ∷ [])
  take_next promise q [] =
      if q.closed
      then (q, (promise, closing q.error) ∷ [])
      else (record q { waiters = q.waiters ++ (promise ∷ []) }, [])

  -- `next()`
  unfoldable pub next : ℕ → AsyncQueue A E → AsyncQueue A E × List (ℕ × Answer A E)
  next promise q = take_next promise q q.values
