-- ===== src/Engine/Stream.antt =====
-- The queue of packages/engine under any sequence of calls, and the stream that it stands for.
use infernet_protocol.Common.{ℕ, zero, suc, Option, none, some, List, [], ◌∷◌, ◌++◌, map, take}
use infernet_protocol.Engine.AsyncQueue.{
  AsyncQueue, Answer, value, finished, closing, new, push, fail, end, next,
}

pub data Call (A E : Type 0) : Type 0 where
  pushes : A → Call A E
  fails : Option E → Call A E
  ends : Call A E
  asks : Call A E

-- The queue, how many promises it made, and the answers in the order given.
pub record Run (A E : Type 0) : Type 0 where
  pub queue : AsyncQueue A E
  pub asked : ℕ
  pub answers : List (ℕ × Answer A E)

-- The specification: what was sent before the close, the close, and how much was asked for.
pub record Stream (A E : Type 0) : Type 0 where
  pub sent : List A
  pub close : Option (Answer A E)
  pub requests : ℕ

module _ {A E : Type 0} where
  abbrev after : Run A E → AsyncQueue A E × List (ℕ × Answer A E) → Run A E
  after r (q, out) = record r { queue = q; answers = r.answers ++ out }

  abbrev pub call : Run A E → Call A E → Run A E
  call r (pushes v) = after r (push v r.queue)
  call r (fails e) = after r (fail e r.queue)
  call r ends = after r (end r.queue)
  call r asks = after (record r { asked = suc r.asked }) (next r.asked r.queue)

  abbrev pub calls : Run A E → List (Call A E) → Run A E
  calls r [] = r
  calls r (c ∷ cs) = calls (call r c) cs

  abbrev pub silent_run : Run A E
  silent_run = record { queue = new; asked = 0; answers = [] }

  abbrev take_sent : Stream A E → Option (Answer A E) → A → Stream A E
  take_sent s none v = record s { sent = s.sent ++ (v ∷ []) }
  take_sent s (some c) v = s

  abbrev shut : Stream A E → Option (Answer A E) → Answer A E → Stream A E
  shut s none a = record s { close = some a }
  shut s (some c) a = s

  abbrev pub happen : Stream A E → Call A E → Stream A E
  happen s (pushes v) = take_sent s s.close v
  happen s (fails e) = shut s s.close (closing e)
  happen s ends = shut s s.close finished
  happen s asks = record s { requests = suc s.requests }

  abbrev pub happened : Stream A E → List (Call A E) → Stream A E
  happened s [] = s
  happened s (c ∷ cs) = happened (happen s c) cs

  abbrev pub silence : Stream A E
  silence = record { sent = []; close = none; requests = 0 }

  abbrev pub repeat : ℕ → Answer A E → List (Answer A E)
  repeat zero a = []
  repeat (suc n) a = a ∷ repeat n a

  abbrev tail_of : Option (Answer A E) → ℕ → List (Answer A E)
  tail_of none n = []
  tail_of (some a) n = repeat n a

  -- The first requests get the values in order, and after a close the others get the close.
  abbrev pub promised : Stream A E → List (Answer A E)
  promised s = take s.requests (map value s.sent ++ tail_of s.close s.requests)

  -- Each answer with its number.
  abbrev pub numbered : ℕ → List (Answer A E) → List (ℕ × Answer A E)
  numbered k [] = []
  numbered k (x ∷ xs) = (k, x) ∷ numbered (suc k) xs
