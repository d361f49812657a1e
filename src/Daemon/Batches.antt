-- ===== src/Daemon/Batches.antt =====
-- The event buffer of apps/cli/lib/chat-executor.js: what it keeps and what it posts.
use mathlib.Core.List.{append-nil}
use infernet_protocol.Common.{
  ℕ, suc, ◌-◌, ◌≤◌, ◌<◌, ◌≡◌, refl, ◌∙◌, Bool, false, ◌||◌, List, [], ◌∷◌, ◌++◌, All, leb, length,
  length-snoc, flatten, arith, if_split_rule,
}
use infernet_protocol.Common.Js.{Js}
use infernet_protocol.Daemon.Upload.{
  EventBuffer, Moment, Batches, event_batch_max, event_batch_flush_ms, flush, push,
}

abbrev pub IsSized : List Js → Type 0
IsSized batch = (1 ≤ length batch) × (length batch ≤ event_batch_max)

-- The events of the buffer and the posted ones, in order, and the sizes of both.
abbrev pub Keeps : List Js → EventBuffer × Batches → Type 0
Keeps all (b, out) =
    (flatten out ++ b.events ≡ all) × (length b.events < event_batch_max) × All IsSized out

flush-Keeps :
    (now : ℕ) (es : List Js) (last : ℕ)
    → length es ≤ event_batch_max
    → Keeps es (flush now (record { events = es; last_flush = last }))
unfolding flush
flush-Keeps now [] last h = (refl, omega arith, tt)
flush-Keeps now (e ∷ es) last h =
    (append-nil ((e ∷ es) ++ []) ∙ append-nil (e ∷ es), omega arith, ((omega arith, h), tt))

pub flush-posts :
    (now : ℕ) (b : EventBuffer)
    → length b.events < event_batch_max
    → (flatten (flush now b).1 ≡ b.events) × All IsSized (flush now b).1
unfolding flush
flush-posts now b h = go b.events b.last_flush h
  where
    go :
        (es : List Js) (last : ℕ)
        → length es < event_batch_max
        → (flatten (flush now (record { events = es; last_flush = last })).1 ≡ es)
          × All IsSized (flush now (record { events = es; last_flush = last })).1
    go [] last h = (refl, tt)
    go (e ∷ es) last h = (append-nil (e ∷ es), ((omega arith, omega (arith, h)), tt))

pub push-Keeps :
    (m : Moment) (e : Js) (b : EventBuffer)
    → length b.events < event_batch_max
    → Keeps (b.events ++ e ∷ []) (push m e b)
unfolding push
push-Keeps m e b h =
    let more : length (b.events ++ e ∷ []) ≡ suc (length b.events) = length-snoc b.events e in
    if_split_rule (Keeps (b.events ++ e ∷ []))
      (leb event_batch_max (length (b.events ++ e ∷ []))
        || leb event_batch_flush_ms (m.pushed_at - b.last_flush))
      _ _ (λ t. flush-Keeps m.flushed_at (b.events ++ e ∷ []) b.last_flush (omega (arith, more, h)))
      (λ f. (refl, under (length (b.events ++ e ∷ [])) _ f, tt))
  where
    under : (n : ℕ) (c : Bool) → (leb event_batch_max n || c) ≡ false → n < event_batch_max
    under n c f = ground arith
