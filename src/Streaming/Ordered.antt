-- ===== src/Streaming/Ordered.antt =====
-- The order of the whole stream of apps/web/lib/data/chat-stream.js.
use mathlib.Core.List.{append_assoc}
use infernet_protocol.Common.{
  ℕ, max, ◌<◌, ◌≡◌, refl, sym, ap, subst, true, false, Option, none, some, List, [], ◌∷◌, ◌++◌, leb,
  arith, if_split_rule,
}
use infernet_protocol.Sanitizer.Stream.{Sanitizer, make_stream_sanitizer}
use infernet_protocol.Streaming.Events.{StoredEvent, Given, job_given, handle_event, replay}
use infernet_protocol.Streaming.Live.{
  Tail, on_insert, turn, Tick, inserts, turns, go_on, follow_ticks, follow_stored,
  stream_job_events,
}
use infernet_protocol.Streaming.Order.{
  stored_ids, IsAscending, IsOrdered, handle_event-IsOne, then_rest, and_no_more,
}

-- What the stored events give is in order, and so is all with what follows them.
abbrev Resumes : ℕ → List Given × Option (ℕ × Sanitizer) → Type 0
Resumes n (given, none) = IsOrdered n given
Resumes n (given, some (last_id, s)) =
    (later : List Given) → IsOrdered last_id later → IsOrdered n (given ++ later)

prepend :
    (n : ℕ) (s : Sanitizer) (ev : StoredEvent) (p : List Given × Option (ℕ × Sanitizer))
    → n < ev.id
    → (handle_event s ev).goes_on ≡ true
    → Resumes ev.id p
    → Resumes n ((handle_event s ev).given ++ p.0, p.1)
prepend n s ev (given, none) less on r =
    then_rest n ev (handle_event s ev) given (handle_event-IsOne s ev) less on r
prepend n s ev (given, some (last_id, s')) less on r = λ later o.
    subst (IsOrdered n) (sym (append_assoc (handle_event s ev).given given later)) (
      then_rest n ev (handle_event s ev) (given ++ later) (handle_event-IsOne s ev) less on
        (r later o))

replay-Resumes :
    (n : ℕ) (s : Sanitizer) (evs : List StoredEvent)
    → IsAscending n (stored_ids evs)
    → Resumes n (replay n s evs)
unfolding replay
replay-Resumes n s [] h = λ later o. o
replay-Resumes n s (ev ∷ evs) (less, h) =
    if_split_rule (Resumes n) (handle_event s ev).goes_on _ _
      (λ on. prepend n s ev (replay (max n ev.id) (handle_event s ev).sanitizer evs) less on (
        let same : ev.id ≡ max n ev.id = omega (arith, less) in
        subst (λ k. Resumes ev.id (replay k (handle_event s ev).sanitizer evs)) same
          (replay-Resumes ev.id (handle_event s ev).sanitizer evs h)))
      (λ off. and_no_more n ev (handle_event s ev) (handle_event-IsOne s ev) less)

-- The queue is in order above a number, and its last id is the greatest seen.
abbrev IsQueued : ℕ → List StoredEvent → ℕ → Type 0
IsQueued n queue last_id =
    (rest : List ℕ) → IsAscending last_id rest → IsAscending n (stored_ids queue ++ rest)

stored_ids-snoc :
    (evs : List StoredEvent) (ev : StoredEvent) (rest : List ℕ)
    → stored_ids (evs ++ ev ∷ []) ++ rest ≡ stored_ids evs ++ ev.id ∷ rest
stored_ids-snoc [] ev rest = refl
stored_ids-snoc (e ∷ evs) ev rest = ap (λ t. e.id ∷ t) (stored_ids-snoc evs ev rest)

on_insert-IsQueued :
    (n : ℕ) (ev : StoredEvent) (t : Tail)
    → IsQueued n t.queue t.last_id
    → IsQueued n (on_insert ev t).queue (on_insert ev t).last_id
on_insert-IsQueued n ev t q =
    if_split_rule (λ (t' : Tail). IsQueued n t'.queue t'.last_id) (leb ev.id t.last_id) _ _ (λ e. q)
      (λ f rest asc.
        subst (IsAscending n) (sym (stored_ids-snoc t.queue ev rest))
          (q (ev.id ∷ rest) (above ev.id t.last_id f, asc)))
  where
    above : (a b : ℕ) → leb a b ≡ false → b < a
    above a b f = ground arith

-- What a turn gives is in order, and so is all with what a queue after it gives.
abbrev IsTurn : ℕ → List Given × Option Tail → Type 0
IsTurn n (given, none) = IsOrdered n given
IsTurn n (given, some t) =
    (m : ℕ) × IsQueued m t.queue t.last_id
    × ((later : List Given) → IsOrdered m later → IsOrdered n (given ++ later))

turn-IsTurn : (n now : ℕ) (t : Tail) → IsQueued n t.queue t.last_id → IsTurn n (turn now t)
unfolding turn
turn-IsTurn n now t q = go t.queue q
  where
    go :
        (queue : List StoredEvent)
        → IsQueued n queue t.last_id
        → IsTurn n (turn now (record t { queue = queue }))
    go [] q =
        if_split_rule (IsTurn n) (leb t.deadline now) _ _ (λ e. (tt, refl))
          (λ e. (n, q, (λ later o. o)))
    go (ev ∷ queue) q =
        let h = handle_event t.sanitizer ev in
        let one = handle_event-IsOne t.sanitizer ev in
        let less : n < ev.id = (q [] tt).0 in
        if_split_rule (λ (o : Option Tail). IsTurn n (h.given, o)) h.goes_on _ _
          (λ on. (
            ev.id,
            (λ rest asc. (q rest asc).1),
            (λ later o. then_rest n ev h later one less on o),
          ))
          (λ off. and_no_more n ev h one less)

go_on-IsOrdered :
    (n : ℕ) (next : Tail → List Given) (p : List Given × Option Tail)
    → ((m : ℕ) (t : Tail) → IsQueued m t.queue t.last_id → IsOrdered m (next t))
    → IsTurn n p
    → IsOrdered n (go_on next p)
go_on-IsOrdered n next (given, none) each o = o
go_on-IsOrdered n next (given, some t) each (m, q, before) = before (next t) (each m t q)

follow_ticks-IsOrdered :
    (n : ℕ) (ticks : List Tick) (t : Tail)
    → IsQueued n t.queue t.last_id
    → IsOrdered n (follow_ticks ticks t)
unfolding follow_ticks
follow_ticks-IsOrdered n [] t q = (tt, refl)
follow_ticks-IsOrdered n (inserts ev ∷ ticks) t q =
    follow_ticks-IsOrdered n ticks (on_insert ev t) (on_insert-IsQueued n ev t q)
follow_ticks-IsOrdered n (turns now ∷ ticks) t q =
    go_on-IsOrdered n (λ t'. follow_ticks ticks t') (turn now t)
      (λ m t' q'. follow_ticks-IsOrdered m ticks t' q') (turn-IsTurn n now t q)

follow_stored-IsOrdered :
    (n now : ℕ) (ticks : List Tick) (p : List Given × Option (ℕ × Sanitizer))
    → Resumes n p
    → IsOrdered n (follow_stored now ticks p)
follow_stored-IsOrdered n now ticks (given, none) r = r
follow_stored-IsOrdered n now ticks (given, some (last_id, s)) r =
    r _ (follow_ticks-IsOrdered last_id ticks _ (λ rest asc. asc))

job_first : (n : ℕ) (gs : List Given) → IsOrdered n gs → IsOrdered n (job_given ∷ gs)
job_first n [] o = o
job_first n (g ∷ gs) (asc, last) = (asc, last)

-- If the stored events come in the order of their ids, then whatever rows are inserted and whenever
-- the loop turns, the stream gives events in the order of their ids, none of them twice, and what
-- ends it is its last.
pub stream_job_events-IsOrdered :
    (pre : List StoredEvent) (now : ℕ) (ticks : List Tick)
    → IsAscending 0 (stored_ids pre)
    → IsOrdered 0 (stream_job_events (some pre) now ticks)
unfolding stream_job_events
stream_job_events-IsOrdered pre now ticks h =
    job_first 0 (follow_stored now ticks (replay 0 make_stream_sanitizer pre)) (
      follow_stored-IsOrdered 0 now ticks (replay 0 make_stream_sanitizer pre)
        (replay-Resumes 0 make_stream_sanitizer pre h))
