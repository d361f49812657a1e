-- ===== src/Daemon/Posted.antt =====
-- What a chat job on the daemon posts: apps/cli/lib/chat-executor.js.
use mathlib.Core.List.{append-nil, append_assoc}
use infernet_protocol.Common.{
  ℕ, ◌<◌, ◌≡◌, refl, sym, ap, ◌∙◌, Bool, true, false, ◌||◌, inl, inr, Bool-cases, List, [], ◌∷◌,
  ◌++◌, All, length, flatten, arith, if◌then◌else◌,
}
use infernet_protocol.Common.Js.{Js, str, obj, end, field}
use infernet_protocol.Engine.Process.{is_type}
use infernet_protocol.Daemon.Upload.{
  EventBuffer, Moment, Batches, event_batch_max, new, flush, push, Chat, Answer, forward, Ending,
  closes, throws, engine_error, relay, no_answer, execute_chat_job, chat_event,
}
use infernet_protocol.Daemon.Batches.{IsSized, Keeps, flush-posts, push-Keeps}

abbrev pub error_event : Js → Js
error_event ev = chat_event (str "error") (obj (field "message" (engine_error ev) end))

-- The events of a stream, up to its first error.
abbrev pub events_of : Chat → List (Moment × Js) → Answer → List Js
events_of c [] a = []
events_of c ((m, ev) ∷ evs) a =
    let (e, a') = forward c m.iso ev a in
    let rest = events_of c evs a' in if is_type ev "error" then error_event ev ∷ [] else e ∷ rest

-- Whether the stream was closed, or the engine reported an error, before it threw.
abbrev pub is_told : List (Moment × Js) → Ending → Bool
is_told [] (closes now) = true
is_told [] (throws e) = false
is_told ((m, ev) ∷ evs) last = is_type ev "error" || is_told evs last

-- The batches are the events in order, but for those lost at the end.
abbrev pub Posts : List Js → Bool → Batches → Type 0
Posts all told out =
    (lost : List Js) × (flatten out ++ lost ≡ all)
    × (length lost < event_batch_max)
    × (told ≡ true → lost ≡ [])
    × All IsSized out

All-append : (xss yss : Batches) → All IsSized xss → All IsSized yss → All IsSized (xss ++ yss)
All-append [] yss h k = k
All-append (xs ∷ xss) yss h k = (h.0, All-append xss yss h.1 k)

flatten-append : (xss yss : Batches) → flatten (xss ++ yss) ≡ flatten xss ++ flatten yss
flatten-append [] yss = refl
flatten-append (xs ∷ xss) yss =
    ap (λ t. xs ++ t) (flatten-append xss yss) ∙ sym (append_assoc xs (flatten xss) (flatten yss))

-- A push, then what the rest of the stream posts.
then-Posts :
    (before rest : List Js) (told : Bool) (e : Js) (p : EventBuffer × Batches) (later : Batches)
    → Keeps (before ++ e ∷ []) p
    → Posts (p.0.events ++ rest) told later
    → Posts (before ++ e ∷ rest) told (p.1 ++ later)
then-Posts before rest told e (b, out) later (same, few, sized)
      (lost, all, short, none_lost, sized') =
    (
      lost,
      ap (λ t. t ++ lost) (flatten-append out later)
          ∙ append_assoc (flatten out) (flatten later) lost
          ∙ ap (λ t. flatten out ++ t) all
          ∙ sym (append_assoc (flatten out) b.events rest)
          ∙ ap (λ t. t ++ rest) same
          ∙ append_assoc before (e ∷ []) rest,
      short,
      none_lost,
      All-append out later sized sized',
    )

flushed-Posts :
    (now : ℕ) (b : EventBuffer) (told : Bool)
    → length b.events < event_batch_max
    → Posts (b.events ++ []) told (flush now b).1
flushed-Posts now b told h =
    let (same, sized) = flush-posts now b h in
    (
      [],
      append-nil (flatten (flush now b).1) ∙ same ∙ sym (append-nil b.events),
      omega arith,
      (λ t. refl),
      sized,
    )

pub relay-Posts :
    (c : Chat) (evs : List (Moment × Js)) (last : Ending) (b : EventBuffer) (a : Answer)
    → length b.events < event_batch_max
    → Posts (b.events ++ events_of c evs a) (is_told evs last) (relay c evs last b a).0
unfolding relay
relay-Posts c [] (closes now) b a h = flushed-Posts now b true h
relay-Posts c [] (throws e) b a h = (b.events, sym (append-nil b.events), h, (λ t. cc), tt)
relay-Posts c ((m, ev) ∷ evs) last b a h = elim (Bool-cases (is_type ev "error")) [
  | inl e ↦ rw e (
      then-Posts b.events [] true (error_event ev) (push m (error_event ev) b) _
        (push-Keeps m (error_event ev) b h)
        (flushed-Posts m.flushed_at (push m (error_event ev) b).0 true
          (push-Keeps m (error_event ev) b h).1))
  | inr e ↦ rw e (
      then-Posts b.events (events_of c evs (forward c m.iso ev a).1) (is_told evs last)
        (forward c m.iso ev a).0 (push m (forward c m.iso ev a).0 b) _
        (push-Keeps m (forward c m.iso ev a).0 b h)
        (relay-Posts c evs last (push m (forward c m.iso ev a).0 b).0 (forward c m.iso ev a).1
          (push-Keeps m (forward c m.iso ev a).0 b h).1))
]

-- Whatever the clock reads, the batches that a chat job posts are, put together, the events of its
-- stream in order, each batch with 1 to 16 of them; none is lost if the stream is closed or reports
-- an error, and at most the last 15 are if it throws.
pub execute_chat_job-Posts :
    (c : Chat) (t0 : ℕ) (evs : List (Moment × Js)) (last : Ending)
    → Posts (events_of c evs no_answer) (is_told evs last) (execute_chat_job c t0 evs last).0
unfolding execute_chat_job
execute_chat_job-Posts c t0 evs last = relay-Posts c evs last (new t0) no_answer (omega arith)
