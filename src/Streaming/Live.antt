-- ===== src/Streaming/Live.antt =====
-- apps/web/lib/data/chat-stream.js: the events that follow, over a queue that the subscription
-- fills and the generator's loop empties.
use infernet_protocol.Common.{ℕ, ◌+◌, Option, none, some, List, [], ◌∷◌, ◌++◌, leb, if◌then◌else◌}
use infernet_protocol.Sanitizer.Stream.{Sanitizer, make_stream_sanitizer}
use infernet_protocol.Streaming.Events.{
  StoredEvent, Given, job_given, not_found, timed_out, handle_event, replay,
}

pub record Tail : Type 0 where
  pub last_id : ℕ
  pub queue : List StoredEvent
  pub sanitizer : Sanitizer
  pub deadline : ℕ

abbrev pub max_alive_ms : ℕ
max_alive_ms = 600000

-- The callback of the subscription.
abbrev pub on_insert : StoredEvent → Tail → Tail
on_insert ev t =
    if leb ev.id t.last_id then t else record t { last_id = ev.id; queue = t.queue ++ ev ∷ [] }

-- A turn of the loop: what it gives, and the state after it if the generator goes on.
unfoldable pub turn : ℕ → Tail → List Given × Option Tail
turn now t = elim t.queue [
  | [] ↦ if leb t.deadline now then (timed_out ∷ [], none) else ([], some t)
  | ev ∷ rest ↦
      let h = handle_event t.sanitizer ev in
      (
        h.given,
        if h.goes_on then some (record t { queue = rest; sanitizer = h.sanitizer }) else none,
      )
]

-- What can happen: a row is inserted, or the loop makes a turn.
pub data Tick : Type 0 where
  inserts : StoredEvent → Tick
  turns : ℕ → Tick

-- What a turn gave, then what the rest gives if the generator goes on.
abbrev pub go_on : (Tail → List Given) → List Given × Option Tail → List Given
go_on next (given, none) = given
go_on next (given, some t) = given ++ next t

unfoldable pub follow_ticks : List Tick → Tail → List Given
follow_ticks [] t = []
follow_ticks (inserts ev ∷ ticks) t = follow_ticks ticks (on_insert ev t)
follow_ticks (turns now ∷ ticks) t = go_on (λ t'. follow_ticks ticks t') (turn now t)

abbrev pub follow_stored : ℕ → List Tick → List Given × Option (ℕ × Sanitizer) → List Given
follow_stored now ticks (given, none) = given
follow_stored now ticks (given, some (last_id, s)) =
    given
    ++ follow_ticks ticks
        (record { last_id = last_id; queue = []; sanitizer = s; deadline = now + max_alive_ms })

-- `streamJobEvents` of a job that no fallback runs, by its stored events if it is found, the time
-- when the subscription begins, and what happens after that.
unfoldable pub stream_job_events : Option (List StoredEvent) → ℕ → List Tick → List Given
stream_job_events none now ticks = not_found ∷ []
stream_job_events (some pre) now ticks =
    job_given ∷ follow_stored now ticks (replay 0 make_stream_sanitizer pre)
