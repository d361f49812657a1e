-- ===== src/Streaming/Examples.antt =====
-- Tests of the streams of events.
use infernet_protocol.Common.{true, ℕ, ◌≡◌, refl, none, some, List, [], ◌∷◌, String, arith}
use infernet_protocol.Common.Js.{codes, end}
use infernet_protocol.Sanitizer.Tags.{after, find_open, last_lt}
use infernet_protocol.Sanitizer.Stream.{process, flush, clean, sanitize_text}
use infernet_protocol.Streaming.Events.{
  EventData, StoredEvent, event_given, job_given, timed_out, handle_event, replay,
}
use infernet_protocol.Streaming.Live.{Tick, inserts, turns, turn, follow_ticks, stream_job_events}
use infernet_protocol.Streaming.Order.{IsOrdered}
use infernet_protocol.Streaming.Ordered.{stream_job_events-IsOrdered}
use infernet_protocol.Streaming.Fallback.{
  NimEvent, closes, stores, gives, finalizes, completes, run_nim_fallback, relay_nim,
}
use infernet_protocol.Streaming.Finals.{finalizations, run_nim_fallback-once}

abbrev says : String → EventData
says t = record { text = some (codes t); others = end }

abbrev event : ℕ → String → String → StoredEvent
event id kind t = record { id = id; event_type = kind; body = says t }

-- Two stored tokens; then one that was stored before comes again, and one that was not; then the
-- end, and one more.
abbrev ticks : List Tick
ticks =
    inserts (event 2 "token" "b")
    ∷ inserts (event 3 "token" "c")
    ∷ turns 10
    ∷ inserts (event 4 "done" "abc")
    ∷ turns 20
    ∷ inserts (event 5 "token" "d")
    ∷ turns 30
    ∷ []

abbrev stored : List StoredEvent
stored = event 1 "token" "a" ∷ event 2 "token" "b" ∷ []

whole_stream :
    stream_job_events (some stored) 0 ticks
    ≡ job_given
      ∷ event_given "token" (says "a") 1
      ∷ event_given "token" (says "b") 2
      ∷ event_given "token" (says "c") 3
      ∷ event_given "done" (says "abc") 4
      ∷ []
unfolding stream_job_events replay handle_event follow_ticks turn process flush clean find_open
    after last_lt sanitize_text
whole_stream = refl

-- An end that was held back is in the text of the last event twice.
twice_the_end :
    stream_job_events (some (event 1 "token" "1 < 2" ∷ event 2 "done" "1 < 2" ∷ [])) 0 []
    ≡ job_given ∷ event_given "token" (says "1 ") 1 ∷ event_given "done" (says "1 < 2< 2") 2 ∷ []
unfolding stream_job_events replay handle_event follow_ticks turn process flush clean find_open
    after last_lt sanitize_text
twice_the_end = refl

in_time :
    stream_job_events (some []) 0 (turns 599999 ∷ turns 600000 ∷ []) ≡ job_given ∷ timed_out ∷ []
unfolding stream_job_events replay follow_ticks turn
in_time = refl

stream_job_events-IsOrdered_example : IsOrdered 0 (stream_job_events (some stored) 0 ticks)
stream_job_events-IsOrdered_example =
    stream_job_events-IsOrdered stored 0 ticks (omega arith, (omega arith, tt))

abbrev nim_token : NimEvent
nim_token = record { kind = "token"; body = says "a" }

-- The service's stream breaks off.
broken_off :
    run_nim_fallback "now" (λ k d. none) (says "") (nim_token ∷ []) closes 9
    ≡ stores "meta" (says "")
      ∷ gives "meta" none none
      ∷ stores "token" (says "a")
      ∷ gives "token" (some (says "a")) none
      ∷ finalizes (completes (codes "a") true)
      ∷ []
unfolding run_nim_fallback relay_nim process clean find_open after last_lt
broken_off = refl

run_nim_fallback-once_example :
    finalizations (run_nim_fallback "now" (λ k d. none) (says "") (nim_token ∷ []) closes 1) ≡ 1
run_nim_fallback-once_example =
    run_nim_fallback-once "now" (λ k d. none) (says "") (nim_token ∷ []) closes 1
