-- ===== src/Distributed/NodeExamples.antt =====
-- Tests of the worker of packages/inference/src/distributed/worker.js.
use infernet_protocol.Common.{true, none, some, List, [], ◌∷◌}
use infernet_protocol.Common.Js.{undefined, str, obj, end}
use infernet_protocol.Distributed.Node.{Moment, new}
use infernet_protocol.Distributed.Part.{will_load, will_answer}
use infernet_protocol.Distributed.Duties.{
  Event, wait_ends, opens, drops, history, Answered, begin_input-Answered,
}

abbrev noon : Moment
noon = record { now = 12; is_open = true; send_error = none }

-- A job is loaded, an input is taken up, the connection is lost, and the answer comes late.
abbrev day : List Event
day =
    opens noon
    ∷ wait_ends noon (will_load (obj end) "j1")
    ∷ drops noon
    ∷ wait_ends noon (will_answer (str "hi") "j1" 0 0)
    ∷ []

begin_input-Answered_example :
    Answered noon "j1" (history (λ v. "") (λ v. "") day (new (some "ws://c") (some "n1") undefined))
begin_input-Answered_example =
    begin_input-Answered (λ v. "") (λ v. "") day (some "ws://c") (some "n1") undefined noon "j1"
