-- ===== src/Streaming/Events.antt =====
-- apps/web/lib/data/chat-stream.js: the events of a job, those stored and those that follow. A text
-- is the list of its UTF-16 units.
use infernet_protocol.Common.{
  ℕ, max, Bool, true, false, Option, none, some, List, [], ◌∷◌, ◌++◌, String, str_eq, if◌then◌else◌,
}
use infernet_protocol.Common.Js.{Fields}
use infernet_protocol.Sanitizer.Tags.{Text}
use infernet_protocol.Sanitizer.Stream.{Sanitizer, process, flush, sanitize_text}

-- The data of an event: its text, if it has one, and its other properties.
pub record EventData : Type 0 where
  pub text : Option Text
  pub others : Fields

-- A row of `job_events`.
pub record StoredEvent : Type 0 where
  pub id : ℕ
  pub event_type : String
  pub body : EventData

-- What the generator gives: the job, an event, or an error of its own.
pub data Given : Type 0 where
  job_given : Given
  event_given : String → EventData → ℕ → Given
  not_found timed_out : Given

-- `ev.data?.text ?? ""`
abbrev pub text_of : EventData → Text
text_of d = elim d.text [ none ↦ [] | some t ↦ t ]

-- `{ ...ev.data, text }`
abbrev pub with_text : Text → EventData → EventData
with_text t d = record d { text = some t }

-- What an event gives, the sanitizer after it, and whether the generator goes on.
pub record Handled : Type 0 where
  pub given : List Given
  pub sanitizer : Sanitizer
  pub goes_on : Bool

-- `if (cleanText) yield`
abbrev pub give_text : Text → StoredEvent → List Given
give_text [] ev = []
give_text (c ∷ t) ev = event_given "token" (with_text (c ∷ t) ev.body) ev.id ∷ []

-- The three cases of an event, which the stored events and the later ones share.
unfoldable pub handle_event : Sanitizer → StoredEvent → Handled
handle_event s ev =
    let (clean, s') = process s (some (text_of ev.body)) in
    let (tail, s'') = flush s in
    if str_eq ev.event_type "token"
    then record { given = give_text clean ev; sanitizer = s'; goes_on = true }
    else if str_eq ev.event_type "done"
    then record {
      given =
          event_given "done" (with_text (sanitize_text (text_of ev.body) ++ tail) ev.body) ev.id
          ∷ [];
      sanitizer = s'';
      goes_on = false;
    }
    else record {
      given = event_given ev.event_type ev.body ev.id ∷ [];
      sanitizer = s;
      goes_on = if str_eq ev.event_type "error" then false else true;
    }

-- The stored events: what they give, and how the generator goes on, if it does: with the last id
-- and the sanitizer.
unfoldable pub replay : ℕ → Sanitizer → List StoredEvent → List Given × Option (ℕ × Sanitizer)
replay last_id s [] = ([], some (last_id, s))
replay last_id s (ev ∷ evs) =
    let h = handle_event s ev in
    let (later, next) = replay (max last_id ev.id) h.sanitizer evs in
    if h.goes_on then (h.given ++ later, next) else (h.given, none)
