-- ===== src/Streaming/Fallback.antt =====
-- apps/web/lib/data/chat-stream.js: `runNimFallback`, with a consumer that may stop at any event. A
-- request for a row that fails gives no row.
use infernet_protocol.Common.{
  ℕ, suc, zero, Bool, true, false, Option, none, some, List, [], ◌∷◌, ◌++◌, String, str_eq,
  if◌then◌else◌,
}
use infernet_protocol.Common.Js.{get_field, field, end, or_else, str}
use infernet_protocol.Sanitizer.Tags.{Text}
use infernet_protocol.Sanitizer.Stream.{
  Sanitizer, make_stream_sanitizer, process, flush, sanitize_text,
}
use infernet_protocol.Streaming.Events.{EventData, text_of, with_text}

-- A message of the service, `{ type, data }`; the message of an error is in its data.
pub record NimEvent : Type 0 where
  pub kind : String
  pub body : EventData

-- How the service's stream ends: it is closed, or it throws.
pub data NimEnding : Type 0 where
  closes throws : NimEnding

-- The patch of `finalizeJob`: the text of a completed job, which may be incomplete, or the error's
-- data.
pub data Final : Type 0 where
  completes : Text → Bool → Final
  fails : EventData → Final

-- What the generator does: it asks for a row of `job_events`, it gives an event with the id of its
-- row, or it asks for the change of the job's row.
pub data Act : Type 0 where
  stores : String → EventData → Act
  gives : String → Option EventData → Option ℕ → Act
  finalizes : Final → Act

-- The answer to the insertion of a row: its id and its data.
abbrev pub Insert : Type 0
Insert = String → EventData → Option (ℕ × EventData)

abbrev pub row_id : Option (ℕ × EventData) → Option ℕ
row_id none = none
row_id (some (id, d)) = some id

abbrev pub row_data : Option (ℕ × EventData) → Option EventData
row_data none = none
row_data (some (id, d)) = some d

-- The `finally` of a generator that has not finalized the job.
abbrev pub incomplete : Text → List Act
incomplete full = finalizes (completes full true) ∷ []

-- What is done at a `yield`: the consumer, who takes so many more events, goes on or stops. At
-- the event itself the generator waits, and where the consumer stops it does `stopped`.
abbrev pub at_yield : ℕ → List Act → (ℕ → List Act) → List Act
at_yield zero stopped next = stopped
at_yield (suc reads) stopped next = next reads

-- The event of a token: stored even where its text is empty, given only where it is not.
abbrev pub give_token : Insert → EventData → Text → ℕ → List Act → (ℕ → List Act) → List Act
give_token insert d [] reads stopped next = stores "token" (with_text [] d) ∷ next reads
give_token insert d (c ∷ t) reads stopped next =
    stores "token" (with_text (c ∷ t) d)
    ∷ gives "token" (some (with_text (c ∷ t) d)) (row_id (insert "token" (with_text (c ∷ t) d)))
    ∷ at_yield reads stopped next

-- The data of the last event: its text and the time of the end, as the service or the clock says.
abbrev pub done_data : String → Text → EventData → EventData
done_data iso t d = record {
  text = some t;
  others = field "finished_at" (or_else (get_field "finished_at" d.others) (str iso)) end;
}

-- The loop, with the number of events that the consumer still takes.
unfoldable pub relay_nim :
    String → Insert → List NimEvent → NimEnding → ℕ → Text → Sanitizer → List Act
relay_nim iso insert [] last reads full s = incomplete full
relay_nim iso insert (ev ∷ evs) last reads full s =
    let full' = full ++ text_of ev.body in
    let (clean, s') = process s (some (text_of ev.body)) in
    let (tail, _) = flush s in
    let d = done_data iso (sanitize_text full ++ tail) ev.body in
    if str_eq ev.kind "token"
    then give_token insert ev.body clean reads (incomplete full')
        (λ n. relay_nim iso insert evs last n full' s')
    else if str_eq ev.kind "done"
    then stores "done" d
      ∷ finalizes (completes full false)
      ∷ gives "done" (some d) (row_id (insert "done" d))
      ∷ []
    else if str_eq ev.kind "error"
    then stores "error" ev.body
      ∷ finalizes (fails ev.body)
      ∷ gives "error" (some ev.body) (row_id (insert "error" ev.body))
      ∷ []
    else relay_nim iso insert evs last reads full s

-- `runNimFallback`: the first event is given before the `try`.
unfoldable pub run_nim_fallback :
    String → Insert → EventData → List NimEvent → NimEnding → ℕ → List Act
run_nim_fallback iso insert meta evs last reads =
    stores "meta" meta
    ∷ gives "meta" (row_data (insert "meta" meta)) (row_id (insert "meta" meta))
    ∷ at_yield reads [] (λ n. relay_nim iso insert evs last n [] make_stream_sanitizer)
