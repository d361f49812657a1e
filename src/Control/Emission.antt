-- ===== src/Control/Emission.antt =====
-- What adding events to a job changes: `emitJobEvents` of apps/web/lib/data/node-api.js.
use infernet_protocol.Common.{
  ℕ, ◌≤◌, ◌≡◌, refl, ap, subst, ◌∙◌, true, false, any, eq_iff, ◌⊎◌, Option, none, some, List, [],
  ◌∷◌, ◌++◌, String, str_eq, ltb, leb, length, Bool-cases, Option-cases, inl, inr, leb→le, ltb→lt,
}
use infernet_protocol.Common.Js.{Js, undefined, null, str, obj, Fields, end, get_field}
use infernet_protocol.Control.Tables.{JobRow, EventRow, NodeRow, Tables}
use infernet_protocol.Control.Store.{
  Supabase, reply, Result, ok, err, and_then, ◌>>=◌, return, ask_rule, unwrap,
}
use infernet_protocol.Control.Specs.{Texts}
use infernet_protocol.Control.Receipts.{Cpr}
use infernet_protocol.Control.Jobs.{
  write_events, event_types, payload_of, event_of, event_row, join_event, event_rows,
  event_batch_max, own_job, emit_job_events,
}
use infernet_protocol.Control.OwnJob.{Owns, FindsJob, own_job-FindsJob}

-- What is stored of an event's data: an empty object where there is none.
abbrev pub IsPayload : Js → Js → Type 0
IsPayload undefined p = p ≡ obj end
IsPayload null p = p ≡ obj end
IsPayload v p = p ≡ v

-- The row of an event: it is the job's, with the event's data and its type, one of the four.
abbrev pub IsEventOf : String → Js → EventRow → Type 0
IsEventOf job_id e row =
    (fs : Fields) × (e ≡ obj fs)
    × (row.job_id ≡ job_id)
    × (get_field "event_type" fs ≡ str row.event_type)
    × ((row.event_type ≡ "meta")
        ⊎ (row.event_type ≡ "token")
        ⊎ (row.event_type ≡ "done")
        ⊎ (row.event_type ≡ "error"))
    × IsPayload (get_field "data" fs) row.payload

-- One row for each event, in order.
abbrev pub AreEventsOf : String → List Js → List EventRow → Type 0
AreEventsOf job_id [] [] = Unit
AreEventsOf job_id (e ∷ es) (row ∷ rows) = IsEventOf job_id e row × AreEventsOf job_id es rows
AreEventsOf job_id [] (row ∷ rows) = ⊥
AreEventsOf job_id (e ∷ es) [] = ⊥

payload_of-IsPayload : (v : Js) → IsPayload v (payload_of v)
payload_of-IsPayload undefined = refl
payload_of-IsPayload null = refl
payload_of-IsPayload (Js.bool b) = refl
payload_of-IsPayload (Js.num n) = refl
payload_of-IsPayload (str t) = refl
payload_of-IsPayload (Js.arr xs) = refl
payload_of-IsPayload (obj fs) = refl

known_type :
    (x : String)
    → any (str_eq x) event_types ≡ true
    → (x ≡ "meta") ⊎ (x ≡ "token") ⊎ (x ≡ "done") ⊎ (x ≡ "error")
known_type x h = elim (Bool-cases (str_eq x "meta")) [
  | inl e ↦ inl ((eq_iff x "meta").0 e)
  | inr e1 ↦ elim (Bool-cases (str_eq x "token")) [
    | inl e ↦ inr (inl ((eq_iff x "token").0 e))
    | inr e2 ↦ elim (Bool-cases (str_eq x "done")) [
      | inl e ↦ inr (inr (inl ((eq_iff x "done").0 e)))
      | inr e3 ↦ elim (Bool-cases (str_eq x "error")) [
        | inl e ↦ inr (inr (inr ((eq_iff x "error").0 e)))
        | inr e4 ↦ let wrong : false ≡ true = rw (e1, e2, e3, e4) at h in cc
      ]
    ]
  ]
]

event_of-IsEventOf :
    (job_id : String) (fs : Fields) (kind : Js) (row : EventRow)
    → get_field "event_type" fs ≡ kind
    → event_of job_id kind (get_field "data" fs) ≡ some row
    → IsEventOf job_id (obj fs) row
event_of-IsEventOf job_id fs (str x) row same h = elim (Bool-cases (any (str_eq x) event_types)) [
  | inl known ↦
      let made : some
            (record { job_id = job_id; event_type = x; payload = payload_of (get_field "data" fs) })
          ≡ some row =
        rw (known, event_of) at h in
      let one : ◌≡◌ {A = EventRow}
          (record { job_id = job_id; event_type = x; payload = payload_of (get_field "data" fs) })
          row =
        cc in
      rw (← one)
        (fs, refl, refl, same, known_type x known, payload_of-IsPayload (get_field "data" fs))
  | inr unknown ↦ let wrong : none ≡ some row = rw (unknown, event_of) at h in cc
]
event_of-IsEventOf job_id fs undefined row same h = cc
event_of-IsEventOf job_id fs null row same h = cc
event_of-IsEventOf job_id fs (Js.bool b) row same h = cc
event_of-IsEventOf job_id fs (Js.num n) row same h = cc
event_of-IsEventOf job_id fs (Js.arr xs) row same h = cc
event_of-IsEventOf job_id fs (obj o) row same h = cc

event_row-IsEventOf :
    (job_id : String) (e : Js) (row : EventRow)
    → event_row job_id e ≡ some row
    → IsEventOf job_id e row
unfolding event_row
event_row-IsEventOf job_id (obj fs) row h =
    event_of-IsEventOf job_id fs (get_field "event_type" fs) row refl h
event_row-IsEventOf job_id undefined row h = cc
event_row-IsEventOf job_id null row h = cc
event_row-IsEventOf job_id (Js.bool b) row h = cc
event_row-IsEventOf job_id (Js.num n) row h = cc
event_row-IsEventOf job_id (str t) row h = cc
event_row-IsEventOf job_id (Js.arr xs) row h = cc

event_rows-AreEventsOf :
    (job_id : String) (es : List Js) (rows : List EventRow)
    → event_rows job_id es ≡ some rows
    → AreEventsOf job_id es rows
unfolding event_rows
event_rows-AreEventsOf job_id [] [] h = tt
event_rows-AreEventsOf job_id [] (row ∷ rows) h = cc
event_rows-AreEventsOf job_id (e ∷ es) rows h =
    joined (event_rows-AreEventsOf job_id es) (event_row job_id e) (event_rows job_id es) refl refl
      rows h
  where
    joined :
        ((rows : List EventRow) → event_rows job_id es ≡ some rows → AreEventsOf job_id es rows)
        → (o : Option EventRow) (later : Option (List EventRow)) → event_row job_id e ≡ o
        → event_rows job_id es ≡ later
        → (rows : List EventRow) → join_event o later ≡ some rows
        → AreEventsOf job_id (e ∷ es) rows
    joined rest none later p q rows k = cc
    joined rest (some r) none p q rows k = cc
    joined rest (some r) (some rs) p q [] k = cc
    joined rest (some r) (some rs) p q (x ∷ xs) k =
        let head : r ≡ x = cc in
        let tail : rs ≡ xs = cc in
        (
          subst (IsEventOf job_id e) head (event_row-IsEventOf job_id e r p),
          rest xs (q ∙ ap some tail),
        )

module _ (s : Supabase Tables) (t : Texts) (cpr : Cpr) where
  -- What adding events does: the whole batch, or nothing.
  abbrev pub Emission : String → String → List Js → Tables → Tables → Result ℕ → Type 0
  Emission k job_id es before after (ok n) =
      (provider : NodeRow) × (job : JobRow) × (rows : List EventRow) × Owns before k job_id provider
        job
      × AreEventsOf job_id es rows
      × (n ≡ length rows)
      × (1 ≤ length es)
      × (length es ≤ event_batch_max)
      × (after ≡ record before { events = before.events ++ rows })
  Emission k job_id es before after (err e) = after ≡ before

  written-Emission :
      (k job_id : String) (es : List Js) (provider : NodeRow) (job : JobRow) (before : Tables)
      (d : s.Db)
      → Owns before k job_id provider job
      → 1 ≤ length es
      → length es ≤ event_batch_max
      → s.tables d ≡ before
      → Emission k job_id es before
          (s.tables (write_events s t cpr job_id es d).0)
          (write_events s t cpr job_id es d).1
  written-Emission k job_id es provider job before d owned few many same =
      elim (Option-cases (event_rows job_id es)) [
        | inl e ↦ rw e same
        | inr (rows, e) ↦
            let f : Tables → Tables = λ tables. record tables { events = tables.events ++ rows } in
            rw e (
              ask_rule s (λ (p : s.Db × Result ℕ). Emission k job_id es before (s.tables p.0) p.1) f
                (λ tables. reply tt) (λ written. unwrap written >>= λ w. return (length rows)) d
                (λ d' x kept. kept ∙ same)
                (λ d' h. (
                  provider,
                  job,
                  rows,
                  owned,
                  event_rows-AreEventsOf job_id es rows e,
                  refl,
                  few,
                  many,
                  h ∙ ap f same,
                )))
      ]

  -- Adding events is refused with no change at all, or it adds one row for each event of the batch,
  -- in order, to the job of the caller; a batch has 1 to 200 events, each of the type meta, token, done
  -- or error, and its row has that type and its data.
  pub emit_job_events-Emission :
      (k job_id : String) (es : List Js) (db : s.Db)
      → Emission k job_id es
          (s.tables db)
          (s.tables (emit_job_events s t cpr k job_id (some es) db).0)
          (emit_job_events s t cpr k job_id (some es) db).1
  unfolding emit_job_events
  emit_job_events-Emission k job_id es db = elim (Bool-cases (str_eq job_id "")) [
    | inl e ↦ rw e refl
    | inr named ↦ elim (Bool-cases (ltb 0 (length es))) [
      | inr e ↦ rw (named, e) refl
      | inl few ↦ elim (Bool-cases (leb (length es) event_batch_max)) [
        | inr e ↦ rw (named, few, e) refl
        | inl many ↦
            let done =
              go (ltb→lt _ _ few) (leb→le _ _ many) (own_job s t cpr k job_id db)
                (own_job-FindsJob s t cpr k job_id db) in
            rw (named, few, many) (rw (named) at done)
      ]
    ]
  ]
    where
      go :
          1 ≤ length es
          → length es ≤ event_batch_max
          → (m : s.Db × Result (NodeRow × JobRow)) → FindsJob s t cpr k job_id db m
          → Emission k job_id es
              (s.tables db)
              (s.tables (and_then (λ owned. write_events s t cpr job_id es) m).0)
              (and_then (λ owned. write_events s t cpr job_id es) m).1
      go few many (d, err e) same = same
      go few many (d, ok (provider, job)) (same, owned) =
          written-Emission k job_id es provider job (s.tables db) d owned few many same
