-- ===== src/Daemon/Accepted.antt =====
-- The batches of apps/cli/lib/chat-executor.js at `emitJobEvents` of apps/web/lib/data/node-api.js.
use infernet_protocol.Common.{
  ℕ, ◌<◌, ◌≡◌, ◌⊎◌, ◌∙◌, refl, sym, ap, subst, true, false, inl, inr, some, List, [], ◌∷◌, All, all,
  leb, le→leb, ltb, length, flatten, arith, String, str_eq,
}
use infernet_protocol.Common.Js.{Js}
use infernet_protocol.Control.Tables.{JobRow, EventRow, NodeRow, Tables}
use infernet_protocol.Control.Store.{
  Supabase, Reply, fault, ask, reply, Result, ok, err, and_then, return, unwrap,
}
use infernet_protocol.Control.Specs.{Texts}
use infernet_protocol.Control.Receipts.{Cpr}
use infernet_protocol.Control.Jobs.{event_rows, own_job, write_events, emit_job_events}
use infernet_protocol.Daemon.Batches.{IsSized}
use infernet_protocol.Daemon.Upload.{Moment, Batches, Chat, Ending, no_answer, execute_chat_job}
use infernet_protocol.Daemon.Stored.{
  is_stored_type, events_of-IsStored, each_batch, All-left, IsStored, stored_batch,
}
use infernet_protocol.Daemon.Posted.{execute_chat_job-Posts}

lt_to_ltb : (a b : ℕ) → a < b → ltb a b ≡ true
lt_to_ltb a b h = ground arith

module _ (s : Supabase Tables) (t : Texts) (cpr : Cpr) where
  -- Why adding events fails: as the look-up of the job does, or with an error of the database.
  abbrev pub IsUnrefused : String → String → List Js → s.Db → Type 0
  IsUnrefused k job_id es db =
      (e : ℕ)
      → (emit_job_events s t cpr k job_id (some es) db).1 ≡ err e
      → ((own_job s t cpr k job_id db).1 ≡ err e) ⊎ (e ≡ 500)

  unwrap-err :
      (r : Reply (Unit {0})) (n : ℕ) (d : s.Db) (e : ℕ)
      → (and_then (λ w. return n) (unwrap r d)).1 ≡ err e
      → e ≡ 500
  unwrap-err (reply a) n d e h = cc
  unwrap-err (fault x) n d e h = cc

  write_events-err :
      (job_id : String) (es : List Js) (rows : List EventRow) (d : s.Db) (e : ℕ)
      → event_rows job_id es ≡ some rows
      → (write_events s t cpr job_id es d).1 ≡ err e
      → e ≡ 500
  unfolding ask
  write_events-err job_id es rows d e known h = unwrap-err _ (length rows) _ e (rw known at h)

  then-IsUnrefused :
      (job_id : String) (es : List Js) (rows : List EventRow) (e : ℕ)
      (m : s.Db × Result (NodeRow × JobRow))
      → event_rows job_id es ≡ some rows
      → (and_then (λ owned. write_events s t cpr job_id es) m).1 ≡ err e
      → (m.1 ≡ err e) ⊎ (e ≡ 500)
  then-IsUnrefused job_id es rows e (d, err x) known h =
      let same : x ≡ e = cc in inl (ap (λ n. err n) same)
  then-IsUnrefused job_id es rows e (d, ok owned) known h =
      inr (write_events-err job_id es rows d e known h)

  -- Past the tests of the batch's size.
  emit_job_events-sized :
      (k job_id : String) (es : List Js) (db : s.Db)
      → str_eq job_id "" ≡ false
      → ltb 0 (length es) ≡ true
      → leb (length es) 200 ≡ true
      → emit_job_events s t cpr k job_id (some es) db
        ≡ and_then (λ owned. write_events s t cpr job_id es) (own_job s t cpr k job_id db)
  unfolding emit_job_events
  emit_job_events-sized k job_id es db named few many = rw (named, few, many) refl

  batch-IsUnrefused :
      (k job_id : String) (es : List Js) (db : s.Db)
      → str_eq job_id "" ≡ false
      → IsSized es
      → All (IsStored job_id) es
      → IsUnrefused k job_id es db
  batch-IsUnrefused k job_id es db named (few, many) stored e h =
      let (rows, known) = stored_batch job_id es stored in
      let some_events : ltb 0 (length es) ≡ true = lt_to_ltb 0 (length es) few in
      let few_events : leb (length es) 200 ≡ true = le→leb (length es) 200 (omega (arith, many)) in
      then-IsUnrefused job_id es rows e (own_job s t cpr k job_id db) known (
        ap (λ (p : s.Db × Result ℕ). p.1)
          (sym (emit_job_events-sized k job_id es db named some_events few_events))
        ∙ h)

  each_batch-IsUnrefused :
      (k job_id : String) (batches : Batches)
      → str_eq job_id "" ≡ false
      → All IsSized batches
      → All (All (IsStored job_id)) batches
      → All (λ es. (db : s.Db) → IsUnrefused k job_id es db) batches
  each_batch-IsUnrefused k job_id [] named sized stored = tt
  each_batch-IsUnrefused k job_id (es ∷ batches) named sized stored = (
    λ db. batch-IsUnrefused k job_id es db named sized.0 stored.0,
    each_batch-IsUnrefused k job_id batches named sized.1 stored.1,
  )

  -- If the engine sends no messages but meta, token, done and error, then the control plane refuses
  -- none of the batches that a chat job posts for what it holds: each is refused only where the look-up of
  -- the caller and of the job fails, or by the database.
  pub execute_chat_job-IsUnrefused :
      (c : Chat) (t0 : ℕ) (evs : List (Moment × Js)) (last : Ending) (k job_id : String)
      → all (λ (p : Moment × Js). is_stored_type p.1) evs ≡ true
      → str_eq job_id "" ≡ false
      → All (λ es. (db : s.Db) → IsUnrefused k job_id es db) (execute_chat_job c t0 evs last).0
  execute_chat_job-IsUnrefused c t0 evs last k job_id known named =
      let (lost, whole, short, told, sized) = execute_chat_job-Posts c t0 evs last in
      let all_stored = events_of-IsStored job_id c evs no_answer known in
      let batches = (execute_chat_job c t0 evs last).0 in
      each_batch-IsUnrefused k job_id batches named sized (
        each_batch (IsStored job_id) batches (
          All-left (IsStored job_id) (flatten batches) lost
            (subst (λ es. All (IsStored job_id) es) (sym whole) all_stored)))
