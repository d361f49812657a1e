-- ===== src/Control/Jobs.antt =====
-- apps/web/lib/data/node-api.js: the jobs of a provider, their completion and their events.
use infernet_protocol.Common.{
  ℕ, ltb, leb, if◌then◌else◌, Bool, true, false, ◌&&◌, not, Option, none, some, List, [], ◌∷◌, ◌++◌,
  String, str_eq, length, take, keep, any,
}
use infernet_protocol.Common.Js.{ℤ, pos, negsuc, Js, undefined, null, str, obj, get_field, end}
use infernet_protocol.Control.Tables.{JobRow, PaymentRow, EventRow, NodeRow, Tables}
use infernet_protocol.Control.Store.{
  Supabase, Reply, reply, ok, M, ◌>>=◌, ◌>>◌, return, require, unwrap, present, maybe_single, ask,
}
use infernet_protocol.Control.Limits.{clamp, sort_by}
use infernet_protocol.Control.Specs.{Texts}
use infernet_protocol.Control.Nodes.{key_is, has_key, text}
use infernet_protocol.Control.Receipts.{Cpr, build_receipt_body, amount_of, enqueue_and_flush}

-- The body of a completion.
pub record CompletionBody : Type 0 where
  pub status : Js
  pub result : Js
  pub error : Js

abbrev pub is_failed : Js → Bool
is_failed (str s) = str_eq s "failed"
is_failed _ = false

abbrev pub status_of : Bool → String
status_of bad = if bad then "failed" else "completed"

abbrev pub is_undefined : Js → Bool
is_undefined undefined = true
is_undefined _ = false

-- The patch of `completeJobForNode` on the job's row.
unfoldable pub completed : Texts → ℕ → CompletionBody → JobRow → JobRow
completed t now body r =
    let bad = is_failed body.status in
    record r {
      status = status_of bad;
      updated_at = now;
      completed_at = some now;
      result = if bad then r.result else if is_undefined body.result then r.result else body.result;
      error =
          if bad
          then elim (text body.error) [ none ↦ r.error | some e ↦ some (t.slice 1024 e) ]
          else r.error;
    }

abbrev pub change_job : String → (JobRow → JobRow) → List JobRow → List JobRow
change_job id f [] = []
change_job id f (r ∷ rs) = (if str_eq r.id id then f r else r) ∷ change_job id f rs

abbrev pub has_job_id : String → JobRow → Bool
has_job_id id r = str_eq r.id id

abbrev pub provider_by_key : String → Tables → Reply (Option NodeRow)
provider_by_key k t = maybe_single (keep (has_key k) t.providers)

abbrev pub job_by_id : String → Tables → Reply (Option JobRow)
job_by_id id t = maybe_single (keep (has_job_id id) t.jobs)

abbrev pub is_positive : ℤ → Bool
is_positive (pos n) = ltb 0 n
is_positive (negsuc n) = false

-- `payment_coin ?? "USDC"`
abbrev pub coin_of : Option String → String
coin_of none = "USDC"
coin_of (some c) = c

abbrev pub payment_for : JobRow → String → PaymentRow
payment_for r provider_id = record {
  job_id = r.id;
  provider_id = provider_id;
  coin = coin_of r.payment_coin;
  amount = amount_of r.payment_offer;
  status = "pending";
}

abbrev pub add_payment : PaymentRow → Tables → Tables
add_payment p t = record t { payments = t.payments ++ p ∷ [] }

-- `EVENT_TYPES.has(e.event_type)`, on an object.
abbrev pub event_types : List String
event_types = "meta" ∷ "token" ∷ "done" ∷ "error" ∷ []

abbrev pub event_type_of : Js → Option String
event_type_of (str s) = if any (str_eq s) event_types then some s else none
event_type_of _ = none

-- `e.data ?? {}`
abbrev pub payload_of : Js → Js
payload_of undefined = obj end
payload_of null = obj end
payload_of v = v

abbrev pub event_of : String → Js → Js → Option EventRow
event_of job_id kind value = elim (event_type_of kind) [
  | none ↦ none
  | some k ↦ some (record { job_id = job_id; event_type = k; payload = payload_of value })
]

-- One event; `none` is the exception of an event of no known type.
unfoldable pub event_row : String → Js → Option EventRow
event_row job_id (obj fs) = event_of job_id (get_field "event_type" fs) (get_field "data" fs)
event_row job_id _ = none

abbrev pub join_event : Option EventRow → Option (List EventRow) → Option (List EventRow)
join_event none rows = none
join_event (some r) none = none
join_event (some r) (some rs) = some (r ∷ rs)

unfoldable pub event_rows : String → List Js → Option (List EventRow)
event_rows job_id [] = some []
event_rows job_id (e ∷ es) = join_event (event_row job_id e) (event_rows job_id es)

abbrev pub event_batch_max : ℕ
event_batch_max = 200

abbrev pub is_assigned_to : String → JobRow → Bool
is_assigned_to id r = key_is id r.provider_id && str_eq r.status "assigned"

abbrev pub created : JobRow → ℕ
created r = r.created_at

module _ (s : Supabase Tables) (t : Texts) (cpr : Cpr) where
  abbrev pub find_provider : String → M s.Db NodeRow
  find_provider k = do
    found ← ask s (λ tables. tables) (provider_by_key k)
    row ← unwrap found
    present 404 row

  -- The provider with the key, and the job, which is assigned to it.
  abbrev pub own_job : String → String → M s.Db (NodeRow × JobRow)
  own_job k job_id = do
    require (not (str_eq job_id "")) 400
    provider ← find_provider k
    found ← ask s (λ tables. tables) (job_by_id job_id)
    row ← unwrap found
    job ← present 404 row
    require (key_is provider.id job.provider_id) 403
    return (provider, job)

  -- `pollJobsForNode`
  unfoldable pub poll_jobs_for_node : String → Option ℤ → M s.Db (String × List JobRow)
  poll_jobs_for_node k limit = do
    provider ← find_provider k
    found ←
        ask s (λ tables. tables)
          (λ tables. reply (
            take (clamp 5 25 limit)
              (sort_by created (keep (is_assigned_to provider.id) tables.jobs))))
    jobs ← unwrap found
    return (provider.id, jobs)

  -- The payment for a job that did not fail; its error is only logged.
  unfoldable pub pay : Bool → JobRow → String → M s.Db (Unit {0})
  pay bad job provider_id db =
      if not bad && is_positive (amount_of job.payment_offer)
      then (ask s (add_payment (payment_for job provider_id)) (λ tables. reply tt) >>= λ w.
            return tt)
          db
      else (db, ok tt)

  -- The receipt, whose exceptions are only logged.
  unfoldable pub emit_receipt : ℕ → String → String → JobRow → M s.Db (Unit {0})
  emit_receipt now status k job db = (
    (enqueue_and_flush s cpr now job.id
        (build_receipt_body cpr now job.id status job.payment_offer job.payment_coin k) db).0,
    ok tt,
  )

  -- What follows when the job's row is written.
  abbrev pub pay_and_report : ℕ → String → Bool → NodeRow × JobRow → M s.Db (String × String)
  pay_and_report now k bad (provider, job) = do
    let status = status_of bad
    pay bad job provider.id
    emit_receipt now status k job
    return (job.id, status)

  -- `completeJobForNode`, once the provider and its job are known.
  abbrev pub finish_job : ℕ → String → CompletionBody → NodeRow × JobRow → M s.Db (String × String)
  finish_job now k body (provider, job) = do
    marked ←
        ask s
          (λ tables. record tables { jobs = change_job job.id (completed t now body) tables.jobs })
          (λ tables. reply tt)
    unwrap marked
    pay_and_report now k (is_failed body.status) (provider, job)

  unfoldable pub complete_job_for_node :
      ℕ → String → String → CompletionBody → M s.Db (String × String)
  complete_job_for_node now k job_id body = do owned ← own_job k job_id; finish_job now k body owned

  -- The write of `emitJobEvents`.
  abbrev pub write_events : String → List Js → M s.Db ℕ
  write_events job_id es = do
    rows ← present 400 (event_rows job_id es)
    written ←
        ask s (λ tables. record tables { events = tables.events ++ rows }) (λ tables. reply tt)
    unwrap written
    return (length rows)

  -- `emitJobEvents`; `none` is a value that is no array.
  unfoldable pub emit_job_events : String → String → Option (List Js) → M s.Db ℕ
  emit_job_events k job_id events = do
    require (not (str_eq job_id "")) 400
    es ← present 400 events
    require (ltb 0 (length es)) 400
    require (leb (length es) event_batch_max) 400
    owned ← own_job k job_id
    write_events job_id es
