-- ===== src/Control/Receipts.antt =====
-- apps/web/lib/cpr: the receipts of finished jobs, their queue, and its draining. The reputation
-- service and the texts of its errors are the parameters of `Cpr`.
use infernet_protocol.Common.{
  ℕ, ◌+◌, ◌*◌, ◌^◌, leb, ◌==◌, min, max, if◌then◌else◌, Bool, true, false, ◌&&◌, ◌||◌, Option, none,
  some, List, [], ◌∷◌, ◌++◌, String, str_eq, length, take, keep, all,
}
use infernet_protocol.Common.Js.{ℤ, pos, codes}
use infernet_protocol.Auth.Envelope.{is_hex}
use infernet_protocol.Control.Tables.{
  Did, nostr, anonymous, Verdict, accepted, rejected, Receipt, QueueRow, Tables,
}
use infernet_protocol.Control.Store.{
  Supabase, Reply, reply, fault, M, ◌>>=◌, ◌>>◌, return, require, unwrap, maybe_single, ask,
}
use infernet_protocol.Control.Limits.{sort_by}

-- What `submitReceipt` meets: an exception, or a response with its `ok` and its status.
pub data Response : Type 0 where
  broken : String → Response
  http : Bool → ℕ → Response

pub record Cpr : Type 0 where
  pub is_configured : Bool
  pub submit : Receipt → Response
  pub to_lower_case : String → String
  -- The texts kept in `last_error`, cut to 1024 places.
  pub clip_error : String → String
  pub describe : ℕ → String
  pub new_uuid : String

abbrev pub max_attempts : ℕ
max_attempts = 8

abbrev pub backoff_base_s : ℕ
backoff_base_s = 30

unfoldable pub backoff_seconds : ℕ → ℕ
backoff_seconds attempts = backoff_base_s * 2 ^ attempts

pub data Class : Type 0 where
  sent retry permanent_fail : Class

-- `classifyResult`
unfoldable pub classify_result : Bool → ℕ → Class
classify_result is_ok status =
    if is_ok
    then sent
    else if status == 408 || status == 429 || leb 500 status
    then retry
    else if leb 400 status
    then permanent_fail
    else retry

-- `partyDid`, with the job id of its anonymous form.
unfoldable pub party_did : Cpr → Option String → Option String → Did
party_did cpr none job_id = anonymous job_id
party_did cpr (some k) job_id =
    if length (codes k) == 64 && all is_hex (codes k)
    then nostr (cpr.to_lower_case k)
    else anonymous job_id

-- `outcomeFromJob`, where nothing is disputed.
unfoldable pub outcome_from_job : String → Verdict
outcome_from_job status = if str_eq status "failed" then rejected else accepted

-- `Number.parseFloat(payment_offer ?? 0) || 0`
abbrev pub amount_of : Option ℤ → ℤ
amount_of none = pos 0
amount_of (some n) = n

-- `buildReceiptBody` for a finished inference job and its provider, with neither client nor events.
-- The job type and the payment hash are not among the columns that the caller has read.
unfoldable pub build_receipt_body :
    Cpr → ℕ → String → String → Option ℤ → Option String → String → Receipt
build_receipt_body cpr now job_id status offer coin k = record {
  receipt_id = cpr.new_uuid;
  task_id = job_id;
  agent_did = party_did cpr (some k) none;
  buyer_did = party_did cpr none (some job_id);
  category = "inference:chat";
  amount = amount_of offer;
  currency = coin;
  escrow_tx = none;
  outcome = outcome_from_job status;
  dispute = false;
  created_at = now;
}

-- `update(…).eq("receipt_id", id)`
abbrev pub change_receipt : String → (QueueRow → QueueRow) → List QueueRow → List QueueRow
change_receipt id f [] = []
change_receipt id f (r ∷ rs) = (if str_eq r.receipt_id id then f r else r) ∷ change_receipt id f rs

abbrev pub change : String → (QueueRow → QueueRow) → Tables → Tables
change id f t = record t { receipts = change_receipt id f t.receipts }

abbrev pub as_sent : ℕ → QueueRow → QueueRow
as_sent now r = record r { status = "sent"; sent_at = some now; last_error = none }

abbrev pub as_failed : String → QueueRow → QueueRow
as_failed e r = record r { status = "permanent_fail"; last_error = some e }

abbrev pub as_retried : ℕ → ℕ → String → QueueRow → QueueRow
as_retried now attempts e r = record r {
  status = if leb max_attempts attempts then "failed" else "pending";
  attempts = attempts;
  last_error = some e;
  next_attempt_at = now + backoff_seconds attempts * 1000;
}

abbrev pub has_receipt_id : String → QueueRow → Bool
has_receipt_id id r = str_eq r.receipt_id id

abbrev pub is_pending : QueueRow → Bool
is_pending r = str_eq r.status "pending"

-- `row?.attempts ?? 0`, where the error of the look-up is not read.
abbrev pub attempts_of : Reply (Option QueueRow) → ℕ
attempts_of (fault e) = 0
attempts_of (reply none) = 0
attempts_of (reply (some r)) = r.attempts

module _ (s : Supabase Tables) (cpr : Cpr) where
  abbrev pub new_row : ℕ → Option String → Receipt → QueueRow
  new_row now job_id r = record {
    receipt_id = r.receipt_id;
    job_id = job_id;
    receipt = r;
    status = "pending";
    attempts = 0;
    next_attempt_at = now;
    last_error = none;
    sent_at = none;
  }

  -- `enqueueReceipt`
  unfoldable pub enqueue_receipt : ℕ → Option String → Receipt → M s.Db (Unit {0})
  enqueue_receipt now job_id r = do
    require (if str_eq r.receipt_id "" then false else true) 500
    written ←
        ask s (λ t. record t { receipts = t.receipts ++ new_row now job_id r ∷ [] }) (λ t. reply tt)
    unwrap written

  -- `markSent`, `markPermanentFail` and `markRetry`, whose errors are not read.
  unfoldable pub mark_sent : ℕ → String → M s.Db (Unit {0})
  mark_sent now id = do written ← ask s (change id (as_sent now)) (λ t. reply tt); return tt

  unfoldable pub mark_permanent_fail : String → String → M s.Db (Unit {0})
  mark_permanent_fail id e = do
    written ← ask s (change id (as_failed (cpr.clip_error e))) (λ t. reply tt)
    return tt

  unfoldable pub mark_retry : ℕ → String → String → M s.Db (Unit {0})
  mark_retry now id e = do
    found ← ask s (λ t. t) (λ t. maybe_single (keep (has_receipt_id id) t.receipts))
    written ←
        ask s (change id (as_retried now (attempts_of found + 1) (cpr.clip_error e)))
          (λ t. reply tt)
    return tt

  abbrev pub record_class : ℕ → Receipt → ℕ → Class → M s.Db Class
  record_class now r status sent = do mark_sent now r.receipt_id; return sent
  record_class now r status permanent_fail = do
    mark_permanent_fail r.receipt_id (cpr.describe status)
    return permanent_fail
  record_class now r status retry = do
    mark_retry now r.receipt_id (cpr.describe status)
    return retry

  abbrev pub record_response : ℕ → Receipt → Response → M s.Db Class
  record_response now r (broken e) = do mark_retry now r.receipt_id e; return retry
  record_response now r (http is_ok status) =
      record_class now r status (classify_result is_ok status)

  -- `tryFlushReceipt`; the text "pending" that it returns is `retry` here.
  unfoldable pub try_flush_receipt : ℕ → Receipt → M s.Db Class
  try_flush_receipt now r =
      if cpr.is_configured then record_response now r (cpr.submit r) else return retry

  -- `enqueueAndFlush`
  unfoldable pub enqueue_and_flush : ℕ → String → Receipt → M s.Db Class
  enqueue_and_flush now job_id r = do enqueue_receipt now (some job_id) r; try_flush_receipt now r

  pub record Drained : Type 0 where
    pub scanned : ℕ
    pub sent_count : ℕ
    pub retry_count : ℕ
    pub fail_count : ℕ

  abbrev pub tally : Class → Drained → Drained
  tally sent d = record d { sent_count = d.sent_count + 1 }
  tally permanent_fail d = record d { fail_count = d.fail_count + 1 }
  tally retry d = record d { retry_count = d.retry_count + 1 }

  -- The loop of `drainPendingReceipts`. `tryFlushReceipt` throws nothing.
  unfoldable pub drain_rows : ℕ → List QueueRow → Drained → M s.Db Drained
  drain_rows now [] d = return d
  drain_rows now (r ∷ rs) d = do
    class ← try_flush_receipt now r.receipt
    drain_rows now rs (tally class d)

  abbrev pub is_due : ℕ → QueueRow → Bool
  is_due now r = is_pending r && leb r.next_attempt_at now

  abbrev pub due_rows : ℕ → ℕ → Tables → List QueueRow
  due_rows now limit t =
      take limit (sort_by (λ (r : QueueRow). r.next_attempt_at) (keep (is_due now) t.receipts))

  -- `drainPendingReceipts`
  unfoldable pub drain_pending_receipts : ℕ → ℕ → M s.Db Drained
  drain_pending_receipts now batch_size = do
    found ← ask s (λ t. t) (λ t. reply (due_rows now (max 1 (min 100 batch_size)) t))
    rows ← unwrap found
    drain_rows now rows
        (record { scanned = length rows; sent_count = 0; retry_count = 0; fail_count = 0 })
