-- ===== src/Control/Queue.antt =====
-- The queue of receipts of apps/web/lib/cpr/queue.js.
use infernet_protocol.Common.{
  ℕ, ◌+◌, ◌≡◌, refl, ap, ◌∙◌, true, not, ◌||◌, Option, some, List, [], ◌∷◌, ◌++◌, String, str_eq,
  ltb, leb, keep, All, if_rule, arith, Bool-cases, inl, inr,
}
use infernet_protocol.Control.Tables.{QueueRow, Receipt, Tables}
use infernet_protocol.Control.Store.{
  Supabase, reply, Result, ok, err, M, and_then, ◌>>=◌, return, ask, ask_rule, bind_rule, unwrap,
  maybe_single,
}
use infernet_protocol.Control.Receipts.{
  Cpr, Response, broken, http, Class, sent, retry, permanent_fail, classify_result, change_receipt,
  change, as_sent, as_failed, as_retried, is_pending, has_receipt_id, attempts_of, max_attempts,
  new_row, enqueue_receipt, mark_sent, mark_permanent_fail, mark_retry, record_class,
  record_response, try_flush_receipt, enqueue_and_flush,
}

-- A row that still waits has attempts left.
abbrev pub HasAttempts : QueueRow → Type 0
HasAttempts r = (not (is_pending r) || ltb r.attempts max_attempts) ≡ true

-- One state of the tables follows another by work on the queue alone, which leaves every waiting
-- row with attempts.
pub record Flushes (t t' : Tables) : Type 0 where
  pub others : t' ≡ record t { receipts = t'.receipts }
  pub bounded : All HasAttempts t.receipts → All HasAttempts t'.receipts

pub same-Flushes : {t t' : Tables} → t' ≡ t → Flushes t t'
same-Flushes {t} {t'} e = record { others = rw e refl; bounded = λ h. rw e h }

pub trans-Flushes : {a b c : Tables} → Flushes a b → Flushes b c → Flushes a c
trans-Flushes {a} {b} {c} f g = record {
  others = g.others ∙ ap (λ (t : Tables). record t { receipts = c.receipts }) f.others;
  bounded = λ h. g.bounded (f.bounded h);
}

change_receipt-HasAttempts :
    (id : String) (f : QueueRow → QueueRow) (rs : List QueueRow)
    → ((r : QueueRow) → HasAttempts (f r))
    → All HasAttempts rs
    → All HasAttempts (change_receipt id f rs)
change_receipt-HasAttempts id f [] hf h = tt
change_receipt-HasAttempts id f (r ∷ rs) hf (h, hs) =
    let rest = change_receipt-HasAttempts id f rs hf hs in
    elim (Bool-cases (str_eq r.receipt_id id)) [
      | inl e ↦ rw e (hf r, rest)
      | inr e ↦ rw e (h, rest)
    ]

as_retried-HasAttempts :
    (now n : ℕ) (e : String) (r : QueueRow) → HasAttempts (as_retried now n e r)
as_retried-HasAttempts now n e r = elim (Bool-cases (leb max_attempts n)) [
  | inl h ↦ rw h refl
  | inr h ↦ rw h (ground arith)
]

append-HasAttempts :
    (rs : List QueueRow) (r : QueueRow)
    → HasAttempts r
    → All HasAttempts rs
    → All HasAttempts (rs ++ r ∷ [])
append-HasAttempts [] r h hs = (h, tt)
append-HasAttempts (q ∷ qs) r h (hq, hs) = (hq, append-HasAttempts qs r h hs)

change-Flushes :
    (id : String) (f : QueueRow → QueueRow) {t t' : Tables}
    → ((r : QueueRow) → HasAttempts (f r))
    → t' ≡ change id f t
    → Flushes t t'
change-Flushes id f {t} {t'} hf e = record {
  others = rw e refl;
  bounded = λ h. rw e (change_receipt-HasAttempts id f t.receipts hf h);
}

module _ (s : Supabase Tables) (cpr : Cpr) where
  abbrev Work : {A : Type 0} → s.Db → s.Db × Result A → Type 0
  Work db p = Flushes (s.tables db) (s.tables p.0)

  abbrev pub IsOk : {A : Type 0} → Result A → Type 0
  IsOk (ok a) = Unit
  IsOk (err e) = ⊥

  -- Work on the queue alone, that throws nothing.
  abbrev pub Quiet : {A : Type 0} → s.Db → s.Db × Result A → Type 0
  Quiet db p = Flushes (s.tables db) (s.tables p.0) × IsOk p.1

  Quiet-then :
      {A B : Type 0} (db : s.Db) (b : B) (p : s.Db × Result A)
      → Quiet db p
      → Quiet db (and_then (λ a. return b) p)
  Quiet-then db b (d, ok a) (w, o) = (w, tt)
  Quiet-then db b (d, err e) (w, o) = elim o [ ]

  mark_sent-Quiet : (now : ℕ) (id : String) (db : s.Db) → Quiet db (mark_sent s cpr now id db)
  unfolding mark_sent
  mark_sent-Quiet now id db =
      ask_rule s (Quiet db) (change id (as_sent now)) (λ t. reply tt) (λ w. return tt) db
        (λ d e same. (same-Flushes same, tt))
        (λ d e. (change-Flushes id (as_sent now) (λ r. refl) e, tt))

  mark_permanent_fail-Quiet :
      (id x : String) (db : s.Db) → Quiet db (mark_permanent_fail s cpr id x db)
  unfolding mark_permanent_fail
  mark_permanent_fail-Quiet id x db =
      ask_rule s (Quiet db) (change id (as_failed (cpr.clip_error x))) (λ t. reply tt)
        (λ w. return tt) db (λ d e same. (same-Flushes same, tt))
        (λ d e. (change-Flushes id (as_failed (cpr.clip_error x)) (λ r. refl) e, tt))

  abbrev retry_step : ℕ → ℕ → String → String → M s.Db (Unit {0})
  retry_step now n id x = ask s (change id (as_retried now n x)) (λ t. reply tt) >>= λ w. return tt

  retry_step-Quiet :
      (now n : ℕ) (id x : String) (db0 db : s.Db)
      → s.tables db ≡ s.tables db0
      → Quiet db0 (retry_step now n id x db)
  retry_step-Quiet now n id x db0 db h =
      let f = as_retried now n x in
      ask_rule s (Quiet db0) (change id f) (λ t. reply tt) (λ w. return tt) db
        (λ d e same. (same-Flushes (same ∙ h), tt))
        (λ d e. (change-Flushes id f (as_retried-HasAttempts now n x) (e ∙ ap (change id f) h), tt))

  mark_retry-Quiet : (now : ℕ) (id x : String) (db : s.Db) → Quiet db (mark_retry s cpr now id x db)
  unfolding mark_retry
  mark_retry-Quiet now id x db =
      ask_rule s (Quiet db) (λ t. t) (λ t. maybe_single (keep (has_receipt_id id) t.receipts))
        (λ found. retry_step now (attempts_of found + 1) id (cpr.clip_error x)) db
        (λ d e same. retry_step-Quiet now 1 id (cpr.clip_error x) db d same)
        (λ d same.
          retry_step-Quiet now
            (attempts_of (maybe_single (keep (has_receipt_id id) (s.tables db).receipts)) + 1) id
            (cpr.clip_error x) db d same)

  record_class-Quiet :
      (now : ℕ) (r : Receipt) (status : ℕ) (c : Class) (db : s.Db)
      → Quiet db (record_class s cpr now r status c db)
  record_class-Quiet now r status sent db = Quiet-then db _ _ (mark_sent-Quiet now r.receipt_id db)
  record_class-Quiet now r status permanent_fail db =
      Quiet-then db _ _ (mark_permanent_fail-Quiet r.receipt_id (cpr.describe status) db)
  record_class-Quiet now r status retry db =
      Quiet-then db _ _ (mark_retry-Quiet now r.receipt_id (cpr.describe status) db)

  record_response-Quiet :
      (now : ℕ) (r : Receipt) (answer : Response) (db : s.Db)
      → Quiet db (record_response s cpr now r answer db)
  record_response-Quiet now r (broken e) db =
      Quiet-then db _ _ (mark_retry-Quiet now r.receipt_id e db)
  record_response-Quiet now r (http is_ok status) db =
      record_class-Quiet now r status (classify_result is_ok status) db

  pub try_flush_receipt-Quiet :
      (now : ℕ) (r : Receipt) (db : s.Db) → Quiet db (try_flush_receipt s cpr now r db)
  unfolding try_flush_receipt
  try_flush_receipt-Quiet now r db =
      if_rule (λ (m : M s.Db Class). Quiet db (m db)) cpr.is_configured
        (record_response s cpr now r (cpr.submit r)) (return retry)
        (record_response-Quiet now r (cpr.submit r) db) (same-Flushes refl, tt)

  enqueue_receipt-Flushes :
      (now : ℕ) (job_id : Option String) (r : Receipt) (db : s.Db)
      → Work db (enqueue_receipt s cpr now job_id r db)
  unfolding enqueue_receipt
  enqueue_receipt-Flushes now job_id r db =
      let q = new_row s cpr now job_id r in
      elim (Bool-cases (str_eq r.receipt_id "")) [
        | inl e ↦ rw e (same-Flushes refl)
        | inr e ↦ rw e (
            ask_rule s (Work db) (λ t. record t { receipts = t.receipts ++ q ∷ [] }) (λ t. reply tt)
              unwrap db (λ d x same. same-Flushes same)
              (λ d h. record {
                others = rw h refl;
                bounded = λ b. rw h (append-HasAttempts _ q refl b);
              }))
      ]

  pub enqueue_and_flush-Flushes :
      (now : ℕ) (job_id : String) (r : Receipt) (db : s.Db)
      → Flushes (s.tables db) (s.tables (enqueue_and_flush s cpr now job_id r db).0)
  unfolding enqueue_and_flush
  enqueue_and_flush-Flushes now job_id r db =
      let first = enqueue_receipt-Flushes now (some job_id) r db in
      bind_rule (Work db) (λ w. try_flush_receipt s cpr now r)
        (enqueue_receipt s cpr now (some job_id) r db) (λ e h. first)
        (λ a h. trans-Flushes first (try_flush_receipt-Quiet now r _).0)
