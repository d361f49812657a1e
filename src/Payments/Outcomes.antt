-- ===== src/Payments/Outcomes.antt =====
-- What a payment callback leaves of the tables of apps/web.
use infernet_protocol.Common.{
  ℕ, suc, ◌≡◌, ◌≢◌, refl, sym, subst, ap, ◌∙◌, Bool, true, false, not, ◌⊎◌, inl, inr, Bool-cases,
  Option, some, Option-cases, List, [], ◌∷◌, String, str_eq, eq_iff, keep, length, map, All,
  if◌then◌else◌, arith,
}
use infernet_protocol.Common.Js.{truthy}
use infernet_protocol.Control.Store.{
  Supabase, reply, Result, ok, err, ask_rule, unwrap, ◌>>◌, and_then-ok, and_then-err,
}
use infernet_protocol.Payments.Gateway.{
  Gateway, PaymentEvent, verify_webhook_signature, parse_webhook_payload,
}
use infernet_protocol.Payments.Webhook.{
  PaymentRow, JobPayment, Ledger, paid_row, paid_job, update_payments, update_jobs, write,
  record_event, post_webhook,
}

-- The rows of others are as they were, and the own ones are as many and pass `P`.
pub record Marked {A : Type 0} (own : A → Bool) (P : A → Type 0) (before after : List A)
    : Type 0 where
  pub others : keep (λ r. not (own r)) after ≡ keep (λ r. not (own r)) before
  pub count : length (keep own after) ≡ length (keep own before)
  pub each : All P (keep own after)

module _ {A : Type 0} (own : A → Bool) (P : A → Type 0) (f : A → A)
    (same : (r : A) → own (f r) ≡ own r) (good : (r : A) → P (f r)) where
  Marked-map : (rs : List A) → Marked own P rs (map (λ r. if own r then f r else r) rs)
  Marked-map [] = record { others = refl; count = refl; each = tt }
  Marked-map (r ∷ rs) =
      let rest = Marked-map rs in
      elim (Bool-cases (own r)) [
        | inl e ↦ record {
          others = rw (e, same r ∙ e) rest.others;
          count = rw (e, same r ∙ e) (ap suc rest.count);
          each = rw (e, same r ∙ e) (good r, rest.each);
        }
        | inr e ↦ record {
          others = rw (e, e) (ap (λ t. r ∷ t) rest.others);
          count = rw (e, e) rest.count;
          each = rw (e, e) rest.each;
        }
      ]

-- A payment's rows after an event: its status, and the time where the event confirms it.
abbrev pub PaymentsMarked : Gateway → ℕ → PaymentEvent → Ledger → Ledger → Type 0
PaymentsMarked g now e before after =
    Marked (λ (r : PaymentRow). str_eq r.invoice_id (g.show e.invoice_id))
      (λ (r : PaymentRow).
        (r.status ≡ e.status) × ((e.status ≢ "confirmed") ⊎ (r.confirmed_at ≡ some now)))
      before.payments after.payments

abbrev pub JobsMarked : Gateway → PaymentEvent → Ledger → Ledger → Type 0
JobsMarked g e before after =
    Marked (λ (j : JobPayment). str_eq j.payment_invoice (g.show e.invoice_id))
      (λ (j : JobPayment). j.payment_status ≡ e.status) before.jobs after.jobs

-- The result of a callback with its tables before and after it, where `e` is what it says, if it is
-- signed and names an invoice.
abbrev pub Outcome :
    Gateway
    → Option String
    → ℕ
    → String
    → Option String
    → Ledger
    → Ledger
    → Result (Unit {0})
    → Type 0
Outcome g secret now raw sig before after (ok _) =
    (e : PaymentEvent) × (verify_webhook_signature g secret raw sig ≡ some true)
    × (parse_webhook_payload g raw ≡ some e)
    × (truthy e.invoice_id ≡ true)
    × PaymentsMarked g now e before after
    × JobsMarked g e before after
Outcome g secret now raw sig before after (err code) =
    (after ≡ before)
    ⊎ ((code ≡ 500)
        × (verify_webhook_signature g secret raw sig ≡ some true)
        × ((e : PaymentEvent) × (parse_webhook_payload g raw ≡ some e)
            × (truthy e.invoice_id ≡ true)
            × PaymentsMarked g now e before after)
        × (after.jobs ≡ before.jobs))

module _ (g : Gateway) (s : Supabase Ledger) (secret : Option String) (now : ℕ) (raw : String)
    (sig : Option String) where
  abbrev Ends : Ledger → s.Db × Result (Unit {0}) → Type 0
  Ends before x = Outcome g secret now raw sig before (s.tables x.0) x.1

  confirmed_time :
      (e : PaymentEvent) (r : PaymentRow)
      → (e.status ≢ "confirmed") ⊎ ((paid_row now e r).confirmed_at ≡ some now)
  confirmed_time e r = elim (Bool-cases (str_eq e.status "confirmed")) [
    | inl b ↦ inr (rw b refl)
    | inr b ↦ inl (λ same. ground (arith, eq_iff e.status "confirmed"))
  ]

  write-cases :
      (f : Ledger → Ledger) (db : s.Db)
      → ((s.tables (write g s f db).0 ≡ f (s.tables db)) × ((write g s f db).1 ≡ ok tt))
        ⊎ ((s.tables (write g s f db).0 ≡ s.tables db) × ((write g s f db).1 ≡ err 500))
  write-cases f db =
      ask_rule s
        (λ x.
          ((s.tables x.0 ≡ f (s.tables db)) × (x.1 ≡ ok tt))
          ⊎ ((s.tables x.0 ≡ s.tables db) × (x.1 ≡ err 500)))
        f (λ l. reply tt) unwrap db (λ db' why kept. inr (kept, refl))
        (λ db' changed. inl (changed, refl))

  updated-PaymentsMarked :
      (e : PaymentEvent) (l : Ledger)
      → PaymentsMarked g now e l (update_payments now (g.show e.invoice_id) e l)
  updated-PaymentsMarked e l =
      Marked-map _ _ (paid_row now e) (λ r. refl) (λ r. (refl, confirmed_time e r)) l.payments

  updated-JobsMarked :
      (e : PaymentEvent) (l : Ledger) → JobsMarked g e l (update_jobs (g.show e.invoice_id) e l)
  updated-JobsMarked e l = Marked-map _ _ (paid_job e) (λ j. refl) (λ j. refl) l.jobs

  -- An outcome of what the tables and the result are equal to.
  Ends-of :
      (before : Ledger) (x : s.Db × Result (Unit {0})) (l : Ledger) (r : Result (Unit {0}))
      → s.tables x.0 ≡ l
      → x.1 ≡ r
      → Outcome g secret now raw sig before l r
      → Ends before x
  Ends-of before x l r p q o =
      subst (λ l'. Outcome g secret now raw sig before l' x.1) (sym p)
        (subst (λ r'. Outcome g secret now raw sig before l r') (sym q) o)

  -- The second update, after the first one.
  second-Ends :
      (e : PaymentEvent) (before : Ledger) (db : s.Db)
      → verify_webhook_signature g secret raw sig ≡ some true
      → parse_webhook_payload g raw ≡ some e
      → truthy e.invoice_id ≡ true
      → s.tables db ≡ update_payments now (g.show e.invoice_id) e before
      → Ends before (write g s (update_jobs (g.show e.invoice_id) e) db)
  second-Ends e before db signed parsed is first =
      let id = g.show e.invoice_id in
      elim (write-cases (update_jobs id e) db) [
        | inl (changed, good) ↦
            Ends-of before _ (update_jobs id e (update_payments now id e before)) (ok tt)
              (changed ∙ ap (update_jobs id e) first) good
              (e, signed, parsed, is, updated-PaymentsMarked e before, updated-JobsMarked e before)
        | inr (kept, bad) ↦
            Ends-of before _ (update_payments now id e before) (err 500) (kept ∙ first) bad
              (inr (refl, signed, (e, parsed, is, updated-PaymentsMarked e before), refl))
      ]

  two_writes-Ends :
      (e : PaymentEvent) (db : s.Db)
      → verify_webhook_signature g secret raw sig ≡ some true
      → parse_webhook_payload g raw ≡ some e
      → truthy e.invoice_id ≡ true
      → Ends (s.tables db) (
          (write g s (update_payments now (g.show e.invoice_id) e)
              >> write g s (update_jobs (g.show e.invoice_id) e))
            db)
  two_writes-Ends e db signed parsed is =
      let id = g.show e.invoice_id in
      let later = λ (u : Unit {0}). write g s (update_jobs id e) in
      let first = write g s (update_payments now id e) db in
      elim (write-cases (update_payments now id e) db) [
        | inl (changed, good) ↦
            subst (Ends (s.tables db)) (sym (and_then-ok later first tt good))
              (second-Ends e (s.tables db) first.0 signed parsed is changed)
        | inr (kept, bad) ↦
            subst (Ends (s.tables db)) (sym (and_then-err later first 500 bad)) (inl kept)
      ]

  record_event-Ends :
      (e : PaymentEvent) (db : s.Db)
      → verify_webhook_signature g secret raw sig ≡ some true
      → parse_webhook_payload g raw ≡ some e
      → Ends (s.tables db) (record_event g s now e db)
  unfolding record_event
  record_event-Ends e db signed parsed = elim (Bool-cases (truthy e.invoice_id)) [
    | inr b ↦ rw b (inl refl)
    | inl b ↦ rw b (two_writes-Ends e db signed parsed b)
  ]

  -- A callback that is not signed, that is not understood or that names no invoice changes nothing;
  -- a signed one marks the rows of its invoice, and these alone, with its status in both tables, or,
  -- if the database refuses the second update, in the payments alone.
  pub post_webhook-Outcome :
      (db : s.Db)
      → Outcome g secret now raw sig
          (s.tables db)
          (s.tables (post_webhook g s secret now raw sig db).0)
          (post_webhook g s secret now raw sig db).1
  unfolding post_webhook
  post_webhook-Outcome db = elim (Option-cases (verify_webhook_signature g secret raw sig)) [
    | inl e ↦ rw e (inl refl)
    | inr (false, e) ↦ rw e (inl refl)
    | inr (true, e) ↦ elim (Option-cases (parse_webhook_payload g raw)) [
      | inl f ↦ rw (e, f) (inl refl)
      | inr (event, f) ↦ rw (e, f) (record_event-Ends event db e f)
    ]
  ]
