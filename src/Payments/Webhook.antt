-- ===== src/Payments/Webhook.antt =====
-- apps/web/app/api/payments/webhook/route.js: what a callback of the payment service changes.
use infernet_protocol.Common.{ℕ, Bool, ◌&&◌, Option, some, List, String, str_eq, if◌then◌else◌, map}
use infernet_protocol.Common.Js.{Js, truthy}
use infernet_protocol.Control.Store.{Supabase, M, reply, ◌>>=◌, ◌>>◌, ask, unwrap, require, present}
use infernet_protocol.Payments.Gateway.{
  Gateway, PaymentEvent, verify_webhook_signature, parse_webhook_payload,
}

pub record PaymentRow : Type 0 where
  pub invoice_id : String
  pub status : String
  pub tx_hash : Js
  pub confirmed_at : Option ℕ

pub record JobPayment : Type 0 where
  pub payment_invoice : String
  pub payment_status : String
  pub payment_tx_hash : Js

pub record Ledger : Type 0 where
  pub payments : List PaymentRow
  pub jobs : List JobPayment

abbrev pub is_confirmed : PaymentEvent → Bool
is_confirmed e = str_eq e.status "confirmed"

-- The update of a row of `payment_transactions`.
abbrev pub paid_row : ℕ → PaymentEvent → PaymentRow → PaymentRow
paid_row now e r = record {
  invoice_id = r.invoice_id;
  status = e.status;
  tx_hash = if truthy e.tx_hash then e.tx_hash else r.tx_hash;
  confirmed_at = if is_confirmed e then some now else r.confirmed_at;
}

-- The update of a row of `jobs`.
abbrev pub paid_job : PaymentEvent → JobPayment → JobPayment
paid_job e j = record {
  payment_invoice = j.payment_invoice;
  payment_status = e.status;
  payment_tx_hash = if is_confirmed e && truthy e.tx_hash then e.tx_hash else j.payment_tx_hash;
}

-- `.update(…).eq(…)`
abbrev pub update_payments : ℕ → String → PaymentEvent → Ledger → Ledger
update_payments now id e l = record l {
  payments =
      map (λ (r : PaymentRow). if str_eq r.invoice_id id then paid_row now e r else r) l.payments;
}

abbrev pub update_jobs : String → PaymentEvent → Ledger → Ledger
update_jobs id e l = record l {
  jobs = map (λ (j : JobPayment). if str_eq j.payment_invoice id then paid_job e j else j) l.jobs;
}

module _ (g : Gateway) (s : Supabase Ledger) where
  abbrev pub write : (Ledger → Ledger) → M s.Db (Unit {0})
  write f = do r ← ask s f (λ l. reply tt); unwrap r

  -- The two updates of an event. An invoice's id is compared as a text.
  unfoldable pub record_event : ℕ → PaymentEvent → M s.Db (Unit {0})
  record_event now e = do
    require (truthy e.invoice_id) 400
    write (update_payments now (g.show e.invoice_id) e)
    write (update_jobs (g.show e.invoice_id) e)

  -- `POST`
  unfoldable pub post_webhook : Option String → ℕ → String → Option String → M s.Db (Unit {0})
  post_webhook secret now raw_body signature = do
    valid ← present 500 (verify_webhook_signature g secret raw_body signature)
    require valid 401
    e ← present 400 (parse_webhook_payload g raw_body)
    record_event now e
