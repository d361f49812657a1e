-- ===== src/Payments/Examples.antt =====
-- Tests of the payment callbacks.
use infernet_protocol.Common.{◌≡◌, refl, none, some, [], ◌∷◌, String}
use infernet_protocol.Common.Js.{Js, str, null, obj, end, field}
use infernet_protocol.Control.Store.{Supabase}
use infernet_protocol.Payments.Gateway.{Gateway, includes, status_of_text}
use infernet_protocol.Payments.Webhook.{PaymentRow, JobPayment, Ledger, post_webhook}
use infernet_protocol.Payments.Outcomes.{Outcome, post_webhook-Outcome}

abbrev plain : Js → String
plain (str s) = s
plain _ = ""

-- Every body says that the invoice "i1" is paid, and every signature is good.
abbrev gateway : Gateway
gateway = record {
  parse = λ t. some (obj (field "id" (str "i1") (field "status" (str "paid") end)));
  hmac_hex = λ k t. "00";
  hex_bytes = λ t. 0 ∷ [];
  to_lower_case = λ t. t;
  to_upper_case = λ t. t;
  show = plain;
}

abbrev unpaid_row : PaymentRow
unpaid_row = record { invoice_id = "i1"; status = "pending"; tx_hash = null; confirmed_at = none }

abbrev unpaid_job : JobPayment
unpaid_job = record { payment_invoice = "i1"; payment_status = "pending"; payment_tx_hash = null }

abbrev ledger : Ledger
ledger = record { payments = unpaid_row ∷ []; jobs = unpaid_job ∷ [] }

never-refused : (f : Ledger → Ledger) (t : Ledger) (e : String) → none ≡ some e → f t ≡ t
never-refused f t e h = cc

-- A server that carries out each request.
abbrev server : Supabase Ledger
server = record {
  Db = Ledger;
  tables = λ (t : Ledger). t;
  refused = λ t. none;
  attempt = λ f t. f t;
  new_id = λ t. "new";
  carried_out = λ f t h. refl;
  kept = λ f t e h. never-refused f t e h;
}

post_webhook-Outcome_example :
    Outcome gateway
      (some "secret")
      7
      "{}"
      (some "sha256=00")
      ledger
      (post_webhook gateway server (some "secret") 7 "{}" (some "sha256=00") ledger).0
      (post_webhook gateway server (some "secret") 7 "{}" (some "sha256=00") ledger).1
post_webhook-Outcome_example =
    post_webhook-Outcome gateway server (some "secret") 7 "{}" (some "sha256=00") ledger

-- A status that denies the payment holds the word that confirms it.
unpaid-confirmed : status_of_text gateway "unpaid" ≡ "confirmed"
unfolding status_of_text includes
unpaid-confirmed = refl

unconfirmed-confirmed : status_of_text gateway "unconfirmed" ≡ "confirmed"
unfolding status_of_text includes
unconfirmed-confirmed = refl

expired-failed : status_of_text gateway "invoice.expired" ≡ "failed"
unfolding status_of_text includes
expired-failed = refl
