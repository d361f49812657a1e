-- ===== src/Payments/Gateway.antt =====
-- packages/payments/src/coinpayportal.js: invoices of the payment service and its callbacks. JSON,
-- HMAC, hexadecimal bytes, letter case and the text of a value are parameters.
use Prim.Native.Char.{code}
use text.Mathlib.Text.{starts_with}
use infernet_protocol.Common.{
  ℕ, Bool, true, false, ◌&&◌, ◌||◌, Option, none, some, List, [], ◌∷◌, String, str_eq, ◌==◌, length,
  if◌then◌else◌,
}
use infernet_protocol.Common.Js.{Js, undefined, null, str, member, trim}

pub record Gateway : Type 0 where
  pub parse : String → Option Js
  pub hmac_hex : String → String → String
  pub hex_bytes : String → List ℕ
  pub to_lower_case : String → String
  pub to_upper_case : String → String
  pub show : Js → String

-- `a ?? b`
unfoldable pub coalesce : Js → Js → Js
coalesce undefined b = b
coalesce null b = b
coalesce v b = v

-- `value.includes(part)`
unfoldable pub includes : String → String → Bool
includes String.[] part = starts_with "" part
includes (String.◌∷◌ c s) part =
    let later = includes s part in if starts_with (String.◌∷◌ c s) part then true else later

-- The part after the last equals sign: all of it, if there is none.
unfoldable pub after_equals : String → String → String
after_equals kept String.[] = kept
after_equals kept (String.◌∷◌ c s) =
    let cut = after_equals s s in let on = after_equals kept s in if code c == 61 then cut else on

-- `timingSafeEqual` on buffers of one length.
abbrev same_bytes : List ℕ → List ℕ → Bool
same_bytes [] [] = true
same_bytes (a ∷ more) (b ∷ bs) = a == b && same_bytes more bs
same_bytes _ _ = false

-- The first of the properties that is there.
abbrev pub first_of : Js → String → String → String → Js
first_of data_value a b c =
    coalesce (member data_value a)
      (coalesce (member data_value b) (coalesce (member data_value c) null))

abbrev pub body_of : Js → Js
body_of parsed = coalesce (member parsed "data") (coalesce (member parsed "invoice") parsed)

-- What a callback says.
pub record PaymentEvent : Type 0 where
  pub invoice_id : Js
  pub status : String
  pub tx_hash : Js
  pub coin : Js
  pub network : Js
  pub amount : Js

module _ (g : Gateway) where
  -- `verifyWebhookSignature`: none is the exception for a secret that is not set.
  unfoldable pub verify_webhook_signature : Option String → String → Option String → Option Bool
  verify_webhook_signature secret raw_body none = some false
  verify_webhook_signature secret raw_body (some header) =
      if str_eq header "" then some false else elim secret [
        | none ↦ none
        | some key ↦
            let expected = g.hex_bytes (g.hmac_hex key raw_body) in
            let provided = g.hex_bytes (trim (after_equals header header)) in
            if str_eq key ""
            then none
            else some (length provided == length expected && same_bytes expected provided)
      ]

  abbrev says : String → String → Bool
  says s word = includes s word

  -- The status of a callback, by the words that the service's status holds.
  unfoldable pub status_of_text : String → String
  status_of_text s =
      if says s "confirmed" || says s "completed" || says s "paid" || says s "success"
      then "confirmed"
      else if says s "failed" || says s "expired" || says s "cancelled" || says s "canceled"
      then "failed"
      else "pending"

  unfoldable pub event_in : Js → PaymentEvent
  event_in parsed =
      let body = body_of parsed in
      let raw =
        coalesce (member body "status")
          (coalesce (member body "payment_status") (coalesce (member body "event") (str ""))) in
      record {
        invoice_id = first_of body "invoice_id" "id" "invoiceId";
        status = status_of_text (g.to_lower_case (g.show raw));
        tx_hash = first_of body "tx_hash" "txid" "transaction_id";
        coin = first_of body "coin" "currency" "pay_currency";
        network = coalesce (member body "network") (coalesce (member body "pay_network") null);
        amount = first_of body "amount" "pay_amount" "crypto_amount";
      }

  abbrev event_or_error : Option Js → Option PaymentEvent
  event_or_error none = none
  event_or_error (some null) = none
  event_or_error (some undefined) = none
  event_or_error (some parsed) = some (event_in parsed)

  -- `parseWebhookPayload` on a text; none is an exception, which JSON's `null` raises too.
  unfoldable pub parse_webhook_payload : String → Option PaymentEvent
  parse_webhook_payload raw_body = event_or_error (g.parse raw_body)
