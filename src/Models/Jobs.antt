-- ===== src/Models/Jobs.antt =====
-- packages/db/src/models/job.js
use infernet_protocol.Common.{
  Bool, true, false, ◌||◌, Option, none, some, [], ◌∷◌, String, str_eq, if◌then◌else◌,
}
use infernet_protocol.Common.Js.{
  pos, Js, undefined, num, str, obj, Fields, end, field, get_field, truthy,
}
use infernet_protocol.Engine.Protocol.{set_field, spread}
use infernet_protocol.Control.Store.{Supabase, M, ◌>>=◌, return}
use infernet_protocol.Models.Rows.{
  Table, Columns, pick_columns, first_defined, add_defined, update_single, find_single, insert_row,
}

abbrev pub job_columns : Columns
job_columns =
    ("title", [])
    ∷ ("status", [])
    ∷ ("payment_offer", "paymentOffer" ∷ [])
    ∷ ("model_name", "modelName" ∷ [])
    ∷ ("client_name", "clientName" ∷ [])
    ∷ ("type", [])
    ∷ ("client_id", "clientId" ∷ [])
    ∷ ("provider_id", "providerId" ∷ [])
    ∷ ("aggregator_id", "aggregatorId" ∷ [])
    ∷ ("input_spec", "inputSpec" ∷ [])
    ∷ ("result", [])
    ∷ ("error", [])
    ∷ ("payment_coin", "paymentCoin" ∷ [])
    ∷ ("payment_tx_hash", "paymentTxHash" ∷ [])
    ∷ ("payment_status", "paymentStatus" ∷ [])
    ∷ ("payment_invoice", "paymentInvoice" ∷ [])
    ∷ ("assigned_at", "assignedAt" ∷ [])
    ∷ ("completed_at", "completedAt" ∷ [])
    ∷ ("updated_at", "updatedAt" ∷ [])
    ∷ []

-- `pickJobColumns`
unfoldable pub pick_job_columns : Fields → Fields
pick_job_columns input = pick_columns job_columns input

abbrev pub job_defaults : Fields
job_defaults = field "status" (str "pending") (
    field "payment_offer" (num (pos 0)) (
      field "type" (str "inference")
        (field "input_spec" (obj end) (field "payment_status" (str "unpaid") end))))

abbrev pub with_title : String → Fields → Fields
with_title title payload =
    if truthy (get_field "title" payload) then payload else set_field "title" (str title) payload

-- Whether a status ends a job.
abbrev pub is_over : String → Bool
is_over status = str_eq status "completed" || str_eq status "failed"

abbrev pub is_unassigned : Option Fields → Bool
is_unassigned none = false
is_unassigned (some row) = if truthy (get_field "assigned_at" row) then false else true

abbrev pub assigned_now : Bool → String → Fields → Fields
assigned_now unassigned now patch =
    if unassigned then set_field "assigned_at" (str now) patch else patch

abbrev pub completed_now : Bool → String → Fields → Fields
completed_now over now patch = if over then set_field "completed_at" (str now) patch else patch

abbrev pub status_patch : String → String → Fields
status_patch now status = field "status" (str status) (field "updated_at" (str now) end)

-- The amount of a payment, or its offer, if it is a number.
abbrev pub payment_offer : Fields → Js
payment_offer payment = elim (get_field "amount" payment) [
  | num n ↦ num n
  | _ ↦ elim (get_field "payment_offer" payment) [ num n ↦ num n | _ ↦ undefined ]
]

-- `payment` as an object.
abbrev pub payment_patch : Fields → Fields → Fields
payment_patch payment base =
    let coin = first_defined ("payment_coin" ∷ "coin" ∷ []) payment in
    let hash = first_defined ("payment_tx_hash" ∷ "txHash" ∷ "tx_hash" ∷ []) payment in
    let invoice = first_defined ("payment_invoice" ∷ "invoice" ∷ []) payment in
    let status = first_defined ("payment_status" ∷ "status" ∷ []) payment in
    spread base (
      add_defined "payment_coin" coin (
        add_defined "payment_tx_hash" hash (
          add_defined "payment_invoice" invoice (
            add_defined "payment_status" status
              (add_defined "payment_offer" (payment_offer payment) end)))))

abbrev pub payment_change : Js → Fields → Fields
payment_change payment base = elim payment [
  | num n ↦ set_field "payment_offer" (num n) base
  | obj fs ↦ payment_patch fs base
  | _ ↦ base
]

-- The model, with the defaults of the table's columns.
module _ (s : Supabase Table) (columns : Fields) where
  -- `create`; the title is `Job-` and the time.
  unfoldable pub create : String → Fields → M s.Db Fields
  create title data_given =
      insert_row s columns (with_title title (pick_job_columns (spread job_defaults data_given)))

  -- `findByJobId`
  unfoldable pub find_by_job_id : String → M s.Db (Option Fields)
  find_by_job_id job_id = find_single s "id" job_id

  -- `assignToProvider`
  unfoldable pub assign_to_provider : String → String → String → M s.Db Fields
  assign_to_provider now job_id provider_id = update_single s "id" job_id (
      field "provider_id" (str provider_id) (
        field "status" (str "assigned")
          (field "assigned_at" (str now) (field "updated_at" (str now) end))))

  -- `assignToAggregator`
  unfoldable pub assign_to_aggregator : String → String → String → M s.Db Fields
  assign_to_aggregator now job_id aggregator_id = update_single s "id" job_id (
      field "aggregator_id" (str aggregator_id) (
        field "status" (str "assigned_to_aggregator")
          (field "assigned_at" (str now) (field "updated_at" (str now) end))))

  -- The look-up of a job that starts to run.
  abbrev pub lacks_assignment : String → String → M s.Db Bool
  lacks_assignment job_id status =
      if str_eq status "running"
      then (find_by_job_id job_id >>= λ existing. return (is_unassigned existing))
      else return false

  -- `updateStatus`
  unfoldable pub update_status : String → String → String → M s.Db Fields
  update_status now job_id status = do
    unassigned ← lacks_assignment job_id status
    update_single s "id" job_id
        (completed_now (is_over status) now (assigned_now unassigned now (status_patch now status)))

  -- `updatePayment`
  unfoldable pub update_payment : String → String → Js → M s.Db Fields
  update_payment now job_id payment =
      update_single s "id" job_id (payment_change payment (field "updated_at" (str now) end))

  -- `recordResult`
  unfoldable pub record_result : String → String → Js → M s.Db Fields
  record_result now job_id result = update_single s "id" job_id (
      add_defined "result" result (
        field "status" (str "completed")
          (field "completed_at" (str now) (field "updated_at" (str now) end))))

  -- `recordFailure`
  unfoldable pub record_failure : String → String → String → M s.Db Fields
  record_failure now job_id message = update_single s "id" job_id (
      field "error" (str message) (
        field "status" (str "failed")
          (field "completed_at" (str now) (field "updated_at" (str now) end))))
