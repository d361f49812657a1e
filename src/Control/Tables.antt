-- ===== src/Control/Tables.antt =====
-- The tables that the control plane of apps/web keeps in its database, with the columns that
-- lib/data/node-api.js and lib/data/node-commands.js read and write. Amounts and times are integers.
use infernet_protocol.Common.{ℕ, Bool, Option, List, String}
use infernet_protocol.Common.Js.{ℤ, Js, Fields}

-- A graphics card as the sanitizer leaves it.
pub record Gpu : Type 0 where
  pub vendor : String
  pub vram_tier : String
  pub model : Option String

pub record CoarseSpecs : Type 0 where
  pub gpus : List Gpu
  pub gpu_count : ℕ

-- The `specs` column: what the sanitizer made, or an object as a node sent it.
pub data Specs : Type 0 where
  coarse : CoarseSpecs → Specs
  raw : Fields → Specs

-- A row of `providers`, `aggregators` or `clients`.
pub record NodeRow : Type 0 where
  pub id : String
  pub node_id : String
  pub public_key : Option String
  pub name : String
  pub status : Option String
  pub last_seen : ℕ
  pub address : Option String
  pub port : Option ℤ
  pub gpu_model : Option String
  pub price : Option ℤ
  pub specs : Option Specs

pub record JobRow : Type 0 where
  pub id : String
  pub provider_id : Option String
  pub status : String
  pub payment_offer : Option ℤ
  pub payment_coin : Option String
  pub result : Js
  pub error : Option String
  pub created_at : ℕ
  pub updated_at : ℕ
  pub completed_at : Option ℕ

-- A row of `payment_transactions` that `completeJobForNode` adds; its direction is outbound.
pub record PaymentRow : Type 0 where
  pub job_id : String
  pub provider_id : String
  pub coin : String
  pub amount : ℤ
  pub status : String

pub record EventRow : Type 0 where
  pub job_id : String
  pub event_type : String
  pub payload : Js

pub record PayoutRow : Type 0 where
  pub provider_id : String
  pub coin : String
  pub network : String
  pub address : String
  pub is_default : Bool

pub record CommandRow : Type 0 where
  pub id : String
  pub pubkey : String
  pub command : String
  pub args : Js
  pub status : String
  pub issued_by : String
  pub result : Js
  pub error : Option String
  pub issued_at : ℕ
  pub started_at : Option ℕ
  pub completed_at : Option ℕ

-- A party of a receipt: `did:nostr:<key>`, or the anonymous form with a job's id.
pub data Did : Type 0 where
  nostr : String → Did
  anonymous : Option String → Did

pub data Verdict : Type 0 where
  accepted rejected disputed : Verdict

-- The body of a CPR receipt, without the parts that `completeJobForNode` always leaves empty.
pub record Receipt : Type 0 where
  pub receipt_id : String
  pub task_id : String
  pub agent_did : Did
  pub buyer_did : Did
  pub category : String
  pub amount : ℤ
  pub currency : Option String
  pub escrow_tx : Option String
  pub outcome : Verdict
  pub dispute : Bool
  pub created_at : ℕ

-- A row of `cpr_receipts_queue`.
pub record QueueRow : Type 0 where
  pub receipt_id : String
  pub job_id : Option String
  pub receipt : Receipt
  pub status : String
  pub attempts : ℕ
  pub next_attempt_at : ℕ
  pub last_error : Option String
  pub sent_at : Option ℕ

pub record LinkRow : Type 0 where
  pub user_id : String
  pub pubkey : String

pub record Tables : Type 0 where
  pub providers : List NodeRow
  pub aggregators : List NodeRow
  pub clients : List NodeRow
  pub jobs : List JobRow
  pub payments : List PaymentRow
  pub events : List EventRow
  pub payouts : List PayoutRow
  pub commands : List CommandRow
  pub links : List LinkRow
  pub receipts : List QueueRow
