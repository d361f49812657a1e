-- ===== src/Control/TestServer.antt =====
-- A database for the tests of the control plane of apps/web: its next requests are refused as a
-- list says.
use infernet_protocol.Common.{◌≡◌, refl, true, false, Option, none, some, List, [], ◌∷◌, String}
use infernet_protocol.Common.Js.{pos, null, obj, end}
use infernet_protocol.Control.Tables.{
  NodeRow, JobRow, PayoutRow, CommandRow, Receipt, QueueRow, Tables, anonymous, accepted,
}
use infernet_protocol.Control.Store.{Supabase}
use infernet_protocol.Control.Specs.{Texts}
use infernet_protocol.Control.Nodes.{blank}
use infernet_protocol.Control.Receipts.{Cpr, http}

-- The errors of the next requests, and the tables.
abbrev pub Server : Type 0
Server = List (Option String) × Tables

abbrev pub next_error : Server → Option String
next_error ([], t) = none
next_error (e ∷ es, t) = e

abbrev pub changed : Option String → (Tables → Tables) → Tables → Tables
changed none f t = f t
changed (some e) f t = t

abbrev pub applied : (Tables → Tables) → Server → Server
applied f ([], t) = ([], f t)
applied f (e ∷ es, t) = (es, changed e f t)

pub applied-done :
    (f : Tables → Tables) (db : Server) → next_error db ≡ none → (applied f db).1 ≡ f db.1
applied-done f ([], t) h = refl
applied-done f (none ∷ es, t) h = refl
applied-done f (some e ∷ es, t) h = cc

pub applied-refused :
    (f : Tables → Tables) (db : Server) (x : String)
    → next_error db ≡ some x
    → (applied f db).1 ≡ db.1
applied-refused f ([], t) x h = cc
applied-refused f (none ∷ es, t) x h = cc
applied-refused f (some e ∷ es, t) x h = refl

abbrev pub server : Supabase Tables
server = record {
  Db = Server;
  tables = λ (db : Server). db.1;
  refused = next_error;
  attempt = applied;
  new_id = λ db. "new";
  carried_out = applied-done;
  kept = applied-refused;
}

abbrev pub texts : Texts
texts = record { to_lower_case = λ s. s; slice = λ n s. s }

abbrev pub cpr : Cpr
cpr = record {
  is_configured = true;
  submit = λ r. http false 503;
  to_lower_case = λ s. s;
  clip_error = λ s. s;
  describe = λ n. "status";
  new_uuid = "r1";
}

abbrev pub node : NodeRow
node = record (blank "p1") { node_id = "n1"; public_key = some "k1" }

abbrev pub job : JobRow
job = record {
  id = "j1";
  provider_id = some "p1";
  status = "assigned";
  payment_offer = some (pos 5);
  payment_coin = none;
  result = null;
  error = none;
  created_at = 10;
  updated_at = 10;
  completed_at = none;
}

abbrev pub command : CommandRow
command = record {
  id = "c1";
  pubkey = "k1";
  command = "model_install";
  args = obj end;
  status = "pending";
  issued_by = "u1";
  result = null;
  error = none;
  issued_at = 10;
  started_at = none;
  completed_at = none;
}

abbrev pub old_payout : PayoutRow
old_payout = record {
  provider_id = "p1";
  coin = "BTC";
  network = "btc";
  address = "a1";
  is_default = true;
}

abbrev pub receipt : Receipt
receipt = record {
  receipt_id = "r0";
  task_id = "j0";
  agent_did = anonymous none;
  buyer_did = anonymous none;
  category = "inference:chat";
  amount = pos 1;
  currency = none;
  escrow_tx = none;
  outcome = accepted;
  dispute = false;
  created_at = 1;
}

abbrev pub queued : QueueRow
queued = record {
  receipt_id = "r0";
  job_id = some "j0";
  receipt = receipt;
  status = "pending";
  attempts = 7;
  next_attempt_at = 5;
  last_error = none;
  sent_at = none;
}

abbrev pub initial : Tables
initial = record {
  providers = node ∷ [];
  aggregators = [];
  clients = [];
  jobs = job ∷ [];
  payments = [];
  events = [];
  payouts = old_payout ∷ [];
  commands = command ∷ [];
  links = [];
  receipts = queued ∷ [];
}

abbrev pub db : Server
db = ([], initial)
