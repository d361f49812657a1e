-- ===== src/Control/Examples.antt =====
-- Tests of the control plane, on a database whose next requests are refused as a list says.
use infernet_protocol.Common.{◌≡◌, refl, none, some, [], ◌∷◌, All}
use infernet_protocol.Common.Js.{pos, Js, undefined, num, str, obj, arr, end, field, nil, cons}
use infernet_protocol.Auth.Gate.{table_for_role}
use infernet_protocol.Control.Tables.{CoarseSpecs}
use infernet_protocol.Control.Store.{ok, err, ask}
use infernet_protocol.Control.Specs.{sanitize_specs, sanitize_gpus, sanitize_gpu, vram_tier}
use infernet_protocol.Control.Nodes.{NodeBody, register_node, payload, write, upsert_from}
use infernet_protocol.Control.Receipts.{drain_pending_receipts}
use infernet_protocol.Control.Queue.{HasAttempts}
use infernet_protocol.Control.Drain.{IsReport, drain_pending_receipts-IsReport}
use infernet_protocol.Control.Jobs.{
  CompletionBody, poll_jobs_for_node, complete_job_for_node, emit_job_events,
}
use infernet_protocol.Control.Completion.{Completion, complete_job_for_node-Completion}
use infernet_protocol.Control.Emission.{Emission, emit_job_events-Emission}
use infernet_protocol.Control.Payouts.{set_payout_for_node}
use infernet_protocol.Control.DefaultPayout.{Outcome, set_payout_for_node-Outcome}
use infernet_protocol.Control.Commands.{
  claimed, claim_command, claim_all, complete_command_for_node,
}
use infernet_protocol.Control.Claims.{claim_command-once}
use infernet_protocol.Control.Claiming.{Registration, register_node-Registration}
use infernet_protocol.Control.Ownership.{Finish, complete_command_for_node-Finish}
use infernet_protocol.Control.Coarse.{IsCoarse, sanitize_specs-IsCoarse}
use infernet_protocol.Control.TestServer.{Server, server, texts, cpr, command, initial, db}
use infernet_protocol.Control.Polls.{Page, poll_jobs_for_node-Page}

abbrev body : NodeBody
body = record {
  node_id = str "n1";
  name = undefined;
  status = undefined;
  address = undefined;
  port = undefined;
  gpu_model = undefined;
  price = undefined;
  specs = undefined;
}

abbrev done : CompletionBody
done = record { status = str "completed"; result = obj end; error = undefined }

claimed_first : (claim_command server 20 "c1" db).1 ≡ ok (some (claimed 20 command))
unfolding claim_command ask
claimed_first = refl

claim_command-once_example :
    (claim_command server 22 "c1"
      (claim_all server 21 (command ∷ []) (claim_command server 20 "c1" db).0).0).1
    ≡ ok none
claim_command-once_example = claim_command-once server 20 21 22 "c1" (command ∷ []) db claimed_first

complete_job_for_node-Completion_example :
    Completion server texts cpr 30 "k1" "j1" done initial
      (complete_job_for_node server texts cpr 30 "k1" "j1" done db).0.1
      (complete_job_for_node server texts cpr 30 "k1" "j1" done db).1
complete_job_for_node-Completion_example =
    complete_job_for_node-Completion server texts cpr 30 "k1" "j1" done db

abbrev token : Js
token = obj (field "event_type" (str "token") end)

emit_job_events-Emission_example :
    Emission server texts cpr "k1" "j1"
      (token ∷ [])
      initial
      (emit_job_events server texts cpr "k1" "j1" (some (token ∷ [])) db).0.1
      (emit_job_events server texts cpr "k1" "j1" (some (token ∷ [])) db).1
emit_job_events-Emission_example =
    emit_job_events-Emission server texts cpr "k1" "j1" (token ∷ []) db

drain_pending_receipts-IsReport_example :
    ((drain_pending_receipts server cpr 50 25 db).0.1
      ≡ record initial { receipts = (drain_pending_receipts server cpr 50 25 db).0.1.receipts })
    × All HasAttempts (drain_pending_receipts server cpr 50 25 db).0.1.receipts
    × IsReport server cpr (drain_pending_receipts server cpr 50 25 db).1
drain_pending_receipts-IsReport_example =
    drain_pending_receipts-IsReport server cpr 50 25 db (refl, tt)

set_payout_for_node-Outcome_example :
    Outcome "k1" "ETH" "eth" "a2" initial
      (set_payout_for_node server "k1" "ETH" "eth" "a2" db).0.1.payouts
      (set_payout_for_node server "k1" "ETH" "eth" "a2" db).1
set_payout_for_node-Outcome_example = set_payout_for_node-Outcome server "k1" "ETH" "eth" "a2" db

complete_command_for_node-Finish_example :
    Finish server 60 "k1" "c1"
      (obj end)
      none
      initial.commands
      (complete_command_for_node server 60 "k1" "c1" "completed" (obj end) none db).0.1.commands
      (complete_command_for_node server 60 "k1" "c1" "completed" (obj end) none db).1
complete_command_for_node-Finish_example =
    complete_command_for_node-Finish server 60 "k1" "c1" "completed" (obj end) none db

register_node-Registration_example :
    Registration server "provider" "k1" body db
      (register_node server texts 70 "provider" "k1" body db).0.1
      (register_node server texts 70 "provider" "k1" body db).1
register_node-Registration_example =
    register_node-Registration server texts 70 "provider" "k1" body db

-- The owner's registration is answered with its row; that of another key is refused.
owner_registers : (register_node server texts 70 "provider" "k1" body db).1 ≡ ok ("p1", "n1")
unfolding register_node table_for_role ask payload write upsert_from
owner_registers = refl

other_key_refused : register_node server texts 70 "provider" "k2" body db ≡ (db, err 403)
unfolding register_node table_for_role ask
other_key_refused = refl

-- The first request fails.
abbrev failing : Server
failing = (some "timeout" ∷ [], initial)

abbrev hardware : Js
hardware = obj (
    field "hostname" (str "box") (
      field "gpus"
        (arr
          (cons (obj (field "vendor" (str "nvidia") (field "vram_mb" (num (pos 24576)) end))) nil))
        end))

abbrev kept_hardware : CoarseSpecs
kept_hardware = record {
  gpus = record { vendor = "nvidia"; vram_tier = "24-48gb"; model = none } ∷ [];
  gpu_count = 1;
}

hardware_kept : sanitize_specs texts hardware ≡ some kept_hardware
unfolding sanitize_specs sanitize_gpus sanitize_gpu vram_tier
hardware_kept = refl

sanitize_specs-IsCoarse_example : IsCoarse kept_hardware
sanitize_specs-IsCoarse_example = sanitize_specs-IsCoarse texts hardware hardware_kept

poll_jobs_for_node-Page_example :
    ((poll_jobs_for_node server texts cpr "k1" (some (pos 40)) db).0.1 ≡ initial)
    × Page "k1" initial (poll_jobs_for_node server texts cpr "k1" (some (pos 40)) db).1
poll_jobs_for_node-Page_example = poll_jobs_for_node-Page server texts cpr "k1" (some (pos 40)) db
