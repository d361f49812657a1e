-- ===== src/Control/Commands.antt =====
-- apps/web/lib/data/node-commands.js: the commands that owners issue and daemons carry out.
use infernet_protocol.Common.{
  ℕ, if◌then◌else◌, Bool, true, false, ◌&&◌, ◌||◌, not, Option, none, some, List, [], ◌∷◌, ◌++◌,
  String, str_eq, take, keep, any,
}
use infernet_protocol.Common.Js.{ℤ, Js, null}
use infernet_protocol.Control.Tables.{CommandRow, LinkRow, Tables}
use infernet_protocol.Control.Store.{
  Supabase, Reply, reply, fault, M, ◌>>=◌, ◌>>◌, return, require, unwrap, present, maybe_single,
  ask,
}
use infernet_protocol.Control.Limits.{clamp, sort_by, sort_down}
use infernet_protocol.Control.Jobs.{is_undefined, payload_of}

abbrev pub known_commands : List String
known_commands = "model_install" ∷ "model_remove" ∷ []

-- `isValidCommand`
unfoldable pub is_valid_command : String → Bool
is_valid_command verb = any (str_eq verb) known_commands

abbrev pub links_to : String → String → LinkRow → Bool
links_to user k l = str_eq l.user_id user && str_eq l.pubkey k

abbrev pub is_found {ℓ} : {A : Type ℓ} → Option A → Bool
is_found none = false
is_found (some a) = true

abbrev pub for_key : String → CommandRow → Bool
for_key k r = str_eq r.pubkey k

abbrev pub is_waiting : CommandRow → Bool
is_waiting r = str_eq r.status "pending"

abbrev pub waits_for : String → CommandRow → Bool
waits_for k r = for_key k r && is_waiting r

abbrev pub issued : CommandRow → ℕ
issued r = r.issued_at

abbrev pub has_command_id : String → CommandRow → Bool
has_command_id id r = str_eq r.id id

abbrev pub claimed : ℕ → CommandRow → CommandRow
claimed now r = record r { status = "running"; started_at = some now }

-- The row with which the update answers.
abbrev pub claimed_row : ℕ → Reply (Option CommandRow) → Option CommandRow
claimed_row now (fault e) = none
claimed_row now (reply none) = none
claimed_row now (reply (some r)) = some (claimed now r)

-- `update({ status: "running", … }).eq("id", id).eq("status", "pending")`
unfoldable pub claim : ℕ → String → List CommandRow → List CommandRow
claim now id [] = []
claim now id (r ∷ rs) =
    (if has_command_id id r && is_waiting r then claimed now r else r) ∷ claim now id rs

abbrev pub claimable : String → CommandRow → Bool
claimable id r = has_command_id id r && is_waiting r

abbrev pub new_command : String → ℕ → String → String → String → Js → CommandRow
new_command id now user k verb args = record {
  id = id;
  pubkey = k;
  command = verb;
  args = payload_of args;
  status = "pending";
  issued_by = user;
  result = null;
  error = none;
  issued_at = now;
  started_at = none;
  completed_at = none;
}

-- The patch of `completeCommandForNode`. An empty text is no error message.
abbrev pub finished : ℕ → String → Js → Option String → CommandRow → CommandRow
finished now status result message r = record r {
  status = status;
  completed_at = some now;
  result = if is_undefined result then r.result else result;
  error = elim message [ none ↦ r.error | some e ↦ if str_eq e "" then r.error else some e ];
}

abbrev pub change_command : String → (CommandRow → CommandRow) → List CommandRow → List CommandRow
change_command id f [] = []
change_command id f (r ∷ rs) = (if has_command_id id r then f r else r) ∷ change_command id f rs

abbrev pub is_final : String → Bool
is_final status = str_eq status "completed" || str_eq status "failed"

module _ (s : Supabase Tables) where
  -- `userOwnsPubkey`
  unfoldable pub user_owns_pubkey : String → String → M s.Db Bool
  user_owns_pubkey user k = do
    found ← ask s (λ t. t) (λ t. maybe_single (keep (links_to user k) t.links))
    row ← unwrap found
    return (is_found row)

  -- `issueCommand`
  unfoldable pub issue_command : ℕ → String → String → String → Js → M s.Db CommandRow
  issue_command now user k verb args db =
      (do
        require (is_valid_command verb) 400
        written ←
            ask s
              (λ t. record t {
                commands = t.commands ++ new_command (s.new_id db) now user k verb args ∷ [];
              })
              (λ t. reply (new_command (s.new_id db) now user k verb args))
        unwrap written)
        db

  -- `listCommandsForPubkey`
  unfoldable pub list_commands_for_pubkey : String → String → Option ℤ → M s.Db (List CommandRow)
  list_commands_for_pubkey user k limit = do
    owns ← user_owns_pubkey user k
    require owns 403
    found ←
        ask s (λ t. t)
          (λ t. reply (take (clamp 20 100 limit) (sort_down issued (keep (for_key k) t.commands))))
    unwrap found

  -- One round of the loop of `pollCommandsForNode`: the row, if this daemon claimed it. An error, and
  -- a row that is pending no more, are passed over.
  unfoldable pub claim_command : ℕ → String → M s.Db (Option CommandRow)
  claim_command now id = do
    updated ←
        ask s (λ t. record t { commands = claim now id t.commands })
          (λ t. maybe_single (keep (claimable id) t.commands))
    return (claimed_row now updated)

  abbrev pub add_claimed : Option CommandRow → List CommandRow → List CommandRow
  add_claimed none rows = rows
  add_claimed (some r) rows = r ∷ rows

  unfoldable pub claim_all : ℕ → List CommandRow → M s.Db (List CommandRow)
  claim_all now [] = return []
  claim_all now (r ∷ rs) = do
    row ← claim_command now r.id
    rows ← claim_all now rs
    return (add_claimed row rows)

  -- `pollCommandsForNode`
  unfoldable pub poll_commands_for_node : ℕ → String → Option ℤ → M s.Db (List CommandRow)
  poll_commands_for_node now k limit = do
    found ←
        ask s (λ t. t)
          (λ t. reply (take (clamp 5 10 limit) (sort_by issued (keep (waits_for k) t.commands))))
    pending ← unwrap found
    claim_all now pending

  -- `completeCommandForNode`, with the answer to its look-up.
  abbrev pub finish_command :
      ℕ
      → String
      → String
      → String
      → Js
      → Option String
      → Reply (Option CommandRow)
      → M s.Db (String × String)
  finish_command now k id status result message found = do
    looked ← unwrap found
    row ← present 404 looked
    require (str_eq row.pubkey k) 403
    written ←
        ask s
          (λ t. record t {
            commands = change_command id (finished now status result message) t.commands;
          })
          (λ t. reply tt)
    unwrap written
    return (id, status)

  unfoldable pub complete_command_for_node :
      ℕ → String → String → String → Js → Option String → M s.Db (String × String)
  complete_command_for_node now k id status result message = do
    require (not (str_eq id "")) 400
    require (is_final status) 400
    found ← ask s (λ t. t) (λ t. maybe_single (keep (has_command_id id) t.commands))
    finish_command now k id status result message found
