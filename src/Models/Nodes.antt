-- ===== src/Models/Nodes.antt =====
-- packages/db/src/models: what the models of clients, providers and aggregators share. Their code
-- differs in the columns, the defaults and the prefix of a name.
use infernet_protocol.Common.{
  Bool, true, false, Option, none, some, String, str_eq, keep, if◌then◌else◌,
}
use infernet_protocol.Common.Js.{Js, str, obj, Fields, end, field, get_field, truthy, or_else}
use infernet_protocol.Engine.Protocol.{set_field, spread}
use infernet_protocol.Control.Store.{Supabase, reply, fault, M, ◌>>=◌, return, ask, maybe_single}
use infernet_protocol.Models.Rows.{
  Table, Columns, matches, add_defined, pick_columns, update_single, find_single, insert_row,
  delete_where,
}

-- The columns of a table, the values that a registration sets unless it is given others, and the
-- defaults of the columns.
pub record Kind : Type 0 where
  pub columns : Columns
  pub defaults : Fields
  pub column_defaults : Fields

abbrev pub named : String → Fields → Fields
named name payload =
    if truthy (get_field "name" payload) then payload else set_field "name" (str name) payload

-- The values of a registration; `last_seen` is set like a default.
unfoldable pub registration : Kind → String → String → Fields → Fields
registration k now name data_given = named name (
    pick_columns k.columns
      (spread (spread k.defaults (field "last_seen" (str now) end)) data_given))

-- A text that is not empty.
abbrev pub given_text : Js → Option String
given_text (str v) = if str_eq v "" then none else some v
given_text _ = none

abbrev pub id_of : Fields → String
id_of row = elim (get_field "id" row) [ str v ↦ v | _ ↦ "" ]

module _ (s : Supabase Table) where
  -- `findByNodeId`: by the node's id, or else by the row's.
  unfoldable pub find_by_node_id : String → M s.Db (Option Fields)
  find_by_node_id node_id = do
    found ← find_single s "node_id" node_id
    elim found [ some row ↦ return (some row) | none ↦ find_single s "id" node_id ]

  -- `findByPublicKey`
  unfoldable pub find_by_public_key : String → M s.Db (Option Fields)
  find_by_public_key public_key = find_single s "public_key" public_key

  -- The look-up of a row by its id, whose error is not read.
  abbrev pub find_unread : String → M s.Db (Option Fields)
  find_unread id = do
    r ← ask s (λ rows. rows) (λ rows. maybe_single (keep (matches "id" id) rows))
    elim r [ reply row ↦ return row | fault e ↦ return none ]

  -- The update of the row that is there, or a new row.
  abbrev pub update_or_insert : Kind → String → String → Fields → Option Fields → M s.Db Fields
  update_or_insert k column value payload (some row) = update_single s column value payload
  update_or_insert k column value payload none = insert_row s k.column_defaults payload

  abbrev pub register_payload : Kind → Option String → Option String → Fields → M s.Db Fields
  register_payload k (some node_id) id payload = do
    existing ← find_by_node_id node_id
    update_or_insert k "node_id" node_id payload existing
  register_payload k none (some id) payload = do
    existing ← find_unread id
    update_or_insert k "id" id payload existing
  register_payload k none none payload = insert_row s k.column_defaults payload

  -- `register`; the name is the random one.
  unfoldable pub register : Kind → String → String → Fields → M s.Db Fields
  register k now name data_given =
      let payload = registration k now name data_given in
      register_payload k (given_text (get_field "node_id" payload))
        (given_text (get_field "id" data_given)) payload

  -- The setters, by their columns.
  abbrev pub set_columns : String → Fields → M s.Db Fields
  set_columns node_id patch = update_single s "node_id" node_id patch

  unfoldable pub update_node_status : String → String → M s.Db Fields
  update_node_status node_id status = set_columns node_id (field "status" (str status) end)

  -- `updateSpecs`
  unfoldable pub update_specs : String → String → Js → M s.Db Fields
  update_specs now node_id specs =
      set_columns node_id
        (field "specs" (or_else specs (obj end)) (field "last_seen" (str now) end))

  -- `updatePrice`
  unfoldable pub update_price : String → Js → M s.Db Fields
  update_price node_id price = set_columns node_id (add_defined "price" price end)

  -- `updateReputation`
  unfoldable pub update_reputation : String → Js → M s.Db Fields
  update_reputation node_id reputation =
      set_columns node_id (add_defined "reputation" reputation end)

  -- `updateLoad`
  unfoldable pub update_load : String → Js → M s.Db Fields
  update_load node_id load = set_columns node_id (add_defined "active_jobs" load end)

  -- `updateAddress`
  unfoldable pub update_address : String → String → Js → M s.Db Fields
  update_address now node_id address =
      set_columns node_id (add_defined "address" address (field "last_seen" (str now) end))

  -- `heartbeat`
  unfoldable pub bump_last_seen : String → String → M s.Db Fields
  bump_last_seen now node_id = set_columns node_id (field "last_seen" (str now) end)

  -- `delete`
  unfoldable pub delete_node : String → M s.Db Bool
  delete_node node_id = do
    existing ← find_by_node_id node_id
    elim existing [
      | none ↦ return false
      | some row ↦ (delete_where s "id" (id_of row) >>= λ w. return true)
    ]
