-- ===== src/Models/Rows.antt =====
-- packages/db/src/models: the requests to one table. A row is an object; an id is a text. A request
-- that asks for a single row and finds none, or more than one, fails and changes nothing.
use infernet_protocol.Common.{
  Bool, true, false, Option, List, [], ◌∷◌, ◌++◌, String, str_eq, map, keep, not, if◌then◌else◌,
}
use infernet_protocol.Common.Js.{Js, undefined, str, Fields, end, field, get_field}
use infernet_protocol.Engine.Protocol.{set_field, spread}
use infernet_protocol.Control.Store.{
  Supabase, Reply, reply, fault, M, ◌>>=◌, unwrap, maybe_single, ask,
}

abbrev pub Table : Type 0
Table = List Fields

-- `.eq(column, value)`
abbrev pub matches : String → String → Fields → Bool
matches column value row = elim (get_field column row) [ str s ↦ str_eq s value | _ ↦ false ]

abbrev pub patched : String → String → Fields → Fields → Fields
patched column value patch row = if matches column value row then spread row patch else row

-- `.single()`
abbrev pub single : {A : Type 0} → List A → Reply A
single [] = fault "no rows"
single (x ∷ []) = reply x
single (x ∷ y ∷ rest) = fault "multiple rows"

abbrev pub is_single : {A : Type 0} → List A → Bool
is_single [] = false
is_single (x ∷ []) = true
is_single (x ∷ y ∷ rest) = false

abbrev pub update_where : String → String → Fields → Table → Table
update_where column value patch rows =
    if is_single (keep (matches column value) rows)
    then map (patched column value patch) rows
    else rows

-- The first of some properties that is not undefined.
abbrev pub first_defined : List String → Fields → Js
first_defined [] input = undefined
first_defined (k ∷ ks) input =
    let later = first_defined ks input in elim (get_field k input) [ undefined ↦ later | v ↦ v ]

abbrev pub add_defined : String → Js → Fields → Fields
add_defined c undefined out = out
add_defined c v out = field c v out

-- The columns of a table, each with the other names of its property, and what is set of them.
abbrev pub Columns : Type 0
Columns = List (String × List String)

unfoldable pub pick_columns : Columns → Fields → Fields
pick_columns [] input = end
pick_columns ((c, others) ∷ cols) input =
    add_defined c (first_defined (c ∷ others) input) (pick_columns cols input)

module _ (s : Supabase Table) where
  -- `.update(patch).eq(column, value).select().single()`
  unfoldable pub update_single : String → String → Fields → M s.Db Fields
  update_single column value patch = do
    r ←
        ask s (update_where column value patch)
          (λ rows. single (map (λ row. spread row patch) (keep (matches column value) rows)))
    unwrap r

  -- `.select('*').eq(column, value).maybeSingle()`
  unfoldable pub find_single : String → String → M s.Db (Option Fields)
  find_single column value = do
    r ← ask s (λ rows. rows) (λ rows. maybe_single (keep (matches column value) rows))
    unwrap r

  -- `.select('*')`, with tests and an order.
  unfoldable pub find_all : (Table → Table) → M s.Db Table
  find_all query = do r ← ask s (λ rows. rows) (λ rows. reply (query rows)); unwrap r

  -- `.insert(payload).select().single()`; the first argument is the defaults of the columns.
  unfoldable pub insert_row : Fields → Fields → M s.Db Fields
  insert_row defaults payload db =
      let row = set_field "id" (str (s.new_id db)) (spread defaults payload) in
      (ask s (λ rows. rows ++ row ∷ []) (λ rows. reply row) >>= λ r. unwrap r) db

  -- `.delete().eq(column, value)`
  unfoldable pub delete_where : String → String → M s.Db (Unit {0})
  delete_where column value = do
    r ← ask s (keep (λ row. not (matches column value row))) (λ rows. reply tt)
    unwrap r
