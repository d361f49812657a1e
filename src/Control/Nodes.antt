-- ===== src/Control/Nodes.antt =====
-- apps/web/lib/data/node-api.js: registering a node, its heartbeats, and its removal.
use infernet_protocol.Common.{
  ℕ, if◌then◌else◌, Bool, true, false, ◌||◌, not, Option, none, some, List, [], ◌∷◌, String, str_eq,
  keep,
}
use infernet_protocol.Common.Js.{ℤ, Js, num, str, obj}
use infernet_protocol.Auth.Gate.{Role, provider, aggregator, client, table_for_role}
use infernet_protocol.Control.Tables.{NodeRow, Specs, coarse, raw, CoarseSpecs, Tables}
use infernet_protocol.Control.Store.{
  Supabase, Reply, reply, fault, M, ◌>>=◌, ◌>>◌, return, require, unwrap, present, maybe_single,
  ask,
}
use infernet_protocol.Control.Specs.{Texts, sanitize_specs}

-- The properties of a request body that the handlers read.
pub record NodeBody : Type 0 where
  pub node_id : Js
  pub name : Js
  pub status : Js
  pub address : Js
  pub port : Js
  pub gpu_model : Js
  pub price : Js
  pub specs : Js

-- The columns that a request writes; `none` is a column that it leaves alone.
pub record NodePatch : Type 0 where
  pub node_id : Option String
  pub public_key : Option String
  pub name : Option String
  pub status : Option String
  pub last_seen : ℕ
  pub address : Option String
  pub port : Option ℤ
  pub gpu_model : Option String
  pub price : Option ℤ
  pub specs : Option Specs

abbrev pub table : Role → Tables → List NodeRow
table provider t = t.providers
table aggregator t = t.aggregators
table client t = t.clients

abbrev pub set_table : Role → List NodeRow → Tables → Tables
set_table provider rows t = record t { providers = rows }
set_table aggregator rows t = record t { aggregators = rows }
set_table client rows t = record t { clients = rows }

abbrev pub text : Js → Option String
text (str s) = some s
text _ = none

abbrev pub finite : Js → Option ℤ
finite (num n) = some n
finite _ = none

abbrev pub text_or : Js → String → String
text_or (str s) d = s
text_or _ d = d

-- `body.status === "offline" ? "offline" : "available"`
abbrev pub state_of : Js → String
state_of (str s) = if str_eq s "offline" then "offline" else "available"
state_of _ = "available"

abbrev pub is_client : Role → Bool
is_client client = true
is_client _ = false

abbrev pub is_provider : Role → Bool
is_provider provider = true
is_provider _ = false

abbrev pub or_old {ℓ} : {A : Type ℓ} → Option A → Option A → Option A
or_old none old = old
or_old (some a) old = some a

abbrev pub or_text : Option String → String → String
or_text none old = old
or_text (some a) old = a

unfoldable pub write : NodePatch → NodeRow → NodeRow
write p r = record {
  id = r.id;
  node_id = or_text p.node_id r.node_id;
  public_key = or_old p.public_key r.public_key;
  name = or_text p.name r.name;
  status = or_old p.status r.status;
  last_seen = p.last_seen;
  address = or_old p.address r.address;
  port = or_old p.port r.port;
  gpu_model = or_old p.gpu_model r.gpu_model;
  price = or_old p.price r.price;
  specs = or_old p.specs r.specs;
}

abbrev pub blank : String → NodeRow
blank id = record {
  id = id;
  node_id = "";
  public_key = none;
  name = "";
  status = none;
  last_seen = 0;
  address = none;
  port = none;
  gpu_model = none;
  price = none;
  specs = none;
}

abbrev pub has_node_id : String → NodeRow → Bool
has_node_id n r = str_eq r.node_id n

abbrev pub key_is : String → Option String → Bool
key_is k none = false
key_is k (some j) = str_eq j k

abbrev pub has_key : String → NodeRow → Bool
has_key k r = key_is k r.public_key

-- `upsert(payload, { onConflict: "node_id" })`: the row with the node id is written, or a new one
-- with the key `id` is added.
unfoldable pub upsert_from : String → String → NodePatch → List NodeRow → List NodeRow
upsert_from id n p [] = write p (blank id) ∷ []
upsert_from id n p (r ∷ rs) =
    let rest = upsert_from id n p rs in if has_node_id n r then write p r ∷ rs else r ∷ rest

abbrev pub row_id : String → List NodeRow → String → String
row_id n [] d = d
row_id n (r ∷ rs) d = let rest = row_id n rs d in if has_node_id n r then r.id else rest

-- `update(patch).eq("id", id)`
abbrev pub update_rows : String → NodePatch → List NodeRow → List NodeRow
update_rows id p [] = []
update_rows id p (r ∷ rs) = (if str_eq r.id id then write p r else r) ∷ update_rows id p rs

-- `select("id, public_key").eq("node_id", n)`, and `.eq("public_key", k)`
abbrev pub by_node_id : Role → String → Tables → Reply (Option NodeRow)
by_node_id role n t = maybe_single (keep (has_node_id n) (table role t))

abbrev pub by_key : Role → String → Tables → Reply (Option NodeRow)
by_key role k t = maybe_single (keep (has_key k) (table role t))

-- `existing && existing.public_key && existing.public_key !== pubkey`, negated. The error of the
-- look-up is not read: without data there is no existing row.
abbrev pub may_claim : String → Option String → Bool
may_claim k none = true
may_claim k (some j) = str_eq j "" || str_eq j k

abbrev pub claimable : String → Reply (Option NodeRow) → Bool
claimable k (fault e) = true
claimable k (reply none) = true
claimable k (reply (some r)) = may_claim k r.public_key

-- `!nodeId || typeof nodeId !== "string"`, negated
abbrev pub node_id_of : Js → Option String
node_id_of (str s) = if str_eq s "" then none else some s
node_id_of _ = none

abbrev pub clipped : Texts → Js → Option String
clipped t (str s) = some (t.slice 64 s)
clipped t _ = none

abbrev pub coarse_column : Option CoarseSpecs → Option Specs
coarse_column none = none
coarse_column (some c) = some (coarse c)

-- The payload of `registerNode`.
unfoldable pub payload : Texts → ℕ → Role → String → String → NodeBody → NodePatch
payload t now role k n body = record {
  node_id = some n;
  public_key = some k;
  name = some (text_or body.name n);
  status = if is_client role then none else some (state_of body.status);
  last_seen = now;
  address = text body.address;
  port = finite body.port;
  gpu_model = if is_provider role then clipped t body.gpu_model else none;
  price = if is_provider role then finite body.price else none;
  specs = if is_provider role then coarse_column (sanitize_specs t body.specs) else none;
}

-- A body's `specs`, if it is an object and no array.
abbrev pub raw_specs : Js → Option Specs
raw_specs (obj fs) = some (raw fs)
raw_specs _ = none

-- The patch of `heartbeatNode`.
unfoldable pub heartbeat_patch : ℕ → Role → NodeBody → NodePatch
heartbeat_patch now role body = record {
  node_id = none;
  public_key = none;
  name = none;
  status = if is_client role then none else some (state_of body.status);
  last_seen = now;
  address = text body.address;
  port = finite body.port;
  gpu_model = none;
  price = none;
  specs = raw_specs body.specs;
}

module _ (s : Supabase Tables) (t : Texts) where
  -- A request that reads.
  abbrev pub read : {A : Type 0} → (Tables → Reply A) → M s.Db (Reply A)
  read g = ask s (λ tables. tables) g

  abbrev pub upsert_row : Role → String → NodePatch → M s.Db (Reply String)
  upsert_row role n p db =
      ask s (λ tables. set_table role (upsert_from (s.new_id db) n p (table role tables)) tables)
        (λ tables. reply (row_id n (table role tables) (s.new_id db))) db

  -- `registerNode`; the result is the row's id and its node id.
  unfoldable pub register_node : ℕ → String → String → NodeBody → M s.Db (String × String)
  register_node now role_name k body = do
    role ← present 400 (table_for_role role_name)
    n ← present 400 (node_id_of body.node_id)
    existing ← read (by_node_id role n)
    require (claimable k existing) 403
    written ← upsert_row role n (payload t now role k n body)
    id ← unwrap written
    return (id, n)

  -- `heartbeatNode`
  unfoldable pub heartbeat_node : ℕ → String → String → NodeBody → M s.Db String
  heartbeat_node now role_name k body = do
    role ← present 400 (table_for_role role_name)
    found ← read (by_key role k)
    existing ← unwrap found
    row ← present 404 existing
    written ←
        ask s
          (λ tables.
            set_table role (update_rows row.id (heartbeat_patch now role body) (table role tables))
              tables)
          (λ tables. reply tt)
    unwrap written
    return row.id

  abbrev pub not_id : String → NodeRow → Bool
  not_id id r = not (str_eq r.id id)

  abbrev pub delete_found : Role → Option NodeRow → M s.Db (Option String)
  delete_found role none = return none
  delete_found role (some row) = do
    written ←
        ask s (λ tables. set_table role (keep (not_id row.id) (table role tables)) tables)
          (λ tables. reply tt)
    unwrap written
    return (some row.id)

  -- `removeNode`; the id of the deleted row, if there was one.
  unfoldable pub remove_node : String → String → M s.Db (Option String)
  remove_node role_name k = do
    role ← present 400 (table_for_role role_name)
    found ← read (by_key role k)
    existing ← unwrap found
    delete_found role existing

  -- `getSelfRow`
  unfoldable pub get_self_row : String → String → M s.Db (Option NodeRow)
  get_self_row role_name k = do
    role ← present 400 (table_for_role role_name)
    found ← read (by_key role k)
    unwrap found
