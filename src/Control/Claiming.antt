-- ===== src/Control/Claiming.antt =====
-- What a registration leaves: `registerNode` of apps/web/lib/data/node-api.js.
use infernet_protocol.Common.{
  ℕ, ◌≡◌, ◌≢◌, refl, sym, subst, ap, ◌∙◌, true, not, Option, none, some, List, [], ◌∷◌, String,
  str_eq, eq_refl, eq_iff, keep, arith, Bool-cases, Option-cases, ◌⊎◌, inl, inr,
}
use infernet_protocol.Common.Js.{Js, str}
use infernet_protocol.Auth.Gate.{Role, provider, aggregator, client, table_for_role}
use infernet_protocol.Control.Tables.{NodeRow, Tables}
use infernet_protocol.Control.Store.{
  Supabase, Reply, reply, Result, ok, err, ◌>>=◌, ◌>>◌, return, ask, ask_rule, unwrap, require,
  answer_of, maybe_single,
}
use infernet_protocol.Control.Specs.{Texts}
use infernet_protocol.Control.Nodes.{
  NodeBody, NodePatch, table, set_table, upsert_from, write, row_id, payload, has_node_id,
  by_node_id, may_claim, claimable, node_id_of, register_node, upsert_row, blank,
}

-- Whoever holds `k` may take a row over that has no key, an empty one, or `k`.
abbrev pub IsOpen : String → NodeRow → Type 0
IsOpen k r = (r.public_key ≡ none) ⊎ (r.public_key ≡ some "") ⊎ (r.public_key ≡ some k)

-- A registration under `n` that is answered with the row's id: the first row with the node id has
-- that id and the key now, the rows with other node ids and the other tables stay, and if the look-up
-- was answered, the one row that had the node id was open to the key.
pub record Takes (s : Supabase Tables) (role : Role) (k n id : String) (db : s.Db) (after : Tables)
    : Type 0 where
  pub guard :
      s.refused db ≡ none
      → (r : NodeRow) → keep (has_node_id n) (table role (s.tables db)) ≡ r ∷ []
      → IsOpen k r
  pub row :
      (r : NodeRow) × (rest : List NodeRow) × (keep (has_node_id n) (table role after) ≡ r ∷ rest)
      × (r.id ≡ id)
      × (r.public_key ≡ some k)
  pub others :
      keep (λ r. not (has_node_id n r)) (table role after)
      ≡ keep (λ r. not (has_node_id n r)) (table role (s.tables db))
  pub tables_kept : after ≡ set_table role (table role after) (s.tables db)

-- What a registration leaves, by its result.
abbrev pub Registration :
    (s : Supabase Tables)
    → String
    → String
    → NodeBody
    → s.Db
    → Tables
    → Result (String × String)
    → Type 0
Registration s role_name k body db after (ok (id, n)) =
    (role : Role) × (table_for_role role_name ≡ some role)
    × (body.node_id ≡ str n)
    × (n ≢ "")
    × Takes s role k n id db after
Registration s role_name k body db after (err e) = after ≡ s.tables db

may_claim-open :
    (k : String) (r : NodeRow) (o : Option String)
    → r.public_key ≡ o
    → may_claim k o ≡ true
    → IsOpen k r
may_claim-open k r none e h = inl e
may_claim-open k r (some j) e h = elim (Bool-cases (str_eq j "")) [
  | inl b ↦ inr (inl (e ∙ ap some ((eq_iff j "").0 b)))
  | inr b ↦ inr (inr (e ∙ ap some ((eq_iff j k).0 (rw b at h))))
]

table-set_table :
    (role : Role) (rows : List NodeRow) (t : Tables) → table role (set_table role rows t) ≡ rows
table-set_table provider rows t = refl
table-set_table aggregator rows t = refl
table-set_table client rows t = refl

module _ (id k n : String) (p : NodePatch) (named : p.node_id ≡ some n)
    (keyed : p.public_key ≡ some k) where
  write-node_id : (r : NodeRow) → has_node_id n (write p r) ≡ true
  unfolding write
  write-node_id r = rw named (eq_refl n)

  write-key : (r : NodeRow) → (write p r).public_key ≡ some k
  unfolding write
  write-key r = rw keyed refl

  write-id : (r : NodeRow) → (write p r).id ≡ r.id
  unfolding write
  write-id r = refl

  upsert_from-row :
      (rs : List NodeRow)
      → (r : NodeRow) × (rest : List NodeRow) × (keep (has_node_id n) (upsert_from id n p rs)
          ≡ r ∷ rest)
        × (r.id ≡ row_id n rs id)
        × (r.public_key ≡ some k)
  unfolding upsert_from
  upsert_from-row [] = (
    write p (blank id),
    [],
    rw (write-node_id (blank id)) refl,
    write-id (blank id),
    write-key (blank id),
  )
  upsert_from-row (x ∷ rs) = elim (Bool-cases (has_node_id n x)) [
    | inl e ↦ (
      write p x,
      keep (has_node_id n) rs,
      rw (e, write-node_id x) refl,
      rw e (write-id x),
      write-key x,
    )
    | inr e ↦
        let (r, rest, found, same, key) = upsert_from-row rs in
        (r, rest, rw (e, e) found, rw e same, key)
  ]

  upsert_from-others :
      (rs : List NodeRow)
      → keep (λ r. not (has_node_id n r)) (upsert_from id n p rs)
        ≡ keep (λ r. not (has_node_id n r)) rs
  unfolding upsert_from
  upsert_from-others [] = rw (write-node_id (blank id)) refl
  upsert_from-others (x ∷ rs) = elim (Bool-cases (has_node_id n x)) [
    | inl e ↦ rw (e, write-node_id x) refl
    | inr e ↦ rw (e, e) (ap (λ t. x ∷ t) (upsert_from-others rs))
  ]

named_body : (v : Js) (n : String) → node_id_of v ≡ some n → (v ≡ str n) × (n ≢ "")
named_body (str x) n h = elim (Bool-cases (str_eq x "")) [
  | inl e ↦ let wrong : none ≡ some n = rw (e, node_id_of) at h in cc
  | inr e ↦
      let one : some x ≡ some n = rw (e, node_id_of) at h in
      let same : x ≡ n = cc in (ap str same, (λ q. ground (arith, eq_iff x "")))
]
named_body Js.undefined n h = cc
named_body Js.null n h = cc
named_body (Js.bool b) n h = cc
named_body (Js.num m) n h = cc
named_body (Js.arr xs) n h = cc
named_body (Js.obj o) n h = cc

module _ (s : Supabase Tables) (t : Texts) (now : ℕ) (role_name k : String) (body : NodeBody) where
  abbrev Leaves : s.Db → s.Db × Result (String × String) → Type 0
  Leaves db x = Registration s role_name k body db (s.tables x.0) x.1

  -- The write, after a look-up that let it pass.
  written-Registration :
      (role : Role) (n : String) (db d : s.Db)
      → table_for_role role_name ≡ some role
      → node_id_of body.node_id ≡ some n
      → s.tables d ≡ s.tables db
      → (s.refused db ≡ none
          → (r : NodeRow) → keep (has_node_id n) (table role (s.tables db)) ≡ r ∷ []
          → IsOpen k r)
      → Leaves db (
          (upsert_row s t role n (payload t now role k n body) >>= λ written.
          unwrap written >>= λ id. return (id, n))
            d)
  unfolding payload
  written-Registration role n db d known named same guard =
      ask_rule s (Leaves db)
        (λ tables.
          set_table role
            (upsert_from (s.new_id d) n (payload t now role k n body) (table role tables)) tables)
        (λ tables. reply (row_id n (table role tables) (s.new_id d)))
        (λ written. unwrap written >>= λ id. return (id, n)) d (λ d' e kept. kept ∙ same)
        (λ d' changed.
          let rows = table role (s.tables db) in
          let p = payload t now role k n body in
          let new = upsert_from (s.new_id d) n p rows in
          let after : s.tables d' ≡ set_table role new (s.tables db) = rw same at changed in
          let at_role : table role (s.tables d') ≡ new =
            ap (table role) after ∙ table-set_table role new (s.tables db) in
          let (r, rest, found, is, key) = upsert_from-row (s.new_id d) k n p refl refl rows in
          (
            role,
            known,
            (named_body body.node_id n named).0,
            (named_body body.node_id n named).1,
            record {
              guard = guard;
              row = (
                r,
                rest,
                ap (keep (has_node_id n)) at_role ∙ found,
                is ∙ ap (λ (l : Tables). row_id n (table role l) (s.new_id d)) (sym same),
                key,
              );
              others =
                  ap (keep (λ q. not (has_node_id n q))) at_role
                  ∙ upsert_from-others (s.new_id d) k n p refl refl rows;
              tables_kept = after ∙ ap (λ l. set_table role l (s.tables db)) (sym at_role);
            },
          ))

  -- A registration that ends with an error changes nothing. One that succeeds names a known role and a
  -- node id that is not empty; afterwards the first row with the node id has the id that is answered and
  -- the caller's key, and the rows with other node ids and the other two tables are as they were; and if
  -- the request that looks for the row was answered and there was one row with the node id, that row had
  -- no key, an empty one, or the caller's.
  pub register_node-Registration :
      (db : s.Db)
      → Registration s role_name k body db
          (s.tables (register_node s t now role_name k body db).0)
          (register_node s t now role_name k body db).1
  unfolding register_node ask
  register_node-Registration db = elim (Option-cases (table_for_role role_name)) [
    | inl e ↦ rw e refl
    | inr (role, known) ↦ elim (Option-cases (node_id_of body.node_id)) [
      | inl e ↦ rw (known, e) refl
      | inr (n, named) ↦ rw (known, named) (looked role n db known named)
    ]
  ]
    where
      go_on : Role → String → Reply (Option NodeRow) → s.Db → s.Db × Result (String × String)
      go_on role n existing =
          require (claimable k existing) 403
          >> (upsert_row s t role n (payload t now role k n body) >>= λ written.
              unwrap written >>= λ id. return (id, n))

      passed :
          (role : Role) (n : String) (db d : s.Db) (existing : Reply (Option NodeRow))
          → table_for_role role_name ≡ some role
          → node_id_of body.node_id ≡ some n
          → s.tables d ≡ s.tables db
          → (s.refused db ≡ none → existing ≡ by_node_id role n (s.tables db))
          → Leaves db (go_on role n existing d)
      passed role n db d existing known named same answered =
          elim (Bool-cases (claimable k existing)) [
            | inr e ↦ rw e same
            | inl e ↦ rw e (
                written-Registration role n db d known named same (λ fine r one.
                  let found : existing ≡ reply (some r) = answered fine ∙ ap maybe_single one in
                  may_claim-open k r r.public_key refl (subst (λ x. claimable k x ≡ true) found e)))
          ]

      looked :
          (role : Role) (n : String) (db : s.Db)
          → table_for_role role_name ≡ some role
          → node_id_of body.node_id ≡ some n
          → Leaves db (
              (ask s (λ tables. tables) (by_node_id role n) >>= λ existing. go_on role n existing)
                db)
      looked role n db known named = elim (Option-cases (s.refused db)) [
        | inl e ↦
            rw (e, ask)
              (passed role n db _ _ known named (s.carried_out (λ tables. tables) db e)
                (λ fine. refl))
        | inr (x, e) ↦
            rw (e, ask)
              (passed role n db _ (answer_of s (some x) (by_node_id role n (s.tables db))) known
                named (s.kept (λ tables. tables) db x e)
                (λ fine. let wrong : none ≡ some x = sym fine ∙ e in cc))
      ]
