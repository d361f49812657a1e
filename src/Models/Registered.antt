-- ===== src/Models/Registered.antt =====
-- `register` of packages/db/src/models: the rows with the node's id.
use mathlib.Core.List.{append-nil}
use infernet_protocol.Common.{
  ◌≡◌, refl, sym, ap, ◌∙◌, inl, inr, Bool, true, not, Bool-cases, [], ◌∷◌, ◌++◌, String, eq_refl,
  keep, map, if◌then◌else◌, arith,
}
use infernet_protocol.Common.Js.{str, Fields, field, end, get_field}
use infernet_protocol.Engine.Protocol.{set_field, spread}
use infernet_protocol.Control.Store.{Supabase, reply, Result, ok, err, unwrap, ask_rule}
use infernet_protocol.Models.Rows.{Table, matches, insert_row}
use infernet_protocol.Models.Values.{has_key, IsDistinct, get_field-set_field, get_field-spread}
use infernet_protocol.Models.Updates.{IsUpdated}

keep-append : (p : Fields → Bool) (xs ys : Table) → keep p (xs ++ ys) ≡ keep p xs ++ keep p ys
keep-append p [] ys = refl
keep-append p (x ∷ xs) ys = elim (Bool-cases (p x)) [
  | inl e ↦ rw e (ap (λ t. x ∷ t) (keep-append p xs ys))
  | inr e ↦ rw e (keep-append p xs ys)
]

-- The rows that pass a test, where each that passes is changed and still passes.
keep-map :
    (p : Fields → Bool) (f : Fields → Fields) (rows : Table)
    → ((r : Fields) → p (f r) ≡ true)
    → keep p (map (λ r. if p r then f r else r) rows) ≡ map f (keep p rows)
keep-map p f [] h = refl
keep-map p f (x ∷ xs) h = elim (Bool-cases (p x)) [
  | inl e ↦ rw (e, h x) (ap (λ t. f x ∷ t) (keep-map p f xs h))
  | inr e ↦ rw (e, e) (keep-map p f xs h)
]

dropped-map :
    (p : Fields → Bool) (f : Fields → Fields) (rows : Table)
    → ((r : Fields) → p (f r) ≡ true)
    → keep (λ r. not (p r)) (map (λ r. if p r then f r else r) rows) ≡ keep (λ r. not (p r)) rows
dropped-map p f [] h = refl
dropped-map p f (x ∷ xs) h = elim (Bool-cases (p x)) [
  | inl e ↦ rw (e, h x) (dropped-map p f xs h)
  | inr e ↦ rw (e, e) (ap (λ t. x ∷ t) (dropped-map p f xs h))
]

-- An object with each property once, whose node's id is `v`.
abbrev pub Names : String → Fields → Type 0
Names v payload = IsDistinct payload × (get_field "node_id" payload ≡ str v)

has_key-str : (k v : String) (fs : Fields) → get_field k fs ≡ str v → has_key k fs ≡ true
has_key-str k v end h = cc
has_key-str k v (field j w fs) h = ground (arith, has_key-str k v fs)

spread-node_id :
    (v : String) (base payload : Fields)
    → Names v payload
    → get_field "node_id" (spread base payload) ≡ str v
spread-node_id v base payload (distinct, is) =
    get_field-spread "node_id" base payload distinct ∙ rw (has_key-str "node_id" v payload is) is

is_matched :
    (v : String) (row : Fields) → get_field "node_id" row ≡ str v → matches "node_id" v row ≡ true
is_matched v row h = rw (h, matches) (eq_refl v)

-- One row has the node's id, and the rows without it are the same; or nothing is changed.
abbrev pub IsRegistered : String → Table → Table → Result Fields → Type 0
IsRegistered v before after (ok row) =
    (keep (matches "node_id" v) after ≡ row ∷ [])
    × (keep (λ r. not (matches "node_id" v r)) after
        ≡ keep (λ r. not (matches "node_id" v r)) before)
IsRegistered v before after (err e) = after ≡ before

module _ (s : Supabase Table) where
  pub updated-IsRegistered :
      (v : String) (payload : Fields) (before after : Table) (r : Result Fields)
      → Names v payload
      → IsUpdated s "node_id" v payload before after r
      → IsRegistered v before after r
  updated-IsRegistered v payload before after (err e) names kept = kept
  updated-IsRegistered v payload before after (ok row) names (old, one, set, done) =
      let p = matches "node_id" v in
      let still : (r : Fields) → p (spread r payload) ≡ true =
        λ r. is_matched v (spread r payload) (spread-node_id v r payload names) in
      (
        ap (keep p) done
            ∙ keep-map p (λ r. spread r payload) before still
            ∙ ap (map (λ r. spread r payload)) one
            ∙ ap (λ r. r ∷ []) (sym set),
        ap (keep (λ r. not (p r))) done ∙ dropped-map p (λ r. spread r payload) before still,
      )

  pub insert_row-IsRegistered :
      (v : String) (defaults payload : Fields) (db : s.Db)
      → Names v payload
      → keep (matches "node_id" v) (s.tables db) ≡ []
      → IsRegistered v
          (s.tables db)
          (s.tables (insert_row s defaults payload db).0)
          (insert_row s defaults payload db).1
  unfolding insert_row
  insert_row-IsRegistered v defaults payload db names none_before =
      ask_rule s (λ (p : s.Db × Result Fields). IsRegistered v (s.tables db) (s.tables p.0) p.1)
        (λ rows. rows ++ row ∷ []) (λ rows. reply row) unwrap db (λ db' e kept. kept)
        (λ db' done. (
          ap (keep (matches "node_id" v)) done
              ∙ keep-append (matches "node_id" v) (s.tables db) (row ∷ [])
              ∙ ap (λ t. t ++ keep (matches "node_id" v) (row ∷ [])) none_before
              ∙ rw matched refl,
          ap (keep (λ r. not (matches "node_id" v r))) done
              ∙ keep-append (λ r. not (matches "node_id" v r)) (s.tables db) (row ∷ [])
              ∙ rw matched (append-nil _),
        ))
    where
      row : Fields
      row = set_field "id" (str (s.new_id db)) (spread defaults payload)

      matched : matches "node_id" v row ≡ true
      matched = is_matched v row (
          get_field-set_field "id" "node_id" (str (s.new_id db)) (spread defaults payload)
          ∙ spread-node_id v defaults payload names)
