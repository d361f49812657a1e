-- ===== src/Models/Registration.antt =====
-- `register` of packages/db/src/models, for a node with an id: the look-up, then the update or the
-- insertion.
use infernet_protocol.Common.{
  ◌≡◌, refl, sym, ap, subst, ◌∙◌, inl, inr, true, Bool-cases, Option, none, some, [], String,
  str_eq, keep,
}
use infernet_protocol.Common.Js.{Js, str, Fields, field, end, get_field, truthy}
use infernet_protocol.Engine.Protocol.{spread}
use infernet_protocol.Control.Store.{Supabase, Result, ok, err, and_then, return}
use infernet_protocol.Models.Rows.{Table, matches, find_single}
use infernet_protocol.Models.Nodes.{
  Kind, named, registration, given_text, find_by_node_id, update_or_insert, register_payload,
  register,
}
use infernet_protocol.Models.Values.{
  IsDistinct, are_distinct, set_field-IsDistinct, pick_columns-IsDistinct,
}
use infernet_protocol.Models.Updates.{IsFound, find_single-IsFound, update_single-IsUpdated}
use infernet_protocol.Models.Registered.{
  Names, IsRegistered, updated-IsRegistered, insert_row-IsRegistered,
}

given_text-str : (v : String) (j : Js) → given_text j ≡ some v → j ≡ str v
given_text-str v Js.undefined h = cc
given_text-str v Js.null h = cc
given_text-str v (Js.bool b) h = cc
given_text-str v (Js.num n) h = cc
given_text-str v (Js.str t) h = elim (Bool-cases (str_eq t "")) [
  | inl e ↦ let none_given : none ≡ some v = sym (rw e refl) ∙ h in cc
  | inr e ↦ let one : some t ≡ some v = sym (rw e refl) ∙ h in let same : t ≡ v = cc in ap str same
]
given_text-str v (Js.arr xs) h = cc
given_text-str v (Js.obj o) h = cc

registration-IsDistinct :
    (k : Kind) (now name : String) (data_given : Fields)
    → are_distinct k.columns ≡ true
    → IsDistinct (registration k now name data_given)
unfolding registration
registration-IsDistinct k now name data_given h = go _ (
    pick_columns-IsDistinct k.columns
      (spread (spread k.defaults (field "last_seen" (str now) end)) data_given) h)
  where
    go : (payload : Fields) → IsDistinct payload → IsDistinct (named name payload)
    go payload distinct = elim (Bool-cases (truthy (get_field "name" payload))) [
      | inl e ↦ rw e distinct
      | inr e ↦ rw e (set_field-IsDistinct "name" (str name) payload distinct)
    ]

module _ (s : Supabase Table) where
  -- A look-up by a node's id changes nothing, and finds nothing only where no row has the id.
  abbrev IsLooked : String → Table → Table → Result (Option Fields) → Type 0
  IsLooked v before after (ok none) = (after ≡ before) × (keep (matches "node_id" v) before ≡ [])
  IsLooked v before after (ok (some row)) = after ≡ before
  IsLooked v before after (err e) = after ≡ before

  second-IsLooked :
      (v : String) (before middle after : Table) (r : Result (Option Fields))
      → middle ≡ before
      → keep (matches "node_id" v) before ≡ []
      → IsFound s "id" v middle after r
      → IsLooked v before after r
  second-IsLooked v before middle after (ok none) same empty (kept, unused) = (kept ∙ same, empty)
  second-IsLooked v before middle after (ok (some row)) same empty (kept, one) = kept ∙ same
  second-IsLooked v before middle after (err e) same empty kept = kept ∙ same

  find_by_node_id-IsLooked :
      (v : String) (db : s.Db)
      → IsLooked v (s.tables db) (s.tables (find_by_node_id s v db).0) (find_by_node_id s v db).1
  unfolding find_by_node_id
  find_by_node_id-IsLooked v db =
      go (find_single s "node_id" v db) (find_single-IsFound s "node_id" v db)
    where
      next : Option Fields → s.Db → s.Db × Result (Option Fields)
      next found = elim found [ some row ↦ return (some row) | none ↦ find_single s "id" v ]

      go :
          (p : s.Db × Result (Option Fields))
          → IsFound s "node_id" v (s.tables db) (s.tables p.0) p.1
          → IsLooked v (s.tables db) (s.tables (and_then next p).0) (and_then next p).1
      go (d, err e) same = same
      go (d, ok (some row)) (same, one) = same
      go (d, ok none) (same, empty) =
          second-IsLooked v (s.tables db) (s.tables d) _ _ same empty
            (find_single-IsFound s "id" v d)

  register_payload-IsRegistered :
      (k : Kind) (v : String) (id : Option String) (payload : Fields) (db : s.Db)
      → Names v payload
      → IsRegistered v
          (s.tables db)
          (s.tables (register_payload s k (some v) id payload db).0)
          (register_payload s k (some v) id payload db).1
  register_payload-IsRegistered k v id payload db names =
      go (find_by_node_id s v db) (find_by_node_id-IsLooked v db)
    where
      next : Option Fields → s.Db → s.Db × Result Fields
      next = update_or_insert s k "node_id" v payload

      Good : Table → s.Db × Result Fields → Type 0
      Good before p = IsRegistered v before (s.tables p.0) p.1

      go :
          (p : s.Db × Result (Option Fields))
          → IsLooked v (s.tables db) (s.tables p.0) p.1
          → Good (s.tables db) (and_then next p)
      go (d, err e) same = same
      go (d, ok (some row)) same =
          subst (λ t. Good t (next (some row) d)) same
            (updated-IsRegistered s v payload (s.tables d) _ _ names
              (update_single-IsUpdated s "node_id" v payload d))
      go (d, ok none) (same, empty) =
          subst (λ t. Good t (next none d)) same
            (insert_row-IsRegistered s v k.column_defaults payload d names
              (ap (keep (matches "node_id" v)) same ∙ empty))

  -- For a table whose columns are distinct, a registration under a node's id that is not empty fails
  -- and changes nothing, or after it exactly one row has the id, the row it gives, and the rows with
  -- another id or none are those that were there.
  pub register-IsRegistered :
      (k : Kind) (now name v : String) (data_given : Fields) (db : s.Db)
      → are_distinct k.columns ≡ true
      → given_text (get_field "node_id" (registration k now name data_given)) ≡ some v
      → IsRegistered v
          (s.tables db)
          (s.tables (register s k now name data_given db).0)
          (register s k now name data_given db).1
  unfolding register
  register-IsRegistered k now name v data_given db distinct given =
      subst
        (λ o.
          IsRegistered v (s.tables db) (s.tables (register_payload s k o id payload db).0)
            (register_payload s k o id payload db).1)
        (sym given)
        (register_payload-IsRegistered k v id payload db (
          registration-IsDistinct k now name data_given distinct,
          given_text-str v (get_field "node_id" payload) given,
        ))
    where
      payload : Fields
      payload = registration k now name data_given

      id : Option String
      id = given_text (get_field "id" data_given)
