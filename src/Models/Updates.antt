-- ===== src/Models/Updates.antt =====
-- What a request for one row of a table of packages/db/src/models changes.
use infernet_protocol.Common.{
  Option, none, some, ◌≡◌, refl, [], ◌∷◌, String, keep, map, if◌then◌else◌,
}
use infernet_protocol.Common.Js.{Fields}
use infernet_protocol.Engine.Protocol.{spread}
use infernet_protocol.Control.Store.{maybe_single, Supabase, Result, ok, err, unwrap, ask_rule}
use infernet_protocol.Models.Rows.{
  find_single, Table, matches, patched, single, is_single, update_where, update_single,
}

module _ (s : Supabase Table) where
  -- The one row with the value is changed, or nothing is.
  abbrev pub IsUpdated : String → String → Fields → Table → Table → Result Fields → Type 0
  IsUpdated column value patch before after (ok row) =
      (old : Fields) × (keep (matches column value) before ≡ old ∷ [])
      × (row ≡ spread old patch)
      × (after ≡ map (patched column value patch) before)
  IsUpdated column value patch before after (err e) = after ≡ before

  pub update_single-IsUpdated :
      (column value : String) (patch : Fields) (db : s.Db)
      → IsUpdated column value patch
          (s.tables db)
          (s.tables (update_single s column value patch db).0)
          (update_single s column value patch db).1
  unfolding update_single
  update_single-IsUpdated column value patch db =
      ask_rule s
        (λ (p : s.Db × Result Fields).
          IsUpdated column value patch (s.tables db) (s.tables p.0) p.1)
        (update_where column value patch)
        (λ rows. single (map (λ row. spread row patch) (keep (matches column value) rows))) unwrap
        db (λ db' e kept. kept)
        (λ db' done. answer db' (keep (matches column value) (s.tables db)) refl done)
    where
      answer :
          (db' : s.Db) (found : Table)
          → keep (matches column value) (s.tables db) ≡ found
          → s.tables db' ≡ (
              if is_single found
              then map (patched column value patch) (s.tables db)
              else s.tables db)
          → IsUpdated column value patch
              (s.tables db)
              (s.tables (unwrap (single (map (λ row. spread row patch) found)) db').0)
              (unwrap (single (map (λ row. spread row patch) found)) db').1
      answer db' [] e done = done
      answer db' (x ∷ []) e done = (x, e, refl, done)
      answer db' (x ∷ y ∷ rest) e done = done

  -- A look-up changes nothing, and gives the one row with the value, if there is one.
  abbrev pub IsFound : String → String → Table → Table → Result (Option Fields) → Type 0
  IsFound column value before after (ok none) =
      (after ≡ before) × (keep (matches column value) before ≡ [])
  IsFound column value before after (ok (some row)) =
      (after ≡ before) × (keep (matches column value) before ≡ row ∷ [])
  IsFound column value before after (err e) = after ≡ before

  pub find_single-IsFound :
      (column value : String) (db : s.Db)
      → IsFound column value
          (s.tables db)
          (s.tables (find_single s column value db).0)
          (find_single s column value db).1
  unfolding find_single
  find_single-IsFound column value db =
      ask_rule s
        (λ (p : s.Db × Result (Option Fields)).
          IsFound column value (s.tables db) (s.tables p.0) p.1)
        (λ rows. rows) (λ rows. maybe_single (keep (matches column value) rows)) unwrap db
        (λ db' e kept. kept)
        (λ db' done. answer db' (keep (matches column value) (s.tables db)) refl done)
    where
      answer :
          (db' : s.Db) (found : Table)
          → keep (matches column value) (s.tables db) ≡ found
          → s.tables db' ≡ s.tables db
          → IsFound column value
              (s.tables db)
              (s.tables (unwrap (maybe_single found) db').0)
              (unwrap (maybe_single found) db').1
      answer db' [] e done = (done, e)
      answer db' (x ∷ []) e done = (done, e)
      answer db' (x ∷ y ∷ rest) e done = done
