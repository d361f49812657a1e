-- ===== src/Models/Lifecycle.antt =====
-- `updateStatus` of packages/db/src/models/job.js: what it changes.
use infernet_protocol.Common.{
  ◌≡◌, refl, sym, ap, subst, ◌∙◌, inl, inr, Bool, true, false, Bool-cases, Option, none, some, [],
  ◌∷◌, String, str_eq, keep, map, if◌then◌else◌,
}
use infernet_protocol.Common.Js.{Fields, get_field, truthy}
use infernet_protocol.Engine.Protocol.{spread}
use infernet_protocol.Control.Store.{Supabase, Result, ok, err, and_then, return}
use infernet_protocol.Models.Rows.{Table, matches, patched, update_single, find_single}
use infernet_protocol.Models.Jobs.{
  is_over, is_unassigned, find_by_job_id, lacks_assignment, update_status,
}
use infernet_protocol.Models.Updates.{
  IsUpdated, update_single-IsUpdated, IsFound, find_single-IsFound,
}
use infernet_protocol.Models.Status.{one_patched, changes, HasTimes, changes-HasTimes}

-- Whether a job begins to run that was not assigned.
abbrev pub begins : String → Fields → Bool
begins status old =
    if str_eq status "running"
    then (if truthy (get_field "assigned_at" old) then false else true)
    else false

-- The one row of the job gets the status and its times, or nothing is changed.
abbrev pub IsMoved : String → String → String → Table → Table → Result Fields → Type 0
IsMoved now job_id status before after (ok row) =
    (old : Fields) × (keep (matches "id" job_id) before ≡ old ∷ [])
    × HasTimes now status (is_over status) (begins status old) old row
    × (after ≡ map (λ r. if matches "id" job_id r then row else r) before)
IsMoved now job_id status before after (err e) = after ≡ before

module _ (s : Supabase Table) (columns : Fields) where
  -- What the look-up of `updateStatus` says of the job's row.
  abbrev Says : String → String → s.Db → s.Db × Result Bool → Type 0
  Says job_id status db (d, ok b) =
      (s.tables d ≡ s.tables db)
      × ((old : Fields)
          → keep (matches "id" job_id) (s.tables db) ≡ old ∷ []
          → b ≡ begins status old)
  Says job_id status db (d, err e) = s.tables d ≡ s.tables db

  found-Says :
      (job_id status : String) (db : s.Db) (p : s.Db × Result (Option Fields))
      → str_eq status "running" ≡ true
      → IsFound s "id" job_id (s.tables db) (s.tables p.0) p.1
      → Says job_id status db (and_then (λ existing. return (is_unassigned existing)) p)
  found-Says job_id status db (d, err e) runs same = same
  found-Says job_id status db (d, ok none) runs (same, empty) =
      (same, (λ old one. let wrong : [] ≡ old ∷ [] = sym empty ∙ one in cc))
  found-Says job_id status db (d, ok (some row)) runs (same, found) = (
    same,
    (λ old one.
        let rows : row ∷ [] ≡ old ∷ [] = sym found ∙ one in
        let eq : row ≡ old = cc in
        rw runs (ap (λ r. if truthy (get_field "assigned_at" r) then false else true) eq)),
  )

  lacks_assignment-Says :
      (job_id status : String) (db : s.Db)
      → Says job_id status db (lacks_assignment s columns job_id status db)
  unfolding find_by_job_id
  lacks_assignment-Says job_id status db = elim (Bool-cases (str_eq status "running")) [
    | inl e ↦ rw e (
        found-Says job_id status db (find_single s "id" job_id db) e
          (find_single-IsFound s "id" job_id db))
    | inr e ↦ rw e (refl, (λ old one. rw e refl))
  ]

  moved :
      (now job_id status : String) (b : Bool) (d db : s.Db) (r : Result Fields) (after : Table)
      → Says job_id status db (d, ok b)
      → IsUpdated s "id" job_id (changes now status (is_over status) b) (s.tables d) after r
      → IsMoved now job_id status (s.tables db) after r
  moved now job_id status b d db (err e) after (same, says) kept = kept ∙ same
  moved now job_id status b d db (ok row) after (same, says) (old, one, set, done) =
      let found : keep (matches "id" job_id) (s.tables db) ≡ old ∷ [] =
        ap (keep (matches "id" job_id)) (sym same) ∙ one in
      let patch = changes now status (is_over status) b in
      let row_set = sym set in
      (
        old,
        found,
        subst (HasTimes now status (is_over status) (begins status old) old) row_set (
            subst (λ u. HasTimes now status (is_over status) u old (spread old patch))
              (says old found) (changes-HasTimes now status (is_over status) b old)),
        done
            ∙ ap (map (patched "id" job_id patch)) same
            ∙ one_patched (matches "id" job_id) (λ r. spread r patch) old (s.tables db) found
            ∙ ap (λ x. map (λ r. if matches "id" job_id r then x else r) (s.tables db)) row_set,
      )

  -- Changing a job's status fails and changes nothing, or it changes the one row with the job's id:
  -- it sets the status and the time of the update, the time of the end exactly if the status is completed
  -- or failed, and the time of the assignment exactly if the status is running and none was set.
  pub update_status-IsMoved :
      (now job_id status : String) (db : s.Db)
      → IsMoved now job_id status
          (s.tables db)
          (s.tables (update_status s columns now job_id status db).0)
          (update_status s columns now job_id status db).1
  unfolding update_status
  update_status-IsMoved now job_id status db =
      go (lacks_assignment s columns job_id status db) (lacks_assignment-Says job_id status db)
    where
      go :
          (p : s.Db × Result Bool)
          → Says job_id status db p
          → IsMoved now job_id status
              (s.tables db)
              (s.tables
                (and_then
                  (λ b. update_single s "id" job_id (changes now status (is_over status) b))
                  p).0)
              (and_then
                (λ b. update_single s "id" job_id (changes now status (is_over status) b))
                p).1
      go (d, err e) same = same
      go (d, ok b) says =
          moved now job_id status b d db _ _ says
            (update_single-IsUpdated s "id" job_id (changes now status (is_over status) b) d)
