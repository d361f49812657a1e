-- ===== src/Control/Rows.antt =====
-- The rows of the jobs' table that an update leaves and writes.
use infernet_protocol.Common.{
  ◌≡◌, refl, subst, eq_iff, Bool, true, not, some, List, [], ◌∷◌, String, str_eq, keep, map, All,
  Bool-cases, inl, inr,
}
use infernet_protocol.Control.Tables.{JobRow, Tables}
use infernet_protocol.Control.Store.{reply, maybe_single}
use infernet_protocol.Control.Jobs.{change_job, has_job_id, job_by_id}

pub keep-All : {A : Type 0} (p : A → Bool) (xs : List A) → All (λ x. p x ≡ true) (keep p xs)
keep-All p [] = tt
keep-All p (x ∷ xs) = elim (Bool-cases (p x)) [
  | inl e ↦ rw e (e, keep-All p xs)
  | inr e ↦ rw e (keep-All p xs)
]

abbrev pub is_other : String → JobRow → Bool
is_other id r = not (has_job_id id r)

pub keep-change_job :
    (id : String) (f : JobRow → JobRow) (rs : List JobRow)
    → ((r : JobRow) → (f r).id ≡ r.id)
    → keep (has_job_id id) (change_job id f rs) ≡ map f (keep (has_job_id id) rs)
keep-change_job id f [] same = refl
keep-change_job id f (r ∷ rs) same =
    let rest = keep-change_job id f rs same in
    elim (Bool-cases (str_eq r.id id)) [
      | inl e ↦ rw (e, same r, e, rest) refl
      | inr e ↦ rw (e, e, rest) refl
    ]

pub keep-change_job_other :
    (id : String) (f : JobRow → JobRow) (rs : List JobRow)
    → ((r : JobRow) → (f r).id ≡ r.id)
    → keep (is_other id) (change_job id f rs) ≡ keep (is_other id) rs
keep-change_job_other id f [] same = refl
keep-change_job_other id f (r ∷ rs) same =
    let rest = keep-change_job_other id f rs same in
    elim (Bool-cases (str_eq r.id id)) [
      | inl e ↦ rw (e, same r, e, rest) refl
      | inr e ↦ rw (e, e, rest) refl
    ]

maybe_single-some : (rs : List JobRow) {r : JobRow} → maybe_single rs ≡ reply (some r) → rs ≡ r ∷ []
maybe_single-some [] h = cc
maybe_single-some (q ∷ []) h = cc
maybe_single-some (q ∷ p ∷ rest) h = cc

-- The one row with an id has that id.
pub job_by_id-found :
    (id : String) (t : Tables) {job : JobRow}
    → job_by_id id t ≡ reply (some job)
    → (keep (has_job_id id) t.jobs ≡ job ∷ []) × (job.id ≡ id)
job_by_id-found id t {job} h =
    let rows = maybe_single-some (keep (has_job_id id) t.jobs) h in
    let (named, _) =
      subst (λ l. All (λ r. has_job_id id r ≡ true) l) rows (keep-All (has_job_id id) t.jobs) in
    (rows, (eq_iff job.id id).0 named)
