-- ===== src/Control/Completion.antt =====
-- What completing a job changes: `completeJobForNode` of apps/web/lib/data/node-api.js.
use infernet_protocol.Common.{
  map, keep, ℕ, ◌≡◌, refl, sym, subst, ap, ◌∙◌, Bool, true, false, not, ◌&&◌, some, List, [], ◌∷◌,
  ◌++◌, String, arith, Bool-cases, ◌⊎◌, inl, inr,
}
use infernet_protocol.Control.Tables.{JobRow, PaymentRow, NodeRow, Tables}
use infernet_protocol.Control.Store.{
  Supabase, reply, Result, ok, err, and_then, ◌>>=◌, ◌>>◌, return, and_then-ok, ask_rule, unwrap,
}
use infernet_protocol.Control.Specs.{Texts}
use infernet_protocol.Control.Receipts.{Cpr, build_receipt_body, enqueue_and_flush, amount_of}
use infernet_protocol.Control.Rows.{
  is_other, keep-change_job, keep-change_job_other, job_by_id-found,
}
use infernet_protocol.Control.Queue.{enqueue_and_flush-Flushes}
use infernet_protocol.Control.Jobs.{
  CompletionBody, is_failed, status_of, pay_and_report, finish_job, completed, change_job,
  job_by_id, has_job_id, is_positive, payment_for, add_payment, own_job, pay, emit_receipt,
  complete_job_for_node,
}
use infernet_protocol.Control.OwnJob.{Owns, FindsJob, own_job-FindsJob}

module _ (s : Supabase Tables) (t : Texts) (cpr : Cpr) where
  abbrev Keeps : ℕ → JobRow → JobRow → Type 0
  Keeps now job done =
      (done.completed_at ≡ some now)
      × (done.id ≡ job.id)
      × (done.provider_id ≡ job.provider_id)
      × (done.payment_offer ≡ job.payment_offer)

  -- The row of a job that failed, or that is completed, and the status that the caller is told.
  abbrev pub Marks : Bool → ℕ → JobRow → String → JobRow → Type 0
  Marks true now job status done =
      (status ≡ "failed")
      × (done.status ≡ "failed")
      × (done.result ≡ job.result)
      × Keeps now job done
  Marks false now job status done =
      (status ≡ "completed")
      × (done.status ≡ "completed")
      × (done.error ≡ job.error)
      × Keeps now job done

  completed-Marks :
      (b : Bool) (now : ℕ) (body : CompletionBody) (job : JobRow)
      → is_failed body.status ≡ b
      → Marks b now job (status_of b) (completed t now body job)
  unfolding completed
  completed-Marks true now body job e = rw e (refl, refl, refl, (refl, refl, refl, refl))
  completed-Marks false now body job e = rw e (refl, refl, refl, (refl, refl, refl, refl))

  completed-same_id :
      (now : ℕ) (body : CompletionBody) (job : JobRow) → (completed t now body job).id ≡ job.id
  unfolding completed
  completed-same_id now body job = refl

  -- The rows of the jobs after the update.
  marked_rows :
      (now : ℕ) (job_id : String) (body : CompletionBody) (before : Tables) (job : JobRow)
      → job_by_id job_id before ≡ reply (some job)
      → (job.id ≡ job_id)
        × (keep (has_job_id job_id) (change_job job.id (completed t now body) before.jobs)
            ≡ completed t now body job ∷ [])
        × (keep (is_other job_id) (change_job job.id (completed t now body) before.jobs)
            ≡ keep (is_other job_id) before.jobs)
  marked_rows now job_id body before job h =
      let (rows, named) = job_by_id-found job_id before h in
      let f = completed t now body in
      (
        named,
        subst (λ i. keep (has_job_id job_id) (change_job i f before.jobs) ≡ f job ∷ []) (sym named)
            (keep-change_job job_id f before.jobs (completed-same_id now body) ∙ ap (map f) rows),
        subst
            (λ i.
              keep (is_other job_id) (change_job i f before.jobs)
              ≡ keep (is_other job_id) before.jobs)
            (sym named) (keep-change_job_other job_id f before.jobs (completed-same_id now body)),
      )

  -- The payment that a finished job may bring.
  abbrev pub Pays : Bool → JobRow → String → List PaymentRow → List PaymentRow → Type 0
  Pays bad job provider_id before after =
      (after ≡ before)
      ⊎ (bad ≡ false)
        × (is_positive (amount_of job.payment_offer) ≡ true)
        × (after ≡ before ++ payment_for job provider_id ∷ [])

  -- What a completion does: the caller's job alone is marked, and paid at most once. A failure
  -- changes nothing.
  abbrev pub Completion :
      ℕ → String → String → CompletionBody → Tables → Tables → Result (String × String) → Type 0
  Completion now k job_id body before after (ok (id, status)) =
      (provider : NodeRow) × (job : JobRow) × (done : JobRow) × Owns before k job_id provider job
      × (id ≡ job_id)
      × Marks (is_failed body.status) now job status done
      × (keep (has_job_id job_id) after.jobs ≡ done ∷ [])
      × (keep (is_other job_id) after.jobs ≡ keep (is_other job_id) before.jobs)
      × Pays (is_failed body.status) job provider.id before.payments after.payments
      × (after.events ≡ before.events)
  Completion now k job_id body before after (err e) = after ≡ before

  pay-Pays :
      (bad : Bool) (job : JobRow) (id : String) (db : s.Db)
      → ((pay s t cpr bad job id db).1 ≡ ok tt)
        × (s.tables (pay s t cpr bad job id db).0
            ≡ record (s.tables db) { payments = (s.tables (pay s t cpr bad job id db).0).payments })
        × Pays bad job id (s.tables db).payments (s.tables (pay s t cpr bad job id db).0).payments
  unfolding pay
  pay-Pays bad job id db =
      elim (Bool-cases (not bad && is_positive (amount_of job.payment_offer))) [
        | inl e ↦ rw e (
            ask_rule s
              (λ (p : s.Db × Result (Unit {0})).
                (p.1 ≡ ok tt)
                × (s.tables p.0 ≡ record (s.tables db) { payments = (s.tables p.0).payments })
                × Pays bad job id (s.tables db).payments (s.tables p.0).payments)
              (add_payment (payment_for job id)) (λ tables. reply tt) (λ w. return tt) db
              (λ d x same. (refl, rw same refl, inl (rw same refl)))
              (λ d h. (refl, rw h refl, inr (ground arith, ground arith, rw h refl))))
        | inr e ↦ rw e (refl, refl, inl refl)
      ]

  -- After the job is marked: the payment, and the receipt.
  paid-Completion :
      (now : ℕ) (k job_id : String) (body : CompletionBody) (provider : NodeRow) (job : JobRow)
      (before : Tables) (d : s.Db)
      → Owns before k job_id provider job
      → s.tables d ≡ record before { jobs = change_job job.id (completed t now body) before.jobs }
      → Completion now k job_id body before
          (s.tables (pay_and_report s t cpr now k (is_failed body.status) (provider, job) d).0)
          (pay_and_report s t cpr now k (is_failed body.status) (provider, job) d).1
  unfolding emit_receipt
  paid-Completion now k job_id body provider job before d owned marked =
      let bad = is_failed body.status in
      let status = status_of bad in
      let paid = pay s t cpr bad job provider.id d in
      let (fine, rest, pays) = pay-Pays bad job provider.id d in
      let receipt = build_receipt_body cpr now job.id status job.payment_offer job.payment_coin k in
      let flushed = (enqueue_and_flush-Flushes s cpr now job.id receipt paid.0).others in
      let (_, found, _) = owned in
      let (named, one, others) = marked_rows now job_id body before job found in
      let jobs =
        ap (λ (t : Tables). t.jobs) flushed
        ∙ ap (λ (t : Tables). t.jobs) rest
        ∙ ap (λ (t : Tables). t.jobs) marked in
      subst
        (λ (p : s.Db × Result (String × String)).
          Completion now k job_id body before (s.tables p.0) p.1)
        (sym (
          and_then-ok (λ w. emit_receipt s t cpr now status k job >> return (job.id, status)) paid
            tt fine))
        (
          provider,
          job,
          completed t now body job,
          owned,
          named,
          completed-Marks bad now body job refl,
          ap (keep (has_job_id job_id)) jobs ∙ one,
          ap (keep (is_other job_id)) jobs ∙ others,
          subst
              (λ (ps : List PaymentRow).
                Pays bad job provider.id ps
                  (s.tables (enqueue_and_flush s cpr now job.id receipt paid.0).0).payments)
              (ap (λ (t : Tables). t.payments) marked)
              (subst (λ (ps : List PaymentRow). Pays bad job provider.id (s.tables d).payments ps)
                (sym (ap (λ (t : Tables). t.payments) flushed)) pays),
          ap (λ (t : Tables). t.events) flushed
              ∙ ap (λ (t : Tables). t.events) rest
              ∙ ap (λ (t : Tables). t.events) marked,
        )

  abbrev Completes :
      ℕ → String → String → CompletionBody → s.Db → s.Db × Result (String × String) → Type 0
  Completes now k job_id body db p = Completion now k job_id body (s.tables db) (s.tables p.0) p.1

  -- Completing a job is refused with no change at all, or it marks the caller's own job, which is
  -- the one row with the given id, as failed or as completed, leaves the other jobs as they are,
  -- adds at most one payment, which a job that failed or costs nothing never brings, and leaves the
  -- events as they are.
  pub complete_job_for_node-Completion :
      (now : ℕ) (k job_id : String) (body : CompletionBody) (db : s.Db)
      → Completion now k job_id body
          (s.tables db)
          (s.tables (complete_job_for_node s t cpr now k job_id body db).0)
          (complete_job_for_node s t cpr now k job_id body db).1
  unfolding complete_job_for_node
  complete_job_for_node-Completion now k job_id body db =
      go (own_job s t cpr k job_id db) (own_job-FindsJob s t cpr k job_id db)
    where
      go :
          (m : s.Db × Result (NodeRow × JobRow))
          → FindsJob s t cpr k job_id db m
          → Completes now k job_id body db (and_then (finish_job s t cpr now k body) m)
      go (d, err e) same = same
      go (d, ok (provider, job)) (same, owned) =
          let f : Tables → Tables = λ tables. record tables {
            jobs = change_job job.id (completed t now body) tables.jobs;
          } in
          ask_rule s (Completes now k job_id body db) f (λ tables. reply tt)
            (λ marked. unwrap marked >>= λ w.
              pay_and_report s t cpr now k (is_failed body.status) (provider, job))
            d (λ d' e kept. kept ∙ same)
            (λ d' h.
              paid-Completion now k job_id body provider job (s.tables db) d' owned (h ∙ ap f same))
