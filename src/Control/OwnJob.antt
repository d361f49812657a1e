-- ===== src/Control/OwnJob.antt =====
-- How the handlers of apps/web/lib/data/node-api.js find the caller's provider and its job.
use infernet_protocol.Common.{
  ◌≡◌, refl, sym, ap, ◌∙◌, true, Option, none, some, String, str_eq, Bool-cases, inl, inr,
}
use infernet_protocol.Control.Tables.{JobRow, NodeRow, Tables}
use infernet_protocol.Control.Store.{
  Supabase, Reply, reply, fault, Result, ok, err, and_then, ◌>>=◌, ◌>>◌, return, ask, ask_rule,
  require, unwrap, present,
}
use infernet_protocol.Control.Specs.{Texts}
use infernet_protocol.Control.Nodes.{key_is}
use infernet_protocol.Control.Receipts.{Cpr}
use infernet_protocol.Control.Jobs.{provider_by_key, job_by_id, find_provider, own_job}

-- The job with the id is assigned to the provider with the key.
abbrev pub Owns : Tables → String → String → NodeRow → JobRow → Type 0
Owns t k job_id provider job =
    (provider_by_key k t ≡ reply (some provider))
    × (job_by_id job_id t ≡ reply (some job))
    × (key_is provider.id job.provider_id ≡ true)

module _ (s : Supabase Tables) (t : Texts) (cpr : Cpr) where
  abbrev pub FindsProvider : String → s.Db → s.Db × Result NodeRow → Type 0
  FindsProvider k db (d, ok p) =
      (s.tables d ≡ s.tables db) × (provider_by_key k (s.tables db) ≡ reply (some p))
  FindsProvider k db (d, err e) = s.tables d ≡ s.tables db

  after_lookup :
      (k : String) (db d : s.Db) (found : Reply (Option NodeRow))
      → s.tables d ≡ s.tables db
      → found ≡ provider_by_key k (s.tables db)
      → FindsProvider k db ((unwrap found >>= λ row. present 404 row) d)
  after_lookup k db d (fault x) same e = same
  after_lookup k db d (reply none) same e = same
  after_lookup k db d (reply (some p)) same e = (same, sym e)

  pub find_provider-FindsProvider :
      (k : String) (db : s.Db) → FindsProvider k db (find_provider s t cpr k db)
  find_provider-FindsProvider k db =
      ask_rule s (FindsProvider k db) (λ tables. tables) (provider_by_key k)
        (λ found. unwrap found >>= λ row. present 404 row) db (λ d e same. same)
        (λ d same. after_lookup k db d _ same refl)

  abbrev pub FindsJob : String → String → s.Db → s.Db × Result (NodeRow × JobRow) → Type 0
  FindsJob k job_id db (d, ok (p, j)) = (s.tables d ≡ s.tables db) × Owns (s.tables db) k job_id p j
  FindsJob k job_id db (d, err e) = s.tables d ≡ s.tables db

  after_job :
      (k job_id : String) (p : NodeRow) (db d : s.Db) (found : Reply (Option JobRow))
      → s.tables d ≡ s.tables db
      → provider_by_key k (s.tables db) ≡ reply (some p)
      → found ≡ job_by_id job_id (s.tables db)
      → FindsJob k job_id db (
          (unwrap found >>= λ row.
          present 404 row >>= λ job. require (key_is p.id job.provider_id) 403 >> return (p, job))
            d)
  after_job k job_id p db d (fault x) same hp e = same
  after_job k job_id p db d (reply none) same hp e = same
  after_job k job_id p db d (reply (some j)) same hp e =
      elim (Bool-cases (key_is p.id j.provider_id)) [
        | inl owned ↦ rw owned (same, (hp, sym e, owned))
        | inr foreign ↦ rw foreign same
      ]

  pub own_job-FindsJob :
      (k job_id : String) (db : s.Db) → FindsJob k job_id db (own_job s t cpr k job_id db)
  own_job-FindsJob k job_id db = elim (Bool-cases (str_eq job_id "")) [
    | inl e ↦ rw e refl
    | inr e ↦ rw e (found_then (find_provider s t cpr k db) (find_provider-FindsProvider k db))
  ]
    where
      found_then :
          (m : s.Db × Result NodeRow)
          → FindsProvider k db m
          → FindsJob k job_id db (
              and_then
                (λ provider. ask s (λ tables. tables) (job_by_id job_id) >>= λ found.
                  unwrap found >>= λ row. present 404 row >>= λ job.
                  require (key_is provider.id job.provider_id) 403 >> return (provider, job))
                m)
      found_then (d, err e) same = same
      found_then (d, ok p) (same, hp) =
          ask_rule s (FindsJob k job_id db) (λ tables. tables) (job_by_id job_id)
            (λ found. unwrap found >>= λ row. present 404 row >>= λ job.
              require (key_is p.id job.provider_id) 403 >> return (p, job))
            d (λ d' e same'. same' ∙ same)
            (λ d' same'.
              after_job k job_id p db d' _ (same' ∙ same) hp (ap (job_by_id job_id) same))
