-- ===== src/Control/Polls.antt =====
-- The pages that `pollJobsForNode` of apps/web/lib/data/node-api.js hands to a provider.
use infernet_protocol.Common.{
  ℕ, zero, suc, ◌≤◌, ◌≡◌, refl, ◌∙◌, true, Option, none, some, List, [], ◌∷◌, String, length, take,
  keep, All, All-take, length-take, arith,
}
use infernet_protocol.Common.Js.{ℤ, pos, negsuc}
use infernet_protocol.Control.Rows.{keep-All}
use infernet_protocol.Control.Tables.{JobRow, NodeRow, Tables}
use infernet_protocol.Control.Store.{
  Supabase, reply, Result, ok, err, and_then, ◌>>=◌, return, ask, ask_rule, unwrap,
}
use infernet_protocol.Control.Specs.{Texts}
use infernet_protocol.Control.Limits.{clamp, sort_by}
use infernet_protocol.Control.Sorted.{IsSorted, sort_by-All, sort_by-IsSorted}
use infernet_protocol.Control.Receipts.{Cpr}
use infernet_protocol.Control.Jobs.{
  is_assigned_to, created, provider_by_key, find_provider, poll_jobs_for_node,
}
use infernet_protocol.Control.OwnJob.{FindsProvider, find_provider-FindsProvider}

clamp_le : (d most : ℕ) (limit : Option ℤ) → clamp d most limit ≤ most
unfolding clamp
clamp_le d most none = omega arith
clamp_le d most (some (pos zero)) = omega arith
clamp_le d most (some (pos (suc n))) = omega arith
clamp_le d most (some (negsuc n)) = omega arith

module _ {A : Type 0} (key : A → ℕ) where
  IsSorted-take : (n : ℕ) (xs : List A) → IsSorted key xs → IsSorted key (take n xs)
  IsSorted-take zero xs h = tt
  IsSorted-take (suc n) [] h = tt
  IsSorted-take (suc n) (x ∷ xs) (l, h) =
      (All-take (λ y. key x ≤ key y) n xs l, IsSorted-take n xs h)

-- A page: at most 25 jobs, oldest first, all assigned to the provider with the caller's key.
abbrev pub Page : String → Tables → Result (String × List JobRow) → Type 0
Page k before (ok (id, jobs)) =
    (provider : NodeRow) × (provider_by_key k before ≡ reply (some provider))
    × (id ≡ provider.id)
    × (length jobs ≤ 25)
    × IsSorted created jobs
    × All (λ j. is_assigned_to provider.id j ≡ true) jobs
Page k before (err e) = Unit

abbrev page : NodeRow → Option ℤ → Tables → List JobRow
page provider limit tables =
    take (clamp 5 25 limit) (sort_by created (keep (is_assigned_to provider.id) tables.jobs))

module _ (s : Supabase Tables) (t : Texts) (cpr : Cpr) where
  abbrev Reads : String → s.Db → s.Db × Result (String × List JobRow) → Type 0
  Reads k db p = (s.tables p.0 ≡ s.tables db) × Page k (s.tables db) p.1

  -- A poll changes nothing, and a page that it hands out holds at most 25 jobs, oldest first, each
  -- with the status `assigned` and assigned to the provider that has the caller's key.
  pub poll_jobs_for_node-Page :
      (k : String) (limit : Option ℤ) (db : s.Db)
      → (s.tables (poll_jobs_for_node s t cpr k limit db).0 ≡ s.tables db)
        × Page k (s.tables db) (poll_jobs_for_node s t cpr k limit db).1
  unfolding poll_jobs_for_node
  poll_jobs_for_node-Page k limit db =
      go (find_provider s t cpr k db) (find_provider-FindsProvider s t cpr k db)
    where
      read_page :
          (provider : NodeRow) (tables : Tables)
          → provider_by_key k tables ≡ reply (some provider)
          → Page k tables (ok (provider.id, page provider limit tables))
      read_page provider tables e =
          let mine = keep (is_assigned_to provider.id) tables.jobs in
          (
            provider,
            e,
            refl,
            omega
                (arith, length-take (clamp 5 25 limit) (sort_by created mine), clamp_le 5 25 limit),
            IsSorted-take created (clamp 5 25 limit) _ (sort_by-IsSorted created mine),
            All-take _ (clamp 5 25 limit) _
                (sort_by-All created _ mine (keep-All (is_assigned_to provider.id) tables.jobs)),
          )

      go :
          (m : s.Db × Result NodeRow)
          → FindsProvider s t cpr k db m
          → Reads k db (
              and_then
                (λ provider.
                  ask s (λ tables. tables) (λ tables. reply (page provider limit tables))
                  >>= λ found. unwrap found >>= λ jobs. return (provider.id, jobs))
                m)
      go (d, err e) same = (same, tt)
      go (d, ok provider) (same, e) =
          ask_rule s (Reads k db) (λ tables. tables) (λ tables. reply (page provider limit tables))
            (λ found. unwrap found >>= λ jobs. return (provider.id, jobs)) d
            (λ d' x same'. (same' ∙ same, tt))
            (λ d' same'. (same' ∙ same, rw same (read_page provider (s.tables db) e)))
