-- ===== src/Distributed/Selection.antt =====
-- Which workers a job gets: `selectWorkersForJob` of the coordinator.
use infernet_protocol.Common.{
  ℕ, zero, suc, ◌≤◌, leb, true, false, ◌≡◌, refl, ◌⊎◌, subst, ap, none, some, List, [], ◌∷◌, String,
  length, take, arith, Bool-cases, Option-cases, inl, inr, All, All-take, In, All-In, All-of_In,
  In-take, ◌↔◌, length-take, leb→le,
}
use infernet_protocol.Distributed.State.{JobConfig, Worker}
use infernet_protocol.Distributed.Assign.{
  Candidate, or_default, insert_candidate, sort_candidates, available_workers,
  select_workers_for_job, is_busy, worker_meets_requirements, candidate,
}

-- The worker has a free place and meets the job's requirements.
abbrev pub IsEligible : JobConfig → Worker → Type 0
IsEligible cfg w = (is_busy w ≡ false) × (worker_meets_requirements w cfg ≡ some true)

-- The candidate stands for a registered and eligible worker, and states how many jobs it has.
pub record Comes (cfg : JobConfig) (ws : List (String × Worker)) (c : Candidate) : Type 0 where
  pub id : String
  pub worker : Worker
  pub listed : In (id, worker) ws
  pub eligible : IsEligible cfg worker
  pub same : c ≡ candidate id worker

-- The least busy candidates come first.
abbrev pub IsSorted : List Candidate → Type 0
IsSorted [] = Unit
IsSorted (c ∷ cs) = All (λ (d : Candidate). c.active_jobs ≤ d.active_jobs) cs × IsSorted cs

In-insert :
    (x c : Candidate) (cs : List Candidate) → In x (insert_candidate c cs) → (x ≡ c) ⊎ In x cs
unfolding insert_candidate
In-insert x c [] m = m
In-insert x c (d ∷ ds) m = elim (Bool-cases (leb c.active_jobs d.active_jobs)) [
  | inl le ↦ rw le at m
  | inr gt ↦
      let m' : (x ≡ d) ⊎ In x (insert_candidate c ds) = rw gt at m in
      elim m' [
        | inl e ↦ inr (inl e)
        | inr t ↦ elim (In-insert x c ds t) [ inl e ↦ inl e | inr k ↦ inr (inr k) ]
      ]
]

insert-In :
    (x c : Candidate) (cs : List Candidate) → (x ≡ c) ⊎ In x cs → In x (insert_candidate c cs)
unfolding insert_candidate
insert-In x c [] m = m
insert-In x c (d ∷ ds) m = elim (Bool-cases (leb c.active_jobs d.active_jobs)) [
  | inl le ↦ rw le m
  | inr gt ↦ rw gt (elim m [
    | inl e ↦ inr (insert-In x c ds (inl e))
    | inr t ↦ elim t [ inl e ↦ inl e | inr k ↦ inr (insert-In x c ds (inr k)) ]
  ])
]

sort-In : (x : Candidate) (cs : List Candidate) → In x (sort_candidates cs) ↔ In x cs
unfolding sort_candidates
sort-In x [] = (λ m. m, λ m. m)
sort-In x (c ∷ cs) = (
  λ m. elim (In-insert x c _ m) [ inl e ↦ inl e | inr t ↦ inr ((sort-In x cs).0 t) ],
  λ m. insert-In x c _ (elim m [ inl e ↦ inl e | inr t ↦ inr ((sort-In x cs).1 t) ]),
)

All-le_trans :
    (c d : Candidate) (cs : List Candidate)
    → c.active_jobs ≤ d.active_jobs
    → All (λ (e : Candidate). d.active_jobs ≤ e.active_jobs) cs
    → All (λ (e : Candidate). c.active_jobs ≤ e.active_jobs) cs
All-le_trans c d [] h t = tt
All-le_trans c d (e ∷ es) h (t, ts) = (omega arith, All-le_trans c d es h ts)

insert-All :
    (d c : Candidate) (cs : List Candidate)
    → d.active_jobs ≤ c.active_jobs
    → All (λ (e : Candidate). d.active_jobs ≤ e.active_jobs) cs
    → All (λ (e : Candidate). d.active_jobs ≤ e.active_jobs) (insert_candidate c cs)
unfolding insert_candidate
insert-All d c [] h t = (h, tt)
insert-All d c (e ∷ es) h t = ground (arith, insert-All d c es h t.1)

insert-IsSorted :
    (c : Candidate) (cs : List Candidate) → IsSorted cs → IsSorted (insert_candidate c cs)
unfolding insert_candidate
insert-IsSorted c [] h = (tt, tt)
insert-IsSorted c (d ∷ ds) (h, hs) = elim (Bool-cases (leb c.active_jobs d.active_jobs)) [
  | inl le ↦ rw le ((leb→le _ _ le, All-le_trans c d ds (leb→le _ _ le) h), (h, hs))
  | inr gt ↦ rw gt (insert-All d c ds (ground arith) h, insert-IsSorted c ds hs)
]

sort-IsSorted : (cs : List Candidate) → IsSorted (sort_candidates cs)
unfolding sort_candidates
sort-IsSorted [] = tt
sort-IsSorted (c ∷ cs) = insert-IsSorted c (sort_candidates cs) (sort-IsSorted cs)

-- What the cut leaves out is at least as busy as all that it keeps.
take-least :
    (n : ℕ) (cs : List Candidate) (x : Candidate)
    → IsSorted cs
    → In x cs
    → In x (take n cs) ⊎ All (λ (c : Candidate). c.active_jobs ≤ x.active_jobs) (take n cs)
take-least zero cs x s m = inr tt
take-least (suc n) [] x s m = elim m [ ]
take-least (suc n) (c ∷ cs) x s (inl e) = inl (inl e)
take-least (suc n) (c ∷ cs) x (s, ss) (inr m) = elim (take-least n cs x ss m) [
  | inl k ↦ inl (inr k)
  | inr k ↦ inr (All-In (λ (d : Candidate). c.active_jobs ≤ d.active_jobs) cs s m, k)
]

take-IsSorted : (n : ℕ) (cs : List Candidate) → IsSorted cs → IsSorted (take n cs)
take-IsSorted zero cs s = tt
take-IsSorted (suc n) [] s = tt
take-IsSorted (suc n) (c ∷ cs) (s, ss) = (All-take _ n cs s, take-IsSorted n cs ss)

Comes-cons :
    {cfg : JobConfig} {ws : List (String × Worker)} {c : Candidate} (entry : String × Worker)
    → Comes cfg ws c
    → Comes cfg (entry ∷ ws) c
Comes-cons entry h = record {
  id = h.id;
  worker = h.worker;
  listed = inr h.listed;
  eligible = h.eligible;
  same = h.same;
}

-- What one round of the loop adds.
available-step :
    (cfg : JobConfig) (id : String) (w : Worker) (ws : List (String × Worker)) (cs : List Candidate)
    → available_workers cfg ((id, w) ∷ ws) ≡ some cs
    → (rest : List Candidate) × (available_workers cfg ws ≡ some rest)
      × ((¬ IsEligible cfg w × (cs ≡ rest)) ⊎ (IsEligible cfg w × (cs ≡ candidate id w ∷ rest)))
unfolding available_workers
available-step cfg id w ws cs h = elim (Option-cases (available_workers cfg ws)) [
  | inl e ↦ ground arith
  | inr (rest, e) ↦ (rest, e, ground arith)
]

available-Comes :
    (cfg : JobConfig) (ws : List (String × Worker)) (cs : List Candidate) (c : Candidate)
    → available_workers cfg ws ≡ some cs
    → In c cs
    → Comes cfg ws c
unfolding available_workers
available-Comes cfg [] cs c h m = let empty : cs ≡ [] = cc in absurd (subst (λ l. In c l) empty m)
available-Comes cfg ((id, w) ∷ ws) cs c h m =
    let (rest, e, cases) = available-step cfg id w ws cs h in
    elim cases [
      | inl (_, same) ↦
          Comes-cons (id, w) (available-Comes cfg ws rest c e (subst (λ l. In c l) same m))
      | inr (fits, same) ↦
          let m' : (c ≡ candidate id w) ⊎ In c rest = subst (λ l. In c l) same m in
          elim m' [
            | inl here ↦ record {
              id = id;
              worker = w;
              listed = inl refl;
              eligible = fits;
              same = here;
            }
            | inr later ↦ Comes-cons (id, w) (available-Comes cfg ws rest c e later)
          ]
    ]

available_complete :
    (cfg : JobConfig) (ws : List (String × Worker)) (cs : List Candidate) (id : String) (w : Worker)
    → available_workers cfg ws ≡ some cs
    → In (id, w) ws
    → IsEligible cfg w
    → In (candidate id w) cs
available_complete cfg [] cs id w h m e = elim m [ ]
available_complete cfg ((id', w') ∷ ws) cs id w h m e =
    let (rest, found, cases) = available-step cfg id' w' ws cs h in
    elim m [
      | inl here ↦ elim cases [
        | inl (misfit, _) ↦
            absurd
              (misfit (subst (λ x. IsEligible cfg x) (ap (λ (x : String × Worker). x.1) here) e))
        | inr (_, same) ↦ rw same (inl (ap (λ (x : String × Worker). candidate x.0 x.1) here))
      ]
      | inr later ↦
          let k = available_complete cfg ws rest id w found later e in
          elim cases [ inl (_, same) ↦ rw same k | inr (_, same) ↦ rw same (inr k) ]
    ]

-- The workers that a job gets, least busy first: at most `numWorkers` of them, or 1 where none is
-- asked for, each of them registered, with a free place and meeting the requirements. A registered
-- and eligible worker is passed over only for workers that have no more jobs than it has.
pub select_workers_for_job-best :
    (cfg : JobConfig) (ws : List (String × Worker)) (chosen : List Candidate) (id : String)
    (worker : Worker)
    → select_workers_for_job cfg ws ≡ some chosen
    → In (id, worker) ws
    → IsEligible cfg worker
    → (length chosen ≤ or_default cfg.num_workers 1)
      × IsSorted chosen
      × All (Comes cfg ws) chosen
      × (In (candidate id worker) chosen
          ⊎ All (λ (c : Candidate). c.active_jobs ≤ length worker.active_jobs) chosen)
unfolding select_workers_for_job
select_workers_for_job-best cfg ws chosen id worker h m f =
    elim (Option-cases (available_workers cfg ws)) [
      | inl e ↦ let wrong : none ≡ some chosen = rw (e, select_workers_for_job) at h in cc
      | inr (cs, e) ↦
          let n = or_default cfg.num_workers 1 in
          let cut : some (take n (sort_candidates cs)) ≡ some chosen =
            rw (e, select_workers_for_job) at h in
          let same : take n (sort_candidates cs) ≡ chosen = cc in
          rw (← same) (
            omega (arith, length-take n (sort_candidates cs)),
            take-IsSorted n _ (sort-IsSorted cs),
            All-of_In _ _
                (λ c k. available-Comes cfg ws cs c e ((sort-In c cs).0 (In-take n _ c k))),
            take-least n _ (candidate id worker) (sort-IsSorted cs)
                ((sort-In _ cs).1 (available_complete cfg ws cs id worker e m f)),
          )
    ]
