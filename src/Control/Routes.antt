-- ===== src/Control/Routes.antt =====
-- Where a chat job goes: `reputationWeightedPick`, `pickChatProvider` and `createChatJob` of
-- apps/web/lib/data/chat.js.
use infernet_protocol.Common.{
  false, true, ℕ, ◌+◌, ◌-◌, ◌≤◌, ◌<◌, ◌≡◌, refl, sym, subst, ap, ◌∙◌, leb, le→leb, lt→leb, if_rule,
  Bool, ◌&&◌, Option, none, some, List, [], ◌∷◌, ◌++◌, String, keep, In, ◌⊎◌, inl, inr, arith,
  Bool-cases,
}
use infernet_protocol.Control.Store.{
  Supabase, reply, Result, ok, err, and_then, ◌>>=◌, return, unwrap, ask_rule,
}
use infernet_protocol.Control.Chat.{
  p2p, nim, nobody, Offer, ChatMessage, ChatJob, ChatTables, Routing, Source, not_saturated,
  serves_named, is_live, total_weight, pick_from, reputation_weighted_pick, chat_job, source_of,
  is_candidate, candidates, pick_chat_provider, insert_job, create_chat_job,
}

-- A candidate is picked exactly for the numbers between the weight of those before it and that
-- weight with its own added: the share of the numbers that it gets is its share of the weight.
pick_from-share :
    (weight : Offer → ℕ) (front : List Offer) (p : Offer) (back : List Offer) (r : ℕ) (last : Offer)
    → total_weight weight front < r
    → r ≤ total_weight weight front + weight p
    → pick_from weight r last (front ++ p ∷ back) ≡ p
unfolding pick_from
pick_from-share weight [] p back r last lo hi = rw (le→leb r (weight p) (omega arith)) refl
pick_from-share weight (q ∷ front) p back r last lo hi =
    rw (lt→leb r (weight q) (omega arith))
      (pick_from-share weight front p back (r - weight q) q (omega arith) (omega arith))

pick_from-In :
    (weight : Offer → ℕ) (r : ℕ) (last : Offer) (ps : List Offer)
    → (pick_from weight r last ps ≡ last) ⊎ In (pick_from weight r last ps) ps
unfolding pick_from
pick_from-In weight r last [] = inl refl
pick_from-In weight r last (p ∷ ps) =
    if_rule (λ x. (x ≡ last) ⊎ In x (p ∷ ps)) (leb r (weight p)) p
      (pick_from weight (r - weight p) p ps) (inr (inl refl))
      (inr (pick_from-In weight (r - weight p) p ps))

-- A pick from candidates is one of them, and there is none only where there are none.
abbrev IsPick : List Offer → Option Offer → Type 0
IsPick ps none = ps ≡ []
IsPick ps (some p) = In p ps

reputation_weighted_pick-IsPick :
    (rt : Routing) (ps : List Offer) → IsPick ps (reputation_weighted_pick rt ps)
unfolding reputation_weighted_pick
reputation_weighted_pick-IsPick rt [] = refl
reputation_weighted_pick-IsPick rt (p ∷ []) = inl refl
reputation_weighted_pick-IsPick rt (p ∷ q ∷ ps) =
    elim (pick_from-In rt.weight (rt.roll (total_weight rt.weight (p ∷ q ∷ ps))) p (p ∷ q ∷ ps)) [
      | inl same ↦ inl same
      | inr found ↦ found
    ]

keep-both : (f g : Offer → Bool) (ps : List Offer) → keep g (keep f ps) ≡ keep (λ p. f p && g p) ps
keep-both f g [] = refl
keep-both f g (p ∷ ps) =
    let rest = keep-both f g ps in
    elim (Bool-cases (f p)) [
      | inl e ↦ elim (Bool-cases (g p)) [
        | inl e' ↦ rw (e, e', rest) refl
        | inr e' ↦ rw (e, e', rest) refl
      ]
      | inr e ↦ rw (e, rest) refl
    ]

In-keep :
    (f : Offer → Bool) (ps : List Offer) (p : Offer) → In p (keep f ps) → (f p ≡ true) × In p ps
In-keep f [] p m = elim m [ ]
In-keep f (q ∷ ps) p m = elim (Bool-cases (f q)) [
  | inl e ↦
      let m' : (p ≡ q) ⊎ In p (keep f ps) = rw e at m in
      elim m' [
        | inl same ↦ (rw same e, inl same)
        | inr later ↦ let (h, k) = In-keep f ps p later in (h, inr k)
      ]
  | inr e ↦ let m' : In p (keep f ps) = rw e at m in let (h, k) = In-keep f ps p m' in (h, inr k)
]

-- What the choice answers: a registered candidate, or nothing where no row is a candidate.
abbrev pub Choice : ℕ → Option String → List Offer → Option Offer → Type 0
Choice now model rows none = keep (is_candidate now model) rows ≡ []
Choice now model rows (some p) = (is_candidate now model p ≡ true) × In p rows

IsPick-Choice :
    (now : ℕ) (model : Option String) (rows ps : List Offer) (o : Option Offer)
    → ps ≡ keep (is_candidate now model) rows
    → IsPick ps o
    → Choice now model rows o
IsPick-Choice now model rows ps none e h = sym e ∙ h
IsPick-Choice now model rows ps (some p) e h =
    In-keep (is_candidate now model) rows p (subst (λ l. In p l) e h)

abbrev pub AnswersChoice : ℕ → Option String → List Offer → Result (Option Offer) → Type 0
AnswersChoice now model rows (ok o) = Choice now model rows o
AnswersChoice now model rows (err e) = e ≡ 500

module _ (s : Supabase ChatTables) (rt : Routing) where
  candidates-keep :
      (now : ℕ) (model : Option String) (rows : List Offer)
      → candidates s rt now model (keep (is_live now) rows) ≡ keep (is_candidate now model) rows
  candidates-keep now model rows =
      keep-both (serves_named model) not_saturated (keep (is_live now) rows)
      ∙ keep-both (is_live now) (λ p. serves_named model p && not_saturated p) rows

  -- The choice changes nothing. It gives a registered provider that is available, was seen within two
  -- minutes, serves the model if one is named, and is not saturated; it gives none only where no
  -- registered provider is so; and it fails with status 500 only where the database does.
  pub pick_chat_provider-Choice :
      (now : ℕ) (model : Option String) (db : s.Db)
      → (s.tables (pick_chat_provider s rt now model db).0 ≡ s.tables db)
        × AnswersChoice now model (s.tables db).providers (pick_chat_provider s rt now model db).1
  unfolding pick_chat_provider
  pick_chat_provider-Choice now model db =
      let rows = (s.tables db).providers in
      let ps = candidates s rt now model (keep (is_live now) rows) in
      ask_rule s
        (λ (p : s.Db × Result (Option Offer)).
          (s.tables p.0 ≡ s.tables db) × AnswersChoice now model rows p.1)
        (λ t. t) (λ t. reply (keep (is_live now) t.providers))
        (λ found. unwrap found >>= λ live.
          return (reputation_weighted_pick rt (candidates s rt now model live)))
        db (λ d e same. (same, refl))
        (λ d same. (
          same,
          IsPick-Choice now model rows ps _ (candidates-keep now model rows)
              (reputation_weighted_pick-IsPick rt ps),
        ))

  -- What the row of a new job says of where it goes.
  abbrev pub Placed : ℕ → Source → Option Offer → ChatJob → Type 0
  Placed now p2p (some p) job =
      (job.status ≡ "assigned")
      × (job.provider_id ≡ some p.id)
      × (job.assigned_at ≡ some now)
      × (job.uses_fallback ≡ false)
  Placed now nim none job =
      (rt.is_nim_configured ≡ true)
      × (job.status ≡ "running")
      × (job.provider_id ≡ none)
      × (job.assigned_at ≡ some now)
      × (job.uses_fallback ≡ true)
  Placed now nobody none job =
      (rt.is_nim_configured ≡ false)
      × (job.status ≡ "pending")
      × (job.provider_id ≡ none)
      × (job.assigned_at ≡ none)
      × (job.uses_fallback ≡ false)
  Placed now source provider job = ⊥

  chat_job-Placed :
      (id : String) (now : ℕ) (provider : Option Offer) (messages : List ChatMessage)
      (model : Option String) (max_tokens : ℕ)
      → Placed now
          (source_of provider rt.is_nim_configured)
          provider
          (chat_job rt id now provider messages model max_tokens)
  unfolding chat_job
  chat_job-Placed id now (some p) messages model max_tokens = (refl, refl, refl, refl)
  chat_job-Placed id now none messages model max_tokens = elim (Bool-cases rt.is_nim_configured) [
    | inl e ↦ rw e (refl, refl, refl, refl, refl)
    | inr e ↦ rw e (refl, refl, refl, refl, refl)
  ]

  -- A created job is added at the end with the status that its source has.
  abbrev pub Creation :
      ℕ
      → List ChatMessage
      → Option String
      → ℕ
      → ChatTables
      → ChatTables
      → Result (ChatJob × Option Offer × Source)
      → Type 0
  Creation now messages model max_tokens before after (ok (job, provider, source)) =
      Placed now source provider job
      × (job.model_name ≡ model)
      × (job.messages ≡ messages)
      × (job.max_tokens ≡ max_tokens)
      × Choice now model before.providers provider
      × (after ≡ record before { jobs = before.jobs ++ job ∷ [] })
  Creation now messages model max_tokens before after (err e) = (after ≡ before) × (e ≡ 500)

  -- A chat job goes to a provider that qualifies, if one does, else to the fallback, if that is
  -- configured, else to nobody, with the status `assigned`, `running` or `pending`; it is the one row
  -- that is added. A request that fails has status 500 and changes nothing.
  pub create_chat_job-Creation :
      (now : ℕ) (messages : List ChatMessage) (model : Option String) (max_tokens : ℕ) (db : s.Db)
      → Creation now messages model max_tokens
          (s.tables db)
          (s.tables (create_chat_job s rt now messages model max_tokens db).0)
          (create_chat_job s rt now messages model max_tokens db).1
  unfolding create_chat_job chat_job
  create_chat_job-Creation now messages model max_tokens db =
      let (same, choice) = pick_chat_provider-Choice now model db in
      go (pick_chat_provider s rt now model db) same choice
    where
      go :
          (m : s.Db × Result (Option Offer))
          → s.tables m.0 ≡ s.tables db
          → AnswersChoice now model (s.tables db).providers m.1
          → Creation now messages model max_tokens
              (s.tables db)
              (s.tables (and_then (insert_job s rt now messages model max_tokens) m).0)
              (and_then (insert_job s rt now messages model max_tokens) m).1
      go (d, err e) same choice = (same, choice)
      go (d, ok provider) same choice =
          let id = s.new_id d in
          let job = chat_job rt id now provider messages model max_tokens in
          let f : ChatTables → ChatTables = λ t. record t { jobs = t.jobs ++ job ∷ [] } in
          ask_rule s
            (λ (p : s.Db × Result (ChatJob × Option Offer × Source)).
              Creation now messages model max_tokens (s.tables db) (s.tables p.0) p.1)
            f (λ t. reply job)
            (λ written. unwrap written >>= λ row.
              return (row, provider, source_of provider rt.is_nim_configured))
            d (λ d' e same'. (same' ∙ same, refl))
            (λ d' h. (
              chat_job-Placed id now provider messages model max_tokens,
              refl,
              refl,
              refl,
              choice,
              h ∙ ap f same,
            ))
