-- ===== src/Control/Claims.antt =====
-- The claims of commands by the daemons: `pollCommandsForNode` of apps/web/lib/data/node-commands.js.
use infernet_protocol.Common.{
  ℕ, ◌≡◌, refl, ap, ◌∙◌, false, Option, none, some, List, [], ◌∷◌, String, keep, arith, Bool-cases,
  ◌⊎◌, inl, inr,
}
use infernet_protocol.Control.Tables.{CommandRow, Tables}
use infernet_protocol.Control.Store.{
  Supabase, Result, ok, and_then-ok, and_then-return, ◌>>=◌, return, maybe_single, ask_rule,
}
use infernet_protocol.Control.Commands.{
  claim, claimable, claimed, claim_command, claim_all, has_command_id, add_claimed, claimed_row,
}

abbrev pub IsTaken : String → List CommandRow → Type 0
IsTaken id cs = keep (claimable id) cs ≡ []

claimed-not_claimable :
    (now : ℕ) (id : String) (c : CommandRow) → claimable id (claimed now c) ≡ false
claimed-not_claimable now id c = elim (Bool-cases (has_command_id id c)) [
  | inl e ↦ rw e refl
  | inr e ↦ rw e refl
]

claim-IsTaken_same : (now : ℕ) (id : String) (cs : List CommandRow) → IsTaken id (claim now id cs)
unfolding claim
claim-IsTaken_same now id [] = refl
claim-IsTaken_same now id (c ∷ cs) =
    let rest = claim-IsTaken_same now id cs in
    elim (Bool-cases (claimable id c)) [
      | inl e ↦ rw (e, claimed-not_claimable now id c, rest) refl
      | inr e ↦ rw (e, e, rest) refl
    ]

claim-IsTaken :
    (now : ℕ) (id j : String) (cs : List CommandRow) → IsTaken id cs → IsTaken id (claim now j cs)
unfolding claim
claim-IsTaken now id j [] h = refl
claim-IsTaken now id j (c ∷ cs) h = elim (Bool-cases (claimable id c)) [
  | inl e ↦ ground arith
  | inr e ↦ ground (arith, claim-IsTaken now id j cs)
]

module _ (s : Supabase Tables) where
  claim_command-cases :
      (now : ℕ) (id : String) (db : s.Db)
      → ((claim_command s now id db).1 ≡ ok none)
          × (s.tables (claim_command s now id db).0 ≡ s.tables db)
        ⊎ ((claim_command s now id db).1
            ≡ ok (claimed_row now (maybe_single (keep (claimable id) (s.tables db).commands))))
          × (s.tables (claim_command s now id db).0
              ≡ record (s.tables db) { commands = claim now id (s.tables db).commands })
  unfolding claim_command
  claim_command-cases now id db =
      ask_rule s
        (λ (p : s.Db × Result (Option CommandRow)).
          (p.1 ≡ ok none) × (s.tables p.0 ≡ s.tables db)
          ⊎ (p.1 ≡ ok (claimed_row now (maybe_single (keep (claimable id) (s.tables db).commands))))
            × (s.tables p.0
                ≡ record (s.tables db) { commands = claim now id (s.tables db).commands }))
        (λ t. record t { commands = claim now id t.commands })
        (λ t. maybe_single (keep (claimable id) t.commands))
        (λ updated. return (claimed_row now updated)) db (λ db' e same. inl (refl, same))
        (λ db' changed. inr (refl, changed))

  claim_command-IsTaken :
      (now : ℕ) (id j : String) (db : s.Db)
      → IsTaken id (s.tables db).commands
      → IsTaken id (s.tables (claim_command s now j db).0).commands
  claim_command-IsTaken now id j db h = elim (claim_command-cases now j db) [
    | inl (r, e) ↦ rw e h
    | inr (r, e) ↦ rw e (claim-IsTaken now id j _ h)
  ]

  claim_command-row :
      (now : ℕ) (id : String) (db : s.Db)
      → (row : Option CommandRow) × ((claim_command s now id db).1 ≡ ok row)
  claim_command-row now id db = elim (claim_command-cases now id db) [
    | inl (e, _) ↦ (_, e)
    | inr (e, _) ↦ (_, e)
  ]

  -- A round passes its result on, and the database to the next one.
  claim_all-step :
      (now : ℕ) (r : CommandRow) (rs : List CommandRow) (db : s.Db)
      → (claim_all s now (r ∷ rs) db).0 ≡ (claim_all s now rs (claim_command s now r.id db).0).0
  unfolding claim_all
  claim_all-step now r rs db =
      let (row, e) = claim_command-row now r.id db in
      ap (λ (p : s.Db × Result (List CommandRow)). p.0)
        (and_then-ok (λ row. claim_all s now rs >>= λ rows. return (add_claimed s row rows))
          (claim_command s now r.id db) row e)
      ∙ and_then-return (add_claimed s row) (claim_all s now rs (claim_command s now r.id db).0)

  claim_all-IsTaken :
      (now : ℕ) (id : String) (rs : List CommandRow) (db : s.Db)
      → IsTaken id (s.tables db).commands
      → IsTaken id (s.tables (claim_all s now rs db).0).commands
  unfolding claim_all
  claim_all-IsTaken now id [] db h = h
  claim_all-IsTaken now id (r ∷ rs) db h =
      rw (claim_all-step now r rs db)
        (claim_all-IsTaken now id rs _ (claim_command-IsTaken now id r.id db h))

  claim_command-IsTaken_after :
      (now : ℕ) (id : String) (db : s.Db) {r : CommandRow}
      → (claim_command s now id db).1 ≡ ok (some r)
      → IsTaken id (s.tables (claim_command s now id db).0).commands
  claim_command-IsTaken_after now id db {r} h = elim (claim_command-cases now id db) [
    | inl (e, _) ↦ ground arith
    | inr (_, e) ↦ rw e (claim-IsTaken_same now id _)
  ]

  claim_command-none :
      (now : ℕ) (id : String) (db : s.Db)
      → IsTaken id (s.tables db).commands
      → (claim_command s now id db).1 ≡ ok none
  claim_command-none now id db h = elim (claim_command-cases now id db) [
    | inl (e, _) ↦ e
    | inr (e, _) ↦ rw h at e
  ]

  -- A command that one daemon claimed is claimed by no other: whatever polls claim rows of the queue
  -- in between, a later claim of the same id gets nothing.
  pub claim_command-once :
      (now now' now'' : ℕ) (id : String) (rs : List CommandRow) (db : s.Db) {r : CommandRow}
      → (claim_command s now id db).1 ≡ ok (some r)
      → (claim_command s now'' id (claim_all s now' rs (claim_command s now id db).0).0).1 ≡ ok none
  claim_command-once now now' now'' id rs db h =
      claim_command-none now'' id _
        (claim_all-IsTaken now' id rs _ (claim_command-IsTaken_after now id db h))
