-- ===== src/Control/Ownership.antt =====
-- Who may finish a command: `completeCommandForNode` of apps/web/lib/data/node-commands.js.
use infernet_protocol.Common.{
  ℕ, ◌≡◌, ◌≢◌, refl, sym, ◌∙◌, ap, true, false, not, Option, none, some, List, [], ◌∷◌, String,
  str_eq, eq_iff, keep, map, arith, Bool-cases, inl, inr, ◌⊎◌,
}
use infernet_protocol.Common.Js.{Js, undefined}
use infernet_protocol.Control.Tables.{CommandRow, Tables}
use infernet_protocol.Control.Store.{
  Supabase, reply, Result, ok, err, ◌>>◌, return, ask_rule, unwrap, maybe_single,
}
use infernet_protocol.Control.Jobs.{is_undefined}
use infernet_protocol.Control.Commands.{
  is_final, has_command_id, finished, change_command, complete_command_for_node, finish_command,
}

-- The row of a finished command against the row before: what was given replaces what was there, and
-- the rest stays.
pub record IsFinished (now : ℕ) (status : String) (result : Js) (message : Option String)
    (r r' : CommandRow) : Type 0 where
  pub status_set : r'.status ≡ status
  pub time_set : r'.completed_at ≡ some now
  pub result_kept : result ≡ undefined → r'.result ≡ r.result
  pub result_set : result ≢ undefined → r'.result ≡ result
  pub no_message : message ≡ none → r'.error ≡ r.error
  pub message_set : (e : String) → e ≢ "" → message ≡ some e → r'.error ≡ some e
  pub command_kept :
      (r'.id ≡ r.id)
      × (r'.pubkey ≡ r.pubkey)
      × (r'.command ≡ r.command)
      × (r'.args ≡ r.args)
      × (r'.issued_by ≡ r.issued_by)
      × (r'.issued_at ≡ r.issued_at)
      × (r'.started_at ≡ r.started_at)

is_undefined-cases :
    (v : Js)
    → ((v ≡ undefined) × (is_undefined v ≡ true)) ⊎ ((v ≢ undefined) × (is_undefined v ≡ false))
is_undefined-cases undefined = inl (refl, refl)
is_undefined-cases Js.null = inr ((λ e. cc), refl)
is_undefined-cases (Js.bool b) = inr ((λ e. cc), refl)
is_undefined-cases (Js.num n) = inr ((λ e. cc), refl)
is_undefined-cases (Js.str t) = inr ((λ e. cc), refl)
is_undefined-cases (Js.arr xs) = inr ((λ e. cc), refl)
is_undefined-cases (Js.obj o) = inr ((λ e. cc), refl)

finished-IsFinished :
    (now : ℕ) (status : String) (result : Js) (message : Option String) (r : CommandRow)
    → IsFinished now status result message r (finished now status result message r)
finished-IsFinished now status result message r = record {
  status_set = refl;
  time_set = refl;
  result_kept =
      λ e. elim (is_undefined-cases result) [ inl (_, h) ↦ rw h refl | inr (d, _) ↦ absurd (d e) ];
  result_set =
      λ d. elim (is_undefined-cases result) [ inl (e, _) ↦ absurd (d e) | inr (_, h) ↦ rw h refl ];
  no_message = λ e. rw e refl;
  message_set =
      λ e full h. let text : str_eq e "" ≡ false = ground (arith, eq_iff e "") in rw (h, text) refl;
  command_kept = (refl, refl, refl, refl, refl, refl, refl);
}

final_cases :
    (status : String) → is_final status ≡ true → (status ≡ "completed") ⊎ (status ≡ "failed")
final_cases status h = elim (Bool-cases (str_eq status "completed")) [
  | inl e ↦ inl ((eq_iff status "completed").0 e)
  | inr e ↦ inr ((eq_iff status "failed").0 (rw e at h))
]

module _ (id : String) (f : CommandRow → CommandRow)
    (same : (q : CommandRow) → has_command_id id (f q) ≡ has_command_id id q) where
  changed_all :
      (rs : List CommandRow)
      → keep (has_command_id id) (change_command id f rs) ≡ map f (keep (has_command_id id) rs)
  changed_all [] = refl
  changed_all (q ∷ rs) = elim (Bool-cases (has_command_id id q)) [
    | inl e ↦ rw (e, same q ∙ e) (ap (λ t. f q ∷ t) (changed_all rs))
    | inr e ↦ rw (e, e) (changed_all rs)
  ]

  changed_one :
      (r : CommandRow) (rs : List CommandRow)
      → keep (has_command_id id) rs ≡ r ∷ []
      → keep (has_command_id id) (change_command id f rs) ≡ f r ∷ []
  changed_one r rs h = changed_all rs ∙ ap (map f) h

  changed_others :
      (rs : List CommandRow)
      → keep (λ q. not (has_command_id id q)) (change_command id f rs)
        ≡ keep (λ q. not (has_command_id id q)) rs
  changed_others [] = refl
  changed_others (q ∷ rs) = elim (Bool-cases (has_command_id id q)) [
    | inl e ↦ rw (e, same q ∙ e) (changed_others rs)
    | inr e ↦ rw (e, e) (ap (λ t. q ∷ t) (changed_others rs))
  ]

module _ (s : Supabase Tables) where
  -- What completing a command does: the one row with the id is the caller's and gets the status, the
  -- time, and the result and the message that are given; no other row is written.
  abbrev pub Finish :
      ℕ
      → String
      → String
      → Js
      → Option String
      → List CommandRow
      → List CommandRow
      → Result (String × String)
      → Type 0
  Finish now k given result message before after (ok (id, status)) =
      (r : CommandRow) × (keep (has_command_id id) before ≡ r ∷ [])
      × (r.pubkey ≡ k)
      × (id ≡ given)
      × ((status ≡ "completed") ⊎ (status ≡ "failed"))
      × ((r' : CommandRow) × (keep (has_command_id id) after ≡ r' ∷ [])
          × IsFinished now status result message r r')
      × (keep (λ q. not (has_command_id id q)) after ≡ keep (λ q. not (has_command_id id q)) before)
  Finish now k given result message before after (err e) = after ≡ before

  -- A command is completed only by the key that it was issued to, with the status completed or failed;
  -- its row gets the status, the time and what is given of a result and a message, and every other row
  -- stays as it was. A completion that ends with an error changes no command.
  pub complete_command_for_node-Finish :
      (now : ℕ) (k id status : String) (result : Js) (message : Option String) (db : s.Db)
      → Finish now k id result message
          (s.tables db).commands
          (s.tables (complete_command_for_node s now k id status result message db).0).commands
          (complete_command_for_node s now k id status result message db).1
  unfolding complete_command_for_node
  complete_command_for_node-Finish now k id status result message db =
      elim (Bool-cases (str_eq id "")) [
        | inl e ↦ rw e refl
        | inr named ↦ elim (Bool-cases (is_final status)) [
          | inr e ↦ rw (named, e) refl
          | inl final ↦
              rw (named, final)
                (ask_rule s (Finishes db) (λ t. t)
                  (λ t. maybe_single (keep (has_command_id id) t.commands))
                  (finish_command s now k id status result message) db
                  (λ d e same. ap (λ (t : Tables). t.commands) same)
                  (λ d same.
                    looked final d (keep (has_command_id id) (s.tables db).commands) same refl))
        ]
      ]
    where
      Finishes : s.Db → s.Db × Result (String × String) → Type 0
      Finishes db p =
          Finish now k id result message (s.tables db).commands (s.tables p.0).commands p.1

      looked :
          is_final status ≡ true
          → (d : s.Db) (rows : List CommandRow) → s.tables d ≡ s.tables db
          → rows ≡ keep (has_command_id id) (s.tables db).commands
          → Finishes db (finish_command s now k id status result message (maybe_single rows) d)
      looked final d [] same e = ap (λ (t : Tables). t.commands) same
      looked final d (r ∷ q ∷ rest) same e = ap (λ (t : Tables). t.commands) same
      looked final d (r ∷ []) same e =
          let f : Tables → Tables = λ t. record t {
            commands = change_command id (finished now status result message) t.commands;
          } in
          elim (Bool-cases (str_eq r.pubkey k)) [
            | inr foreign ↦ rw foreign (ap (λ (t : Tables). t.commands) same)
            | inl own ↦ rw own (
                ask_rule s (Finishes db) f (λ t. reply tt)
                  (λ written. unwrap written >> return (id, status)) d
                  (λ d' x same'. ap (λ (t : Tables). t.commands) (same' ∙ same))
                  (λ d' h. (
                    r,
                    sym e,
                    ground (arith, eq_iff r.pubkey k),
                    refl,
                    final_cases status final,
                    (
                      finished now status result message r,
                      ap (λ (t : Tables). keep (has_command_id id) t.commands) (h ∙ ap f same)
                          ∙ changed_one id (finished now status result message) (λ q. refl) r
                              (s.tables db).commands (sym e),
                      finished-IsFinished now status result message r,
                    ),
                    ap (λ (t : Tables). keep (λ q. not (has_command_id id q)) t.commands)
                          (h ∙ ap f same)
                        ∙ changed_others id (finished now status result message) (λ q. refl)
                            (s.tables db).commands,
                  )))
          ]
