-- ===== src/Control/Drain.antt =====
-- The draining of the queue of receipts: apps/web/lib/cpr/queue-drain.js.
use infernet_protocol.Common.{
  ℕ, ◌+◌, ◌≤◌, ◌≡◌, refl, subst, List, [], ◌∷◌, keep, All, length, min, max, length-take, arith,
}
use infernet_protocol.Control.Tables.{QueueRow, Tables}
use infernet_protocol.Control.Store.{
  Supabase, reply, Result, ok, err, M, and_then, ◌>>=◌, ask_rule, unwrap,
}
use infernet_protocol.Control.Receipts.{
  Cpr, Class, sent, retry, permanent_fail, try_flush_receipt, Drained, tally, drain_rows, due_rows,
  drain_pending_receipts, is_due,
}
use infernet_protocol.Control.Limits.{sort_by}
use infernet_protocol.Control.Queue.{
  HasAttempts, Flushes, same-Flushes, trans-Flushes, Quiet, try_flush_receipt-Quiet,
}

module _ (s : Supabase Tables) (cpr : Cpr) where
  abbrev pub counted : Drained s cpr → ℕ
  counted d = d.sent_count + d.retry_count + d.fail_count

  -- A drain that began with the counts `d` has counted `n` more rows.
  abbrev pub IsTallied : ℕ → Drained s cpr → Result (Drained s cpr) → Type 0
  IsTallied n d (ok d') = (d'.scanned ≡ d.scanned) × (counted d' ≡ counted d + n)
  IsTallied n d (err e) = ⊥

  tally-IsTallied :
      (c : Class) (n : ℕ) (d : Drained s cpr) (x : Result (Drained s cpr))
      → IsTallied n (tally s cpr c d) x
      → IsTallied (n + 1) d x
  tally-IsTallied sent n d (ok x) (a, b) = (a, omega arith)
  tally-IsTallied retry n d (ok x) (a, b) = (a, omega arith)
  tally-IsTallied permanent_fail n d (ok x) (a, b) = (a, omega arith)
  tally-IsTallied c n d (err e) h = h

  abbrev Drains : ℕ → Drained s cpr → s.Db → s.Db × Result (Drained s cpr) → Type 0
  Drains n d db p = Flushes (s.tables db) (s.tables p.0) × IsTallied n d p.1

  next_row :
      (n : ℕ) (d : Drained s cpr) (db : s.Db) (k : Class → M s.Db (Drained s cpr))
      (p : s.Db × Result Class)
      → Quiet s cpr db p
      → ((c : Class) (db' : s.Db) → Drains n (tally s cpr c d) db' (k c db'))
      → Drains (n + 1) d db (and_then k p)
  next_row n d db k (d', ok c) (w, o) rest =
      let (w', h) = rest c d' in (trans-Flushes w w', tally-IsTallied c n d _ h)
  next_row n d db k (d', err e) (w, o) rest = elim o [ ]

  drain_rows-Drains :
      (now : ℕ) (rs : List QueueRow) (d : Drained s cpr) (db : s.Db)
      → Drains (length rs) d db (drain_rows s cpr now rs d db)
  unfolding drain_rows
  drain_rows-Drains now [] d db = (same-Flushes refl, (refl, omega arith))
  drain_rows-Drains now (r ∷ rs) d db =
      subst (λ n. Drains n d db (drain_rows s cpr now (r ∷ rs) d db)) (omega arith)
        (next_row (length rs) d db (λ class. drain_rows s cpr now rs (tally s cpr class d))
          (try_flush_receipt s cpr now r.receipt db)
          (try_flush_receipt-Quiet s cpr now r.receipt db)
          (λ c db'. drain_rows-Drains now rs (tally s cpr c d) db'))

  -- A result that counts each scanned row once, at most a hundred, or the error of the first read.
  abbrev pub IsReport : Result (Drained s cpr) → Type 0
  IsReport (ok d) = (counted d ≡ d.scanned) × (d.scanned ≤ 100)
  IsReport (err e) = e ≡ 500

  IsTallied-IsReport :
      (n : ℕ) (d : Drained s cpr) (x : Result (Drained s cpr))
      → d.scanned ≡ n
      → counted d ≡ 0
      → n ≤ 100
      → IsTallied n d x
      → IsReport x
  IsTallied-IsReport n d (ok x) a b c (e, f) = (omega arith, omega arith)
  IsTallied-IsReport n d (err e) a b c h = elim h [ ]

  drained :
      (now batch_size : ℕ) (db : s.Db)
      → Flushes (s.tables db) (s.tables (drain_pending_receipts s cpr now batch_size db).0)
        × IsReport (drain_pending_receipts s cpr now batch_size db).1
  unfolding drain_pending_receipts
  drained now batch_size db =
      let limit = max 1 (min 100 batch_size) in
      let rows = due_rows s cpr now limit (s.tables db) in
      let start : Drained s cpr = record {
        scanned = length rows;
        sent_count = 0;
        retry_count = 0;
        fail_count = 0;
      } in
      ask_rule s
        (λ (p : s.Db × Result (Drained s cpr)). Flushes (s.tables db) (s.tables p.0) × IsReport p.1)
        (λ t. t) (λ t. reply (due_rows s cpr now limit t))
        (λ found. unwrap found >>= λ rows.
          drain_rows s cpr now rows
            (record { scanned = length rows; sent_count = 0; retry_count = 0; fail_count = 0 }))
        db (λ d e same. (same-Flushes same, refl))
        (λ d same.
          let (w, h) = drain_rows-Drains now rows start d in
          (
            trans-Flushes (same-Flushes same) w,
            IsTallied-IsReport (length rows) start _ refl refl
                (omega (
                  arith,
                  length-take limit (
                      sort_by (λ (r : QueueRow). r.next_attempt_at)
                        (keep (is_due s cpr now) (s.tables db).receipts)),
                ))
                h,
          ))

  -- If every row that waits in the queue has fewer than eight attempts behind it, the same holds
  -- after a drain, which changes no other table. The drain ends with a report that counts each
  -- scanned row once, at most a hundred of them, as sent, waiting or failed, or with status 500 if
  -- the queue could not be read.
  pub drain_pending_receipts-IsReport :
      (now batch_size : ℕ) (db : s.Db)
      → All HasAttempts (s.tables db).receipts
      → (s.tables (drain_pending_receipts s cpr now batch_size db).0 ≡ record (s.tables db) {
        receipts = (s.tables (drain_pending_receipts s cpr now batch_size db).0).receipts;
      })
        × All HasAttempts (s.tables (drain_pending_receipts s cpr now batch_size db).0).receipts
        × IsReport (drain_pending_receipts s cpr now batch_size db).1
  drain_pending_receipts-IsReport now batch_size db h =
      let (work, report) = drained now batch_size db in (work.others, work.bounded h, report)
