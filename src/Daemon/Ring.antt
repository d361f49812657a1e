-- ===== src/Daemon/Ring.antt =====
-- The ring of benchmarks of the daemon of apps/cli/commands/start.js.
use infernet_protocol.Common.{
  ℕ, suc, ◌≤◌, ◌≡◌, false, List, [], ◌∷◌, ◌++◌, All, arith, length, ltb, ◌==◌, if_split_rule,
}
use infernet_protocol.Daemon.State.{Sample, bench_ring_max, shift_excess, record_bench}

-- The ring: at most 32 samples, each with tokens and time.
abbrev pub IsRing : List Sample → Type 0
IsRing ring =
    (length ring ≤ bench_ring_max) × All (λ (e : Sample). (1 ≤ e.tokens) × (1 ≤ e.ms)) ring

shift_excess-IsRing :
    (ring : List Sample)
    → All (λ (e : Sample). (1 ≤ e.tokens) × (1 ≤ e.ms)) ring
    → IsRing (shift_excess ring)
unfolding shift_excess
shift_excess-IsRing [] h = (omega arith, tt)
shift_excess-IsRing (e ∷ es) h =
    if_split_rule IsRing (ltb bench_ring_max (suc (length es))) (shift_excess es) (e ∷ es)
      (λ t. shift_excess-IsRing es h.1) (λ f. (few (suc (length es)) f, h))
  where
    few : (n : ℕ) → ltb bench_ring_max n ≡ false → n ≤ bench_ring_max
    few n f = ground arith

All-snoc :
    (ring : List Sample) (x : Sample)
    → All (λ (e : Sample). (1 ≤ e.tokens) × (1 ≤ e.ms)) ring
    → (1 ≤ x.tokens) × (1 ≤ x.ms)
    → All (λ (e : Sample). (1 ≤ e.tokens) × (1 ≤ e.ms)) (ring ++ x ∷ [])
All-snoc [] x h k = (k, tt)
All-snoc (e ∷ es) x h k = (h.0, All-snoc es x h.1 k)

pub record_bench-IsRing :
    (now token_count duration_ms : ℕ) (ring : List Sample)
    → IsRing ring
    → IsRing (record_bench now token_count duration_ms ring)
unfolding record_bench
record_bench-IsRing now token_count duration_ms ring h =
    if_split_rule IsRing (duration_ms == 0) _ _ (λ t. h)
      (λ f.
        if_split_rule IsRing (token_count == 0) _ _ (λ t. h)
          (λ g.
            shift_excess-IsRing _
              (All-snoc ring _ h.1 (positive token_count g, positive duration_ms f))))
  where
    positive : (n : ℕ) → n == 0 ≡ false → 1 ≤ n
    positive n f = ground arith
