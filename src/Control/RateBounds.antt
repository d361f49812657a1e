-- ===== src/Control/RateBounds.antt =====
-- How many requests the limiter of apps/web/lib/rate-limit.js lets through in a window.
use infernet_protocol.Common.{
  ℕ, suc, ◌+◌, ◌≤◌, ◌<◌, min, ◌≡◌, ◌⊎◌, refl, sym, ap, ◌∙◌, subst, Bool, true, false, none, some,
  List, [], ◌∷◌, String, str_eq, eq_iff, leb, lt→leb, le→leb, if◌then◌else◌, if_rule, All,
  Bool-cases, inl, inr, arith,
}
use infernet_protocol.Common.Maps.{lookup, lookup-insert}
use infernet_protocol.Control.RateLimit.{Entry, current, check, sweep}

pub data Event : Type 0 where
  checks : String → ℕ → Event
  sweeps : ℕ → Event

abbrev pub time_of : Event → ℕ
time_of (checks key now) = now
time_of (sweeps now) = now

abbrev count_if : Bool → ℕ → ℕ
count_if true n = suc n
count_if false n = n

-- How often a key was checked.
abbrev pub asked : String → List Event → ℕ
asked key [] = 0
asked key (checks k now ∷ es) = count_if (str_eq k key) (asked key es)
asked key (sweeps now ∷ es) = asked key es

some_path : (v e : Entry) → some v ≡ some e → v ≡ e
some_path v e h = cc

lookup-sweep :
    (key : String) (now : ℕ) (b : List (String × Entry)) (e : Entry)
    → lookup key b ≡ some e
    → now < e.reset
    → lookup key (sweep now b) ≡ some e
unfolding lookup sweep
lookup-sweep key now [] e h t = cc
lookup-sweep key now ((k, v) ∷ b) e h t = elim (Bool-cases (str_eq k key)) [
  | inl a ↦
      let same : v ≡ e = some_path v e (rw a at h) in
      let kept : leb v.reset now ≡ false =
        subst (λ (x : Entry). leb x.reset now ≡ false) (sym same) (lt→leb _ _ t) in
      rw kept (rw a (ap some same))
  | inr a ↦
      let later = lookup-sweep key now b e (rw a at h) t in
      if_rule (λ x. lookup key x ≡ some e) (leb v.reset now) (sweep now b) ((k, v) ∷ sweep now b)
        later (rw a later)
]

module _ (window_ms max : ℕ) where
  abbrev pub step : Event → List (String × Entry) → List (String × Entry)
  step (checks k now) b = (check window_ms max k now b).0
  step (sweeps now) b = sweep now b

  -- How many of the checks of a key were let through.
  abbrev pub granted : String → List Event → List (String × Entry) → ℕ
  granted key [] b = 0
  granted key (checks k now ∷ es) b =
      let later = granted key es (step (checks k now) b) in
      if str_eq k key then count_if (check window_ms max k now b).1.ok later else later
  granted key (sweeps now ∷ es) b = granted key es (sweep now b)

  check_other :
      (k key : String) (now : ℕ) (b : List (String × Entry))
      → str_eq k key ≡ false
      → lookup key (check window_ms max k now b).0 ≡ lookup key b
  unfolding check
  check_other k key now b e = lookup-insert k key _ b ∙ rw e refl

  check_live :
      (k key : String) (now n r : ℕ) (b : List (String × Entry))
      → str_eq k key ≡ true
      → lookup key b ≡ some (record { count = n; reset = r })
      → now < r
      → (lookup key (check window_ms max k now b).0 ≡ some (record { count = n + 1; reset = r }))
        × ((check window_ms max k now b).1.ok ≡ leb (n + 1) max)
  unfolding check
  check_live k key now n r b e h t =
      let same : k ≡ key = ground (arith, eq_iff k key) in
      let here : lookup k b ≡ some (record { count = n; reset = r }) =
        subst (λ x. lookup x b ≡ some (record { count = n; reset = r })) (sym same) h in
      let live : leb r now ≡ false = lt→leb r now t in
      (lookup-insert k key _ b ∙ rw (e, here, live) refl, rw (here, live) refl)

  one_more :
      (n a g : ℕ)
      → g + min max (n + 1) ≡ min max (n + 1 + a)
      → count_if (leb (n + 1) max) g + min max n ≡ min max (n + suc a)
  one_more n a g h = ground arith

  -- An entry that runs until `r` counts every check until then.
  counts :
      (key : String) (n r : ℕ) (es : List Event) (b : List (String × Entry))
      → lookup key b ≡ some (record { count = n; reset = r })
      → All (λ e. time_of e < r) es
      → granted key es b + min max n ≡ min max (n + asked key es)
  counts key n r [] b h t = let base : n + 0 ≡ n = omega arith in rw base (omega arith)
  counts key n r (checks k now ∷ es) b h (t, ts) = elim (Bool-cases (str_eq k key)) [
    | inl e ↦
        let (there, verdict) = check_live k key now n r b e h t in
        let later = counts key (n + 1) r es (check window_ms max k now b).0 there ts in
        rw (e, verdict) (one_more n (asked key es) _ later)
    | inr e ↦
        rw e (counts key n r es (check window_ms max k now b).0 (check_other k key now b e ∙ h) ts)
  ]
  counts key n r (sweeps now ∷ es) b h (t, ts) =
      counts key n r es (sweep now b) (lookup-sweep key now b (record { count = n; reset = r }) h t)
        ts

  first_one : (a g : ℕ) → g + min max 1 ≡ min max (1 + a) → count_if (leb 1 max) g ≡ min max (suc a)
  first_one a g h = ground arith

  current_fresh :
      (key : String) (now : ℕ) (b : List (String × Entry))
      → (lookup key b ≡ none) ⊎ ((e : Entry) × (lookup key b ≡ some e) × (e.reset ≤ now))
      → current window_ms max now (lookup key b) ≡ record { count = 0; reset = now + window_ms }
  current_fresh key now b (inl h) = rw h refl
  current_fresh key now b (inr (e, h, over)) =
      let past : leb e.reset now ≡ true = le→leb e.reset now over in rw (h, past) refl

  check_fresh :
      (key : String) (now : ℕ) (b : List (String × Entry))
      → (lookup key b ≡ none) ⊎ ((e : Entry) × (lookup key b ≡ some e) × (e.reset ≤ now))
      → (lookup key (check window_ms max key now b).0
          ≡ some (record { count = 1; reset = now + window_ms }))
        × ((check window_ms max key now b).1.ok ≡ leb 1 max)
  unfolding check
  check_fresh key now b old =
      let self : str_eq key key ≡ true = ground (arith, eq_iff key key) in
      let fresh = current_fresh key now b old in
      (lookup-insert key key _ b ∙ rw (self, fresh) refl, rw fresh refl)

  -- Of the checks of a key that fall in the window of the first one, the limiter lets as many
  -- through as its bound says, or all if they are fewer, whatever checks of other keys and sweeps
  -- lie between, if the key had no entry or one that was over.
  pub granted-bound :
      (key : String) (now : ℕ) (es : List Event) (b : List (String × Entry))
      → (lookup key b ≡ none) ⊎ ((e : Entry) × (lookup key b ≡ some e) × (e.reset ≤ now))
      → All (λ e. time_of e < now + window_ms) es
      → granted key (checks key now ∷ es) b ≡ min max (asked key (checks key now ∷ es))
  granted-bound key now es b old t =
      let self : str_eq key key ≡ true = ground (arith, eq_iff key key) in
      let (there, verdict) = check_fresh key now b old in
      let later = counts key 1 (now + window_ms) es (check window_ms max key now b).0 there t in
      rw (self, verdict) (first_one (asked key es) _ later)
