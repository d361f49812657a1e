-- ===== src/Control/DefaultPayout.antt =====
-- What `setPayoutForNode` of apps/web/lib/data/node-api.js leaves of the payout addresses.
use infernet_protocol.Common.{
  ◌≡◌, ◌≢◌, refl, sym, ap, ◌∙◌, Bool, true, false, not, ◌&&◌, Option, none, some, List, [], ◌∷◌,
  String, eq_refl, eq_iff, keep, map, arith, Bool-cases, ◌⊎◌, inl, inr,
}
use infernet_protocol.Control.Tables.{PayoutRow, NodeRow, Tables}
use infernet_protocol.Control.Store.{
  Supabase, Reply, reply, fault, Result, ok, err, ◌>>=◌, ask, ask_rule, unwrap, present,
}
use infernet_protocol.Control.Jobs.{provider_by_key}
use infernet_protocol.Control.Payouts.{
  belongs_to, is_default_of, demote, conflicts, upsert_payout, default_payout, is_given,
  replace_default, set_payout_for_node,
}

abbrev is_foreign : String → PayoutRow → Bool
is_foreign id r = not (belongs_to id r)

abbrev pub no_default : PayoutRow → PayoutRow
no_default r = record r { is_default = false }

-- What a request leaves for the provider with the caller's key: on success the address that was
-- given as its one default; on an error the rows as they were, or its rows without a default and
-- otherwise as they were. The rows of the others stay.
abbrev pub Outcome :
    String → String → String → String → Tables → List PayoutRow → Result PayoutRow → Type 0
Outcome k coin network address before after (ok p) =
    (provider : NodeRow) × (provider_by_key k before ≡ reply (some provider))
    × (p ≡ record {
      provider_id = provider.id;
      coin = coin;
      network = network;
      address = address;
      is_default = true;
    })
    × (coin ≢ "")
    × (network ≢ "")
    × (address ≢ "")
    × (keep (is_default_of provider.id) after ≡ p ∷ [])
    × (keep (is_foreign provider.id) after ≡ keep (is_foreign provider.id) before.payouts)
Outcome k coin network address before after (err e) =
    (after ≡ before.payouts)
    ⊎ ((e ≡ 500)
        × (provider : NodeRow) × (provider_by_key k before ≡ reply (some provider))
        × (keep (is_default_of provider.id) after ≡ [])
        × (keep (is_foreign provider.id) after ≡ keep (is_foreign provider.id) before.payouts)
        × (map no_default after ≡ map no_default before.payouts))

demote-flags :
    (id : String) (rs : List PayoutRow) → map no_default (demote id rs) ≡ map no_default rs
unfolding demote
demote-flags id [] = refl
demote-flags id (r ∷ rs) = elim (Bool-cases (is_default_of id r)) [
  | inl e ↦ rw e (ap (λ t. no_default r ∷ t) (demote-flags id rs))
  | inr e ↦ rw e (ap (λ t. no_default r ∷ t) (demote-flags id rs))
]

demote-no_default :
    (id : String) (rs : List PayoutRow) → keep (is_default_of id) (demote id rs) ≡ []
unfolding demote
demote-no_default id [] = refl
demote-no_default id (r ∷ rs) =
    let rest = demote-no_default id rs in
    elim (Bool-cases (is_default_of id r)) [
      | inl e ↦ elim (Bool-cases (belongs_to id r)) [
        | inl b ↦ rw (e, b, rest) refl
        | inr b ↦ rw (e, b, rest) refl
      ]
      | inr e ↦ rw (e, e, rest) refl
    ]

demote-foreign :
    (id : String) (rs : List PayoutRow)
    → keep (is_foreign id) (demote id rs) ≡ keep (is_foreign id) rs
unfolding demote
demote-foreign id [] = refl
demote-foreign id (r ∷ rs) =
    let rest = demote-foreign id rs in
    elim (Bool-cases (is_default_of id r)) [
      | inl e ↦ elim (Bool-cases (belongs_to id r)) [
        | inl b ↦ rw (e, b, rest) refl
        | inr b ↦ ground arith
      ]
      | inr e ↦ rw (e, rest) refl
    ]

upsert_payout-default :
    (p : PayoutRow) (rs : List PayoutRow)
    → p.is_default ≡ true
    → keep (is_default_of p.provider_id) rs ≡ []
    → keep (is_default_of p.provider_id) (upsert_payout p rs) ≡ p ∷ []
unfolding upsert_payout
upsert_payout-default p [] d h = rw (eq_refl p.provider_id, d) refl
upsert_payout-default p (r ∷ rs) d h = elim (Bool-cases (is_default_of p.provider_id r)) [
  | inl e ↦ ground arith
  | inr e ↦
      let h' : keep (is_default_of p.provider_id) rs ≡ [] = rw e at h in
      elim (Bool-cases (conflicts p r)) [
        | inl c ↦ rw (c, eq_refl p.provider_id, d, h') refl
        | inr c ↦ rw (c, e, upsert_payout-default p rs d h') refl
      ]
]

upsert_payout-foreign :
    (p : PayoutRow) (rs : List PayoutRow)
    → keep (is_foreign p.provider_id) (upsert_payout p rs) ≡ keep (is_foreign p.provider_id) rs
unfolding upsert_payout
upsert_payout-foreign p [] = rw (eq_refl p.provider_id) refl
upsert_payout-foreign p (r ∷ rs) = elim (Bool-cases (belongs_to p.provider_id r)) [
  | inl b ↦ elim (Bool-cases (conflicts p r)) [
    | inl c ↦ rw (c, b, eq_refl p.provider_id) refl
    | inr c ↦ rw (c, b, upsert_payout-foreign p rs) refl
  ]
  | inr b ↦ rw (b, b, upsert_payout-foreign p rs) refl
]

given_all :
    (a b c : String)
    → (is_given a && is_given b && is_given c) ≡ true
    → (a ≢ "") × (b ≢ "") × (c ≢ "")
given_all a b c h = (
  (λ e. ground (arith, eq_iff a "")),
  (λ e. ground (arith, eq_iff b "")),
  (λ e. ground (arith, eq_iff c "")),
)

module _ (s : Supabase Tables) (k coin network address : String) where
  abbrev Leaves : Tables → s.Db × Result PayoutRow → Type 0
  Leaves before p = Outcome k coin network address before (s.tables p.0).payouts p.1

  replace_default-Outcome :
      (provider : NodeRow) (before : Tables) (db : s.Db)
      → (coin ≢ "") × (network ≢ "") × (address ≢ "")
      → provider_by_key k before ≡ reply (some provider)
      → s.tables db ≡ before
      → Leaves before (replace_default s (default_payout provider.id coin network address) db)
  unfolding replace_default
  replace_default-Outcome provider before db (given_coin, given_network, given_address) found
        start =
      ask_rule s (Leaves before) (λ t. record t { payouts = demote p.provider_id t.payouts })
        (λ t. reply tt)
        (λ demoted. unwrap demoted >>= λ w.
          ask s (λ t. record t { payouts = upsert_payout p t.payouts }) (λ t. reply p) >>= unwrap)
        db (λ db' e same. inl (rw (same, start) refl))
        (λ db' changed.
          ask_rule s (Leaves before) (λ t. record t { payouts = upsert_payout p t.payouts })
            (λ t. reply p) unwrap db'
            (λ d2 e same. inr (
              refl,
              provider,
              found,
              rw (same, changed) (demote-no_default p.provider_id _),
              rw (same, changed, start) (demote-foreign p.provider_id _),
              rw (same, changed, start) (demote-flags p.provider_id _),
            ))
            (λ d2 more. (
              provider,
              found,
              refl,
              given_coin,
              given_network,
              given_address,
              rw (more, changed)
                  (upsert_payout-default p _ refl (demote-no_default p.provider_id _)),
              rw (more, changed, start)
                  (upsert_payout-foreign p _ ∙ demote-foreign p.provider_id _),
            )))
    where
      p : PayoutRow
      p = default_payout provider.id coin network address

  found-Outcome :
      (before : Tables) (d : s.Db) (found : Reply (Option NodeRow))
      → (coin ≢ "") × (network ≢ "") × (address ≢ "")
      → s.tables d ≡ before
      → found ≡ provider_by_key k before
      → Leaves before (
          (unwrap found >>= λ row. present 404 row >>= λ provider.
          replace_default s (default_payout provider.id coin network address))
            d)
  found-Outcome before d (fault e) given same looked = inl (rw same refl)
  found-Outcome before d (reply none) given same looked = inl (rw same refl)
  found-Outcome before d (reply (some provider)) given same looked =
      replace_default-Outcome provider before d given (sym looked) same

  -- A payout address that is set has the coin, the network and the address that were given, none of
  -- them empty, and is the one default of the provider with the caller's key; the rows of other
  -- providers stay as they were. A request that ends with an error leaves the rows as they were, or,
  -- with status 500, takes the default off the rows of that provider and changes nothing else: the two
  -- writes are no transaction.
  pub set_payout_for_node-Outcome :
      (db : s.Db)
      → Outcome k coin network address
          (s.tables db)
          (s.tables (set_payout_for_node s k coin network address db).0).payouts
          (set_payout_for_node s k coin network address db).1
  unfolding set_payout_for_node
  set_payout_for_node-Outcome db =
      elim (Bool-cases (is_given coin && is_given network && is_given address)) [
        | inl given ↦ rw given (
            ask_rule s (Leaves (s.tables db)) (λ t. t) (provider_by_key k)
              (λ found. unwrap found >>= λ row. present 404 row >>= λ provider.
                replace_default s (default_payout provider.id coin network address))
              db (λ d e same. inl (rw same refl))
              (λ d changed.
                found-Outcome (s.tables db) d _ (given_all coin network address given) changed
                  refl))
        | inr missing ↦ rw missing (inl refl)
      ]
