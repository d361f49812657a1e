-- ===== src/Control/Payouts.antt =====
-- apps/web/lib/data/node-api.js: `setPayoutForNode`, the payout addresses of a provider.
use infernet_protocol.Common.{
  if◌then◌else◌, Bool, true, false, ◌&&◌, not, List, [], ◌∷◌, String, str_eq,
}
use infernet_protocol.Control.Tables.{PayoutRow, Tables}
use infernet_protocol.Control.Store.{Supabase, reply, M, ◌>>=◌, ◌>>◌, require, unwrap, present, ask}
use infernet_protocol.Control.Jobs.{provider_by_key}

abbrev pub belongs_to : String → PayoutRow → Bool
belongs_to id r = str_eq r.provider_id id

abbrev pub is_default_of : String → PayoutRow → Bool
is_default_of id r = belongs_to id r && r.is_default

-- `update({ is_default: false }).eq("provider_id", id).eq("is_default", true)`
unfoldable pub demote : String → List PayoutRow → List PayoutRow
demote id [] = []
demote id (r ∷ rs) =
    (if is_default_of id r then record r { is_default = false } else r) ∷ demote id rs

-- The unique columns of the table: provider, coin and address.
abbrev pub conflicts : PayoutRow → PayoutRow → Bool
conflicts p r =
    str_eq r.provider_id p.provider_id && str_eq r.coin p.coin && str_eq r.address p.address

-- `upsert(row, { onConflict: "provider_id,coin,address" })`
unfoldable pub upsert_payout : PayoutRow → List PayoutRow → List PayoutRow
upsert_payout p [] = p ∷ []
upsert_payout p (r ∷ rs) =
    let rest = upsert_payout p rs in if conflicts p r then p ∷ rs else r ∷ rest

abbrev pub default_payout : String → String → String → String → PayoutRow
default_payout id coin network address = record {
  provider_id = id;
  coin = coin;
  network = network;
  address = address;
  is_default = true;
}

abbrev pub is_given : String → Bool
is_given x = not (str_eq x "")

module _ (s : Supabase Tables) where
  -- The two writes of `setPayoutForNode`: no address stays the default, then `p` becomes it.
  unfoldable pub replace_default : PayoutRow → M s.Db PayoutRow
  replace_default p = do
    demoted ← ask s (λ t. record t { payouts = demote p.provider_id t.payouts }) (λ t. reply tt)
    unwrap demoted
    written ← ask s (λ t. record t { payouts = upsert_payout p t.payouts }) (λ t. reply p)
    unwrap written

  -- `setPayoutForNode`
  unfoldable pub set_payout_for_node : String → String → String → String → M s.Db PayoutRow
  set_payout_for_node k coin network address = do
    require (is_given coin && is_given network && is_given address) 400
    found ← ask s (λ t. t) (provider_by_key k)
    row ← unwrap found
    provider ← present 404 row
    replace_default (default_payout provider.id coin network address)
