-- ===== src/Deploy/Facets.antt =====
-- The functions of the facets that the scripts call, from contracts/diamond/facets, over the part of
-- `AppStorage` that they touch. `none` is a revert; a mapping is a function, zero where nothing was
-- written; checked arithmetic reverts from 2 ^ 256 on. Events other than the id of a new market, the
-- reentrancy guard and the price history, which no script reads, are left out.
pub mod Laws
use sidiora_perpetual_protoc.Base.{
  ℕ, ◌+◌, ◌-◌, ◌*◌, ◌/◌, Bool, true, false, not, Option, none, some, List, [], ◌∷◌, ◌++◌, ◌==◌,
  ◌||◌, ◌&&◌, ltb, leb, if◌then◌else◌, length,
}
use sidiora_perpetual_protoc.Base.Int.{two_256}
use sidiora_perpetual_protoc.Engine.Cycle.{is_empty}

-- The roles of LibAccessControl.
pub data Role : Type 0 where
  market_admin oracle_poster : Role

pub record Market : Type 0 where
  pub name : List ℕ
  pub symbol : List ℕ
  pub max_leverage : ℕ
  pub maintenance_margin_bps : ℕ
  pub max_open_interest : ℕ
  pub enabled : Bool

pub record VirtualPool : Type 0 where
  pub base_reserve : ℕ
  pub quote_reserve : ℕ
  pub last_sync_timestamp : ℕ
  pub damping_factor : ℕ

pub record AppStorage : Type 0 where
  pub roles : Role → ℕ → Bool
  pub next_market_id : ℕ
  pub markets : ℕ → Market
  pub active_market_ids : List ℕ
  pub latest_price : ℕ → ℕ
  pub latest_price_timestamp : ℕ → ℕ
  pub max_price_deviation_bps : ℕ
  pub virtual_pools : ℕ → VirtualPool

-- A write to a mapping.
abbrev pub write {ℓ} : {V : Type ℓ} → ℕ → V → (ℕ → V) → ℕ → V
write k v m j = if k == j then v else m j

abbrev pub precision : ℕ
precision = 1000000000000000000

-- `LibMath.mulFp`
abbrev pub mul_fp : ℕ → ℕ → Option ℕ
mul_fp a b = if ltb (a * b) two_256 then some (a * b / precision) else none

-- `createMarket` with the id of its event.
unfoldable pub create_market :
    ℕ → List ℕ → List ℕ → ℕ → ℕ → ℕ → AppStorage → Option (ℕ × AppStorage)
create_market sender name symbol max_leverage maintenance_margin_bps max_open_interest s =
    if s.roles Role.market_admin sender
      && not (is_empty name)
      && not (is_empty symbol)
      && ltb 0 max_leverage
      && leb max_leverage (1000 * precision)
      && ltb 0 maintenance_margin_bps
      && ltb maintenance_margin_bps 10000
      && ltb 0 max_open_interest
    then some (
      s.next_market_id,
      record s {
        next_market_id = s.next_market_id + 1;
        markets =
            write s.next_market_id
              (record {
                name = name;
                symbol = symbol;
                max_leverage = max_leverage;
                maintenance_margin_bps = maintenance_margin_bps;
                max_open_interest = max_open_interest;
                enabled = true;
              })
              s.markets;
        active_market_ids = s.active_market_ids ++ s.next_market_id ∷ [];
      },
    )
    else none

-- The deviation check of `batchUpdatePrices`.
unfoldable pub within_deviation : ℕ → ℕ → ℕ → Bool
within_deviation max_bps last price =
    if ltb 0 last && ltb 0 max_bps
    then (let delta = if ltb last price then price - last else last - price in
        ltb (delta * 10000) two_256 && leb (delta * 10000 / last) max_bps)
    else true

-- A round of the loop of `batchUpdatePrices`.
unfoldable pub update_price : ℕ → ℕ → ℕ → AppStorage → Option AppStorage
unfolding within_deviation
update_price now id price s =
    if ltb 0 price
      && not (is_empty (s.markets id).symbol)
      && within_deviation s.max_price_deviation_bps (s.latest_price id) price
    then some (record s {
      latest_price = write id price s.latest_price;
      latest_price_timestamp = write id now s.latest_price_timestamp;
    })
    else none

unfoldable pub update_each : ℕ → List (ℕ × ℕ) → AppStorage → Option AppStorage
unfolding update_price
update_each now [] s = some s
update_each now ((id, price) ∷ rest) s = elim (update_price now id price s) [
  | none ↦ none
  | some s' ↦ update_each now rest s'
]

-- `batchUpdatePrices`; the two arrays are of one length in every call.
unfoldable pub batch_update_prices :
    ℕ → ℕ → List (ℕ × ℕ) → AppStorage → Option (Unit {0} × AppStorage)
unfolding update_each
batch_update_prices sender now updates s =
    if s.roles Role.oracle_poster sender && not (is_empty updates)
    then (elim (update_each now updates s) [ none ↦ none | some s' ↦ some (tt, s') ])
    else none

-- `initializePool`
unfoldable pub initialize_pool : ℕ → ℕ → ℕ → ℕ → ℕ → ℕ → AppStorage → Option (Unit {0} × AppStorage)
initialize_pool sender now id price liquidity damping s =
    if s.roles Role.market_admin sender
      && ltb 0 price
      && ltb 0 liquidity
      && ltb 0 damping
      && leb damping 10000
      && not (is_empty (s.markets id).symbol)
      && (s.virtual_pools id).base_reserve == 0
    then (elim (mul_fp liquidity price) [
      | none ↦ none
      | some quote ↦ some (
        tt,
        record s {
          virtual_pools =
              write id
                (record {
                  base_reserve = liquidity;
                  quote_reserve = quote;
                  last_sync_timestamp = now;
                  damping_factor = damping;
                })
                s.virtual_pools;
        },
      )
    ])
    else none
