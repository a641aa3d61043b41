-- ===== src/Keeper/Cycle.antt =====
-- The execution cycle of .keeper/index.js: the prices, the vAMM sync, the orders and the
-- liquidations, behind a flag that keeps cycles from overlapping, and the fallback poll.
pub mod Laws
use sidiora_perpetual_protoc.Base.{
  ℕ, ◌+◌, ◌/◌, Bool, true, false, not, Option, none, some, List, [], ◌∷◌, map, ◌&&◌, ltb, ◌==◌,
  if◌then◌else◌,
}
use sidiora_perpetual_protoc.Base.Dict.{insert}
use sidiora_perpetual_protoc.Protocol.{MarketEntry, PoolState, TxResult}
use sidiora_perpetual_protoc.Base.Outcome.{M, ok, ◌>>◌}
use sidiora_perpetual_protoc.Keeper.Cache.{StateCache, PriceEntry, get_price}
use sidiora_perpetual_protoc.Keeper.Orders
use sidiora_perpetual_protoc.Keeper.Liquidations
use sidiora_perpetual_protoc.Keeper.Vamm

-- The modules that the command line turns on.
pub record Modules : Type 0 where
  pub orders : Bool
  pub liquidations : Bool
  pub vamm_sync : Bool

-- The flags `--orders-only` and `--liquidations-only`.
unfoldable pub enabled_modules : Bool → Bool → Modules
enabled_modules orders_only liquidations_only = record {
  orders = not liquidations_only;
  liquidations = not orders_only;
  vamm_sync = not orders_only && not liquidations_only;
}

pub record Node (E : Type 0) : Type 0 where
  pub cache : StateCache
  pub executor : E
  pub vamm : Vamm.State E
  pub order_stats : Orders.Stats
  pub liquidation_stats : Liquidations.Stats
  pub cycle_count : ℕ
  pub cycle_busy : Bool

-- The loop over the event's markets. The price of a market beyond the end of the prices is
-- `undefined`, which every reader skips as it skips 0.
unfoldable pub set_prices : ℕ → List ℕ → List ℕ → StateCache → StateCache
set_prices now [] prices c = c
set_prices now (id ∷ ids) [] c =
    set_prices now ids []
      (record c { prices = insert id (record { price = 0; timestamp = now / 1000 }) c.prices })
set_prices now (id ∷ ids) (p ∷ ps) c =
    set_prices now ids ps
      (record c { prices = insert id (record { price = p; timestamp = now / 1000 }) c.prices })

-- Whether the log line on the prices, which divides each of them, comes through without a
-- `TypeError`: no market lacks a price.
unfoldable pub all_priced : List ℕ → List ℕ → Bool
all_priced [] prices = true
all_priced (id ∷ ids) [] = false
all_priced (id ∷ ids) (p ∷ ps) = all_priced ids ps

-- The executor's calls.
pub record Calls (E : Type 0) : Type 0 where
  pub execute_order : ℕ → E → TxResult × E
  pub liquidate : ℕ → E → TxResult × E
  pub sync_vamm : ℕ → E → TxResult × E
  pub check_liquidatable : ℕ → E → Option Bool × E
  pub get_pool : ℕ → E → Option PoolState × E

-- What comes before the first `await`, the flag included.
unfoldable pub begin_cycle : {E : Type 0} → ℕ → List ℕ → List ℕ → Node E → Node E
unfolding set_prices
begin_cycle now ids prices n = record n {
  cache = set_prices now ids prices n.cache;
  cycle_count = n.cycle_count + 1;
  cycle_busy = true;
}

-- The prices that the fallback reads: `none` where a read throws; a price of zero is left out.
unfoldable pub read_prices : (ℕ → Option ℕ) → List MarketEntry → Option (List (ℕ × ℕ))
read_prices read [] = some []
read_prices read (m ∷ ms) =
    let rest = read_prices read ms in
    elim (read m.market_id) [
      | none ↦ none
      | some price ↦ elim rest [
        | none ↦ none
        | some l ↦ some (if ltb 0 price then (m.market_id, price) ∷ l else l)
      ]
    ]

-- Whether a price differs from the cached one, or none is cached.
unfoldable pub changed : StateCache → List (ℕ × ℕ) → Bool
changed c [] = false
changed c ((id, price) ∷ l) =
    let rest = changed c l in
    elim (get_price id c) [
      | none ↦ true
      | some cached ↦ if cached == 0 then true else (if cached == price then rest else true)
    ]

-- What the cycle awaits in its `try`: the three modules, each of which may throw.
pub record Scanners (E : Type 0) : Type 0 where
  pub sync_all : List ℕ → M (Node E) Unit
  pub scan_orders : List ℕ → M (Node E) Unit
  pub scan_liquidations : List ℕ → M (Node E) Unit

-- A price event, at the time of its cycle.
pub record PriceEvent : Type 0 where
  pub now : ℕ
  pub market_ids : List ℕ
  pub prices : List ℕ

module _ {E : Type 0} (scanners : Scanners E) where
  -- The body of the `try`: what throws ends it, and what was done before stays.
  unfoldable pub try_modules : List ℕ → M (Node E) Unit
  try_modules ids =
      scanners.sync_all ids >> (scanners.scan_orders ids >> scanners.scan_liquidations ids)

  -- `executionCycle` at a time: skipped while another one runs. The `catch` only logs. Where the log
  -- line before the `try` throws, the function ends there.
  unfoldable pub execution_cycle : ℕ → List ℕ → List ℕ → Node E → Node E
  unfolding all_priced begin_cycle try_modules
  execution_cycle now ids prices n =
      if n.cycle_busy
      then n
      else (if all_priced ids prices
          then record ((try_modules ids (begin_cycle now ids prices n)).1) { cycle_busy = false }
          else begin_cycle now ids prices n)

  -- Events whose cycles come one after the other.
  unfoldable pub run_cycles : List PriceEvent → Node E → Node E
  unfolding execution_cycle
  run_cycles [] n = n
  run_cycles (e ∷ es) n = run_cycles es (execution_cycle e.now e.market_ids e.prices n)

  -- The fallback poll: a cycle over all prices, if one has changed.
  unfoldable pub fallback_poll : ℕ → List MarketEntry → (ℕ → Option ℕ) → Node E → Node E
  unfolding read_prices changed execution_cycle
  fallback_poll now markets read n = elim (read_prices read markets) [
    | none ↦ n
    | some l ↦
        if changed n.cache l then execution_cycle now (map (λ e. e.0) l) (map (λ e. e.1) l) n else n
  ]

module _ {E : Type 0} (calls : Calls E) (markets : List MarketEntry) (modules : Modules) where
  unfoldable pub run_vamm : List ℕ → Node E → Node E
  run_vamm ids n =
      if modules.vamm_sync
      then (let v =
            Vamm.sync_all calls.get_pool calls.sync_vamm (some ids) markets
              (record n.vamm { executor = n.executor }) in
          record n { vamm = v; executor = v.executor })
      else n

  unfoldable pub run_orders : List ℕ → Node E → Node E
  run_orders ids n =
      if modules.orders
      then (let s =
            Orders.scan calls.execute_order (some ids) (record {
              cache = n.cache;
              stats = n.order_stats;
              executor = n.executor;
              log = [];
            }) in
          record n { cache = s.cache; order_stats = s.stats; executor = s.executor })
      else n

  unfoldable pub run_liquidations : List ℕ → Node E → Node E
  run_liquidations ids n =
      if modules.liquidations
      then (let s = Liquidations.scan calls.check_liquidatable calls.liquidate (some ids) (record {
        cache = n.cache;
        stats = n.liquidation_stats;
        executor = n.executor;
        log = [];
      }) in
          record n { cache = s.cache; liquidation_stats = s.stats; executor = s.executor })
      else n

  -- The keeper's own modules. They catch every error of their calls, so they return.
  abbrev pub own_scanners : Scanners E
  own_scanners = record {
    sync_all = λ ids n. (ok tt, run_vamm ids n);
    scan_orders = λ ids n. (ok tt, run_orders ids n);
    scan_liquidations = λ ids n. (ok tt, run_liquidations ids n);
  }
