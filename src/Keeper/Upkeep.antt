-- ===== src/Keeper/Upkeep.antt =====
-- The first load and the periodic refresh of .keeper/index.js: the refreshes of the state cache that
-- the modules need, the health check of the indexer, and the reset of the pool checks.
pub mod Laws
use sidiora_perpetual_protoc.Base.{ℕ, Bool, List, if◌then◌else◌}
use sidiora_perpetual_protoc.Protocol.{MarketEntry}
use sidiora_perpetual_protoc.Keeper.Cache.{StateCache}
use sidiora_perpetual_protoc.Keeper.Refresh.{
  Answers, refresh_orders, refresh_positions, refresh_prices, refresh_market_configs,
  check_indexer_health,
}
use sidiora_perpetual_protoc.Keeper.Vamm
use sidiora_perpetual_protoc.Keeper.Cycle.{Modules, Node}

-- `orderRefreshMs` and `positionRefreshMs` of .keeper/config.js.
pub record Intervals : Type 0 where
  pub order_refresh : ℕ
  pub position_refresh : ℕ

-- What the clock, the indexer and the chain answer during each step.
pub record Round : Type 0 where
  pub markets : Answers
  pub prices : Answers
  pub orders : Answers
  pub positions : Answers
  pub health : Answers

module _ (iv : Intervals) (markets : List MarketEntry) (modules : Modules) where
  unfoldable pub tend_orders : Answers → StateCache → StateCache
  unfolding refresh_orders
  tend_orders a c = if modules.orders then refresh_orders iv.order_refresh a c else c

  unfoldable pub tend_positions : Answers → StateCache → StateCache
  unfolding refresh_positions
  tend_positions a c = if modules.liquidations then refresh_positions iv.position_refresh a c else c

  -- "Load initial state": the times of the last refreshes are reset first.
  unfoldable pub load_initial : Round → StateCache → StateCache
  unfolding tend_orders tend_positions refresh_prices refresh_market_configs
  load_initial a c =
      let priced = refresh_prices a.prices markets (refresh_market_configs a.markets markets c) in
      let ordered = tend_orders a.orders (record priced { last_order_refresh = 0 }) in
      tend_positions a.positions (record ordered { last_position_refresh = 0 })

  -- The refreshes of one tick of the interval.
  unfoldable pub tend_cache : Round → StateCache → StateCache
  unfolding tend_orders tend_positions check_indexer_health refresh_market_configs
  tend_cache a c =
      refresh_market_configs a.markets markets
        (check_indexer_health a.health (tend_positions a.positions (tend_orders a.orders c)))

  -- A tick of the interval.
  unfoldable pub refresh_tick : {E : Type 0} → Round → Node E → Node E
  unfolding tend_cache Vamm.reset_pool_checks
  refresh_tick a n = record n {
    cache = tend_cache a n.cache;
    vamm = if modules.vamm_sync then Vamm.reset_pool_checks n.vamm else n.vamm;
  }
