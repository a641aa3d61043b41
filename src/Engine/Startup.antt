-- ===== src/Engine/Startup.antt =====
-- The start of .perps-engine/index.js: the components as their constructors leave them, the
-- diagnostics and the first load of the caches, before the loop.
use sidiora_perpetual_protoc.Base.{ℕ, refl, true, none, some, Option, List, [], arith}
use sidiora_perpetual_protoc.Protocol.{FundingState}
use sidiora_perpetual_protoc.Retry
use sidiora_perpetual_protoc.Engine.Cycle.{Call}
use sidiora_perpetual_protoc.Engine.Submitter.{initial_stats}
use sidiora_perpetual_protoc.Engine.Sources.{Fetchers}
use sidiora_perpetual_protoc.Engine.Refresh.{
  StateCache, Round, refresh_orders, refresh_positions, refresh_funding_states,
  refresh_market_configs,
}
use sidiora_perpetual_protoc.Engine.Health.{Monitor, StartAnswers, run_startup_diagnostics}
use sidiora_perpetual_protoc.Engine.Health.Alerts.{Tracks}
use sidiora_perpetual_protoc.Engine.Main.{Config, Node}
use sidiora_perpetual_protoc.Engine.Main.Invariants.{
  Invariant, Once, refresh_orders-Once, refresh_positions-Once, funding-Once, markets-Once,
}
use sidiora_perpetual_protoc.Engine.Overlap.{Event, run}
use sidiora_perpetual_protoc.Engine.Overlap.Invariants.{run-Invariant}

abbrev pub initial_cache : StateCache
initial_cache = record {
  maps = record {
    active_orders = [];
    active_positions = [];
    market_configs = [];
    funding_states = [];
  };
  last_order_refresh = 0;
  last_position_refresh = 0;
  last_market_refresh = 0;
  last_funding_refresh = 0;
  indexer_available = true;
}

abbrev pub initial_monitor : Monitor
initial_monitor = record {
  last_balance_check = 0;
  last_balance = none;
  alert_cooldowns = [];
  alerts = [];
}

-- What answers at the start.
pub record Start : Type 0 where
  pub diagnostics : StartAnswers
  pub get_funding_state : ℕ → Option FundingState
  pub round : Round

module _ (config : Config) where
  -- The first load: the times of the orders' and the positions' refresh are set back before it.
  unfoldable pub load_initial : Start → StateCache → StateCache
  unfolding refresh_orders refresh_positions refresh_funding_states refresh_market_configs
  load_initial a c =
      let c' : StateCache =
        record (refresh_market_configs config.intervals.market_config_refresh a.round.markets
          config.markets c) { last_order_refresh = 0; last_position_refresh = 0 } in
      refresh_funding_states a.get_funding_state a.round.funding config.markets (
        refresh_positions config.intervals.position_refresh a.round.positions
          (refresh_orders config.intervals.order_refresh a.round.orders c'))

  -- The engine as the loop finds it.
  unfoldable pub startup : {W : Type 0} → Start → Fetchers → W → Node W
  unfolding load_initial run_startup_diagnostics
  startup a fetchers world = record {
    fetchers = fetchers;
    tracked = load_initial a initial_cache;
    prices = [];
    submitted_prices = [];
    order_stats = record { scans_performed = 0; orders_triggered = 0 };
    liquidation_stats = record {
      scans_performed = 0;
      positions_checked = 0;
      liquidations_triggered = 0;
    };
    submitter = record { world = world; providers = 1; stats = initial_stats };
    calls = [];
    monitor =
        (run_startup_diagnostics config.max_failures config.is_low a.diagnostics initial_monitor).1;
  }

  load_initial-Once : (a : Start) (c : StateCache) → Once c → Once (load_initial a c)
  unfolding load_initial
  load_initial-Once a c h = funding-Once a.get_funding_state a.round.funding config.markets _ (
      refresh_positions-Once config.intervals.position_refresh a.round.positions _ (
        refresh_orders-Once config.intervals.order_refresh a.round.orders _
          (markets-Once config.intervals.market_config_refresh a.round.markets config.markets c h)))

  diagnosed-Tracks :
      (balance : Option ℕ)
      → Tracks (elim balance as (λ b. Monitor) [
        | none ↦ initial_monitor
        | some b ↦ record initial_monitor { last_balance = some b }
      ])
  diagnosed-Tracks none = ((tt, refl), (tt, refl))
  diagnosed-Tracks (some b) = ((tt, refl), (tt, refl))

  startup-Invariant :
      {W : Type 0} (a : Start) (fetchers : Fetchers) (world : W)
      → Invariant (startup a fetchers world)
  unfolding startup run_startup_diagnostics
  startup-Invariant a fetchers world =
      let (d, e) = load_initial-Once a initial_cache (tt, tt) in
      ((refl, refl, omega arith), diagnosed-Tracks a.diagnostics.balance, d, e)

  -- From the start of the engine on, in whatever order overlapping cycles take their steps and
  -- whatever the price services, the node and the indexer answer, each ended submission is
  -- counted as one success of one of the two kinds or as one failure and no more failures are
  -- consecutive than there are, the alerts of each key are at least its cooldown apart, and
  -- each order and each position is cached once.
  pub engine-Invariant :
      {W : Type 0} (rpc : Retry.Rpc Call W) (a : Start) (fetchers : Fetchers) (world : W)
      (es : List Event)
      → Invariant (run config rpc es (record { node = startup a fetchers world; cycles = [] })).node
  engine-Invariant rpc a fetchers world es =
      run-Invariant config rpc es (record { node = startup a fetchers world; cycles = [] })
        (startup-Invariant a fetchers world)
