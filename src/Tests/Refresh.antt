-- ===== src/Tests/Refresh.antt =====
-- The refreshes of the engine, its alerts and whole cycles at small inputs.
use sidiora_perpetual_protoc.Base.{
  ℕ, ◌+◌, ◌*◌, ◌≡◌, ◌==◌, not, refl, true, false, Option, none, some, List, [], ◌∷◌, ltb,
  if◌then◌else◌, includes, arith,
}
use sidiora_perpetual_protoc.Base.Dict.{lookup}
use sidiora_perpetual_protoc.Base.Int.{pos}
use sidiora_perpetual_protoc.Base.Outcome.{ok}
use sidiora_perpetual_protoc.Protocol.{Position, FundingState}
use sidiora_perpetual_protoc.Keeper.Refresh
use sidiora_perpetual_protoc.Keeper.Refresh.{Answers, IndexedPosition, live_order}
use sidiora_perpetual_protoc.Keeper.Refresh.Laws.{OrderEvents}
use sidiora_perpetual_protoc.Retry
use sidiora_perpetual_protoc.Engine.Cycle.{Call}
use sidiora_perpetual_protoc.Engine.Submitter.{initial_stats}
use sidiora_perpetual_protoc.Engine.Refresh.{
  StateCache, Intervals, Round, refresh_orders, refresh_all,
}
use sidiora_perpetual_protoc.Engine.Refresh.Laws.{refresh_all-reconnects}
use sidiora_perpetual_protoc.Engine.Refresh.Agreement.{fallbacks_agree}
use sidiora_perpetual_protoc.Engine.Health
use sidiora_perpetual_protoc.Engine.Health.{
  Monitor, check_after_cycle, consecutive_failures, failures_cooldown,
}
use sidiora_perpetual_protoc.Engine.Main.{Config, Outside, Node, run_cycles}
use sidiora_perpetual_protoc.Engine.Main.Outage.{outage_stalls}
use sidiora_perpetual_protoc.Tests.Data.{wad, position_at, order_at, config, markets}
use sidiora_perpetual_protoc.Tests.Data

abbrev row : ℕ → IndexedPosition
row id = record {
  position_id = id;
  user = 17;
  market_id = 1;
  is_long = true;
  size_usd = 1000 * wad;
  entry_price = 90 * wad;
  collateral_usd = 100 * wad;
}

abbrev closed : Position
closed = record (position_at (90 * wad)) { active = false }

-- Order 2 is cancelled, position 8 is closed and position 9 cannot be read.
abbrev pub answers : ℕ → Option (List ℕ) → Answers
answers now indexed = record {
  now = now;
  indexed_orders = indexed;
  indexed_positions = some (row 7 ∷ row 8 ∷ row 9 ∷ []);
  block_number = some 70000;
  orders_placed = λ from to. some (1 ∷ 2 ∷ 1 ∷ 3 ∷ []);
  orders_cancelled = λ from to. some (2 ∷ []);
  orders_executed = λ from to. some [];
  positions_opened = λ from to. none;
  get_order = λ id. some (record (order_at 0 (id + 10) 0) { active = not (id == 2) });
  get_position = λ id.
      if id == 7 then some (position_at (94 * wad)) else if id == 8 then some closed else none;
  get_price = λ id. none;
  get_market = λ id. none;
  indexer_status = true;
}

abbrev tracked : StateCache
tracked = record {
  maps = record {
    active_orders = (4, order_at 0 (95 * wad) 0) ∷ [];
    active_positions = (7, position_at (100 * wad)) ∷ [];
    market_configs = (1, config) ∷ [];
    funding_states = [];
  };
  last_order_refresh = 0;
  last_position_refresh = 0;
  last_market_refresh = 0;
  last_funding_refresh = 0;
  indexer_available = true;
}

abbrev rows : List IndexedPosition
rows = row 7 ∷ row 8 ∷ row 9 ∷ []

abbrev pub round : ℕ → Option (List ℕ) → Round
round now indexed = record {
  orders = answers now indexed;
  positions = answers now indexed;
  funding = answers now indexed;
  health = answers now indexed;
  markets = answers now indexed;
}

abbrev intervals : Intervals
intervals = record {
  order_refresh = 30000;
  position_refresh = 30000;
  market_config_refresh = 1800000;
}

abbrev pub funding : ℕ → Option FundingState
funding id = some (record { cumulative_long = pos 0; cumulative_short = pos 0 })

-- The indexer fails in the first round, at 60000, and answers in the second one.
last_refresh :
    (refresh_all intervals funding (round 60000 none) markets tracked).last_order_refresh ≡ 60000
unfolding refresh_all
last_refresh = refl

refresh_all-reconnects_example :
    let c = refresh_all intervals funding (round 60000 none) markets tracked in
    lookup 1
      (refresh_all intervals funding (round 90000 (some (1 ∷ 3 ∷ []))) markets c).maps.active_orders
    ≡ (if includes 1 (1 ∷ 3 ∷ []) then live_order ((answers 90000 none).get_order 1) else none)
refresh_all-reconnects_example =
    refresh_all-reconnects intervals funding (round 60000 none) (round 90000 (some (1 ∷ 3 ∷ [])))
      markets tracked (1 ∷ 3 ∷ []) 1 refl refl (omega (arith, last_refresh))

events : OrderEvents (answers 400000 none) (1 ∷ 2 ∷ 1 ∷ 3 ∷ []) (2 ∷ []) []
events = record {
  current = 70000;
  block = refl;
  all_placed = refl;
  all_cancelled = refl;
  all_executed = refl;
}

fallbacks_agree_example :
    lookup 3 (Refresh.refresh_orders 300000 (answers 400000 none) Data.cache).active_orders
    ≡ lookup 3 (refresh_orders 30000 (answers 400000 none) tracked).maps.active_orders
fallbacks_agree_example =
    fallbacks_agree 300000 30000 (answers 400000 none) Data.cache tracked (1 ∷ 2 ∷ 1 ∷ 3 ∷ [])
      (2 ∷ []) [] (omega arith) (omega arith) refl events (λ id h. ground arith) 3

abbrev monitor : Monitor
monitor = record { last_balance_check = 0; last_balance = none; alert_cooldowns = []; alerts = [] }

abbrev checked : Health.Answers
checked = record { failures_at = 400000; now = 400001; balance = some 5; balance_at = 400002 }

abbrev pub engine_config : Config
engine_config = record {
  intervals = intervals;
  markets = markets;
  max_failures = 10;
  is_low = λ b. ltb b 9;
}

abbrev pub rpc : Retry.Rpc Call ℕ
rpc = record { send = λ call n. (ok n, n + 1); confirm = λ hash n. (ok hash, n) }

abbrev pub node : Node ℕ
node = record {
  fetchers = record {
    pyth_markets = record { market_id = 1; symbol = 66; pyth_id = 500 } ∷ [];
    pyth_last = [];
    orderly_markets = none;
    orderly_last = [];
  };
  tracked = tracked;
  prices = [];
  submitted_prices = [];
  order_stats = record { scans_performed = 0; orders_triggered = 0 };
  liquidation_stats = record {
    scans_performed = 0;
    positions_checked = 0;
    liquidations_triggered = 0;
  };
  submitter = record { world = 0; providers = 0; stats = initial_stats };
  calls = [];
  monitor = monitor;
}

abbrev pub outside : Outside
outside = record {
  responses = record {
    feeds = some (
        record {
          id = 500;
          price = some (record { price = pos 94; conf = pos 3; expo = pos 0; publish_time = 9 });
        }
        ∷ []);
    rows = none;
  };
  health = checked;
  get_funding_state = funding;
  round = round 60000 none;
}

abbrev pub silent : Outside
silent = record outside { responses = record { feeds = none; rows = none } }

outage_stalls_example : run_cycles engine_config rpc (silent ∷ silent ∷ []) node ≡ node
outage_stalls_example =
    outage_stalls engine_config rpc (silent ∷ silent ∷ []) node ((refl, refl), ((refl, refl), tt))
