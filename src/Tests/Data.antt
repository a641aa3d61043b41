-- ===== src/Tests/Data.antt =====
-- A market, orders, positions and a cache to run the models on.
use sidiora_perpetual_protoc.Base.{ℕ, true, none, List, [], ◌∷◌, ◌^◌, ◌*◌}
use sidiora_perpetual_protoc.Protocol.{Order, Position, MarketConfig, MarketEntry}
use sidiora_perpetual_protoc.Keeper.Cache.{StateCache}

abbrev pub wad : ℕ
wad = 10 ^ 18

abbrev pub order_at : ℕ → ℕ → ℕ → Order
order_at order_type trigger limit = record {
  user = 17;
  market_id = 1;
  is_long = true;
  order_type = order_type;
  trigger_price = trigger;
  limit_price = limit;
  size_usd = 1000 * wad;
  leverage = 10 * wad;
  collateral_token = 5;
  collateral_amount = 100;
  active = true;
}

-- A long position of 1000 with a collateral of 100.
abbrev pub position_at : ℕ → Position
position_at entry = record {
  user = 17;
  market_id = 1;
  is_long = true;
  size_usd = 1000 * wad;
  collateral_usd = 100 * wad;
  entry_price = entry;
  last_funding_index = none;
  active = true;
}

abbrev pub config : MarketConfig
config = record { max_leverage = 20 * wad; maintenance_margin_bps = 500; enabled = true }

abbrev pub markets : List MarketEntry
markets = record { market_id = 1; symbol = 66 } ∷ record { market_id = 2; symbol = 69 } ∷ []

-- The price is 94; one order is triggered at it, and two of three positions are below 5 %.
abbrev pub cache : StateCache
cache = record {
  active_orders =
      (4, order_at 0 (95 * wad) 0)
      ∷ (5, order_at 0 (90 * wad) 0)
      ∷ (6, order_at 1 (93 * wad) (96 * wad))
      ∷ [];
  active_positions =
      (7, position_at (100 * wad))
      ∷ (8, position_at (94 * wad))
      ∷ (9, position_at (103 * wad))
      ∷ [];
  prices = (1, record { price = 94 * wad; timestamp = 1000 }) ∷ [];
  market_configs = (1, config) ∷ [];
  last_order_refresh = 0;
  last_position_refresh = 0;
  last_market_refresh = 0;
  indexer_available = true;
}
