-- ===== src/Engine/Cache.antt =====
-- The maps of .perps-engine/src/state-cache.js that the scanners read.
use sidiora_perpetual_protoc.Base.Dict.{Dict}
use sidiora_perpetual_protoc.Protocol.{Order, Position, MarketConfig, FundingState}

pub record Cache : Type 0 where
  pub active_orders : Dict Order
  pub active_positions : Dict Position
  pub market_configs : Dict MarketConfig
  pub funding_states : Dict FundingState
