-- ===== src/Keeper/Cache.antt =====
-- The maps of `StateCache` of .keeper/src/state-cache.js and the methods that touch one entry.
use sidiora_perpetual_protoc.Base.{ℕ, Bool, true, List, Option, none, some, includes}
use sidiora_perpetual_protoc.Base.Dict.{Dict, lookup, erase}
use sidiora_perpetual_protoc.Protocol.{Order, Position, MarketConfig}

pub record PriceEntry : Type 0 where
  pub price : ℕ
  pub timestamp : ℕ

pub record StateCache : Type 0 where
  pub active_orders : Dict Order
  pub active_positions : Dict Position
  pub prices : Dict PriceEntry
  pub market_configs : Dict MarketConfig
  pub last_order_refresh : ℕ
  pub last_position_refresh : ℕ
  pub last_market_refresh : ℕ
  pub indexer_available : Bool

-- `getPrice`: the cached price, `null` where there is none.
unfoldable pub get_price : ℕ → StateCache → Option ℕ
get_price market_id c = elim (lookup market_id c.prices) [ none ↦ none | some e ↦ some e.price ]

-- `removeOrder`
unfoldable pub remove_order : ℕ → StateCache → StateCache
remove_order id c = record c { active_orders = erase id c.active_orders }

-- `removePosition`
unfoldable pub remove_position : ℕ → StateCache → StateCache
remove_position id c = record c { active_positions = erase id c.active_positions }

-- Whether the markets that updated, if they are known, include this one.
abbrev pub in_updated : Option (List ℕ) → ℕ → Bool
in_updated none market_id = true
in_updated (some ids) market_id = includes market_id ids
