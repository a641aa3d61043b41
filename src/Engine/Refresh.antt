-- ===== src/Engine/Refresh.antt =====
-- The refreshes of `StateCache` of .perps-engine/src/state-cache.js. They are a second version of the
-- keeper's: the chain is asked for each position, the fallback on orders looks at placed orders
-- only, and there are funding states.
pub mod Laws
pub mod Agreement
use sidiora_perpetual_protoc.Base.{
  ℕ, ◌+◌, ◌-◌, Bool, true, false, Option, none, some, List, [], ◌∷◌, ltb, if◌then◌else◌,
}
use sidiora_perpetual_protoc.Base.Dict.{Dict, insert}
use sidiora_perpetual_protoc.Protocol.{Order, Position, FundingState, MarketEntry}
use sidiora_perpetual_protoc.Engine.Cache.{Cache}
use sidiora_perpetual_protoc.Keeper.Refresh.{
  IndexedPosition, Answers, live_order, live_position, load, add_all, from_row,
}

-- The cache with the times of its refreshes.
pub record StateCache : Type 0 where
  pub maps : Cache
  pub last_order_refresh : ℕ
  pub last_position_refresh : ℕ
  pub last_market_refresh : ℕ
  pub last_funding_refresh : ℕ
  pub indexer_available : Bool

abbrev pub with_orders : Dict Order → StateCache → StateCache
with_orders orders c = record c { maps = record c.maps { active_orders = orders } }

abbrev pub with_positions : Dict Position → StateCache → StateCache
with_positions positions c = record c { maps = record c.maps { active_positions = positions } }

-- `_refreshOrdersFromIndexer`: `none` is a throw, before the map is touched.
unfoldable pub refresh_orders_from_indexer : Answers → StateCache → Option StateCache
unfolding load
refresh_orders_from_indexer a c = elim a.indexed_orders [
  | none ↦ none
  | some ids ↦ some (with_orders (load (λ id. live_order (a.get_order id)) ids []) c)
]

-- The candidates of `_refreshOrdersFromChain`, from the events of the last 50000 blocks.
unfoldable pub order_candidates : Answers → Option (List ℕ)
unfolding add_all
order_candidates a = elim a.block_number [
  | none ↦ none
  | some current ↦ elim (a.orders_placed (current - 50000) current) [
    | none ↦ none
    | some placed ↦ some (add_all placed [])
  ]
]

-- `_refreshOrdersFromChain`: a throw is logged and leaves the map, as an ABI without the event does.
unfoldable pub refresh_orders_from_chain : Answers → StateCache → StateCache
unfolding order_candidates load
refresh_orders_from_chain a c = elim (order_candidates a) [
  | none ↦ c
  | some ids ↦ with_orders (load (λ id. live_order (a.get_order id)) ids []) c
]

-- The fallback of `refreshOrders`.
abbrev pub fall_back_orders : Answers → StateCache → StateCache
fall_back_orders a c = record (refresh_orders_from_chain a c) { last_order_refresh = a.now }

-- `refreshOrders`, at most every `interval` milliseconds.
unfoldable pub refresh_orders : ℕ → Answers → StateCache → StateCache
unfolding refresh_orders_from_indexer refresh_orders_from_chain
refresh_orders interval a c =
    if ltb (a.now - c.last_order_refresh) interval
    then c
    else (if c.indexer_available
        then (elim (refresh_orders_from_indexer a c) [
          | some c' ↦ record c' { last_order_refresh = a.now }
          | none ↦ fall_back_orders a (record c { indexer_available = false })
        ])
        else fall_back_orders a c)

-- What `_refreshPositionsFromIndexer` sets for a row: the position on chain if it is active, and
-- the row itself if the chain cannot be read.
unfoldable pub row_position : (ℕ → Option Position) → IndexedPosition → Option Position
row_position get r = elim (get r.position_id) [
  | none ↦ some (from_row r)
  | some p ↦ if p.active then some p else none
]

unfoldable pub load_rows :
    (ℕ → Option Position) → List IndexedPosition → Dict Position → Dict Position
unfolding row_position
load_rows get [] m = m
load_rows get (r ∷ rs) m =
    load_rows get rs (elim (row_position get r) [ none ↦ m | some p ↦ insert r.position_id p m ])

-- `_refreshPositionsFromIndexer`
unfoldable pub refresh_positions_from_indexer : Answers → StateCache → Option StateCache
unfolding load_rows
refresh_positions_from_indexer a c = elim a.indexed_positions [
  | none ↦ none
  | some rows ↦ some (with_positions (load_rows a.get_position rows []) c)
]

-- The candidates of `_refreshPositionsFromChain`, from the events of the last 100000 blocks.
unfoldable pub position_candidates : Answers → Option (List ℕ)
unfolding add_all
position_candidates a = elim a.block_number [
  | none ↦ none
  | some current ↦ elim (a.positions_opened (current - 100000) current) [
    | none ↦ none
    | some opened ↦ some (add_all opened [])
  ]
]

-- `_refreshPositionsFromChain`
unfoldable pub refresh_positions_from_chain : Answers → StateCache → StateCache
unfolding position_candidates load
refresh_positions_from_chain a c = elim (position_candidates a) [
  | none ↦ c
  | some ids ↦ with_positions (load (λ id. live_position (a.get_position id)) ids []) c
]

abbrev pub fall_back_positions : Answers → StateCache → StateCache
fall_back_positions a c = record (refresh_positions_from_chain a c) {
  last_position_refresh = a.now;
}

-- `refreshPositions`: unlike the orders' it leaves the flag on the indexer.
unfoldable pub refresh_positions : ℕ → Answers → StateCache → StateCache
unfolding refresh_positions_from_indexer refresh_positions_from_chain
refresh_positions interval a c =
    if ltb (a.now - c.last_position_refresh) interval
    then c
    else (if c.indexer_available
        then (elim (refresh_positions_from_indexer a c) [
          | some c' ↦ record c' { last_position_refresh = a.now }
          | none ↦ fall_back_positions a c
        ])
        else fall_back_positions a c)

-- The loop of a refresh that reads something of each market: what cannot be read stays.
unfoldable pub load_all {ℓ} : {V : Type ℓ} → (ℕ → Option V) → List MarketEntry → Dict V → Dict V
load_all read [] m = m
load_all read (k ∷ ks) m =
    load_all read ks (elim (read k.market_id) [ none ↦ m | some v ↦ insert k.market_id v m ])

-- `refreshMarketConfigs`, at most every `interval` milliseconds.
unfoldable pub refresh_market_configs : ℕ → Answers → List MarketEntry → StateCache → StateCache
unfolding load_all
refresh_market_configs interval a markets c =
    if ltb (a.now - c.last_market_refresh) interval then c else record c {
      maps = record c.maps { market_configs = load_all a.get_market markets c.maps.market_configs };
      last_market_refresh = a.now;
    }

-- `refreshFundingStates`, at most every minute.
unfoldable pub refresh_funding_states :
    (ℕ → Option FundingState) → Answers → List MarketEntry → StateCache → StateCache
unfolding load_all
refresh_funding_states get a markets c =
    if ltb (a.now - c.last_funding_refresh) 60000 then c else record c {
      maps = record c.maps { funding_states = load_all get markets c.maps.funding_states };
      last_funding_refresh = a.now;
    }

-- `checkIndexerHealth`
unfoldable pub check_indexer_health : Answers → StateCache → StateCache
check_indexer_health a c =
    if c.indexer_available
    then c
    else (if a.indexer_status then record c { indexer_available = true } else c)

-- The intervals of .perps-engine/config.js.
pub record Intervals : Type 0 where
  pub order_refresh : ℕ
  pub position_refresh : ℕ
  pub market_config_refresh : ℕ

-- What the clock, the indexer and the chain answer during each step of a refresh.
pub record Round : Type 0 where
  pub orders : Answers
  pub positions : Answers
  pub funding : Answers
  pub health : Answers
  pub markets : Answers

-- The periodic refresh at the end of a cycle of .perps-engine/index.js.
unfoldable pub refresh_all :
    Intervals → (ℕ → Option FundingState) → Round → List MarketEntry → StateCache → StateCache
unfolding refresh_orders refresh_positions refresh_funding_states check_indexer_health
    refresh_market_configs
refresh_all iv get a markets c = refresh_market_configs iv.market_config_refresh a.markets markets (
    check_indexer_health a.health (
      refresh_funding_states get a.funding markets (
        refresh_positions iv.position_refresh a.positions
          (refresh_orders iv.order_refresh a.orders c))))
