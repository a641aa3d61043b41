-- ===== src/Keeper/Refresh.antt =====
-- The refreshes of `StateCache` of .keeper/src/state-cache.js: from the indexer, or from the
-- chain's events where the indexer fails.
pub mod Laws
use sidiora_perpetual_protoc.Base.{
  ℕ, ◌+◌, ◌-◌, Bool, true, false, Option, none, some, List, [], ◌∷◌, ◌++◌, ltb, ◌==◌, if◌then◌else◌,
  includes,
}
use sidiora_perpetual_protoc.Base.Dict.{Dict, insert}
use sidiora_perpetual_protoc.Protocol.{Order, Position, MarketConfig, MarketEntry}
use sidiora_perpetual_protoc.Keeper.Cache.{StateCache, PriceEntry}

-- A row of the indexer's answer on positions.
pub record IndexedPosition : Type 0 where
  pub position_id : ℕ
  pub user : ℕ
  pub market_id : ℕ
  pub is_long : Bool
  pub size_usd : ℕ
  pub entry_price : ℕ
  pub collateral_usd : ℕ

-- What the clock, the indexer and the chain answer during one refresh; `none` is a throw. The
-- events' queries take the first and the last block.
pub record Answers : Type 0 where
  pub now : ℕ
  pub indexed_orders : Option (List ℕ)
  pub indexed_positions : Option (List IndexedPosition)
  pub block_number : Option ℕ
  pub orders_placed : ℕ → ℕ → Option (List ℕ)
  pub orders_cancelled : ℕ → ℕ → Option (List ℕ)
  pub orders_executed : ℕ → ℕ → Option (List ℕ)
  pub positions_opened : ℕ → ℕ → Option (List ℕ)
  pub get_order : ℕ → Option Order
  pub get_position : ℕ → Option Position
  pub get_price : ℕ → Option PriceEntry
  pub get_market : ℕ → Option MarketConfig
  pub indexer_status : Bool

-- An object that was read from the chain, if it is active.
abbrev pub live_order : Option Order → Option Order
live_order none = none
live_order (some o) = if o.active then some o else none

abbrev pub live_position : Option Position → Option Position
live_position none = none
live_position (some p) = if p.active then some p else none

-- The loop that reads each id and sets what is live.
module _ {V : Type 0} (live : ℕ → Option V) where
  unfoldable pub load : List ℕ → Dict V → Dict V
  load [] m = m
  load (id ∷ ids) m = load ids (elim (live id) [ none ↦ m | some v ↦ insert id v m ])

-- `candidateIds` as a `Set`: `add` for each id of a list, and `delete`.
unfoldable pub add_all : List ℕ → List ℕ → List ℕ
add_all [] set = set
add_all (id ∷ ids) set = add_all ids (if includes id set then set else set ++ id ∷ [])

unfoldable pub delete : ℕ → List ℕ → List ℕ
delete id [] = []
delete id (j ∷ set) = let rest = delete id set in if j == id then rest else j ∷ rest

unfoldable pub delete_all : List ℕ → List ℕ → List ℕ
unfolding delete
delete_all [] set = set
delete_all (id ∷ ids) set = delete_all ids (delete id set)

-- `_refreshOrdersFromIndexer`: `none` is a throw, before the map is touched.
unfoldable pub refresh_orders_from_indexer : Answers → StateCache → Option StateCache
unfolding load
refresh_orders_from_indexer a c = elim a.indexed_orders [
  | none ↦ none
  | some ids ↦ some (record c { active_orders = load (λ id. live_order (a.get_order id)) ids [] })
]

-- The candidates of `_refreshOrdersFromChain`, from the events of the last 50000 blocks.
unfoldable pub order_candidates : Answers → Option (List ℕ)
unfolding add_all delete_all
order_candidates a = elim a.block_number [
  | none ↦ none
  | some current ↦ elim (a.orders_placed (current - 50000) current) [
    | none ↦ none
    | some placed ↦ elim (a.orders_cancelled (current - 50000) current) [
      | none ↦ none
      | some cancelled ↦ elim (a.orders_executed (current - 50000) current) [
        | none ↦ none
        | some executed ↦ some (delete_all executed (delete_all cancelled (add_all placed [])))
      ]
    ]
  ]
]

-- `_refreshOrdersFromChain`: a throw is logged and leaves the map.
unfoldable pub refresh_orders_from_chain : Answers → StateCache → StateCache
unfolding order_candidates load
refresh_orders_from_chain a c = elim (order_candidates a) [
  | none ↦ c
  | some ids ↦ record c { active_orders = load (λ id. live_order (a.get_order id)) ids [] }
]

-- The fallback of `refreshOrders`.
abbrev pub fall_back_orders : Answers → StateCache → StateCache
fall_back_orders a c = record (refresh_orders_from_chain a c) { last_order_refresh = a.now }

-- `refreshOrders`, at most every `interval` milliseconds.
unfoldable pub refresh_orders : ℕ → Answers → StateCache → StateCache
unfolding refresh_orders_from_indexer refresh_orders_from_chain
refresh_orders interval a c =
    if ltb (a.now - c.last_order_refresh) interval
    then c
    else (if c.indexer_available
        then (elim (refresh_orders_from_indexer a c) [
          | some c' ↦ record c' { last_order_refresh = a.now }
          | none ↦ fall_back_orders a (record c { indexer_available = false })
        ])
        else fall_back_orders a c)

-- The object that `_refreshPositionsFromIndexer` sets for a row.
abbrev pub from_row : IndexedPosition → Position
from_row r = record {
  user = r.user;
  market_id = r.market_id;
  is_long = r.is_long;
  size_usd = r.size_usd;
  collateral_usd = r.collateral_usd;
  entry_price = r.entry_price;
  last_funding_index = none;
  active = true;
}

unfoldable pub load_rows : List IndexedPosition → Dict Position → Dict Position
load_rows [] m = m
load_rows (r ∷ rs) m = load_rows rs (insert r.position_id (from_row r) m)

-- `_refreshPositionsFromIndexer`
unfoldable pub refresh_positions_from_indexer : Answers → StateCache → Option StateCache
unfolding load_rows
refresh_positions_from_indexer a c = elim a.indexed_positions [
  | none ↦ none
  | some rows ↦ some (record c { active_positions = load_rows rows [] })
]

-- The candidates of `_refreshPositionsFromChain`, from the events of the last 100000 blocks.
unfoldable pub position_candidates : Answers → Option (List ℕ)
unfolding add_all
position_candidates a = elim a.block_number [
  | none ↦ none
  | some current ↦ elim (a.positions_opened (current - 100000) current) [
    | none ↦ none
    | some opened ↦ some (add_all opened [])
  ]
]

-- `_refreshPositionsFromChain`
unfoldable pub refresh_positions_from_chain : Answers → StateCache → StateCache
unfolding position_candidates load
refresh_positions_from_chain a c = elim (position_candidates a) [
  | none ↦ c
  | some ids ↦ record c { active_positions = load (λ id. live_position (a.get_position id)) ids [] }
]

abbrev pub fall_back_positions : Answers → StateCache → StateCache
fall_back_positions a c = record (refresh_positions_from_chain a c) {
  last_position_refresh = a.now;
}

-- `refreshPositions`: unlike the orders' it leaves the flag on the indexer.
unfoldable pub refresh_positions : ℕ → Answers → StateCache → StateCache
unfolding refresh_positions_from_indexer refresh_positions_from_chain
refresh_positions interval a c =
    if ltb (a.now - c.last_position_refresh) interval
    then c
    else (if c.indexer_available
        then (elim (refresh_positions_from_indexer a c) [
          | some c' ↦ record c' { last_position_refresh = a.now }
          | none ↦ fall_back_positions a c
        ])
        else fall_back_positions a c)

-- `refreshPrices`: a market whose price cannot be read keeps its old one.
unfoldable pub refresh_prices : Answers → List MarketEntry → StateCache → StateCache
refresh_prices a [] c = c
refresh_prices a (m ∷ ms) c = refresh_prices a ms (elim (a.get_price m.market_id) [
  | none ↦ c
  | some e ↦ record c { prices = insert m.market_id e c.prices }
])

unfoldable pub load_markets : Answers → List MarketEntry → StateCache → StateCache
load_markets a [] c = c
load_markets a (m ∷ ms) c = load_markets a ms (elim (a.get_market m.market_id) [
  | none ↦ c
  | some k ↦ record c { market_configs = insert m.market_id k c.market_configs }
])

-- `refreshMarketConfigs`, at most every 30 minutes.
unfoldable pub refresh_market_configs : Answers → List MarketEntry → StateCache → StateCache
unfolding load_markets
refresh_market_configs a markets c =
    if ltb (a.now - c.last_market_refresh) 1800000
    then c
    else record (load_markets a markets c) { last_market_refresh = a.now }

-- `checkIndexerHealth`
unfoldable pub check_indexer_health : Answers → StateCache → StateCache
check_indexer_health a c =
    if c.indexer_available
    then c
    else (if a.indexer_status then record c { indexer_available = true } else c)
