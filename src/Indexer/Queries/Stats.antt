-- ===== src/Indexer/Queries/Stats.antt =====
-- The statistics of .indexer/src/graphql/resolvers.js: `userStats`, `marketStats`, `globalStats` and
-- `indexerStatus`.

use sidiora_perpetual_protoc.Base.{
  ℕ, zero, suc, ◌+◌, ◌-◌, Bool, Option, none, some, List, [], ◌∷◌, ◌==◌, leb, length, filter,
  includes, if◌then◌else◌,
}
use sidiora_perpetual_protoc.Base.Int.{ℤ, pos, ◌+ℤ◌}
use sidiora_perpetual_protoc.Base.Dict.{Dict}
use sidiora_perpetual_protoc.Protocol.{Reason}
use sidiora_perpetual_protoc.Indexer.Rows.{Db, PositionRow, PositionStatus, OrderStatus, TradeRow}
use sidiora_perpetual_protoc.Indexer.Scanner
use sidiora_perpetual_protoc.Indexer.Resolvers.{same_position_status, same_order_status}
use sidiora_perpetual_protoc.Indexer.Queries.{
  count, Database, latest_funding_rate, latest_price, market,
}

abbrev pub with_status : PositionStatus → ℕ × PositionRow → Bool
with_status status (id, p) = same_position_status p.status status

-- `COALESCE(SUM(…), 0)`
abbrev pub sum_pnl : Dict PositionRow → ℤ
sum_pnl [] = pos 0
sum_pnl ((id, p) ∷ rows) = p.realized_pnl +ℤ sum_pnl rows

abbrev pub sum_size : List TradeRow → ℕ
sum_size [] = 0
sum_size (t ∷ rows) = t.size_usd + sum_size rows

pub record UserStats : Type 0 where
  pub total_positions : ℕ
  pub open_positions : ℕ
  pub closed_positions : ℕ
  pub liquidated_positions : ℕ
  pub total_trades : ℕ
  pub total_realized_pnl : ℤ
  pub total_orders : ℕ
  pub active_orders : ℕ

-- `userStats`
unfoldable pub user_stats : ℕ → Db → UserStats
user_stats user db =
    let positions = filter (λ r. r.1.user == user) db.positions in
    let orders = filter (λ r. r.1.user == user) db.orders in
    record {
      total_positions = length positions;
      open_positions = count (with_status PositionStatus.opened) positions;
      closed_positions = count (with_status PositionStatus.closed) positions;
      liquidated_positions = count (with_status PositionStatus.liquidated) positions;
      total_trades = count (λ t. t.user == user) db.trades;
      total_realized_pnl = sum_pnl positions;
      total_orders = length orders;
      active_orders = count (λ r. same_order_status r.1.status OrderStatus.active) orders;
    }

pub record MarketStats : Type 0 where
  pub symbol : Option Reason
  pub total_positions : ℕ
  pub open_positions : ℕ
  pub total_trades : ℕ
  pub total_liquidations : ℕ
  pub total_volume : ℕ
  pub latest_price : Option ℕ
  pub latest_funding_rate : Option ℤ

-- An empty symbol counts as none.
abbrev pub non_empty : Reason → Option Reason
non_empty [] = none
non_empty (c ∷ s) = some (c ∷ s)

-- `marketStats`; the numbers of the database are texts, so that 0 does not count as none.
unfoldable pub market_stats : Database → ℕ → Db → MarketStats
unfolding market latest_price latest_funding_rate
market_stats d id db =
    let positions = filter (λ r. r.1.market_id == id) db.positions in
    let trades = filter (λ t. t.market_id == id) db.trades in
    record {
      symbol = elim (market id db) [ none ↦ none | some m ↦ non_empty m.symbol ];
      total_positions = length positions;
      open_positions = count (with_status PositionStatus.opened) positions;
      total_trades = length trades;
      total_liquidations = count (λ l. l.market_id == id) db.liquidations;
      total_volume = sum_size trades;
      latest_price = elim (latest_price id db) [ none ↦ none | some p ↦ some p.price ];
      latest_funding_rate = elim (latest_funding_rate d id db) [
        | none ↦ none
        | some f ↦ some f.rate_24h
      ];
    }

-- `DISTINCT user_address`
unfoldable pub distinct_users : Dict PositionRow → List ℕ
distinct_users [] = []
distinct_users ((id, p) ∷ rows) =
    let users = distinct_users rows in if includes p.user users then users else p.user ∷ users

-- `Number(block.rows[0]?.value || 0)`
abbrev pub last_block : Db → ℕ
last_block db = elim db.last_indexed_block [ none ↦ 0 | some n ↦ n ]

pub record GlobalStats : Type 0 where
  pub total_markets : ℕ
  pub total_positions : ℕ
  pub open_positions : ℕ
  pub total_trades : ℕ
  pub total_liquidations : ℕ
  pub total_volume : ℕ
  pub total_users : ℕ
  pub indexer_block : ℕ

-- `globalStats`
unfoldable pub global_stats : Db → GlobalStats
unfolding distinct_users
global_stats db = record {
  total_markets = length db.markets;
  total_positions = length db.positions;
  open_positions = count (with_status PositionStatus.opened) db.positions;
  total_trades = length db.trades;
  total_liquidations = length db.liquidations;
  total_volume = sum_size db.trades;
  total_users = length (distinct_users db.positions);
  indexer_block = last_block db;
}

pub record IndexerStatus : Type 0 where
  pub last_indexed_block : ℕ
  pub chain_head : Option ℕ
  pub blocks_scanned : ℕ
  pub events_processed : ℕ
  pub is_synced : Option Bool

-- `context.chainHead || null`
abbrev pub known_head : Option ℕ → Option ℕ
known_head none = none
known_head (some zero) = none
known_head (some (suc n)) = some (suc n)

-- `indexerStatus` on the context's chain head and the scanner's counts.
unfoldable pub indexer_status : Option ℕ → Scanner.Stats → Db → IndexerStatus
indexer_status head stats db = record {
  last_indexed_block = last_block db;
  chain_head = known_head head;
  blocks_scanned = stats.blocks_scanned;
  events_processed = stats.events_processed;
  is_synced = elim (known_head head) [ none ↦ none | some n ↦ some (leb (n - 5) (last_block db)) ];
}
