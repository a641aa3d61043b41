-- ===== src/Indexer/Resolvers.antt =====
-- The queries of .indexer/src/graphql/resolvers.js that the keepers use: `positions` and `orders`.
-- Addresses are numbers, so their case does not matter.
pub mod Pages
use sidiora_perpetual_protoc.Base.{
  ℕ, zero, suc, ◌+◌, Bool, true, false, Option, none, some, List, [], ◌∷◌, ◌++◌, ◌&&◌, ◌==◌, leb,
  if◌then◌else◌, min, filter, take, drop,
}
use sidiora_perpetual_protoc.Base.Dict.{Dict, lookup}
use sidiora_perpetual_protoc.Keeper.Refresh.{IndexedPosition}
use sidiora_perpetual_protoc.Indexer.Rows.{Db, PositionRow, PositionStatus, OrderRow, OrderStatus}

-- `x || default`, where 0 is falsy.
abbrev pub or_default : Option ℕ → ℕ → ℕ
or_default none default = default
or_default (some n) default = if n == 0 then default else n

-- `paginate`: the limit and the offset.
unfoldable pub paginate : Option ℕ → Option ℕ → ℕ × ℕ
paginate limit offset = (min (or_default limit 50) 500, or_default offset 0)

abbrev pub same_position_status : PositionStatus → PositionStatus → Bool
same_position_status PositionStatus.opened PositionStatus.opened = true
same_position_status PositionStatus.closed PositionStatus.closed = true
same_position_status PositionStatus.liquidated PositionStatus.liquidated = true
same_position_status _ _ = false

abbrev pub same_order_status : OrderStatus → OrderStatus → Bool
same_order_status OrderStatus.active OrderStatus.active = true
same_order_status OrderStatus.executed OrderStatus.executed = true
same_order_status OrderStatus.cancelled OrderStatus.cancelled = true
same_order_status OrderStatus.failed OrderStatus.failed = true
same_order_status _ _ = false

-- An optional condition of a query.
abbrev pub holds {ℓ} : {A : Type ℓ} → (A → Bool) → Option A → Bool
holds test none = true
holds test (some a) = test a

-- The arguments that both queries have.
pub record Arguments (S : Type 0) : Type 0 where
  pub user : Option ℕ
  pub market_id : Option ℕ
  pub status : Option S
  pub limit : Option ℕ
  pub offset : Option ℕ

-- `ORDER BY key DESC`
module _ {ℓ} {V : Type ℓ} where
  unfoldable pub insert_desc : ℕ × V → Dict V → Dict V
  insert_desc (k, v) [] = (k, v) ∷ []
  insert_desc (k, v) ((j, w) ∷ m) =
      if leb j k then (k, v) ∷ (j, w) ∷ m else (j, w) ∷ insert_desc (k, v) m

  unfoldable pub order_desc : Dict V → Dict V
  unfolding insert_desc
  order_desc [] = []
  order_desc (r ∷ rs) = insert_desc r (order_desc rs)

  -- `… ORDER BY key DESC LIMIT $1 OFFSET $2` of the rows that pass a test.
  unfoldable pub select : (ℕ × V → Bool) → ℕ × ℕ → Dict V → Dict V
  unfolding order_desc
  select test (limit, offset) rows = take limit (drop offset (order_desc (filter test rows)))

abbrev pub position_matches : Arguments PositionStatus → ℕ × PositionRow → Bool
position_matches a (id, p) =
    holds (λ u. p.user == u) a.user
    && holds (λ m. p.market_id == m) a.market_id
    && holds (same_position_status p.status) a.status

-- `positions`
unfoldable pub positions : Arguments PositionStatus → Db → Dict PositionRow
unfolding paginate select
positions a db = select (position_matches a) (paginate a.limit a.offset) db.positions

abbrev pub order_matches : Arguments OrderStatus → Option ℕ → ℕ × OrderRow → Bool
order_matches a order_type (id, o) =
    holds (λ u. o.user == u) a.user
    && holds (λ m. o.market_id == m) a.market_id
    && holds (same_order_status o.status) a.status
    && holds (λ t. o.order_type == t) order_type

-- `orders`
unfoldable pub orders : Arguments OrderStatus → Option ℕ → Db → Dict OrderRow
unfolding paginate select
orders a order_type db = select (order_matches a order_type) (paginate a.limit a.offset) db.orders

-- The query of `_refreshPositionsFromIndexer` of .keeper/src/state-cache.js, and its columns.
abbrev pub indexed_position : ℕ × PositionRow → IndexedPosition
indexed_position (id, p) = record {
  position_id = id;
  user = p.user;
  market_id = p.market_id;
  is_long = p.is_long;
  size_usd = p.size_usd;
  entry_price = p.entry_price;
  collateral_usd = p.collateral_usd;
}

abbrev pub open_positions : Arguments PositionStatus
open_positions = record {
  user = none;
  market_id = none;
  status = some PositionStatus.opened;
  limit = some 5000;
  offset = none;
}
