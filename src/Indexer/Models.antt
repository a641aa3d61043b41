-- ===== src/Indexer/Models.antt =====
-- The statements of .indexer/src/db/models.js, each on the tables that it names. A statement that
-- breaks a NOT NULL constraint throws and changes nothing.
use sidiora_perpetual_protoc.Base.{
  ℕ, Bool, true, false, Option, none, some, List, [], ◌∷◌, ◌++◌, if◌then◌else◌,
}
use sidiora_perpetual_protoc.Base.Dict.{insert, update, insert_new, upsert}
use sidiora_perpetual_protoc.Base.Int.{ℤ}
use sidiora_perpetual_protoc.Base.Outcome.{Result, ok, throw}
use sidiora_perpetual_protoc.Protocol.{Reason}
use sidiora_perpetual_protoc.Indexer.Rows.{
  Db, PositionRow, PositionStatus, TradeRow, TradeType, OrderRow, OrderStatus, LiquidationRow,
  PriceRow, FundingRateRow, MarketRow, UserVaultRow, VaultEventRow, CollateralTokenRow,
  PoolStateRow, FeeConfigRow, ProtocolEventRow,
}

-- What a statement throws.
pub data DbError : Type 0 where
  not_null_violation : DbError

abbrev pub Statement : Type 0
Statement = Db → Result DbError (Unit {0}) × Db

infixl 5 ◌>>◌
abbrev pub ◌>>◌ : Statement → Statement → Statement
◌>>◌ m k db = let (r, db') = m db in elim r [ ok u ↦ k db' | throw e ↦ (throw e, db') ]

abbrev pub done : Statement
done db = (ok tt, db)

abbrev pub write : (Db → Db) → Statement
write f db = (ok tt, f db)

unfoldable pub get_last_indexed_block : Db → ℕ
get_last_indexed_block db = elim db.last_indexed_block [ none ↦ 0 | some b ↦ b ]

unfoldable pub set_last_indexed_block : ℕ → Db → Db
set_last_indexed_block b db = record db { last_indexed_block = some b }

unfoldable pub insert_position : ℕ → PositionRow → Statement
insert_position id p = write λ db. record db { positions = insert_new id p db.positions }

abbrev pub modified : ℕ → ℕ → ℕ → PositionRow → PositionRow
modified size collateral amount p = record p {
  size_usd = size;
  collateral_usd = collateral;
  collateral_amount = amount;
}

unfoldable pub update_position_modified : ℕ → ℕ → ℕ → ℕ → Statement
update_position_modified id size collateral amount =
    write λ db. record db { positions = update id (modified size collateral amount) db.positions }

-- The block, the transaction, the position of the log in it and the time of a log.
pub record Context : Type 0 where
  pub block_number : ℕ
  pub tx_hash : ℕ
  pub log_index : ℕ
  pub timestamp : ℕ

abbrev pub ended : Bool → ℤ → ℕ → Context → PositionRow → PositionRow
ended is_liquidation pnl price ctx p = record p {
  status = if is_liquidation then PositionStatus.liquidated else PositionStatus.closed;
  realized_pnl = pnl;
  exit_price = some price;
  closed_at = some ctx.timestamp;
  close_block = some ctx.block_number;
  close_tx_hash = some ctx.tx_hash;
}

unfoldable pub close_position : ℕ → ℤ → ℕ → Bool → Context → Statement
close_position id pnl price is_liquidation ctx =
    write
      λ db. record db { positions = update id (ended is_liquidation pnl price ctx) db.positions }

-- The arguments of `insertTrade`, where the user and the market may be null.
pub record Trade : Type 0 where
  pub position_id : ℕ
  pub user : Option ℕ
  pub market_id : Option ℕ
  pub trade_type : TradeType
  pub is_long : Option Bool
  pub size_usd : ℕ
  pub price : ℕ
  pub realized_pnl : ℤ

-- `insertTrade`: the columns `user_address` and `market_id` are NOT NULL.
unfoldable pub insert_trade : Trade → Context → Statement
insert_trade t ctx db = elim t.user [
  | none ↦ (throw not_null_violation, db)
  | some user ↦ elim t.market_id [
    | none ↦ (throw not_null_violation, db)
    | some market_id ↦
        let row : TradeRow = record {
          position_id = t.position_id;
          user = user;
          market_id = market_id;
          trade_type = t.trade_type;
          is_long = t.is_long;
          size_usd = t.size_usd;
          price = t.price;
          realized_pnl = t.realized_pnl;
          block_number = ctx.block_number;
          tx_hash = ctx.tx_hash;
          log_index = ctx.log_index;
          timestamp = ctx.timestamp;
        } in
        (ok tt, record db { trades = db.trades ++ row ∷ [] })
  ]
]

unfoldable pub insert_order : ℕ → OrderRow → Statement
insert_order id o = write λ db. record db { orders = insert_new id o db.orders }

abbrev pub resolved : OrderStatus → Context → OrderRow → OrderRow
resolved status ctx o = record o {
  status = status;
  resolved_at = some ctx.timestamp;
  resolved_block = some ctx.block_number;
  resolved_tx_hash = some ctx.tx_hash;
}

abbrev pub executed_row : ℕ → ℕ → Context → OrderRow → OrderRow
executed_row position_id price ctx o = record (resolved OrderStatus.executed ctx o) {
  position_id = some position_id;
  execution_price = some price;
}

unfoldable pub execute_order : ℕ → ℕ → ℕ → Context → Statement
execute_order id position_id price ctx =
    write λ db. record db { orders = update id (executed_row position_id price ctx) db.orders }

unfoldable pub cancel_order : ℕ → Context → Statement
cancel_order id ctx =
    write λ db. record db { orders = update id (resolved OrderStatus.cancelled ctx) db.orders }

-- `setOrderFailed` has `AND status = 'active'`.
abbrev pub if_active {ℓ} : {A : Type ℓ} → OrderStatus → A → A → A
if_active OrderStatus.active new old = new
if_active _ new old = old

abbrev pub failed_row : Reason → Context → OrderRow → OrderRow
failed_row reason ctx o =
    if_active o.status (record (resolved OrderStatus.failed ctx o) { failure_reason = some reason })
      o

unfoldable pub set_order_failed : ℕ → Reason → Context → Statement
set_order_failed id reason ctx =
    write λ db. record db { orders = update id (failed_row reason ctx) db.orders }

unfoldable pub insert_liquidation : LiquidationRow → Statement
insert_liquidation l = write λ db. record db { liquidations = db.liquidations ++ l ∷ [] }

-- The loop of `insertPriceUpdates`, which runs in one transaction.
unfoldable pub insert_price_updates : List PriceRow → Statement
insert_price_updates [] db = (ok tt, db)
insert_price_updates (p ∷ ps) db = insert_price_updates ps (record db {
  price_updates = db.price_updates ++ p ∷ [];
  latest_prices =
      insert p.market_id
        (record {
          price = p.price;
          onchain_timestamp = p.onchain_timestamp;
          block_number = p.block_number;
        })
        db.latest_prices;
})

unfoldable pub insert_funding_rate : FundingRateRow → Statement
insert_funding_rate f = write λ db. record db { funding_rates = db.funding_rates ++ f ∷ [] }

abbrev pub renamed : MarketRow → MarketRow → MarketRow
renamed m old = record old { name = m.name; symbol = m.symbol; max_leverage = m.max_leverage }

unfoldable pub upsert_market : ℕ → MarketRow → Statement
upsert_market id m = write λ db. record db { markets = upsert id m (renamed m) db.markets }

unfoldable pub set_market_enabled : ℕ → Bool → Statement
set_market_enabled id enabled =
    write λ db. record db { markets = update id (λ m. record m { enabled = enabled }) db.markets }

unfoldable pub insert_user_vault : ℕ → UserVaultRow → Statement
insert_user_vault user v = write λ db. record db { user_vaults = insert_new user v db.user_vaults }

unfoldable pub update_margin_mode : ℕ → ℕ → Statement
update_margin_mode user mode = write λ db. record db {
  user_vaults = update user (λ v. record v { margin_mode = mode }) db.user_vaults;
}

unfoldable pub insert_vault_event : VaultEventRow → Statement
insert_vault_event e = write λ db. record db { vault_events = db.vault_events ++ e ∷ [] }

unfoldable pub upsert_collateral_token : ℕ → CollateralTokenRow → Statement
upsert_collateral_token token c = write λ db. record db {
  collateral_tokens =
      upsert token c (λ old. record old { is_active = true; decimals = c.decimals })
        db.collateral_tokens;
}

unfoldable pub remove_collateral_token : ℕ → Statement
remove_collateral_token token = write λ db. record db {
  collateral_tokens = update token (λ c. record c { is_active = false }) db.collateral_tokens;
}

unfoldable pub upsert_pool_state : ℕ → PoolStateRow → Statement
upsert_pool_state id p = write λ db. record db { pool_states = insert id p db.pool_states }

unfoldable pub upsert_fee_config : FeeConfigRow → Statement
upsert_fee_config f = write λ db. record db { fee_config = some f }

unfoldable pub insert_protocol_event : ProtocolEventRow → Statement
insert_protocol_event e = write λ db. record db { protocol_events = db.protocol_events ++ e ∷ [] }
