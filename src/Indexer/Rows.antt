-- ===== src/Indexer/Rows.antt =====
-- The rows of the indexer's tables: .indexer/src/db/migrate.js, without the serial ids and the
-- `NOW()` columns. A column that may be NULL is an option.
use sidiora_perpetual_protoc.Base.{ℕ, Bool, Option, List}
use sidiora_perpetual_protoc.Base.Int.{ℤ}
use sidiora_perpetual_protoc.Base.Dict.{Dict}
use sidiora_perpetual_protoc.Protocol.{Reason}

pub data PositionStatus : Type 0 where
  opened closed liquidated : PositionStatus

pub record PositionRow : Type 0 where
  pub user : ℕ
  pub market_id : ℕ
  pub is_long : Bool
  pub size_usd : ℕ
  pub leverage : ℕ
  pub entry_price : ℕ
  pub collateral_token : ℕ
  pub collateral_amount : ℕ
  pub collateral_usd : ℕ
  pub status : PositionStatus
  pub realized_pnl : ℤ
  pub exit_price : Option ℕ
  pub opened_at : ℕ
  pub open_block : ℕ
  pub open_tx_hash : ℕ
  pub closed_at : Option ℕ
  pub close_block : Option ℕ
  pub close_tx_hash : Option ℕ

pub data TradeType : Type 0 where
  open_trade close_trade partial_close modify liquidation : TradeType

pub record TradeRow : Type 0 where
  pub position_id : ℕ
  pub user : ℕ
  pub market_id : ℕ
  pub trade_type : TradeType
  pub is_long : Option Bool
  pub size_usd : ℕ
  pub price : ℕ
  pub realized_pnl : ℤ
  pub block_number : ℕ
  pub tx_hash : ℕ
  pub log_index : ℕ
  pub timestamp : ℕ

pub data OrderStatus : Type 0 where
  active executed cancelled failed : OrderStatus

pub record OrderRow : Type 0 where
  pub user : ℕ
  pub market_id : ℕ
  pub order_type : ℕ
  pub is_long : Bool
  pub trigger_price : ℕ
  pub size_usd : ℕ
  pub status : OrderStatus
  pub position_id : Option ℕ
  pub execution_price : Option ℕ
  pub failure_reason : Option Reason
  pub placed_at : ℕ
  pub placed_block : ℕ
  pub placed_tx_hash : ℕ
  pub resolved_at : Option ℕ
  pub resolved_block : Option ℕ
  pub resolved_tx_hash : Option ℕ

pub record LiquidationRow : Type 0 where
  pub position_id : ℕ
  pub user : ℕ
  pub market_id : ℕ
  pub price : ℕ
  pub penalty : ℕ
  pub keeper : ℕ
  pub block_number : ℕ
  pub tx_hash : ℕ
  pub timestamp : ℕ

pub record PriceRow : Type 0 where
  pub market_id : ℕ
  pub price : ℕ
  pub onchain_timestamp : ℕ
  pub block_number : ℕ
  pub tx_hash : ℕ
  pub block_timestamp : ℕ

pub record LatestPriceRow : Type 0 where
  pub price : ℕ
  pub onchain_timestamp : ℕ
  pub block_number : ℕ

pub record FundingRateRow : Type 0 where
  pub market_id : ℕ
  pub rate_per_second : ℤ
  pub rate_24h : ℤ
  pub block_number : ℕ
  pub tx_hash : ℕ
  pub timestamp : ℕ

pub record MarketRow : Type 0 where
  pub name : Reason
  pub symbol : Reason
  pub max_leverage : ℕ
  pub enabled : Bool
  pub created_at : ℕ
  pub block_number : ℕ
  pub tx_hash : ℕ

pub record UserVaultRow : Type 0 where
  pub vault : ℕ
  pub margin_mode : ℕ
  pub created_at : ℕ
  pub block_number : ℕ
  pub tx_hash : ℕ

pub data VaultEventType : Type 0 where
  deposit withdrawal vault_funded vault_defunded : VaultEventType

pub record VaultEventRow : Type 0 where
  pub event_type : VaultEventType
  pub user : ℕ
  pub token : ℕ
  pub amount : ℕ
  pub block_number : ℕ
  pub tx_hash : ℕ
  pub log_index : ℕ
  pub timestamp : ℕ

pub record CollateralTokenRow : Type 0 where
  pub decimals : ℕ
  pub is_active : Bool
  pub added_at : ℕ
  pub block_number : ℕ
  pub tx_hash : ℕ

pub record PoolStateRow : Type 0 where
  pub base_reserve : ℕ
  pub quote_reserve : ℕ
  pub oracle_price : ℕ
  pub block_number : ℕ

pub record FeeConfigRow : Type 0 where
  pub taker_fee_bps : ℕ
  pub maker_fee_bps : ℕ
  pub liquidation_fee_bps : ℕ
  pub insurance_fee_bps : ℕ
  pub block_number : ℕ

-- A value in the JSON column `event_data`.
pub data Value : Type 0 where
  number : ℤ → Value
  text : Reason → Value

-- A generic event: its name and its arguments, in order.
pub record ProtocolEventRow : Type 0 where
  pub event_name : Reason
  pub event_data : List Value
  pub block_number : ℕ
  pub tx_hash : ℕ
  pub log_index : ℕ
  pub timestamp : ℕ

pub record KeeperCycleRow : Type 0 where
  pub onchain_timestamp : ℕ
  pub markets_updated : ℕ
  pub orders_executed : ℕ
  pub liquidations_executed : ℕ
  pub orders_failed : ℕ
  pub liquidations_failed : ℕ
  pub block_number : ℕ
  pub tx_hash : ℕ
  pub timestamp : ℕ

pub record LedgerRow : Type 0 where
  pub entry_id : ℕ
  pub user : ℕ
  pub entry_type : ℕ
  pub token : ℕ
  pub amount : ℕ
  pub position_id : ℕ
  pub is_debit : Bool
  pub block_number : ℕ
  pub tx_hash : ℕ
  pub timestamp : ℕ

pub record DelegateRow : Type 0 where
  pub user : ℕ
  pub delegate : ℕ
  pub can_trade : Bool
  pub can_withdraw : Bool
  pub can_modify_margin : Bool
  pub expiry : ℕ
  pub is_active : Bool
  pub block_number : ℕ
  pub tx_hash : ℕ
  pub timestamp : ℕ

pub data AccountEventType : Type 0 where
  margin_locked margin_released margin_mode_changed margin_transferred : AccountEventType

pub record AccountEventRow : Type 0 where
  pub event_type : AccountEventType
  pub user : ℕ
  pub position_id : ℕ
  pub token : Option ℕ
  pub amount : ℕ
  pub extra_data : List Value
  pub block_number : ℕ
  pub tx_hash : ℕ
  pub timestamp : ℕ

pub record Db : Type 0 where
  pub last_indexed_block : Option ℕ
  pub positions : Dict PositionRow
  pub trades : List TradeRow
  pub orders : Dict OrderRow
  pub liquidations : List LiquidationRow
  pub price_updates : List PriceRow
  pub latest_prices : Dict LatestPriceRow
  pub funding_rates : List FundingRateRow
  pub markets : Dict MarketRow
  pub user_vaults : Dict UserVaultRow
  pub vault_events : List VaultEventRow
  pub collateral_tokens : Dict CollateralTokenRow
  pub pool_states : Dict PoolStateRow
  pub fee_config : Option FeeConfigRow
  pub protocol_events : List ProtocolEventRow
  pub keeper_cycles : List KeeperCycleRow
  pub account_ledger : List LedgerRow
  pub delegates : List DelegateRow
  pub trading_account_events : List AccountEventRow
