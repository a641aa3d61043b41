-- ===== src/Protocol.antt =====
-- The values that the services read from the Diamond contract: the objects that the read helpers
-- of .keeper/src/executor.js and .perps-engine/src/submitter.js build from a call's result.
-- Addresses and hashes are only compared, so they are numbers, as are all unsigned BigInts.
use sidiora_perpetual_protoc.Base.{ℕ, Bool, List, Option}
use sidiora_perpetual_protoc.Base.Int.{ℤ}

-- `getOrder`
pub record Order : Type 0 where
  pub user : ℕ
  pub market_id : ℕ
  pub is_long : Bool
  pub order_type : ℕ
  pub trigger_price : ℕ
  pub limit_price : ℕ
  pub size_usd : ℕ
  pub leverage : ℕ
  pub collateral_token : ℕ
  pub collateral_amount : ℕ
  pub active : Bool

-- `getPosition`; an entry that the cache builds from the indexer alone has no funding index.
pub record Position : Type 0 where
  pub user : ℕ
  pub market_id : ℕ
  pub is_long : Bool
  pub size_usd : ℕ
  pub collateral_usd : ℕ
  pub entry_price : ℕ
  pub last_funding_index : Option ℤ
  pub active : Bool

-- `getMarket`
pub record MarketConfig : Type 0 where
  pub max_leverage : ℕ
  pub maintenance_margin_bps : ℕ
  pub enabled : Bool

-- `getFundingState`
pub record FundingState : Type 0 where
  pub cumulative_long : ℤ
  pub cumulative_short : ℤ

-- `getPool`
pub record PoolState : Type 0 where
  pub base_reserve : ℕ
  pub quote_reserve : ℕ

-- An entry of `MARKETS` of the configuration files.
pub record MarketEntry : Type 0 where
  pub market_id : ℕ
  pub symbol : ℕ

-- The text of a revert reason or of an error message, as its code points.
abbrev pub Reason : Type 0
Reason = List ℕ

-- What the transaction methods return: `{ success: true, txHash }`, `{ success: false, error,
-- reverted: true }` and `{ success: false, error }`.
pub data TxResult : Type 0 where
  success : ℕ → TxResult
  reverted : Reason → TxResult
  failed : Reason → TxResult

-- `ORDER_TYPE` of the configuration and of the contracts.
abbrev pub limit_type : ℕ
limit_type = 0

abbrev pub stop_limit_type : ℕ
stop_limit_type = 1

abbrev pub take_profit_type : ℕ
take_profit_type = 2

abbrev pub stop_loss_type : ℕ
stop_loss_type = 3
