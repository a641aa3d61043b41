-- ===== src/Indexer/Queries.antt =====
-- The other queries of .indexer/src/graphql/resolvers.js: lists by time, rows by key, and the nested
-- fields. Addresses are numbers, so their case does not matter; a JSON column is sent as it is.
pub mod Pages
pub mod Stats
pub mod Sums
pub mod Progress
use sidiora_perpetual_protoc.Base.{
  ℕ, ◌≤◌, ◌<◌, ◌≡◌, ◌⊎◌, Bool, true, false, Option, none, some, List, [], ◌∷◌, ◌++◌, ◌&&◌, ◌==◌,
  if◌then◌else◌, filter, take, drop, length, All,
}
use sidiora_perpetual_protoc.Base.Text.{codes}
use sidiora_perpetual_protoc.Base.Dict.{Dict, lookup}
use sidiora_perpetual_protoc.Protocol.{Reason}
use sidiora_perpetual_protoc.Indexer.Rows.{
  Db, TradeRow, TradeType, LiquidationRow, PriceRow, FundingRateRow, VaultEventRow, VaultEventType,
  CollateralTokenRow, ProtocolEventRow, KeeperCycleRow, LedgerRow, DelegateRow, AccountEventRow,
  AccountEventType, PositionRow, OrderRow, MarketRow, LatestPriceRow, PoolStateRow, UserVaultRow,
  FeeConfigRow,
}
use sidiora_perpetual_protoc.Indexer.Resolvers.{holds, paginate}

-- How many rows pass a test.
abbrev pub count {ℓ} : {A : Type ℓ} → (A → Bool) → List A → ℕ
count test rows = length (filter test rows)

-- No row is above one before it, by the first number and then by the second.
abbrev pub Falling : {A : Type 0} → (A → ℕ) → (A → ℕ) → List A → Type 0
Falling major minor [] = Unit
Falling major minor (x ∷ xs) =
    All (λ y. (major y < major x) ⊎ ((major y ≡ major x) × (minor y ≤ minor x))) xs
    × Falling major minor xs

-- PostgreSQL's `ORDER BY major DESC, minor DESC` and `ORDER BY key ASC`. Both return the rows that
-- they are given, so that of each kind there are as many; the order of equal rows is left open.
pub record Database : Type 1 where
  pub order_by : {A : Type 0} → (A → ℕ) → (A → ℕ) → List A → List A
  pub order_asc : {A : Type 0} → (A → ℕ) → List A → List A
  pub same_rows :
      {A : Type 0} (major minor : A → ℕ) (rows : List A) (test : A → Bool)
      → count test (order_by major minor rows) ≡ count test rows
  pub falls :
      {A : Type 0} (major minor : A → ℕ) (rows : List A)
      → Falling major minor (order_by major minor rows)

-- A list is by time, or by time and log index.
abbrev pub no_minor : {A : Type 0} → A → ℕ
no_minor x = 0

abbrev pub same_trade_type : TradeType → TradeType → Bool
same_trade_type TradeType.open_trade TradeType.open_trade = true
same_trade_type TradeType.close_trade TradeType.close_trade = true
same_trade_type TradeType.partial_close TradeType.partial_close = true
same_trade_type TradeType.modify TradeType.modify = true
same_trade_type TradeType.liquidation TradeType.liquidation = true
same_trade_type _ _ = false

abbrev pub same_vault_type : VaultEventType → VaultEventType → Bool
same_vault_type VaultEventType.deposit VaultEventType.deposit = true
same_vault_type VaultEventType.withdrawal VaultEventType.withdrawal = true
same_vault_type VaultEventType.vault_funded VaultEventType.vault_funded = true
same_vault_type VaultEventType.vault_defunded VaultEventType.vault_defunded = true
same_vault_type _ _ = false

abbrev pub same_account_type : AccountEventType → AccountEventType → Bool
same_account_type AccountEventType.margin_locked AccountEventType.margin_locked = true
same_account_type AccountEventType.margin_released AccountEventType.margin_released = true
same_account_type AccountEventType.margin_mode_changed AccountEventType.margin_mode_changed = true
same_account_type AccountEventType.margin_transferred AccountEventType.margin_transferred = true
same_account_type _ _ = false

abbrev pub same_text : List ℕ → List ℕ → Bool
same_text [] [] = true
same_text (a ∷ s) (b ∷ t) = (a == b) && same_text s t
same_text _ _ = false

abbrev pub trade_matches : Option ℕ → Option ℕ → Option ℕ → Option TradeType → TradeRow → Bool
trade_matches user market position trade_type t =
    holds (λ u. t.user == u) user
    && holds (λ m. t.market_id == m) market
    && holds (λ p. t.position_id == p) position
    && holds (same_trade_type t.trade_type) trade_type

module _ (d : Database) where
  -- `SELECT * FROM … WHERE … ORDER BY … DESC LIMIT … OFFSET …`
  unfoldable pub page :
      {A : Type 0} → (A → Bool) → (A → ℕ) → (A → ℕ) → Option ℕ → Option ℕ → List A → List A
  unfolding paginate
  page test major minor limit offset rows =
      let (l, o) = paginate limit offset in
      take l (drop o (d.order_by major minor (filter test rows)))

  -- `trades`
  unfoldable pub trades :
      Option ℕ → Option ℕ → Option ℕ → Option TradeType → Option ℕ → Option ℕ → Db → List TradeRow
  unfolding page
  trades user market position trade_type limit offset db =
      page (trade_matches user market position trade_type) (λ t. t.timestamp) (λ t. t.log_index)
        limit offset db.trades

  -- `liquidations`
  unfoldable pub liquidations : Option ℕ → Option ℕ → Option ℕ → Option ℕ → Db → List LiquidationRow
  unfolding page
  liquidations user market limit offset db =
      page (λ l. holds (λ u. l.user == u) user && holds (λ m. l.market_id == m) market)
        (λ l. l.timestamp) no_minor limit offset db.liquidations

  -- `priceHistory`
  unfoldable pub price_history : ℕ → Option ℕ → Option ℕ → Db → List PriceRow
  unfolding page
  price_history market limit offset db =
      page (λ p. p.market_id == market) (λ p. p.block_timestamp) no_minor limit offset
        db.price_updates

  -- `fundingRates`
  unfoldable pub funding_rates : ℕ → Option ℕ → Option ℕ → Db → List FundingRateRow
  unfolding page
  funding_rates market limit offset db =
      page (λ f. f.market_id == market) (λ f. f.timestamp) no_minor limit offset db.funding_rates

  -- `vaultEvents`
  unfoldable pub vault_events :
      Option ℕ → Option VaultEventType → Option ℕ → Option ℕ → Db → List VaultEventRow
  unfolding page
  vault_events user event_type limit offset db =
      page (λ v. holds (λ u. v.user == u) user && holds (same_vault_type v.event_type) event_type)
        (λ v. v.timestamp) no_minor limit offset db.vault_events

  -- `collateralTokens`
  unfoldable pub collateral_tokens : Db → Dict CollateralTokenRow
  collateral_tokens db = d.order_asc (λ r. r.1.added_at) db.collateral_tokens

  -- `markets`, `latestPrices` and `poolStates`
  unfoldable pub markets : Db → Dict MarketRow
  markets db = d.order_asc (λ r. r.0) db.markets

  unfoldable pub latest_prices : Db → Dict LatestPriceRow
  latest_prices db = d.order_asc (λ r. r.0) db.latest_prices

  unfoldable pub pool_states : Db → Dict PoolStateRow
  pool_states db = d.order_asc (λ r. r.0) db.pool_states

  -- `protocolEvents`
  unfoldable pub protocol_events : Option Reason → Option ℕ → Option ℕ → Db → List ProtocolEventRow
  unfolding page
  protocol_events event_name limit offset db =
      page (λ e. holds (same_text e.event_name) event_name) (λ e. e.timestamp) no_minor limit offset
        db.protocol_events

  -- `keeperCycles`
  unfoldable pub keeper_cycles : Option ℕ → Option ℕ → Db → List KeeperCycleRow
  unfolding page
  keeper_cycles limit offset db =
      page (λ k. true) (λ k. k.timestamp) no_minor limit offset db.keeper_cycles

  -- `accountLedger`
  unfoldable pub account_ledger : Option ℕ → Option ℕ → Option ℕ → Option ℕ → Db → List LedgerRow
  unfolding page
  account_ledger user position limit offset db =
      page (λ e. holds (λ u. e.user == u) user && holds (λ p. e.position_id == p) position)
        (λ e. e.timestamp) no_minor limit offset db.account_ledger

  -- `delegates`
  unfoldable pub delegates : ℕ → Db → List DelegateRow
  delegates user db =
      d.order_by (λ r. r.timestamp) no_minor
        (filter (λ r. (r.user == user) && r.is_active) db.delegates)

  -- `tradingAccountEvents`
  unfoldable pub trading_account_events :
      Option ℕ → Option AccountEventType → Option ℕ → Option ℕ → Db → List AccountEventRow
  unfolding page
  trading_account_events user event_type limit offset db =
      page (λ e. holds (λ u. e.user == u) user && holds (same_account_type e.event_type) event_type)
        (λ e. e.timestamp) no_minor limit offset db.trading_account_events

  -- `… ORDER BY block_timestamp DESC LIMIT 1` of a market's funding rates: `fundingRate` of `Market`.
  unfoldable pub latest_funding_rate : ℕ → Db → Option FundingRateRow
  latest_funding_rate market db =
      elim (d.order_by (λ f. f.timestamp) no_minor
        (filter (λ f. f.market_id == market) db.funding_rates)) [ [] ↦ none | ◌∷◌ f fs ↦ some f ]

-- `position`, `order`, `market`, `userVault`, `poolState` and `feeConfig`: null where there is no row.
unfoldable pub position : ℕ → Db → Option PositionRow
position id db = lookup id db.positions

unfoldable pub order : ℕ → Db → Option OrderRow
order id db = lookup id db.orders

unfoldable pub market : ℕ → Db → Option MarketRow
market id db = lookup id db.markets

unfoldable pub user_vault : ℕ → Db → Option UserVaultRow
user_vault user db = lookup user db.user_vaults

unfoldable pub pool_state : ℕ → Db → Option PoolStateRow
pool_state id db = lookup id db.pool_states

unfoldable pub latest_price : ℕ → Db → Option LatestPriceRow
latest_price id db = lookup id db.latest_prices

unfoldable pub fee_config : Db → Option FeeConfigRow
fee_config db = db.fee_config

-- `orderTypeName`: the decimal text of an unknown type stands behind its prefix.
unfoldable pub order_type_name : (ℕ → List ℕ) → ℕ → List ℕ
order_type_name print n =
    if n == 0
    then codes "limit"
    else if n == 1
    then codes "stop_limit"
    else if n == 2
    then codes "take_profit"
    else if n == 3
    then codes "stop_loss"
    else codes "unknown_" ++ print n
