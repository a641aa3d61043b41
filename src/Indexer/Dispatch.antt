-- ===== src/Indexer/Dispatch.antt =====
-- `_handleEvent` of .indexer/src/scanner.js, with the handlers that are one statement.
use sidiora_perpetual_protoc.Base.{true, false, [], ◌∷◌}
use sidiora_perpetual_protoc.Base.Int.{pos}
use sidiora_perpetual_protoc.Base.Text.{codes}
use sidiora_perpetual_protoc.Indexer.Rows.{VaultEventType, AccountEventType, Value}
use sidiora_perpetual_protoc.Indexer.Models.{
  Statement, done, Context, execute_order, cancel_order, insert_funding_rate, upsert_market,
  set_market_enabled, insert_user_vault, upsert_collateral_token, remove_collateral_token,
  upsert_fee_config,
}
use sidiora_perpetual_protoc.Indexer.Accounts.{
  handle_keeper_cycle_executed, handle_margin_event, handle_ledger_entry, handle_delegate_added,
  remove_delegate, handle_margin_mode_changed, handle_margin_transferred,
}
use sidiora_perpetual_protoc.Indexer.Handlers.{
  Event, handle_position_opened, handle_position_modified, handle_position_closed,
  handle_order_placed, handle_liquidation, handle_prices_updated, handle_protocol_event,
  handle_order_execution_failed, handle_vault_event, handle_pool_event,
}

unfoldable pub handle_event : Event → Context → Statement
handle_event (Event.position_opened id user m l size lev entry token amount) ctx =
    handle_position_opened id user m l size lev entry token amount ctx
handle_event (Event.position_modified id size collateral amount) ctx =
    handle_position_modified id size collateral amount ctx
handle_event (Event.position_closed id user m size price pnl full) ctx =
    handle_position_closed id user m size price pnl full ctx
handle_event (Event.order_placed id user m order_type l trigger size) ctx =
    handle_order_placed id user m order_type l trigger size ctx
handle_event (Event.order_executed id position_id price) ctx =
    execute_order id position_id price ctx
handle_event (Event.order_cancelled id) ctx = cancel_order id ctx
handle_event (Event.order_execution_failed id reason) ctx =
    handle_order_execution_failed id reason ctx
handle_event (Event.liquidation id user m price penalty keeper) ctx =
    handle_liquidation id user m price penalty keeper ctx
handle_event (Event.adl_executed id size) ctx =
    handle_protocol_event (codes "ADLExecuted")
      (Value.number (pos id) ∷ Value.number (pos size) ∷ []) ctx
handle_event (Event.prices_updated ps stamp) ctx = handle_prices_updated ps stamp ctx
handle_event (Event.funding_rate_updated m rate day) ctx = insert_funding_rate (record {
  market_id = m;
  rate_per_second = rate;
  rate_24h = day;
  block_number = ctx.block_number;
  tx_hash = ctx.tx_hash;
  timestamp = ctx.timestamp;
})
handle_event (Event.funding_settled m rate long short) ctx =
    handle_protocol_event (codes "FundingSettled")
      (Value.number (pos m) ∷ Value.number rate ∷ Value.number long ∷ Value.number short ∷ []) ctx
handle_event (Event.market_created m name symbol max_leverage) ctx = upsert_market m (record {
  name = name;
  symbol = symbol;
  max_leverage = max_leverage;
  enabled = true;
  created_at = ctx.timestamp;
  block_number = ctx.block_number;
  tx_hash = ctx.tx_hash;
})
handle_event (Event.market_updated m) ctx =
    handle_protocol_event (codes "MarketUpdated") (Value.number (pos m) ∷ []) ctx
handle_event (Event.market_enabled m) ctx = set_market_enabled m true
handle_event (Event.market_disabled m) ctx = set_market_enabled m false
handle_event (Event.fees_updated taker maker liquidation insurance) ctx =
    upsert_fee_config (record {
      taker_fee_bps = taker;
      maker_fee_bps = maker;
      liquidation_fee_bps = liquidation;
      insurance_fee_bps = insurance;
      block_number = ctx.block_number;
    })
handle_event (Event.vault_created user vault) ctx = insert_user_vault user (record {
  vault = vault;
  margin_mode = 0;
  created_at = ctx.timestamp;
  block_number = ctx.block_number;
  tx_hash = ctx.tx_hash;
})
handle_event (Event.collateral_deposited user token amount) ctx =
    handle_vault_event VaultEventType.deposit user token amount ctx
handle_event (Event.collateral_withdrawn user token amount) ctx =
    handle_vault_event VaultEventType.withdrawal user token amount ctx
handle_event (Event.vault_funded token amount user) ctx =
    handle_vault_event VaultEventType.vault_funded user token amount ctx
handle_event (Event.vault_defunded token amount user) ctx =
    handle_vault_event VaultEventType.vault_defunded user token amount ctx
handle_event (Event.collateral_added token decimals) ctx = upsert_collateral_token token (record {
  decimals = decimals;
  is_active = true;
  added_at = ctx.timestamp;
  block_number = ctx.block_number;
  tx_hash = ctx.tx_hash;
})
handle_event (Event.collateral_removed token) ctx = remove_collateral_token token
handle_event (Event.pool_event m base quote oracle) ctx = handle_pool_event m base quote oracle ctx
handle_event (Event.protocol_event name args) ctx = handle_protocol_event name args ctx
handle_event (Event.keeper_cycle_executed stamp m o l fo fl) ctx =
    handle_keeper_cycle_executed stamp m o l fo fl ctx
handle_event (Event.margin_locked user id token amount) ctx =
    handle_margin_event AccountEventType.margin_locked user id token amount ctx
handle_event (Event.margin_released user id token amount) ctx =
    handle_margin_event AccountEventType.margin_released user id token amount ctx
handle_event (Event.ledger_entry_recorded entry user kind token amount id is_debit) ctx =
    handle_ledger_entry entry user kind token amount id is_debit ctx
handle_event (Event.delegate_added user delegate t w m expiry) ctx =
    handle_delegate_added user delegate t w m expiry ctx
handle_event (Event.delegate_removed user delegate) ctx = remove_delegate user delegate ctx
handle_event (Event.margin_mode_changed user mode) ctx = handle_margin_mode_changed user mode ctx
handle_event (Event.margin_transferred user from to token amount) ctx =
    handle_margin_transferred user from to token amount ctx
handle_event Event.unhandled ctx = done
