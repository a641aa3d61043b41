-- ===== src/Indexer/Scanner/Trades.antt =====
-- The trades that .indexer/src/scanner.js stores.
use mathlib.Core.Path.{subst}
use sidiora_perpetual_protoc.Base.{◌≡◌, refl, sym, Bool, true, false, List, [], ◌∷◌, All, All-snoc}
use sidiora_perpetual_protoc.Indexer.Rows.{Db, TradeRow, TradeType, PriceRow}
use sidiora_perpetual_protoc.Indexer.Models.{
  Context, insert_price_updates, insert_position, insert_trade, update_position_modified,
  close_position, insert_order, execute_order, cancel_order, set_order_failed, insert_liquidation,
  insert_funding_rate, upsert_market, set_market_enabled, insert_user_vault, insert_vault_event,
  upsert_collateral_token, remove_collateral_token, upsert_pool_state, upsert_fee_config,
  insert_protocol_event, update_margin_mode,
}
use sidiora_perpetual_protoc.Indexer.Handlers.{
  Event, price_rows, handle_position_opened, handle_position_modified, handle_position_closed,
  handle_order_placed, handle_liquidation, handle_prices_updated, handle_protocol_event,
  handle_order_execution_failed, handle_vault_event, handle_pool_event,
}
use sidiora_perpetual_protoc.Indexer.Dispatch.{handle_event}
use sidiora_perpetual_protoc.Indexer.Scanner.{Log, scan_logs}
use sidiora_perpetual_protoc.Indexer.Scanner.Laws.{scan_logs-keeps}

abbrev pub is_modify : TradeType → Bool
is_modify TradeType.modify = true
is_modify _ = false

abbrev pub Unmodified : TradeRow → Type 0
Unmodified t = is_modify t.trade_type ≡ false

insert_price_updates-trades :
    (ps : List PriceRow) (db : Db) → (insert_price_updates ps db).1.trades ≡ db.trades
unfolding insert_price_updates
insert_price_updates-trades [] db = refl
insert_price_updates-trades (p ∷ ps) db = insert_price_updates-trades ps _

handle_event-Unmodified :
    (e : Event) (ctx : Context) (db : Db)
    → All Unmodified db.trades
    → All Unmodified (handle_event e ctx db).1.trades
unfolding handle_event handle_position_opened handle_position_modified handle_position_closed
    handle_order_placed handle_liquidation handle_prices_updated handle_protocol_event
    handle_order_execution_failed handle_vault_event handle_pool_event insert_position insert_trade
    update_position_modified close_position insert_order execute_order cancel_order set_order_failed
    insert_liquidation insert_funding_rate upsert_market set_market_enabled insert_user_vault
    insert_vault_event upsert_collateral_token remove_collateral_token upsert_pool_state
    upsert_fee_config insert_protocol_event update_margin_mode
handle_event-Unmodified (Event.position_opened a0 a1 a2 a3 a4 a5 a6 a7 a8) ctx db h =
    All-snoc Unmodified db.trades _ h refl
handle_event-Unmodified (Event.position_modified a0 a1 a2 a3) ctx db h = h
handle_event-Unmodified (Event.position_closed a0 a1 a2 a3 a4 a5 true) ctx db h =
    All-snoc Unmodified db.trades _ h refl
handle_event-Unmodified (Event.position_closed a0 a1 a2 a3 a4 a5 false) ctx db h =
    All-snoc Unmodified db.trades _ h refl
handle_event-Unmodified (Event.order_placed a0 a1 a2 a3 a4 a5 a6) ctx db h = h
handle_event-Unmodified (Event.order_executed a0 a1 a2) ctx db h = h
handle_event-Unmodified (Event.order_cancelled a0) ctx db h = h
handle_event-Unmodified (Event.order_execution_failed a0 a1) ctx db h = h
handle_event-Unmodified (Event.liquidation a0 a1 a2 a3 a4 a5) ctx db h =
    All-snoc Unmodified db.trades _ h refl
handle_event-Unmodified (Event.adl_executed a0 a1) ctx db h = h
handle_event-Unmodified (Event.prices_updated a0 a1) ctx db h =
    subst (λ l. All Unmodified l) (sym (insert_price_updates-trades (price_rows a0 a1 ctx) db)) h
handle_event-Unmodified (Event.funding_rate_updated a0 a1 a2) ctx db h = h
handle_event-Unmodified (Event.funding_settled a0 a1 a2 a3) ctx db h = h
handle_event-Unmodified (Event.market_created a0 a1 a2 a3) ctx db h = h
handle_event-Unmodified (Event.market_updated a0) ctx db h = h
handle_event-Unmodified (Event.market_enabled a0) ctx db h = h
handle_event-Unmodified (Event.market_disabled a0) ctx db h = h
handle_event-Unmodified (Event.fees_updated a0 a1 a2 a3) ctx db h = h
handle_event-Unmodified (Event.vault_created a0 a1) ctx db h = h
handle_event-Unmodified (Event.collateral_deposited a0 a1 a2) ctx db h = h
handle_event-Unmodified (Event.collateral_withdrawn a0 a1 a2) ctx db h = h
handle_event-Unmodified (Event.vault_funded a0 a1 a2) ctx db h = h
handle_event-Unmodified (Event.vault_defunded a0 a1 a2) ctx db h = h
handle_event-Unmodified (Event.collateral_added a0 a1) ctx db h = h
handle_event-Unmodified (Event.collateral_removed a0) ctx db h = h
handle_event-Unmodified (Event.pool_event a0 a1 a2 a3) ctx db h = h
handle_event-Unmodified (Event.protocol_event a0 a1) ctx db h = h
handle_event-Unmodified (Event.keeper_cycle_executed a0 a1 a2 a3 a4 a5) ctx db h = h
handle_event-Unmodified (Event.margin_locked a0 a1 a2 a3) ctx db h = h
handle_event-Unmodified (Event.margin_released a0 a1 a2 a3) ctx db h = h
handle_event-Unmodified (Event.ledger_entry_recorded a0 a1 a2 a3 a4 a5 a6) ctx db h = h
handle_event-Unmodified (Event.delegate_added a0 a1 a2 a3 a4 a5) ctx db h = h
handle_event-Unmodified (Event.delegate_removed a0 a1) ctx db h = h
handle_event-Unmodified (Event.margin_mode_changed a0 a1) ctx db h = h
handle_event-Unmodified (Event.margin_transferred a0 a1 a2 a3 a4) ctx db h = h
handle_event-Unmodified Event.unhandled ctx db h = h

-- Whatever logs are scanned, PositionModified events among them, no trade of the type modify is
-- stored where none was.
pub scan_logs_store_no_modify :
    (ls : List Log) (db : Db) → All Unmodified db.trades → All Unmodified (scan_logs ls db).1.trades
scan_logs_store_no_modify ls db h =
    scan_logs-keeps (λ d. All Unmodified d.trades) handle_event-Unmodified ls db h
