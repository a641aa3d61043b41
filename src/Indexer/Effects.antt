-- ===== src/Indexer/Effects.antt =====
-- What each event of .indexer/src/scanner.js does, read off the whole of its handler.
use sidiora_perpetual_protoc.Base.{◌≡◌, refl, Bool, true, false, List, [], ◌∷◌, if◌then◌else◌}
use sidiora_perpetual_protoc.Base.Dict.{Dict, update, insert_new}
use sidiora_perpetual_protoc.Base.Int.{pos}
use sidiora_perpetual_protoc.Base.Outcome.{ok, throw}
use sidiora_perpetual_protoc.Indexer.Rows.{Db, PositionRow, OrderRow, OrderStatus, PriceRow}
use sidiora_perpetual_protoc.Indexer.Models.{
  DbError, Context, modified, ended, resolved, executed_row, failed_row, insert_price_updates,
  insert_position, insert_trade, update_position_modified, close_position, insert_order,
  execute_order, cancel_order, set_order_failed, insert_liquidation, insert_funding_rate,
  upsert_market, set_market_enabled, insert_user_vault, insert_vault_event, upsert_collateral_token,
  remove_collateral_token, upsert_pool_state, upsert_fee_config, insert_protocol_event,
  update_margin_mode,
}
use sidiora_perpetual_protoc.Indexer.Handlers.{
  Event, opened_row, placed_row, price_rows, handle_position_opened, handle_position_modified,
  handle_position_closed, handle_order_placed, handle_liquidation, handle_prices_updated,
  handle_protocol_event, handle_order_execution_failed, handle_vault_event, handle_pool_event,
}
use sidiora_perpetual_protoc.Indexer.Dispatch.{handle_event}

-- Whether the event is `PositionModified`.
abbrev pub is_modification : Event → Bool
is_modification (Event.position_modified id size collateral amount) = true
is_modification _ = false

-- The positions after an event.
abbrev pub positions_after : Event → Context → Dict PositionRow → Dict PositionRow
positions_after (Event.position_opened id u m l size lev entry token amount) ctx ps =
    insert_new id (opened_row u m l size lev entry token amount ctx) ps
positions_after (Event.position_modified id size collateral amount) ctx ps =
    update id (modified size collateral amount) ps
positions_after (Event.position_closed id u m size price pnl full) ctx ps =
    if full then update id (ended false pnl price ctx) ps else ps
positions_after (Event.liquidation id u m price penalty keeper) ctx ps =
    update id (ended true (pos 0) price ctx) ps
positions_after _ ctx ps = ps

-- The orders after an event.
abbrev pub orders_after : Event → Context → Dict OrderRow → Dict OrderRow
orders_after (Event.order_placed id u m t l trigger size) ctx os =
    insert_new id (placed_row u m t l trigger size ctx) os
orders_after (Event.order_executed id p price) ctx os = update id (executed_row p price ctx) os
orders_after (Event.order_cancelled id) ctx os = update id (resolved OrderStatus.cancelled ctx) os
orders_after (Event.order_execution_failed id reason) ctx os = update id (failed_row reason ctx) os
orders_after _ ctx os = os

insert_price_updates-keeps :
    (ps : List PriceRow) (db : Db)
    → ((insert_price_updates ps db).0 ≡ ok tt)
      × ((insert_price_updates ps db).1.positions ≡ db.positions)
      × ((insert_price_updates ps db).1.orders ≡ db.orders)
unfolding insert_price_updates
insert_price_updates-keeps [] db = (refl, refl, refl)
insert_price_updates-keeps (p ∷ ps) db = insert_price_updates-keeps ps _

-- Only a `PositionModified` event makes its handler throw.
pub handle_event-throws :
    (e : Event) (ctx : Context) (db : Db)
    → (handle_event e ctx db).0
      ≡ (if is_modification e then throw DbError.not_null_violation else ok tt)
unfolding handle_event handle_position_opened handle_position_modified handle_position_closed
    handle_order_placed handle_liquidation handle_prices_updated handle_protocol_event
    handle_order_execution_failed handle_vault_event handle_pool_event insert_position insert_trade
    update_position_modified close_position insert_order execute_order cancel_order set_order_failed
    insert_liquidation insert_funding_rate upsert_market set_market_enabled insert_user_vault
    insert_vault_event upsert_collateral_token remove_collateral_token upsert_pool_state
    upsert_fee_config insert_protocol_event update_margin_mode
handle_event-throws (Event.position_opened a0 a1 a2 a3 a4 a5 a6 a7 a8) ctx db = refl
handle_event-throws (Event.position_modified a0 a1 a2 a3) ctx db = refl
handle_event-throws (Event.position_closed a0 a1 a2 a3 a4 a5 true) ctx db = refl
handle_event-throws (Event.position_closed a0 a1 a2 a3 a4 a5 false) ctx db = refl
handle_event-throws (Event.order_placed a0 a1 a2 a3 a4 a5 a6) ctx db = refl
handle_event-throws (Event.order_executed a0 a1 a2) ctx db = refl
handle_event-throws (Event.order_cancelled a0) ctx db = refl
handle_event-throws (Event.order_execution_failed a0 a1) ctx db = refl
handle_event-throws (Event.liquidation a0 a1 a2 a3 a4 a5) ctx db = refl
handle_event-throws (Event.adl_executed a0 a1) ctx db = refl
handle_event-throws (Event.prices_updated a0 a1) ctx db =
    (insert_price_updates-keeps (price_rows a0 a1 ctx) db).0
handle_event-throws (Event.funding_rate_updated a0 a1 a2) ctx db = refl
handle_event-throws (Event.funding_settled a0 a1 a2 a3) ctx db = refl
handle_event-throws (Event.market_created a0 a1 a2 a3) ctx db = refl
handle_event-throws (Event.market_updated a0) ctx db = refl
handle_event-throws (Event.market_enabled a0) ctx db = refl
handle_event-throws (Event.market_disabled a0) ctx db = refl
handle_event-throws (Event.fees_updated a0 a1 a2 a3) ctx db = refl
handle_event-throws (Event.vault_created a0 a1) ctx db = refl
handle_event-throws (Event.collateral_deposited a0 a1 a2) ctx db = refl
handle_event-throws (Event.collateral_withdrawn a0 a1 a2) ctx db = refl
handle_event-throws (Event.vault_funded a0 a1 a2) ctx db = refl
handle_event-throws (Event.vault_defunded a0 a1 a2) ctx db = refl
handle_event-throws (Event.collateral_added a0 a1) ctx db = refl
handle_event-throws (Event.collateral_removed a0) ctx db = refl
handle_event-throws (Event.pool_event a0 a1 a2 a3) ctx db = refl
handle_event-throws (Event.protocol_event a0 a1) ctx db = refl
handle_event-throws (Event.keeper_cycle_executed a0 a1 a2 a3 a4 a5) ctx db = refl
handle_event-throws (Event.margin_locked a0 a1 a2 a3) ctx db = refl
handle_event-throws (Event.margin_released a0 a1 a2 a3) ctx db = refl
handle_event-throws (Event.ledger_entry_recorded a0 a1 a2 a3 a4 a5 a6) ctx db = refl
handle_event-throws (Event.delegate_added a0 a1 a2 a3 a4 a5) ctx db = refl
handle_event-throws (Event.delegate_removed a0 a1) ctx db = refl
handle_event-throws (Event.margin_mode_changed a0 a1) ctx db = refl
handle_event-throws (Event.margin_transferred a0 a1 a2 a3 a4) ctx db = refl
handle_event-throws Event.unhandled ctx db = refl

pub handle_event-positions :
    (e : Event) (ctx : Context) (db : Db)
    → (handle_event e ctx db).1.positions ≡ positions_after e ctx db.positions
unfolding handle_event handle_position_opened handle_position_modified handle_position_closed
    handle_order_placed handle_liquidation handle_prices_updated handle_protocol_event
    handle_order_execution_failed handle_vault_event handle_pool_event insert_position insert_trade
    update_position_modified close_position insert_order execute_order cancel_order set_order_failed
    insert_liquidation insert_funding_rate upsert_market set_market_enabled insert_user_vault
    insert_vault_event upsert_collateral_token remove_collateral_token upsert_pool_state
    upsert_fee_config insert_protocol_event update_margin_mode
handle_event-positions (Event.position_opened a0 a1 a2 a3 a4 a5 a6 a7 a8) ctx db = refl
handle_event-positions (Event.position_modified a0 a1 a2 a3) ctx db = refl
handle_event-positions (Event.position_closed a0 a1 a2 a3 a4 a5 true) ctx db = refl
handle_event-positions (Event.position_closed a0 a1 a2 a3 a4 a5 false) ctx db = refl
handle_event-positions (Event.order_placed a0 a1 a2 a3 a4 a5 a6) ctx db = refl
handle_event-positions (Event.order_executed a0 a1 a2) ctx db = refl
handle_event-positions (Event.order_cancelled a0) ctx db = refl
handle_event-positions (Event.order_execution_failed a0 a1) ctx db = refl
handle_event-positions (Event.liquidation a0 a1 a2 a3 a4 a5) ctx db = refl
handle_event-positions (Event.adl_executed a0 a1) ctx db = refl
handle_event-positions (Event.prices_updated a0 a1) ctx db =
    (insert_price_updates-keeps (price_rows a0 a1 ctx) db).1
handle_event-positions (Event.funding_rate_updated a0 a1 a2) ctx db = refl
handle_event-positions (Event.funding_settled a0 a1 a2 a3) ctx db = refl
handle_event-positions (Event.market_created a0 a1 a2 a3) ctx db = refl
handle_event-positions (Event.market_updated a0) ctx db = refl
handle_event-positions (Event.market_enabled a0) ctx db = refl
handle_event-positions (Event.market_disabled a0) ctx db = refl
handle_event-positions (Event.fees_updated a0 a1 a2 a3) ctx db = refl
handle_event-positions (Event.vault_created a0 a1) ctx db = refl
handle_event-positions (Event.collateral_deposited a0 a1 a2) ctx db = refl
handle_event-positions (Event.collateral_withdrawn a0 a1 a2) ctx db = refl
handle_event-positions (Event.vault_funded a0 a1 a2) ctx db = refl
handle_event-positions (Event.vault_defunded a0 a1 a2) ctx db = refl
handle_event-positions (Event.collateral_added a0 a1) ctx db = refl
handle_event-positions (Event.collateral_removed a0) ctx db = refl
handle_event-positions (Event.pool_event a0 a1 a2 a3) ctx db = refl
handle_event-positions (Event.protocol_event a0 a1) ctx db = refl
handle_event-positions (Event.keeper_cycle_executed a0 a1 a2 a3 a4 a5) ctx db = refl
handle_event-positions (Event.margin_locked a0 a1 a2 a3) ctx db = refl
handle_event-positions (Event.margin_released a0 a1 a2 a3) ctx db = refl
handle_event-positions (Event.ledger_entry_recorded a0 a1 a2 a3 a4 a5 a6) ctx db = refl
handle_event-positions (Event.delegate_added a0 a1 a2 a3 a4 a5) ctx db = refl
handle_event-positions (Event.delegate_removed a0 a1) ctx db = refl
handle_event-positions (Event.margin_mode_changed a0 a1) ctx db = refl
handle_event-positions (Event.margin_transferred a0 a1 a2 a3 a4) ctx db = refl
handle_event-positions Event.unhandled ctx db = refl

pub handle_event-orders :
    (e : Event) (ctx : Context) (db : Db)
    → (handle_event e ctx db).1.orders ≡ orders_after e ctx db.orders
unfolding handle_event handle_position_opened handle_position_modified handle_position_closed
    handle_order_placed handle_liquidation handle_prices_updated handle_protocol_event
    handle_order_execution_failed handle_vault_event handle_pool_event insert_position insert_trade
    update_position_modified close_position insert_order execute_order cancel_order set_order_failed
    insert_liquidation insert_funding_rate upsert_market set_market_enabled insert_user_vault
    insert_vault_event upsert_collateral_token remove_collateral_token upsert_pool_state
    upsert_fee_config insert_protocol_event update_margin_mode
handle_event-orders (Event.position_opened a0 a1 a2 a3 a4 a5 a6 a7 a8) ctx db = refl
handle_event-orders (Event.position_modified a0 a1 a2 a3) ctx db = refl
handle_event-orders (Event.position_closed a0 a1 a2 a3 a4 a5 true) ctx db = refl
handle_event-orders (Event.position_closed a0 a1 a2 a3 a4 a5 false) ctx db = refl
handle_event-orders (Event.order_placed a0 a1 a2 a3 a4 a5 a6) ctx db = refl
handle_event-orders (Event.order_executed a0 a1 a2) ctx db = refl
handle_event-orders (Event.order_cancelled a0) ctx db = refl
handle_event-orders (Event.order_execution_failed a0 a1) ctx db = refl
handle_event-orders (Event.liquidation a0 a1 a2 a3 a4 a5) ctx db = refl
handle_event-orders (Event.adl_executed a0 a1) ctx db = refl
handle_event-orders (Event.prices_updated a0 a1) ctx db =
    (insert_price_updates-keeps (price_rows a0 a1 ctx) db).2
handle_event-orders (Event.funding_rate_updated a0 a1 a2) ctx db = refl
handle_event-orders (Event.funding_settled a0 a1 a2 a3) ctx db = refl
handle_event-orders (Event.market_created a0 a1 a2 a3) ctx db = refl
handle_event-orders (Event.market_updated a0) ctx db = refl
handle_event-orders (Event.market_enabled a0) ctx db = refl
handle_event-orders (Event.market_disabled a0) ctx db = refl
handle_event-orders (Event.fees_updated a0 a1 a2 a3) ctx db = refl
handle_event-orders (Event.vault_created a0 a1) ctx db = refl
handle_event-orders (Event.collateral_deposited a0 a1 a2) ctx db = refl
handle_event-orders (Event.collateral_withdrawn a0 a1 a2) ctx db = refl
handle_event-orders (Event.vault_funded a0 a1 a2) ctx db = refl
handle_event-orders (Event.vault_defunded a0 a1 a2) ctx db = refl
handle_event-orders (Event.collateral_added a0 a1) ctx db = refl
handle_event-orders (Event.collateral_removed a0) ctx db = refl
handle_event-orders (Event.pool_event a0 a1 a2 a3) ctx db = refl
handle_event-orders (Event.protocol_event a0 a1) ctx db = refl
handle_event-orders (Event.keeper_cycle_executed a0 a1 a2 a3 a4 a5) ctx db = refl
handle_event-orders (Event.margin_locked a0 a1 a2 a3) ctx db = refl
handle_event-orders (Event.margin_released a0 a1 a2 a3) ctx db = refl
handle_event-orders (Event.ledger_entry_recorded a0 a1 a2 a3 a4 a5 a6) ctx db = refl
handle_event-orders (Event.delegate_added a0 a1 a2 a3 a4 a5) ctx db = refl
handle_event-orders (Event.delegate_removed a0 a1) ctx db = refl
handle_event-orders (Event.margin_mode_changed a0 a1) ctx db = refl
handle_event-orders (Event.margin_transferred a0 a1 a2 a3 a4) ctx db = refl
handle_event-orders Event.unhandled ctx db = refl
