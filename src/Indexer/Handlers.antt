-- ===== src/Indexer/Handlers.antt =====
-- `_handleEvent` and the handlers of .indexer/src/scanner.js: what each event of the Diamond does to
-- the tables. Addresses are numbers.
use sidiora_perpetual_protoc.Base.{
  ℕ, Bool, true, false, Option, none, some, List, [], ◌∷◌, if◌then◌else◌,
}
use sidiora_perpetual_protoc.Base.Int.{ℤ, pos}
use sidiora_perpetual_protoc.Base.Text.{codes}
use sidiora_perpetual_protoc.Protocol.{Reason}
use sidiora_perpetual_protoc.Indexer.Rows.{
  PositionRow, PositionStatus, TradeType, OrderRow, OrderStatus, PriceRow, VaultEventType, Value,
}
use sidiora_perpetual_protoc.Indexer.Models.{
  Statement, ◌>>◌, done, Context, insert_position, insert_trade, update_position_modified,
  close_position, insert_order, set_order_failed, insert_liquidation, insert_price_updates,
  insert_vault_event, upsert_pool_state, insert_protocol_event,
}

-- The decoded events, with their arguments in order. `protocol_event` stands for the names that
-- are stored as they are, `unhandled` for those that `_handleEvent` only logs.
pub data Event : Type 0 where
  position_opened : ℕ → ℕ → ℕ → Bool → ℕ → ℕ → ℕ → ℕ → ℕ → Event
  position_modified : ℕ → ℕ → ℕ → ℕ → Event
  position_closed : ℕ → ℕ → ℕ → ℕ → ℕ → ℤ → Bool → Event
  order_placed : ℕ → ℕ → ℕ → ℕ → Bool → ℕ → ℕ → Event
  order_executed : ℕ → ℕ → ℕ → Event
  order_cancelled : ℕ → Event
  order_execution_failed : ℕ → Reason → Event
  liquidation : ℕ → ℕ → ℕ → ℕ → ℕ → ℕ → Event
  adl_executed : ℕ → ℕ → Event
  prices_updated : List (ℕ × ℕ) → ℕ → Event
  funding_rate_updated : ℕ → ℤ → ℤ → Event
  funding_settled : ℕ → ℤ → ℤ → ℤ → Event
  market_created : ℕ → Reason → Reason → ℕ → Event
  market_updated market_enabled market_disabled : ℕ → Event
  fees_updated : ℕ → ℕ → ℕ → ℕ → Event
  vault_created : ℕ → ℕ → Event
  collateral_deposited collateral_withdrawn vault_funded vault_defunded : ℕ → ℕ → ℕ → Event
  collateral_added : ℕ → ℕ → Event
  collateral_removed : ℕ → Event
  pool_event : ℕ → ℕ → ℕ → Option ℕ → Event
  protocol_event : Reason → List Value → Event
  keeper_cycle_executed : ℕ → ℕ → ℕ → ℕ → ℕ → ℕ → Event
  margin_locked margin_released : ℕ → ℕ → ℕ → ℕ → Event
  ledger_entry_recorded : ℕ → ℕ → ℕ → ℕ → ℕ → ℕ → Bool → Event
  delegate_added : ℕ → ℕ → Bool → Bool → Bool → ℕ → Event
  delegate_removed : ℕ → ℕ → Event
  margin_mode_changed : ℕ → ℕ → Event
  margin_transferred : ℕ → ℕ → ℕ → ℕ → ℕ → Event
  unhandled : Event

-- The row that `_handlePositionOpened` inserts: `collateral_usd` has the column's default, 0.
abbrev pub opened_row : ℕ → ℕ → Bool → ℕ → ℕ → ℕ → ℕ → ℕ → Context → PositionRow
opened_row user market_id is_long size leverage entry token amount ctx = record {
  user = user;
  market_id = market_id;
  is_long = is_long;
  size_usd = size;
  leverage = leverage;
  entry_price = entry;
  collateral_token = token;
  collateral_amount = amount;
  collateral_usd = 0;
  status = PositionStatus.opened;
  realized_pnl = pos 0;
  exit_price = none;
  opened_at = ctx.timestamp;
  open_block = ctx.block_number;
  open_tx_hash = ctx.tx_hash;
  closed_at = none;
  close_block = none;
  close_tx_hash = none;
}

unfoldable pub handle_position_opened : ℕ → ℕ → ℕ → Bool → ℕ → ℕ → ℕ → ℕ → ℕ → Context → Statement
unfolding insert_position insert_trade
handle_position_opened id user market_id is_long size leverage entry token amount ctx =
    insert_position id (opened_row user market_id is_long size leverage entry token amount ctx)
    >> insert_trade
        (record {
          position_id = id;
          user = some user;
          market_id = some market_id;
          trade_type = TradeType.open_trade;
          is_long = some is_long;
          size_usd = size;
          price = entry;
          realized_pnl = pos 0;
        })
        ctx

-- `user: null, marketId: null`
unfoldable pub handle_position_modified : ℕ → ℕ → ℕ → ℕ → Context → Statement
unfolding update_position_modified insert_trade
handle_position_modified id size collateral amount ctx =
    update_position_modified id size collateral amount
    >> insert_trade
        (record {
          position_id = id;
          user = none;
          market_id = none;
          trade_type = TradeType.modify;
          is_long = none;
          size_usd = size;
          price = 0;
          realized_pnl = pos 0;
        })
        ctx

unfoldable pub handle_position_closed : ℕ → ℕ → ℕ → ℕ → ℕ → ℤ → Bool → Context → Statement
unfolding close_position insert_trade
handle_position_closed id user market_id size price pnl is_full_close ctx =
    (if is_full_close then close_position id pnl price false ctx else done)
    >> insert_trade
        (record {
          position_id = id;
          user = some user;
          market_id = some market_id;
          trade_type = if is_full_close then TradeType.close_trade else TradeType.partial_close;
          is_long = none;
          size_usd = size;
          price = price;
          realized_pnl = pnl;
        })
        ctx

abbrev pub placed_row : ℕ → ℕ → ℕ → Bool → ℕ → ℕ → Context → OrderRow
placed_row user market_id order_type is_long trigger size ctx = record {
  user = user;
  market_id = market_id;
  order_type = order_type;
  is_long = is_long;
  trigger_price = trigger;
  size_usd = size;
  status = OrderStatus.active;
  position_id = none;
  execution_price = none;
  failure_reason = none;
  placed_at = ctx.timestamp;
  placed_block = ctx.block_number;
  placed_tx_hash = ctx.tx_hash;
  resolved_at = none;
  resolved_block = none;
  resolved_tx_hash = none;
}

unfoldable pub handle_order_placed : ℕ → ℕ → ℕ → ℕ → Bool → ℕ → ℕ → Context → Statement
unfolding insert_order
handle_order_placed id user market_id order_type is_long trigger size ctx =
    insert_order id (placed_row user market_id order_type is_long trigger size ctx)

unfoldable pub handle_liquidation : ℕ → ℕ → ℕ → ℕ → ℕ → ℕ → Context → Statement
unfolding insert_liquidation close_position insert_trade
handle_liquidation id user market_id price penalty keeper ctx =
    insert_liquidation (record {
      position_id = id;
      user = user;
      market_id = market_id;
      price = price;
      penalty = penalty;
      keeper = keeper;
      block_number = ctx.block_number;
      tx_hash = ctx.tx_hash;
      timestamp = ctx.timestamp;
    })
    >> close_position id (pos 0) price true ctx
    >> insert_trade
        (record {
          position_id = id;
          user = some user;
          market_id = some market_id;
          trade_type = TradeType.liquidation;
          is_long = none;
          size_usd = 0;
          price = price;
          realized_pnl = pos 0;
        })
        ctx

abbrev pub price_rows : List (ℕ × ℕ) → ℕ → Context → List PriceRow
price_rows [] stamp ctx = []
price_rows ((market_id, price) ∷ ps) stamp ctx =
    record {
      market_id = market_id;
      price = price;
      onchain_timestamp = stamp;
      block_number = ctx.block_number;
      tx_hash = ctx.tx_hash;
      block_timestamp = ctx.timestamp;
    }
    ∷ price_rows ps stamp ctx

unfoldable pub handle_prices_updated : List (ℕ × ℕ) → ℕ → Context → Statement
unfolding insert_price_updates
handle_prices_updated ps stamp ctx = insert_price_updates (price_rows ps stamp ctx)

unfoldable pub handle_protocol_event : Reason → List Value → Context → Statement
unfolding insert_protocol_event
handle_protocol_event name args ctx = insert_protocol_event (record {
  event_name = name;
  event_data = args;
  block_number = ctx.block_number;
  tx_hash = ctx.tx_hash;
  log_index = ctx.log_index;
  timestamp = ctx.timestamp;
})

unfoldable pub handle_order_execution_failed : ℕ → Reason → Context → Statement
unfolding set_order_failed handle_protocol_event insert_protocol_event
handle_order_execution_failed id reason ctx =
    set_order_failed id reason ctx
    >> handle_protocol_event (codes "OrderExecutionFailed")
        (Value.number (pos id) ∷ Value.text reason ∷ []) ctx

unfoldable pub handle_vault_event : VaultEventType → ℕ → ℕ → ℕ → Context → Statement
unfolding insert_vault_event
handle_vault_event event_type user token amount ctx = insert_vault_event (record {
  event_type = event_type;
  user = user;
  token = token;
  amount = amount;
  block_number = ctx.block_number;
  tx_hash = ctx.tx_hash;
  log_index = ctx.log_index;
  timestamp = ctx.timestamp;
})

unfoldable pub handle_pool_event : ℕ → ℕ → ℕ → Option ℕ → Context → Statement
unfolding upsert_pool_state
handle_pool_event market_id base_reserve quote_reserve oracle_price ctx =
    upsert_pool_state market_id (record {
      base_reserve = base_reserve;
      quote_reserve = quote_reserve;
      oracle_price = elim oracle_price [ none ↦ 0 | some p ↦ p ];
      block_number = ctx.block_number;
    })
