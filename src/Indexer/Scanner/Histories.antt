-- ===== src/Indexer/Scanner/Histories.antt =====
-- What no sequence of events can change in the tables of .indexer/src/scanner.js.
use mathlib.Core.Path.{subst}
use sidiora_perpetual_protoc.Base.{ℕ, ◌≡◌, refl, sym, Bool, true, false, some, List}
use sidiora_perpetual_protoc.Base.Dict.{Dict, Holds, update-Holds, insert_new-Holds}
use sidiora_perpetual_protoc.Base.Int.{pos}
use sidiora_perpetual_protoc.Indexer.Rows.{Db, PositionRow, OrderRow, OrderStatus}
use sidiora_perpetual_protoc.Indexer.Models.{
  Context, modified, ended, resolved, executed_row, failed_row, if_active,
}
use sidiora_perpetual_protoc.Protocol.{Reason}
use sidiora_perpetual_protoc.Indexer.Handlers.{Event, opened_row, placed_row}
use sidiora_perpetual_protoc.Indexer.Dispatch.{handle_event}
use sidiora_perpetual_protoc.Indexer.Effects.{
  positions_after, orders_after, handle_event-positions, handle_event-orders,
}
use sidiora_perpetual_protoc.Indexer.Scanner.{Log, scan_logs}
use sidiora_perpetual_protoc.Indexer.Scanner.Laws.{scan_logs-keeps}

-- The terms that a position was opened on: owner, market, side, leverage, entry price, and block.
abbrev pub terms : PositionRow → ℕ × ℕ × Bool × ℕ × ℕ × ℕ
terms p = (p.user, p.market_id, p.is_long, p.leverage, p.entry_price, p.open_block)

abbrev pub OnTerms : ℕ × ℕ × Bool × ℕ × ℕ × ℕ → PositionRow → Type 0
OnTerms t p = terms p ≡ t

positions_after-Holds :
    (id : ℕ) (t : ℕ × ℕ × Bool × ℕ × ℕ × ℕ) (e : Event) (ctx : Context) (m : Dict PositionRow)
    → Holds id (OnTerms t) m
    → Holds id (OnTerms t) (positions_after e ctx m)
positions_after-Holds id t (Event.position_opened a0 a1 a2 a3 a4 a5 a6 a7 a8) ctx m h =
    insert_new-Holds (OnTerms t) a0 id (opened_row a1 a2 a3 a4 a5 a6 a7 a8 ctx) m h
positions_after-Holds id t (Event.position_modified a0 a1 a2 a3) ctx m h =
    update-Holds (OnTerms t) a0 id (modified a1 a2 a3) m (λ v p. p) h
positions_after-Holds id t (Event.position_closed a0 a1 a2 a3 a4 a5 true) ctx m h =
    update-Holds (OnTerms t) a0 id (ended false a5 a4 ctx) m (λ v p. p) h
positions_after-Holds id t (Event.position_closed a0 a1 a2 a3 a4 a5 false) ctx m h = h
positions_after-Holds id t (Event.order_placed a0 a1 a2 a3 a4 a5 a6) ctx m h = h
positions_after-Holds id t (Event.order_executed a0 a1 a2) ctx m h = h
positions_after-Holds id t (Event.order_cancelled a0) ctx m h = h
positions_after-Holds id t (Event.order_execution_failed a0 a1) ctx m h = h
positions_after-Holds id t (Event.liquidation a0 a1 a2 a3 a4 a5) ctx m h =
    update-Holds (OnTerms t) a0 id (ended true (pos 0) a3 ctx) m (λ v p. p) h
positions_after-Holds id t (Event.adl_executed a0 a1) ctx m h = h
positions_after-Holds id t (Event.prices_updated a0 a1) ctx m h = h
positions_after-Holds id t (Event.funding_rate_updated a0 a1 a2) ctx m h = h
positions_after-Holds id t (Event.funding_settled a0 a1 a2 a3) ctx m h = h
positions_after-Holds id t (Event.market_created a0 a1 a2 a3) ctx m h = h
positions_after-Holds id t (Event.market_updated a0) ctx m h = h
positions_after-Holds id t (Event.market_enabled a0) ctx m h = h
positions_after-Holds id t (Event.market_disabled a0) ctx m h = h
positions_after-Holds id t (Event.fees_updated a0 a1 a2 a3) ctx m h = h
positions_after-Holds id t (Event.vault_created a0 a1) ctx m h = h
positions_after-Holds id t (Event.collateral_deposited a0 a1 a2) ctx m h = h
positions_after-Holds id t (Event.collateral_withdrawn a0 a1 a2) ctx m h = h
positions_after-Holds id t (Event.vault_funded a0 a1 a2) ctx m h = h
positions_after-Holds id t (Event.vault_defunded a0 a1 a2) ctx m h = h
positions_after-Holds id t (Event.collateral_added a0 a1) ctx m h = h
positions_after-Holds id t (Event.collateral_removed a0) ctx m h = h
positions_after-Holds id t (Event.pool_event a0 a1 a2 a3) ctx m h = h
positions_after-Holds id t (Event.protocol_event a0 a1) ctx m h = h
positions_after-Holds id t (Event.keeper_cycle_executed a0 a1 a2 a3 a4 a5) ctx m h = h
positions_after-Holds id t (Event.margin_locked a0 a1 a2 a3) ctx m h = h
positions_after-Holds id t (Event.margin_released a0 a1 a2 a3) ctx m h = h
positions_after-Holds id t (Event.ledger_entry_recorded a0 a1 a2 a3 a4 a5 a6) ctx m h = h
positions_after-Holds id t (Event.delegate_added a0 a1 a2 a3 a4 a5) ctx m h = h
positions_after-Holds id t (Event.delegate_removed a0 a1) ctx m h = h
positions_after-Holds id t (Event.margin_mode_changed a0 a1) ctx m h = h
positions_after-Holds id t (Event.margin_transferred a0 a1 a2 a3 a4) ctx m h = h
positions_after-Holds id t Event.unhandled ctx m h = h

-- Every event keeps the position's terms.
handle_event-OnTerms :
    (id : ℕ) (t : ℕ × ℕ × Bool × ℕ × ℕ × ℕ) (e : Event) (ctx : Context) (db : Db)
    → Holds id (OnTerms t) db.positions
    → Holds id (OnTerms t) (handle_event e ctx db).1.positions
handle_event-OnTerms id t e ctx db h =
    subst (λ m. Holds id (OnTerms t) m) (sym (handle_event-positions e ctx db))
      (positions_after-Holds id t e ctx db.positions h)

-- Whatever logs are scanned, a position that is stored stays stored, with the owner, market,
-- side, leverage, entry price and opening block it was stored with.
pub scan_logs_keeps_terms :
    (ls : List Log) (db : Db) (id : ℕ) (t : ℕ × ℕ × Bool × ℕ × ℕ × ℕ)
    → Holds id (OnTerms t) db.positions
    → Holds id (OnTerms t) (scan_logs ls db).1.positions
scan_logs_keeps_terms ls db id t h =
    scan_logs-keeps (λ d. Holds id (OnTerms t) d.positions) (handle_event-OnTerms id t) ls db h

abbrev pub is_active : OrderStatus → Bool
is_active OrderStatus.active = true
is_active _ = false

abbrev pub Resolved : OrderRow → Type 0
Resolved o = is_active o.status ≡ false

if_active-Resolved :
    (s : OrderStatus) (new old : OrderRow)
    → Resolved new
    → Resolved old
    → Resolved (if_active s new old)
if_active-Resolved OrderStatus.active new old h k = h
if_active-Resolved OrderStatus.executed new old h k = k
if_active-Resolved OrderStatus.cancelled new old h k = k
if_active-Resolved OrderStatus.failed new old h k = k

failed_row-Resolved :
    (reason : Reason) (ctx : Context) (o : OrderRow)
    → Resolved o
    → Resolved (failed_row reason ctx o)
failed_row-Resolved reason ctx o h =
    if_active-Resolved o.status
      (record (resolved OrderStatus.failed ctx o) { failure_reason = some reason }) o refl h

orders_after-Holds :
    (id : ℕ) (e : Event) (ctx : Context) (m : Dict OrderRow)
    → Holds id Resolved m
    → Holds id Resolved (orders_after e ctx m)
orders_after-Holds id (Event.position_opened a0 a1 a2 a3 a4 a5 a6 a7 a8) ctx m h = h
orders_after-Holds id (Event.position_modified a0 a1 a2 a3) ctx m h = h
orders_after-Holds id (Event.position_closed a0 a1 a2 a3 a4 a5 a6) ctx m h = h
orders_after-Holds id (Event.order_placed a0 a1 a2 a3 a4 a5 a6) ctx m h =
    insert_new-Holds Resolved a0 id (placed_row a1 a2 a3 a4 a5 a6 ctx) m h
orders_after-Holds id (Event.order_executed a0 a1 a2) ctx m h =
    update-Holds Resolved a0 id (executed_row a1 a2 ctx) m (λ v p. refl) h
orders_after-Holds id (Event.order_cancelled a0) ctx m h =
    update-Holds Resolved a0 id (resolved OrderStatus.cancelled ctx) m (λ v p. refl) h
orders_after-Holds id (Event.order_execution_failed a0 a1) ctx m h =
    update-Holds Resolved a0 id (failed_row a1 ctx) m (failed_row-Resolved a1 ctx) h
orders_after-Holds id (Event.liquidation a0 a1 a2 a3 a4 a5) ctx m h = h
orders_after-Holds id (Event.adl_executed a0 a1) ctx m h = h
orders_after-Holds id (Event.prices_updated a0 a1) ctx m h = h
orders_after-Holds id (Event.funding_rate_updated a0 a1 a2) ctx m h = h
orders_after-Holds id (Event.funding_settled a0 a1 a2 a3) ctx m h = h
orders_after-Holds id (Event.market_created a0 a1 a2 a3) ctx m h = h
orders_after-Holds id (Event.market_updated a0) ctx m h = h
orders_after-Holds id (Event.market_enabled a0) ctx m h = h
orders_after-Holds id (Event.market_disabled a0) ctx m h = h
orders_after-Holds id (Event.fees_updated a0 a1 a2 a3) ctx m h = h
orders_after-Holds id (Event.vault_created a0 a1) ctx m h = h
orders_after-Holds id (Event.collateral_deposited a0 a1 a2) ctx m h = h
orders_after-Holds id (Event.collateral_withdrawn a0 a1 a2) ctx m h = h
orders_after-Holds id (Event.vault_funded a0 a1 a2) ctx m h = h
orders_after-Holds id (Event.vault_defunded a0 a1 a2) ctx m h = h
orders_after-Holds id (Event.collateral_added a0 a1) ctx m h = h
orders_after-Holds id (Event.collateral_removed a0) ctx m h = h
orders_after-Holds id (Event.pool_event a0 a1 a2 a3) ctx m h = h
orders_after-Holds id (Event.protocol_event a0 a1) ctx m h = h
orders_after-Holds id (Event.keeper_cycle_executed a0 a1 a2 a3 a4 a5) ctx m h = h
orders_after-Holds id (Event.margin_locked a0 a1 a2 a3) ctx m h = h
orders_after-Holds id (Event.margin_released a0 a1 a2 a3) ctx m h = h
orders_after-Holds id (Event.ledger_entry_recorded a0 a1 a2 a3 a4 a5 a6) ctx m h = h
orders_after-Holds id (Event.delegate_added a0 a1 a2 a3 a4 a5) ctx m h = h
orders_after-Holds id (Event.delegate_removed a0 a1) ctx m h = h
orders_after-Holds id (Event.margin_mode_changed a0 a1) ctx m h = h
orders_after-Holds id (Event.margin_transferred a0 a1 a2 a3 a4) ctx m h = h
orders_after-Holds id Event.unhandled ctx m h = h

handle_event-Resolved :
    (id : ℕ) (e : Event) (ctx : Context) (db : Db)
    → Holds id Resolved db.orders
    → Holds id Resolved (handle_event e ctx db).1.orders
handle_event-Resolved id e ctx db h =
    subst (λ m. Holds id Resolved m) (sym (handle_event-orders e ctx db))
      (orders_after-Holds id e ctx db.orders h)

-- Whatever logs are scanned, an order that is stored as executed, cancelled or failed stays
-- stored and never becomes active again.
scan_logs-Resolved :
    (ls : List Log) (db : Db) (id : ℕ)
    → Holds id Resolved db.orders
    → Holds id Resolved (scan_logs ls db).1.orders
scan_logs-Resolved ls db id h =
    scan_logs-keeps (λ d. Holds id Resolved d.orders) (handle_event-Resolved id) ls db h
