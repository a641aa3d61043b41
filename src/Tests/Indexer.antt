-- ===== src/Tests/Indexer.antt =====
-- The indexer on a few logs: a position that is opened, modified and closed in part, and orders.
use sidiora_perpetual_protoc.Base.{
  ◌+◌, ◌-◌, ◌*◌, ◌≤◌, ◌≡◌, refl, true, false, none, some, List, [], ◌∷◌, min, filter, length, All,
  leb, arith,
}
use sidiora_perpetual_protoc.Base.Dict.{lookup, Holds}
use sidiora_perpetual_protoc.Base.Int.{pos}
use sidiora_perpetual_protoc.Base.Text.{codes}
use sidiora_perpetual_protoc.Margin.{calculate_margin_bps}
use sidiora_perpetual_protoc.Indexer.Rows.{Db, PositionRow, OrderStatus}
use sidiora_perpetual_protoc.Indexer.Models.{Context}
use sidiora_perpetual_protoc.Indexer.Handlers.{Event, opened_row, placed_row}
use sidiora_perpetual_protoc.Indexer.Dispatch.{handle_event}
use sidiora_perpetual_protoc.Indexer.Scanner.{Log, Parsed, scan_logs}
use sidiora_perpetual_protoc.Indexer.Scanner.Histories.{terms, OnTerms, scan_logs_keeps_terms}
use sidiora_perpetual_protoc.Indexer.Scanner.Trades.{Unmodified, scan_logs_store_no_modify}
use sidiora_perpetual_protoc.Indexer.Sync.{State, catch_up}
use sidiora_perpetual_protoc.Indexer.Sync.Laws.{
  Answer, Synced, Reliable, catch_up_scans_once, catch_up_reaches_head,
}
use sidiora_perpetual_protoc.Indexer.Resolvers.{
  open_positions, paginate, position_matches, positions,
}
use sidiora_perpetual_protoc.Indexer.Resolvers.Pages.{Matching, Descending, positions_page}
use sidiora_perpetual_protoc.Indexer.Queries.Stats.{indexer_status}
use sidiora_perpetual_protoc.Indexer.Queries.Progress.{caught_up_is_synced}
use sidiora_perpetual_protoc.Flow.{kept, opened_position_has_no_margin}
use sidiora_perpetual_protoc.Tests.Data.{wad}

abbrev ctx : Context
ctx = record { block_number = 20; tx_hash = 900; log_index = 1; timestamp = 1700000000 }

abbrev stored : PositionRow
stored = opened_row 17 1 true (1000 * wad) 10 (100 * wad) 5 100 ctx

abbrev pub db : Db
db = record {
  last_indexed_block = some 10;
  positions = (7, stored) ∷ (9, opened_row 18 2 false 50 10 60 5 7 ctx) ∷ [];
  trades = [];
  orders = (4, record (placed_row 17 1 0 true 90 50 ctx) { status = OrderStatus.executed }) ∷ [];
  liquidations = [];
  price_updates = [];
  latest_prices = [];
  funding_rates = [];
  markets = [];
  user_vaults = [];
  vault_events = [];
  collateral_tokens = [];
  pool_states = [];
  fee_config = none;
  protocol_events = [];
  keeper_cycles = [];
  account_ledger = [];
  delegates = [];
  trading_account_events = [];
}

abbrev log : Event → Log
log e = record { parsed = Parsed.decoded e; context = ctx }

abbrev logs : List Log
logs =
    log (Event.position_opened 8 17 1 true 1000 10 100 5 50)
    ∷ log (Event.position_modified 7 500 40 40)
    ∷ record { parsed = Parsed.undecodable; context = ctx }
    ∷ log (Event.position_closed 7 17 1 300 110 (pos 30) false)
    ∷ log (Event.order_execution_failed 4 (codes "stale"))
    ∷ log (Event.prices_updated ((1, 94) ∷ []) 1700000000)
    ∷ log (Event.liquidation 9 18 2 70 3 99)
    ∷ []

scan_logs_keeps_terms_example : Holds 7 (OnTerms (terms stored)) (scan_logs logs db).1.positions
scan_logs_keeps_terms_example = scan_logs_keeps_terms logs db 7 (terms stored) (stored, refl, refl)

scan_logs_store_no_modify_example : All Unmodified (scan_logs logs db).1.trades
scan_logs_store_no_modify_example = scan_logs_store_no_modify logs db tt

abbrev state : State
state = record {
  scanner = record { stats = record { blocks_scanned = 0; events_processed = 0 }; db = db };
  scanned = [];
}

-- A node that fails, and one that has two logs in each range.
abbrev down : Answer
down from to = none

abbrev up : Answer
up from to = some logs

synced : Synced 11 11 state
synced = (λ b. ground arith, refl)

catch_up_scans_once_example :
    let (next, t) = catch_up 3 15 (up ∷ down ∷ up ∷ []) 11 state in Synced 11 next t
catch_up_scans_once_example =
    catch_up_scans_once 3 15 11 (up ∷ down ∷ up ∷ []) state (omega arith) synced

catch_up_reaches_head_example : (catch_up 3 12 (down ∷ up ∷ up ∷ []) 11 state).0 ≡ 12 + 1
catch_up_reaches_head_example =
    catch_up_reaches_head 3 12 11 (down ∷ up ∷ up ∷ []) state (omega arith) (omega arith) (
      Reliable.unsure
        (Reliable.serves (λ from to. refl) (Reliable.serves (λ from to. refl) Reliable.enough)))

caught_up_is_synced_example :
    let t = (catch_up 3 12 (down ∷ up ∷ up ∷ []) 11 state).1.scanner in
    (indexer_status (some 17) t.stats t.db).is_synced ≡ some (leb 17 (12 + 5))
caught_up_is_synced_example =
    caught_up_is_synced 3 12 11 17 (down ∷ up ∷ up ∷ []) state (omega arith) (omega arith)
      (omega arith) synced
      (Reliable.unsure
        (Reliable.serves (λ from to. refl) (Reliable.serves (λ from to. refl) Reliable.enough)))

positions_page_example :
    let page = positions open_positions db in
    let (limit, offset) = paginate (some 5000) none in
    All (Matching open_positions) page
    × Descending page
    × (length page
        ≡ min limit (length (filter (position_matches open_positions) db.positions) - offset))
    × (limit ≤ 500)
positions_page_example = positions_page open_positions db

opened_position_has_no_margin_example :
    let after = handle_event (Event.position_opened 8 17 1 true 1000 10 100 5 50) ctx db in
    (p : PositionRow) × (lookup 8 after.1.positions ≡ some p)
    × (calculate_margin_bps (kept 8 p) 99 ≡ 0)
opened_position_has_no_margin_example =
    opened_position_has_no_margin db ctx 8 17 1 true 1000 10 100 5 50 99 refl (omega arith)
      (omega arith) (omega arith)
