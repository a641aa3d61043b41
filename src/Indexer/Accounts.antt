-- ===== src/Indexer/Accounts.antt =====
-- The second migration's tables of .indexer/src/db/models.js, and their handlers of
-- .indexer/src/scanner.js: keeper cycles, ledger entries, delegates and trading account events.
use sidiora_perpetual_protoc.Base.{
  ℕ, Bool, true, false, Option, none, some, List, [], ◌∷◌, ◌++◌, ◌&&◌, ◌==◌, if◌then◌else◌,
}
use sidiora_perpetual_protoc.Base.Int.{pos}
use sidiora_perpetual_protoc.Indexer.Rows.{
  KeeperCycleRow, LedgerRow, DelegateRow, AccountEventRow, AccountEventType, Value,
}
use sidiora_perpetual_protoc.Indexer.Models.{Statement, ◌>>◌, write, Context, update_margin_mode}

abbrev pub insert_keeper_cycle : KeeperCycleRow → Statement
insert_keeper_cycle c = write λ db. record db { keeper_cycles = db.keeper_cycles ++ c ∷ [] }

abbrev pub insert_ledger_entry : LedgerRow → Statement
insert_ledger_entry e = write λ db. record db { account_ledger = db.account_ledger ++ e ∷ [] }

-- `ON CONFLICT (user_address, delegate_address) DO UPDATE` of all other columns.
abbrev pub put_delegate : DelegateRow → List DelegateRow → List DelegateRow
put_delegate d [] = d ∷ []
put_delegate d (e ∷ es) =
    if (e.user == d.user) && (e.delegate == d.delegate) then d ∷ es else e ∷ put_delegate d es

abbrev pub upsert_delegate : DelegateRow → Statement
upsert_delegate d = write λ db. record db { delegates = put_delegate d db.delegates }

abbrev pub deactivate : ℕ → ℕ → Context → List DelegateRow → List DelegateRow
deactivate user delegate ctx [] = []
deactivate user delegate ctx (e ∷ es) =
    if (e.user == user) && (e.delegate == delegate)
    then record e {
      is_active = false;
      block_number = ctx.block_number;
      tx_hash = ctx.tx_hash;
      timestamp = ctx.timestamp;
    }
      ∷ es
    else e ∷ deactivate user delegate ctx es

abbrev pub remove_delegate : ℕ → ℕ → Context → Statement
remove_delegate user delegate ctx =
    write λ db. record db { delegates = deactivate user delegate ctx db.delegates }

abbrev pub insert_trading_account_event : AccountEventRow → Statement
insert_trading_account_event e =
    write λ db. record db { trading_account_events = db.trading_account_events ++ e ∷ [] }

abbrev pub handle_keeper_cycle_executed : ℕ → ℕ → ℕ → ℕ → ℕ → ℕ → Context → Statement
handle_keeper_cycle_executed stamp markets orders liquidations orders_failed liquidations_failed
      ctx =
    insert_keeper_cycle (record {
      onchain_timestamp = stamp;
      markets_updated = markets;
      orders_executed = orders;
      liquidations_executed = liquidations;
      orders_failed = orders_failed;
      liquidations_failed = liquidations_failed;
      block_number = ctx.block_number;
      tx_hash = ctx.tx_hash;
      timestamp = ctx.timestamp;
    })

-- A trading account event; `extra` is its JSON object's values in order.
abbrev pub account_event :
    AccountEventType → ℕ → ℕ → Option ℕ → ℕ → List Value → Context → AccountEventRow
account_event event_type user position_id token amount extra ctx = record {
  event_type = event_type;
  user = user;
  position_id = position_id;
  token = token;
  amount = amount;
  extra_data = extra;
  block_number = ctx.block_number;
  tx_hash = ctx.tx_hash;
  timestamp = ctx.timestamp;
}

abbrev pub handle_margin_event : AccountEventType → ℕ → ℕ → ℕ → ℕ → Context → Statement
handle_margin_event event_type user position_id token amount ctx =
    insert_trading_account_event
      (account_event event_type user position_id (some token) amount [] ctx)

abbrev pub handle_ledger_entry : ℕ → ℕ → ℕ → ℕ → ℕ → ℕ → Bool → Context → Statement
handle_ledger_entry entry_id user entry_type token amount position_id is_debit ctx =
    insert_ledger_entry (record {
      entry_id = entry_id;
      user = user;
      entry_type = entry_type;
      token = token;
      amount = amount;
      position_id = position_id;
      is_debit = is_debit;
      block_number = ctx.block_number;
      tx_hash = ctx.tx_hash;
      timestamp = ctx.timestamp;
    })

abbrev pub handle_delegate_added : ℕ → ℕ → Bool → Bool → Bool → ℕ → Context → Statement
handle_delegate_added user delegate can_trade can_withdraw can_modify_margin expiry ctx =
    upsert_delegate (record {
      user = user;
      delegate = delegate;
      can_trade = can_trade;
      can_withdraw = can_withdraw;
      can_modify_margin = can_modify_margin;
      expiry = expiry;
      is_active = true;
      block_number = ctx.block_number;
      tx_hash = ctx.tx_hash;
      timestamp = ctx.timestamp;
    })

-- `e.positionId || 0`, `e.token || null`, `e.amount || 0`
abbrev pub handle_margin_mode_changed : ℕ → ℕ → Context → Statement
handle_margin_mode_changed user mode ctx =
    update_margin_mode user mode
    >> insert_trading_account_event (
        account_event AccountEventType.margin_mode_changed user 0 none 0
          (Value.number (pos mode) ∷ []) ctx)

abbrev pub handle_margin_transferred : ℕ → ℕ → ℕ → ℕ → ℕ → Context → Statement
handle_margin_transferred user from to token amount ctx = insert_trading_account_event (
    account_event AccountEventType.margin_transferred user from (some token) amount
      (Value.number (pos from) ∷ Value.number (pos to) ∷ []) ctx)
