-- ===== src/Keeper/Orders.antt =====
-- `OrderScanner` of .keeper/src/order-scanner.js: it finds the triggered limit and stop-limit
-- orders and submits them, one after the other.
pub mod Scan
use sidiora_perpetual_protoc.Base.{
  ℕ, ◌+◌, Bool, true, false, Option, none, some, List, [], ◌∷◌, ◌++◌, ◌&&◌, leb, ◌==◌,
  if◌then◌else◌, filter, includes,
}
use sidiora_perpetual_protoc.Protocol.{
  Order, TxResult, success, reverted, failed, limit_type, stop_limit_type,
}
use sidiora_perpetual_protoc.Keeper.Cache.{in_updated, StateCache, get_price, remove_order}

-- `_isTriggered`
unfoldable pub is_triggered : Order → ℕ → Bool
is_triggered o price =
    if o.order_type == limit_type
    then (if o.is_long then leb price o.trigger_price else leb o.trigger_price price)
    else (if o.order_type == stop_limit_type
        then (if o.is_long
            then leb o.trigger_price price && leb price o.limit_price
            else leb price o.trigger_price && leb o.limit_price price)
        else false)

pub record Stats : Type 0 where
  pub scans_performed : ℕ
  pub orders_triggered : ℕ
  pub orders_executed : ℕ
  pub orders_failed : ℕ

-- The test of the first loop of `scan`. A missing price and a price of zero are skipped.
unfoldable pub selects : StateCache → Option (List ℕ) → ℕ × Order → Bool
unfolding get_price
selects c updated (id, o) =
    if in_updated updated o.market_id
    then (elim (get_price o.market_id c) [
      | none ↦ false
      | some price ↦ if price == 0 then false else is_triggered o price
    ])
    else false

-- The scanner with its cache, the executor's state, and what it logs of each order.
pub record State (E : Type 0) : Type 0 where
  pub cache : StateCache
  pub stats : Stats
  pub executor : E
  pub log : List (ℕ × TxResult)

-- Whether an order leaves the cache after this result.
abbrev pub settles : TxResult → Bool
settles (success hash) = true
settles (reverted reason) = true
settles (failed reason) = false

-- The counters after a result.
unfoldable pub count : TxResult → Stats → Stats
count (success hash) s = record s { orders_executed = s.orders_executed + 1 }
count (reverted reason) s = record s { orders_failed = s.orders_failed + 1 }
count (failed reason) s = record s { orders_failed = s.orders_failed + 1 }

-- `this.stats.scansPerformed++`
abbrev pub begin_scan : {E : Type 0} → State E → State E
begin_scan s = record s { stats = record s.stats { scans_performed = s.stats.scans_performed + 1 } }

module _ {E : Type 0} (execute_order : ℕ → E → TxResult × E) where
  -- `_executeTriggeredOrder`
  unfoldable pub execute_triggered_order : ℕ × Order → State E → State E
  unfolding count remove_order
  execute_triggered_order (id, o) s =
      let (result, executor') = execute_order id s.executor in
      record {
        cache = if settles result then remove_order id s.cache else s.cache;
        stats = count result (record s.stats { orders_triggered = s.stats.orders_triggered + 1 });
        executor = executor';
        log = s.log ++ (id, result) ∷ [];
      }

  -- The second loop of `scan`.
  unfoldable pub execute_all : List (ℕ × Order) → State E → State E
  unfolding execute_triggered_order
  execute_all [] s = s
  execute_all (o ∷ os) s = execute_all os (execute_triggered_order o s)

  -- `scan`
  unfoldable pub scan : Option (List ℕ) → State E → State E
  unfolding execute_all selects
  scan updated s =
      execute_all (filter (selects s.cache updated) s.cache.active_orders) (begin_scan s)
