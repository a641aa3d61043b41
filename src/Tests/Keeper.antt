-- ===== src/Tests/Keeper.antt =====
-- The keeper's scanners, syncer, listener and refreshes at small inputs.
use sidiora_perpetual_protoc.Base.{
  ℕ, suc, ◌+◌, ◌≤◌, ◌<◌, ◌≡◌, refl, Bool, true, Option, none, some, List, [], ◌∷◌, map, filter,
  Perm, ◌==◌, if◌then◌else◌, arith,
}
use sidiora_perpetual_protoc.Base.Dict.{lookup}
use sidiora_perpetual_protoc.Base.Sort.{Sorted}
use sidiora_perpetual_protoc.Base.Journal.{gone}
use sidiora_perpetual_protoc.Base.Ranges.{covering}
use sidiora_perpetual_protoc.Protocol.{TxResult, success, failed, PoolState}
use sidiora_perpetual_protoc.Keeper.Orders
use sidiora_perpetual_protoc.Keeper.Orders.Scan.{scan_submits}
use sidiora_perpetual_protoc.Keeper.Liquidations
use sidiora_perpetual_protoc.Keeper.Liquidations.Scan.{
  candidates, checks, scan_order, scan_removes_positions, collect_lem,
}
use sidiora_perpetual_protoc.Keeper.Vamm
use sidiora_perpetual_protoc.Keeper.Vamm.Pools.{IsValid}
use sidiora_perpetual_protoc.Keeper.Events
use sidiora_perpetual_protoc.Keeper.Events.Ranges.{polls_cover}
use sidiora_perpetual_protoc.Keeper.Refresh.{Answers}
use sidiora_perpetual_protoc.Keeper.Refresh.Laws.{OrderEvents}
use sidiora_perpetual_protoc.Tests.Data.{cache, order_at}

-- An executor that counts its calls and fails every second one.
abbrev pub call : ℕ → ℕ → TxResult × ℕ
call id e = (if e == 0 then success (100 + id) else failed [], suc e)

abbrev orders : Orders.State ℕ
orders = record {
  cache = cache;
  stats = record {
    scans_performed = 3;
    orders_triggered = 2;
    orders_executed = 1;
    orders_failed = 1;
  };
  executor = 0;
  log = [];
}

scan_submits_example :
    map (λ e. e.0) (Orders.scan call none orders).log
    ≡ map (λ o. o.0) (filter (Orders.selects cache none) cache.active_orders)
scan_submits_example = scan_submits call none orders refl

-- The on-chain check throws at first.
abbrev pub check_on_chain : ℕ → ℕ → Option Bool × ℕ
check_on_chain id e = (if e == 0 then none else some true, e)

abbrev liquidations : Liquidations.State ℕ
liquidations = record {
  cache = cache;
  stats = record {
    scans_performed = 0;
    positions_checked = 0;
    liquidations_triggered = 0;
    liquidations_executed = 0;
    liquidations_failed = 0;
  };
  executor = 0;
  log = [];
}

scan_order_example :
    Sorted
      (λ k. k.margin_bps)
      (map (λ e. e.0) (Liquidations.scan check_on_chain call none liquidations).log)
    × Perm
        (map (λ e. e.0) (Liquidations.scan check_on_chain call none liquidations).log)
        (candidates none liquidations)
scan_order_example = scan_order check_on_chain call none liquidations refl

scan_removes_positions_example :
    lookup 9 (Liquidations.scan check_on_chain call none liquidations).cache.active_positions ≡ (
      if gone 9
        (Liquidations.Scan.journal (Liquidations.scan check_on_chain call none liquidations).log)
      then none
      else lookup 9 cache.active_positions)
scan_removes_positions_example =
    scan_removes_positions check_on_chain call none liquidations 9 (refl, (refl, (refl, tt))) refl

abbrev syncer : Vamm.State ℕ
syncer = record {
  initialized_pools = 2 ∷ [];
  checked_pools = [];
  stats = record {
    sync_cycles = 0;
    syncs_succeeded = 0;
    syncs_failed = 0;
    skipped_uninitialized = 0;
  };
  executor = 0;
  asked = [];
  synced = 2 ∷ [];
}

abbrev pub get_pool : ℕ → ℕ → Option PoolState × ℕ
get_pool id e = (some (record { base_reserve = id; quote_reserve = 5 }), e)

syncer-IsValid : IsValid 1 syncer
syncer-IsValid = record { once = omega arith; known = λ h. ground arith }

-- Two polls overlap; the one of the higher block ends first, and the other one's query throws.
abbrev polled : List Events.Event
polled =
    Events.height_read 12
    ∷ Events.height_read 14
    ∷ Events.query_answered 1 (some [])
    ∷ Events.query_answered 0 none
    ∷ Events.height_read 15
    ∷ Events.query_answered 2 (some (record { market_ids = 1 ∷ []; prices = 5 ∷ [] } ∷ []))
    ∷ Events.callbacks_returned 2
    ∷ []

polls_cover_example :
    let s = Events.run polled (Events.listening 10) in
    (10 < 14 → 14 ≤ s.last_processed_block → 1 ≤ covering 14 s.queried)
    × (14 ≤ 10 → covering 14 s.queried ≡ 0)
polls_cover_example = polls_cover 10 14 polled

abbrev answers : Option (List ℕ) → Answers
answers indexed = record {
  now = 60000;
  indexed_orders = indexed;
  indexed_positions = none;
  block_number = some 70000;
  orders_placed = λ from to. some (1 ∷ 2 ∷ 1 ∷ 3 ∷ []);
  orders_cancelled = λ from to. some (2 ∷ []);
  orders_executed = λ from to. some [];
  positions_opened = λ from to. none;
  get_order = λ id. if id == 3 then none else some (order_at 0 (id + 10) 0);
  get_position = λ id. none;
  get_price = λ id. none;
  get_market = λ id. none;
  indexer_status = true;
}

events : OrderEvents (answers none) (1 ∷ 2 ∷ 1 ∷ 3 ∷ []) (2 ∷ []) []
events = record {
  current = 70000;
  block = refl;
  all_placed = refl;
  all_cancelled = refl;
  all_executed = refl;
}
