-- ===== src/Tests/Cycle.antt =====
-- One cycle of .keeper/index.js at small inputs.
use sidiora_perpetual_protoc.Base.{ℕ, ◌*◌, true, false, none, some, List, [], ◌∷◌}
use sidiora_perpetual_protoc.Base.Outcome.{JsError, throw}
use sidiora_perpetual_protoc.Keeper.Cycle.{Modules, Node, Calls, Scanners, PriceEvent, own_scanners}
use sidiora_perpetual_protoc.Tests.Data.{wad, cache, markets}
use sidiora_perpetual_protoc.Tests.Keeper.{call, check_on_chain, get_pool}

abbrev broken : JsError
broken = record { reason = none; short_message = none; decoded = none; message = some [] }

abbrev calls : Calls ℕ
calls = record {
  execute_order = call;
  liquidate = call;
  sync_vamm = call;
  check_liquidatable = check_on_chain;
  get_pool = get_pool;
}

abbrev pub modules : Modules
modules = record { orders = true; liquidations = true; vamm_sync = true }

abbrev pub node : Node ℕ
node = record {
  cache = cache;
  executor = 0;
  vamm = record {
    initialized_pools = [];
    checked_pools = [];
    stats = record {
      sync_cycles = 0;
      syncs_succeeded = 0;
      syncs_failed = 0;
      skipped_uninitialized = 0;
    };
    executor = 0;
    asked = [];
    synced = [];
  };
  order_stats = record {
    scans_performed = 0;
    orders_triggered = 0;
    orders_executed = 0;
    orders_failed = 0;
  };
  liquidation_stats = record {
    scans_performed = 0;
    positions_checked = 0;
    liquidations_triggered = 0;
    liquidations_executed = 0;
    liquidations_failed = 0;
  };
  cycle_count = 3;
  cycle_busy = false;
}

-- The vAMM sync throws; the other two modules are the keeper's own.
abbrev failing : Scanners ℕ
failing = record (own_scanners calls markets modules) { sync_all = λ ids n. (throw broken, n) }

abbrev events : List PriceEvent
events =
    record { now = 5000; market_ids = 1 ∷ []; prices = 93 * wad ∷ [] }
    ∷ record { now = 8000; market_ids = 1 ∷ []; prices = 92 * wad ∷ [] }
    ∷ []
