-- ===== src/Tests/Upkeep.antt =====
-- Two ticks of the keeper's refresh: the indexer fails in the first, and answers in the second.
use sidiora_perpetual_protoc.Base.{ℕ, ◌≡◌, refl, Option, none, List}
use sidiora_perpetual_protoc.Keeper.Upkeep.{Intervals, Round, refresh_tick}
use sidiora_perpetual_protoc.Tests.Data.{markets}
use sidiora_perpetual_protoc.Tests.Refresh.{answers}
use sidiora_perpetual_protoc.Tests.Cycle.{modules, node}

abbrev round : ℕ → Option (List ℕ) → Round
round now indexed = record {
  markets = answers now indexed;
  prices = answers now indexed;
  orders = answers now indexed;
  positions = answers now indexed;
  health = answers now indexed;
}

abbrev intervals : Intervals
intervals = record { order_refresh = 30000; position_refresh = 30000 }

last_refresh :
    (refresh_tick intervals markets modules (round 60000 none) node).cache.last_order_refresh
    ≡ 60000
unfolding refresh_tick
last_refresh = refl
