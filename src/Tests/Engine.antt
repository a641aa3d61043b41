-- ===== src/Tests/Engine.antt =====
-- The engine's scanners at small inputs.
use sidiora_perpetual_protoc.Base.{
  ℕ, Bool, ◌==◌, ◌+◌, ◌*◌, ◌≡◌, refl, some, List, [], ◌∷◌, map, filter, length, arith,
}
use sidiora_perpetual_protoc.Base.Dict.{Dict}
use sidiora_perpetual_protoc.Base.Int.{
  pos, negsuc, pos_part, ◌+ℤ◌, mul_ℕ, quot_ℕ, as_int256, neg_ℕ, ◌-ℤ◌, neg_ℤ,
}
use sidiora_perpetual_protoc.Protocol.{Position, FundingState, Order}
use sidiora_perpetual_protoc.Chain.{check_trigger}
use sidiora_perpetual_protoc.Margin.{calculate_pnl, pending_funding, equity}
use sidiora_perpetual_protoc.Engine.Cache.{Cache}
use sidiora_perpetual_protoc.Engine.Orders
use sidiora_perpetual_protoc.Engine.Orders.{
  at_price, scan_eq-check_trigger, unlimited_order_refused,
}
use sidiora_perpetual_protoc.Engine.Prices.{Market, Feed}
use sidiora_perpetual_protoc.Engine.Cycle.{Call, State}
use sidiora_perpetual_protoc.Tests.Data.{wad, position_at, order_at, config}

abbrev prices : Dict ℕ
prices = (1, 94 * wad) ∷ []

abbrev orders : Dict Order
orders =
    (4, order_at 0 (95 * wad) 0)
    ∷ (5, order_at 1 (93 * wad) (96 * wad))
    ∷ (6, order_at 3 (90 * wad) 0)
    ∷ []

scan_eq-check_trigger_example :
    ((Orders.scan prices orders (record { scans_performed = 0; orders_triggered = 2 })).0
      ≡ map (λ o. o.0) (filter (at_price check_trigger prices) orders))
    × ((Orders.scan prices orders
          (record { scans_performed = 0; orders_triggered = 2 })).1.orders_triggered
        ≡ 2 + length (map (λ o. o.0) (filter (at_price check_trigger prices) orders)))
scan_eq-check_trigger_example =
    scan_eq-check_trigger prices orders (record { scans_performed = 0; orders_triggered = 2 })
      ((λ h. omega (arith, h)), ((λ h. omega arith), ((λ h. omega (arith, h)), tt)))

-- The position paid for funding up to 1 % and the market is at 3 %.
abbrev indebted : Position
indebted = record (position_at (100 * wad)) { last_funding_index = some (pos 10000000000000000) }

abbrev funding : FundingState
funding = record { cumulative_long = pos 30000000000000000; cumulative_short = pos 0 }

abbrev cache : Cache
cache = record {
  active_orders = orders;
  active_positions =
      (7, indebted) ∷ (8, position_at (94 * wad)) ∷ (9, position_at (103 * wad)) ∷ [];
  market_configs = (1, config) ∷ [];
  funding_states = (1, funding) ∷ [];
}

owed : pending_funding indebted (some funding) ≡ pos (20 * wad)
unfolding pending_funding mul_ℕ quot_ℕ ◌-ℤ◌ ◌+ℤ◌ neg_ℤ neg_ℕ
owed = refl

equity_at : pos_part (equity indebted (94 * wad)) ≡ 40 * wad
unfolding equity calculate_pnl ◌+ℤ◌ mul_ℕ quot_ℕ as_int256 neg_ℕ
equity_at = refl

abbrev feeds : List Market
feeds =
    record { market_id = 1; symbol = 66; pyth_id = 500 }
    ∷ record { market_id = 2; symbol = 69; pyth_id = 501 }
    ∷ []

abbrev feed : Feed
feed = record {
  id = 501;
  price = some (record { price = pos 5000000; conf = pos 3; expo = negsuc 1; publish_time = 9 });
}

-- A submission that succeeds at first only.
abbrev submit : Call → ℕ → Bool × ℕ
submit c n = (n == 0, n + 1)

abbrev engine : State ℕ
engine = record {
  cache = cache;
  prices = [];
  submitted_prices = [];
  order_stats = record { scans_performed = 0; orders_triggered = 0 };
  liquidation_stats = record {
    scans_performed = 0;
    positions_checked = 0;
    liquidations_triggered = 0;
  };
  submitter = 0;
  calls = [];
}
