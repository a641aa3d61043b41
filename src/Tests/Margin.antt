-- ===== src/Tests/Margin.antt =====
-- The margins at concrete prices.
use sidiora_perpetual_protoc.Base.{◌*◌, ◌≤◌, ◌<◌, ◌≡◌, refl, ℕ, false, none, some, arith}
use sidiora_perpetual_protoc.Base.Int.{pos_part, two_256, ◌+ℤ◌, mul_ℕ, quot_ℕ, as_int256, neg_ℕ}
use sidiora_perpetual_protoc.Chain.{execute_order_accepts}
use sidiora_perpetual_protoc.Chain.Margin.{calculate_margin_ratio}
use sidiora_perpetual_protoc.Chain.Margin.Computed.{Moderate}
use sidiora_perpetual_protoc.Chain.Margin.Laws.{margin-le-calculate_margin_ratio}
use sidiora_perpetual_protoc.Margin.{calculate_margin_bps, calculate_pnl, equity}
use sidiora_perpetual_protoc.Keeper.Cache.{get_price}
use sidiora_perpetual_protoc.Keeper.Orders.{selects}
use sidiora_perpetual_protoc.Keeper.Orders.Scan.{selects-eq-execute_order_accepts}
use sidiora_perpetual_protoc.Tests.Data.{wad, cache, position_at, order_at}

equity_at : pos_part (equity (position_at (100 * wad)) (94 * wad)) ≡ 40 * wad
unfolding equity calculate_pnl ◌+ℤ◌ mul_ℕ quot_ℕ as_int256 neg_ℕ
equity_at = refl

small : pos_part (equity (position_at (100 * wad)) (94 * wad)) < two_256
small = omega (arith, equity_at)

moderate : Moderate (position_at (100 * wad)) (94 * wad)
moderate = record {
  price_small = omega arith;
  entry_small = omega arith;
  size_small = omega arith;
  collateral_small = omega arith;
}

margin-le-calculate_margin_ratio_example :
    (m : ℕ) × (calculate_margin_ratio (position_at (100 * wad)) (94 * wad) ≡ some m)
    × (calculate_margin_bps (position_at (100 * wad)) (94 * wad) ≤ m)
margin-le-calculate_margin_ratio_example =
    margin-le-calculate_margin_ratio (position_at (100 * wad)) (94 * wad) (omega arith)
      (omega arith) (omega arith) moderate

selects-eq-execute_order_accepts_example :
    selects cache none (6, order_at 1 (93 * wad) (96 * wad)) ≡ (elim (get_price 1 cache) [
      | none ↦ false
      | some price ↦ execute_order_accepts (order_at 1 (93 * wad) (96 * wad)) price
    ])
selects-eq-execute_order_accepts_example =
    selects-eq-execute_order_accepts cache none 6 (order_at 1 (93 * wad) (96 * wad)) (omega arith)
      refl
