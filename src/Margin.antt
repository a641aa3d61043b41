-- ===== src/Margin.antt =====
-- The margin of a position as both liquidation scanners compute it: `_calculateMarginBps` of
-- .keeper/src/liquidation-scanner.js and, with the pending funding, of
-- .perps-engine/src/scanners/liquidation-scanner.js.
pub mod Laws
use sidiora_perpetual_protoc.Base.{
  ℕ, ◌+◌, ◌*◌, ◌/◌, ◌%◌, ◌^◌, Bool, true, false, Option, none, some, ◌||◌, leb, ◌==◌, if◌then◌else◌,
}
use sidiora_perpetual_protoc.Base.Int.{
  ℤ, pos, pos_part, neg_part, sub_ℕ, ◌+ℤ◌, ◌-ℤ◌, mul_ℕ, quot_ℕ, as_int256, two_256,
}
use sidiora_perpetual_protoc.Protocol.{Position, FundingState}

-- The `if (pos.isLong)` of both.
unfoldable pub calculate_pnl : Position → ℕ → ℤ
calculate_pnl p price =
    if p.is_long
    then quot_ℕ (mul_ℕ (sub_ℕ price p.entry_price) p.size_usd) p.entry_price
    else quot_ℕ (mul_ℕ (sub_ℕ p.entry_price price) p.size_usd) p.entry_price

-- From the equity on: `if (equity <= 0n) return 0n` and the ratio.
unfoldable pub margin_of_equity : ℤ → ℕ → ℕ
margin_of_equity equity size =
    if leb (pos_part equity) 0 then 0 else pos_part equity % two_256 * 10000 / size

-- `collateralUsd + pnl`
unfoldable pub equity : Position → ℕ → ℤ
unfolding calculate_pnl
equity p price = as_int256 p.collateral_usd +ℤ calculate_pnl p price

-- The keeper's `_calculateMarginBps`.
unfoldable pub calculate_margin_bps : Position → ℕ → ℕ
unfolding equity margin_of_equity
calculate_margin_bps p price =
    if (p.size_usd == 0) || (p.entry_price == 0)
    then 0
    else margin_of_equity (equity p price) p.size_usd

-- The engine's pending funding: zero without a funding state or without the position's index.
unfoldable pub pending_funding : Position → Option FundingState → ℤ
pending_funding p none = pos 0
pending_funding p (some f) = elim p.last_funding_index [
  | none ↦ pos 0
  | some last ↦
      let cumulative : ℤ = if p.is_long then f.cumulative_long else f.cumulative_short in
      quot_ℕ (mul_ℕ (cumulative -ℤ last) p.size_usd) (10 ^ 18)
]

-- The engine's `_calculateMarginBps`.
unfoldable pub calculate_funded_margin_bps : Position → ℕ → Option FundingState → ℕ
unfolding equity margin_of_equity pending_funding
calculate_funded_margin_bps p price f =
    if (p.size_usd == 0) || (p.entry_price == 0)
    then 0
    else margin_of_equity (equity p price -ℤ pending_funding p f) p.size_usd
