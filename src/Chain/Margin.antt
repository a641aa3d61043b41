-- ===== src/Chain/Margin.antt =====
-- `LibPosition.calculatePnl` and `calculateMarginRatio` of the contracts, by which
-- KeeperMulticallFacet decides a liquidation, with their casts and their checked arithmetic.
pub mod Rounding
pub mod Computed
pub mod Laws
use sidiora_perpetual_protoc.Base.{
  ℕ, suc, Option, none, some, false, ltb, leb, ◌+◌, ◌-◌, ◌*◌, ◌/◌, ◌^◌, ◌||◌, ◌==◌, if◌then◌else◌,
}
use sidiora_perpetual_protoc.Base.Int.{
  ℤ, pos, negsuc, pos_part, neg_part, sub_ℕ, ◌+ℤ◌, ◌-ℤ◌, neg_ℤ, mul_ℕ, quot_ℕ, as_int256, two_256,
  two_255,
}
use sidiora_perpetual_protoc.Protocol.{Position}

-- Signed checked arithmetic: a result outside of int256 reverts.
abbrev pub checked : ℤ → Option ℤ
checked z = if (elim z [ pos n ↦ ltb n two_255 | negsuc n ↦ ltb n two_255 ]) then some z else none

abbrev pub and_then : {A B : Type 0} → Option A → (A → Option B) → Option B
and_then o f = elim o [ none ↦ none | some x ↦ f x ]

-- The product of integers, and the quotient, which rounds towards zero.
unfoldable pub mul_ℤ : ℤ → ℤ → ℤ
mul_ℤ a b =
    sub_ℕ (pos_part a * pos_part b + neg_part a * neg_part b)
      (pos_part a * neg_part b + neg_part a * pos_part b)

unfoldable pub quot_ℤ : ℤ → ℤ → ℤ
quot_ℤ a (pos k) = quot_ℕ a k
quot_ℤ a (negsuc k) = neg_ℤ (quot_ℕ a (suc k))

-- `LibMath.mulFpSigned`
unfoldable pub mul_fp_signed : ℤ → ℤ → Option ℤ
unfolding mul_ℤ
mul_fp_signed a b = and_then (checked (mul_ℤ a b)) (λ x. some (quot_ℕ x (10 ^ 18)))

-- `LibMath.divFpSigned`
unfoldable pub div_fp_signed : ℤ → ℤ → Option ℤ
unfolding quot_ℤ
div_fp_signed a b =
    if (elim b [ pos k ↦ k == 0 | negsuc k ↦ false ])
    then none
    else and_then (checked (mul_ℕ a (10 ^ 18))) (λ x. checked (quot_ℤ x b))

-- The product of the size and the quotient of the price difference and the entry price.
unfoldable pub signed_pnl : ℤ → ℤ → Option ℤ → Option ℤ
unfolding div_fp_signed mul_fp_signed
signed_pnl size entry delta =
    and_then delta (λ d. and_then (div_fp_signed d entry) (λ q. mul_fp_signed size q))

-- `LibPosition.calculatePnl`, with its wrapping casts; `none` is a revert.
unfoldable pub chain_pnl : Position → ℕ → Option ℤ
unfolding signed_pnl
chain_pnl p price =
    if (p.size_usd == 0) || (p.entry_price == 0)
    then some (pos 0)
    else signed_pnl (as_int256 p.size_usd) (as_int256 p.entry_price) (
        checked (
          if p.is_long
          then as_int256 price -ℤ as_int256 p.entry_price
          else as_int256 p.entry_price -ℤ as_int256 price))

-- The ratio for an equity.
unfoldable pub ratio_of_equity : ℤ → ℕ → Option ℕ
ratio_of_equity equity size =
    if leb (pos_part equity) 0
    then some 0
    else if ltb (pos_part equity * 10000) two_256
    then some (pos_part equity * 10000 / size)
    else none

unfoldable pub ratio_of : ℤ → ℕ → Option ℤ → Option ℕ
unfolding ratio_of_equity
ratio_of collateral size pnl =
    and_then pnl (λ x. and_then (checked (collateral +ℤ x)) (λ equity. ratio_of_equity equity size))

-- `LibPosition.calculateMarginRatio`; `none` is a revert.
unfoldable pub calculate_margin_ratio : Position → ℕ → Option ℕ
unfolding chain_pnl ratio_of
calculate_margin_ratio p price =
    if p.size_usd == 0
    then some (two_256 - 1)
    else ratio_of (as_int256 p.collateral_usd) p.size_usd (chain_pnl p price)
