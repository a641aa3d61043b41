-- ===== src/Chain/Margin/Laws.antt =====
-- The margin of the scanners beside the contract's.
use sidiora_perpetual_protoc.Base.{ℕ, some, ◌-◌, ◌≤◌, ◌≡◌, ◌≢◌, ◌∙◌, if◌then◌else◌, arith, ap}
use sidiora_perpetual_protoc.Base.Int.{pos, ◌+ℤ◌, as_int256, two_256, +ℤ_parts}
use sidiora_perpetual_protoc.Protocol.{Position}
use sidiora_perpetual_protoc.Margin.{equity, calculate_margin_bps, margin_of_equity}
use sidiora_perpetual_protoc.Margin.Laws.{Worse, margin_of_equity_mono, not-zero}
use sidiora_perpetual_protoc.Chain.Margin.{chain_pnl, ratio_of, calculate_margin_ratio}
use sidiora_perpetual_protoc.Chain.Margin.Rounding.{
  exact_pnl, chain_loss, equity-le-chain, one_sign,
}
use sidiora_perpetual_protoc.Chain.Margin.Computed.{
  Moderate, chain_pnl_lem, ratio_of_lem, small_cast,
}

sized :
    (p : Position) (price : ℕ)
    → p.size_usd ≢ 0
    → calculate_margin_ratio p price
      ≡ ratio_of (as_int256 p.collateral_usd) p.size_usd (chain_pnl p price)
unfolding calculate_margin_ratio
sized p price hs =
    ap
      (λ b.
        if b
        then some (two_256 - 1)
        else ratio_of (as_int256 p.collateral_usd) p.size_usd (chain_pnl p price))
      (not-zero p.size_usd hs)

-- For a position with a size and an entry price and a price that is no better than the entry
-- price, where price, entry price, size and collateral are below 2^96, the contract's margin
-- computation does not revert, and the keeper's margin is at most its result.
pub margin-le-calculate_margin_ratio :
    (p : Position) (price : ℕ)
    → p.size_usd ≢ 0
    → p.entry_price ≢ 0
    → Worse p price p.entry_price
    → Moderate p price
    → (m : ℕ) × (calculate_margin_ratio p price ≡ some m) × (calculate_margin_bps p price ≤ m)
unfolding calculate_margin_bps
margin-le-calculate_margin_ratio p price hs he w m =
    let c = p.collateral_usd in
    let z = exact_pnl p price in
    let (pnl, bound) = chain_pnl_lem p price hs he w m in
    let loss = chain_loss p price hs he w in
    let kept : as_int256 c ≡ pos c = small_cast c m.collateral_small in
    (
      margin_of_equity (as_int256 c +ℤ z) p.size_usd,
      sized p price hs
          ∙ ap (ratio_of (as_int256 c) p.size_usd) pnl
          ∙ ratio_of_lem c p.size_usd z m.collateral_small loss bound,
      rw (not-zero p.size_usd hs, not-zero p.entry_price he)
          (margin_of_equity_mono (equity p price) (as_int256 c +ℤ z) p.size_usd
            (equity-le-chain p price hs he w)
            (rw kept (
              omega (arith, +ℤ_parts (pos c) z, one_sign (pos c +ℤ z), loss, m.collateral_small)))),
    )
