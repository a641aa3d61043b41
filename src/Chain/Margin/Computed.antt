-- ===== src/Chain/Margin/Computed.antt =====
-- At values below 2^96 the contract's margin computation neither wraps nor reverts.
use native.Mathlib.Nat.{mul-le-mul, div-le_self, mod-eq_of_lt}
use sidiora_perpetual_protoc.Base.{
  ℕ, some, true, ltb, leb, ◌+◌, ◌-◌, ◌*◌, ◌^◌, ◌≤◌, ◌<◌, ◌≡◌, ◌≢◌, ◌⊎◌, ◌∙◌, arith, Bool-cases,
  refl, ap, inl, inr,
}
use sidiora_perpetual_protoc.Base.Int.{
  ℤ, pos, negsuc, pos_part, neg_part, sub_ℕ, ◌+ℤ◌, ◌-ℤ◌, eq_of_parts, mul_ℕ, quot_ℕ, as_int256,
  as_int256_small, two_256, two_255, mul_ℕ_parts, quot_ℕ_parts, +ℤ_parts,
}
use sidiora_perpetual_protoc.Protocol.{Position}
use sidiora_perpetual_protoc.Margin.{margin_of_equity}
use sidiora_perpetual_protoc.Margin.Laws.{Worse, not-zero}
use sidiora_perpetual_protoc.Chain.Margin.{
  checked, and_then, mul_ℤ, quot_ℤ, mul_fp_signed, div_fp_signed, signed_pnl, chain_pnl,
  ratio_of_equity, ratio_of,
}
use sidiora_perpetual_protoc.Chain.Margin.Rounding.{
  exact_pnl, mul-loss, quot-loss, no_gain, one_sign,
}

checked_small : (z : ℤ) → pos_part z < two_255 → neg_part z ≤ two_255 → checked z ≡ some z
checked_small (pos n) h k = ground arith
checked_small (negsuc n) h k = ground arith

sign_product : (q : ℤ) (s : ℕ) → (pos_part q * s ≡ 0) ⊎ (neg_part q * s ≡ 0)
sign_product (pos n) s = inr (omega arith)
sign_product (negsuc n) s = inl (omega arith)

sub_parts : (a b : ℕ) → (pos_part (sub_ℕ a b) ≡ a - b) × (neg_part (sub_ℕ a b) ≡ b - a)
sub_parts a b = ground arith

mul_swap : (s : ℕ) (q : ℤ) → mul_ℤ (pos s) q ≡ mul_ℕ q s
unfolding mul_ℤ
mul_swap s q = eq_of_parts (mul_ℤ (pos s) q) (mul_ℕ q s) (
    omega (
      arith,
      mul_ℕ_parts q s,
      sub_parts (s * pos_part q + 0 * neg_part q) (s * neg_part q + 0 * pos_part q),
      sign_product q s,
    ))

div_lem :
    (d : ℤ) (e : ℕ)
    → e ≢ 0
    → checked (mul_ℕ d (10 ^ 18)) ≡ some (mul_ℕ d (10 ^ 18))
    → checked (quot_ℕ (mul_ℕ d (10 ^ 18)) e) ≡ some (quot_ℕ (mul_ℕ d (10 ^ 18)) e)
    → div_fp_signed d (pos e) ≡ some (quot_ℕ (mul_ℕ d (10 ^ 18)) e)
unfolding div_fp_signed quot_ℤ
div_lem d e z h k =
    rw (not-zero e z, div_fp_signed) (ap (λ o. and_then o (λ x. checked (quot_ℕ x e))) h ∙ k)

mul_lem :
    (s : ℕ) (q : ℤ)
    → checked (mul_ℕ q s) ≡ some (mul_ℕ q s)
    → mul_fp_signed (pos s) q ≡ some (quot_ℕ (mul_ℕ q s) (10 ^ 18))
unfolding mul_fp_signed
mul_lem s q h =
    ap (λ z. and_then (checked z) (λ x. some (quot_ℕ x (10 ^ 18)))) (mul_swap s q)
    ∙ ap (λ o. and_then o (λ x. some (quot_ℕ x (10 ^ 18)))) h

checked_loss : (z : ℤ) → pos_part z ≡ 0 → neg_part z ≤ two_255 → checked z ≡ some z
checked_loss z h k = checked_small z (omega (arith, h)) k

product_small :
    (d : ℤ) (s e : ℕ)
    → s < 2 ^ 96
    → neg_part d < 2 ^ 96
    → let q = quot_ℕ (mul_ℕ d (10 ^ 18)) e in
      (neg_part (mul_ℕ d (10 ^ 18)) ≤ 2 ^ 156)
      × (neg_part q ≤ 2 ^ 156)
      × (neg_part (mul_ℕ q s) ≤ 2 ^ 252)
product_small d s e hs small =
    let scaled = mul_ℕ d (10 ^ 18) in
    let q = quot_ℕ scaled e in
    let a : neg_part scaled ≤ 2 ^ 156 = omega (arith, mul_ℕ_parts d (10 ^ 18), small) in
    let b : neg_part q ≤ 2 ^ 156 =
      omega (arith, quot_ℕ_parts scaled e, div-le_self (neg_part scaled) e, a) in
    let below : s ≤ 2 ^ 96 = omega (arith, hs) in
    (a, b, omega (arith, mul_ℕ_parts q s, mul-le-mul b below))

quot_small :
    (d : ℤ) (s e : ℕ)
    → s < 2 ^ 96
    → neg_part d < 2 ^ 96
    → neg_part (quot_ℕ (mul_ℕ (quot_ℕ (mul_ℕ d (10 ^ 18)) e) s) (10 ^ 18)) ≤ 2 ^ 252
quot_small d s e hs small =
    let product = mul_ℕ (quot_ℕ (mul_ℕ d (10 ^ 18)) e) s in
    let (a, b, c) = product_small d s e hs small in
    omega (arith, quot_ℕ_parts product (10 ^ 18), div-le_self (neg_part product) (10 ^ 18), c)

-- The contract's computation of a loss at values below 2^96.
loss_lem :
    (d : ℤ) (s e : ℕ)
    → s < 2 ^ 96
    → e ≢ 0
    → pos_part d ≡ 0
    → neg_part d < 2 ^ 96
    → signed_pnl (pos s) (pos e) (checked d)
      ≡ some (quot_ℕ (mul_ℕ (quot_ℕ (mul_ℕ d (10 ^ 18)) e) s) (10 ^ 18))
unfolding signed_pnl
loss_lem d s e hs z loss small =
    let scaled = mul_ℕ d (10 ^ 18) in
    let q = quot_ℕ scaled e in
    let (scaled_le, q_le, product_le) = product_small d s e hs small in
    ap (λ o. and_then o (λ x. and_then (div_fp_signed x (pos e)) (λ y. mul_fp_signed (pos s) y)))
      (checked_loss d loss (omega (arith, small)))
    ∙ ap (λ o. and_then o (λ y. mul_fp_signed (pos s) y))
        (div_lem d e z (checked_loss scaled (mul-loss d (10 ^ 18) loss) (omega (arith, scaled_le)))
          (checked_loss q (quot-loss scaled e (mul-loss d (10 ^ 18) loss)) (omega (arith, q_le))))
    ∙ mul_lem s q (
        checked_loss (mul_ℕ q s) (mul-loss q s (quot-loss scaled e (mul-loss d (10 ^ 18) loss)))
          (omega (arith, product_le)))

-- What the bounds ask of a position at a price.
pub record Moderate (p : Position) (price : ℕ) : Type 0 where
  pub price_small : price < 2 ^ 96
  pub entry_small : p.entry_price < 2 ^ 96
  pub size_small : p.size_usd < 2 ^ 96
  pub collateral_small : p.collateral_usd < 2 ^ 96

minus_lem : (a b : ℕ) → pos a -ℤ pos b ≡ sub_ℕ a b
unfolding ◌-ℤ◌
minus_lem a b = ground arith

pub small_cast : (x : ℕ) → x < 2 ^ 96 → as_int256 x ≡ pos x
small_cast x h = as_int256_small x (omega (arith, h))

-- The casts of moderate values are the values.
cast_pnl :
    (a b s e : ℕ)
    → a < 2 ^ 96
    → b < 2 ^ 96
    → s < 2 ^ 96
    → e < 2 ^ 96
    → signed_pnl (as_int256 s) (as_int256 e) (checked (as_int256 a -ℤ as_int256 b))
      ≡ signed_pnl (pos s) (pos e) (checked (sub_ℕ a b))
cast_pnl a b s e ha hb hs he =
    rw (small_cast a ha, small_cast b hb, small_cast s hs, small_cast e he)
      (ap (λ z. signed_pnl (pos s) (pos e) (checked z)) (minus_lem a b))

below : (a b : ℕ) → b < 2 ^ 96 → neg_part (sub_ℕ a b) < 2 ^ 96
below a b h = omega (arith, sub_parts a b, h)

pub chain_pnl_lem :
    (p : Position) (price : ℕ)
    → p.size_usd ≢ 0
    → p.entry_price ≢ 0
    → Worse p price p.entry_price
    → Moderate p price
    → (chain_pnl p price ≡ some (exact_pnl p price)) × (neg_part (exact_pnl p price) ≤ 2 ^ 252)
unfolding chain_pnl exact_pnl
chain_pnl_lem p price hs he w m =
    let size = p.size_usd in
    let entry = p.entry_price in
    rw (not-zero size hs, not-zero entry he)
      (elim (Bool-cases p.is_long) [
        | inl e ↦ rw e (
          cast_pnl price entry size entry m.price_small m.entry_small m.size_small m.entry_small
              ∙ loss_lem (sub_ℕ price entry) size entry m.size_small he
                  (no_gain price entry (rw e at w)) (below price entry m.entry_small),
          quot_small (sub_ℕ price entry) size entry m.size_small (below price entry m.entry_small),
        )
        | inr e ↦ rw e (
          cast_pnl entry price size entry m.entry_small m.price_small m.size_small m.entry_small
              ∙ loss_lem (sub_ℕ entry price) size entry m.size_small he
                  (no_gain entry price (rw e at w)) (below entry price m.price_small),
          quot_small (sub_ℕ entry price) size entry m.size_small (below entry price m.price_small),
        )
      ])

ratio_of_equity_lem :
    (z : ℤ) (size : ℕ)
    → pos_part z < 2 ^ 96
    → ratio_of_equity z size ≡ some (margin_of_equity z size)
unfolding ratio_of_equity margin_of_equity
ratio_of_equity_lem z size h =
    let fits : ltb (pos_part z * 10000) two_256 ≡ true = ground (arith, h) in
    let small : pos_part z < two_256 = omega (arith, h) in
    elim (Bool-cases (leb (pos_part z) 0)) [
      | inl e ↦ rw e refl
      | inr e ↦ rw (e, fits, mod-eq_of_lt small) refl
    ]

pub ratio_of_lem :
    (c size : ℕ) (z : ℤ)
    → c < 2 ^ 96
    → pos_part z ≡ 0
    → neg_part z ≤ 2 ^ 252
    → ratio_of (as_int256 c) size (some z) ≡ some (margin_of_equity (as_int256 c +ℤ z) size)
unfolding ratio_of
ratio_of_lem c size z hc loss h =
    let e = pos c +ℤ z in
    let parts = +ℤ_parts (pos c) z in
    let small : pos_part e < 2 ^ 96 = omega (arith, parts, one_sign e, hc, loss) in
    let low : neg_part e ≤ 2 ^ 252 = omega (arith, parts, one_sign e, hc, loss, h) in
    rw (small_cast c hc) (
      ap (λ o. and_then o (λ x. ratio_of_equity x size))
        (checked_small e (omega (arith, small)) (omega (arith, low)))
      ∙ ratio_of_equity_lem e size small)
