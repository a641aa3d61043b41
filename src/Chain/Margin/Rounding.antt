-- ===== src/Chain/Margin/Rounding.antt =====
-- The two roundings of the contract beside the one of the scanners, where nothing overflows.
use native.Mathlib.Nat.{
  zero-div, mul-le-mul_right, div-mul-le_self, le-div_iff_mul-le, le_trans, le_of_mul-le-mul_right,
}
use sidiora_perpetual_protoc.Base.{
  ℕ, ◌*◌, ◌/◌, ◌^◌, ◌≤◌, ◌<◌, ◌≡◌, ◌≢◌, ◌⊎◌, ◌∙◌, ◌||◌, ◌==◌, if◌then◌else◌, arith, Bool-cases,
  refl, ap, inl, inr,
}
use sidiora_perpetual_protoc.Base.Int.{
  ℤ, pos, negsuc, pos_part, neg_part, sub_ℕ, ◌+ℤ◌, ◌≤ℤ◌, mul_ℕ, quot_ℕ, as_int256, mul_ℕ_parts,
  quot_ℕ_parts, int_laws,
}
use sidiora_perpetual_protoc.Protocol.{Position}
use sidiora_perpetual_protoc.Margin.{calculate_pnl, equity}
use sidiora_perpetual_protoc.Margin.Laws.{Worse, not-zero}

-- The gain or loss that the contract computes where nothing overflows.
unfoldable pub exact_pnl : Position → ℕ → ℤ
exact_pnl p price =
    if (p.size_usd == 0) || (p.entry_price == 0)
    then pos 0
    else (let delta : ℤ =
          if p.is_long then sub_ℕ price p.entry_price else sub_ℕ p.entry_price price in
        quot_ℕ (mul_ℕ (quot_ℕ (mul_ℕ delta (10 ^ 18)) p.entry_price) p.size_usd) (10 ^ 18))

-- The two roundings of the contract lose no less than the one of the scanners.
two_roundings : (d s e u : ℕ) → 0 < e → 0 < u → d * u / e * s / u ≤ d * s / e
two_roundings d s e u he hu = (le-div_iff_mul-le he).1 (
    le_of_mul-le-mul_right {k = u}
      (le_trans {m = d * u / e * s * e}
        (rw_swap (d * u / e * s / u) e u (d * u / e * s) (div-mul-le_self (d * u / e * s) u))
        (scaled (d * u / e) s e d u (div-mul-le_self (d * u) e)))
      hu)
  where
    rw_swap : (r e u x : ℕ) → r * u ≤ x → r * e * u ≤ x * e
    rw_swap r e u x h = omega (arith, mul-le-mul_right e h)

    scaled : (q s e d u : ℕ) → q * e ≤ d * u → q * s * e ≤ d * s * u
    scaled q s e d u h = omega (arith, mul-le-mul_right s h)

pub no_gain : (a b : ℕ) → a ≤ b → pos_part (sub_ℕ a b) ≡ 0
no_gain a b h = ground arith

quot_order :
    (d : ℤ) (s e u : ℕ)
    → 0 < e
    → 0 < u
    → pos_part d ≡ 0
    → quot_ℕ (mul_ℕ d s) e ≤ℤ quot_ℕ (mul_ℕ (quot_ℕ (mul_ℕ d u) e) s) u
quot_order d s e u he hu z =
    let inner = quot_ℕ (mul_ℕ d u) e in
    omega (
      arith,
      quot_ℕ_parts (mul_ℕ d s) e,
      quot_ℕ_parts (mul_ℕ inner s) u,
      ap (λ (t : ℕ). t / e) (mul_ℕ_parts d s).0,
      ap (λ (t : ℕ). t / e) (mul_ℕ_parts d s).1,
      ap (λ (t : ℕ). t / u) (mul_ℕ_parts inner s).1,
      ap (λ (t : ℕ). t * s / u) (quot_ℕ_parts (mul_ℕ d u) e).1,
      ap (λ (t : ℕ). t / e * s / u) (mul_ℕ_parts d u).1,
      ap (λ (t : ℕ). t * s / e) z,
      zero-div e,
      two_roundings (neg_part d) s e u he hu,
    )

pub mul-loss : (d : ℤ) (k : ℕ) → pos_part d ≡ 0 → pos_part (mul_ℕ d k) ≡ 0
mul-loss d k z = (mul_ℕ_parts d k).0 ∙ rw z (omega arith)

pub quot-loss : (d : ℤ) (k : ℕ) → pos_part d ≡ 0 → pos_part (quot_ℕ d k) ≡ 0
quot-loss d k z = (quot_ℕ_parts d k).0 ∙ rw z (zero-div k)

pub lost :
    (d : ℤ) (s e u : ℕ) → pos_part d ≡ 0 → pos_part (quot_ℕ (mul_ℕ (quot_ℕ (mul_ℕ d u) e) s) u) ≡ 0
lost d s e u z = quot-loss _ u (mul-loss _ s (quot-loss _ e (mul-loss d u z)))

-- On a price that is no better than the entry price the contract's loss is no greater than the
-- scanners'.
pnl-le-exact_pnl :
    (p : Position) (price : ℕ)
    → p.size_usd ≢ 0
    → p.entry_price ≢ 0
    → Worse p price p.entry_price
    → calculate_pnl p price ≤ℤ exact_pnl p price
unfolding calculate_pnl exact_pnl
pnl-le-exact_pnl p price hs he w =
    rw (not-zero p.size_usd hs, not-zero p.entry_price he)
      (elim (Bool-cases p.is_long) [
        | inl e ↦ rw e (
            quot_order (sub_ℕ price p.entry_price) p.size_usd p.entry_price (10 ^ 18) (omega arith)
              (omega arith) (no_gain price p.entry_price (rw e at w)))
        | inr e ↦ rw e (
            quot_order (sub_ℕ p.entry_price price) p.size_usd p.entry_price (10 ^ 18) (omega arith)
              (omega arith) (no_gain p.entry_price price (rw e at w)))
      ])

pub chain_loss :
    (p : Position) (price : ℕ)
    → p.size_usd ≢ 0
    → p.entry_price ≢ 0
    → Worse p price p.entry_price
    → pos_part (exact_pnl p price) ≡ 0
unfolding exact_pnl
chain_loss p price hs he w =
    rw (not-zero p.size_usd hs, not-zero p.entry_price he)
      (elim (Bool-cases p.is_long) [
        | inl e ↦ rw e (
            lost (sub_ℕ price p.entry_price) p.size_usd p.entry_price (10 ^ 18)
              (no_gain price p.entry_price (rw e at w)))
        | inr e ↦ rw e (
            lost (sub_ℕ p.entry_price price) p.size_usd p.entry_price (10 ^ 18)
              (no_gain p.entry_price price (rw e at w)))
      ])

pub equity-le-chain :
    (p : Position) (price : ℕ)
    → p.size_usd ≢ 0
    → p.entry_price ≢ 0
    → Worse p price p.entry_price
    → equity p price ≤ℤ as_int256 p.collateral_usd +ℤ exact_pnl p price
unfolding equity
equity-le-chain p price hs he w = omega (int_laws, pnl-le-exact_pnl p price hs he w)

pub one_sign : (a : ℤ) → (pos_part a ≡ 0) ⊎ (neg_part a ≡ 0)
one_sign (pos n) = inr refl
one_sign (negsuc n) = inl refl
