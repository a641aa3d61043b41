-- ===== src/Margin/Laws.antt =====
-- How the margin depends on the price, on the side and on the funding.
use native.Mathlib.Nat.{mul-le-mul, zero-div, mod-eq_of_lt, mul-le-mul_right, div-lt_iff_lt-mul}
use sidiora_perpetual_protoc.Base.{
  ℕ, ◌*◌, ◌/◌, ◌≤◌, ◌<◌, ◌≡◌, ◌↔◌, ◌≢◌, inl, inr, true, false, ◌||◌, leb, ◌==◌, if◌then◌else◌,
  arith, Bool-cases, leb→le,
}
use sidiora_perpetual_protoc.Base.Int.{
  ℤ, pos_part, sub_ℕ, ◌+ℤ◌, ◌≤ℤ◌, mul_ℕ, quot_ℕ, neg_ℤ, as_int256_small, two_256, two_255, int_laws,
  le_parts, mul_ℕ_mono, quot_ℕ_mono, mul_ℕ-neg, quot_ℕ-neg, div-le-div_right,
}
use sidiora_perpetual_protoc.Protocol.{Position}
use sidiora_perpetual_protoc.Margin.{calculate_pnl, margin_of_equity, equity, calculate_margin_bps}

sub_ℕ-neg : (a b : ℕ) → sub_ℕ a b ≡ neg_ℤ (sub_ℕ b a)
unfolding neg_ℤ
sub_ℕ-neg a b = ground arith

abbrev pub flipped : Position → Position
flipped p = record p { is_long = if p.is_long then false else true }

-- A long and a short position of the same size and entry price gain and lose the same at every
-- price, in spite of the rounding.
pub pnl-flipped :
    (p : Position) (price : ℕ) → calculate_pnl (flipped p) price ≡ neg_ℤ (calculate_pnl p price)
unfolding calculate_pnl
pnl-flipped p price = elim (Bool-cases p.is_long) [
  | inl e ↦ simp e (rw (sub_ℕ-neg p.entry_price price) (rw mul_ℕ-neg (quot_ℕ-neg _ _)))
  | inr e ↦ simp e (rw (sub_ℕ-neg price p.entry_price) (rw mul_ℕ-neg (quot_ℕ-neg _ _)))
]

-- A price that is no better for the position: lower for a long one, higher for a short one.
abbrev pub Worse : Position → ℕ → ℕ → Type 0
Worse p a b = if p.is_long then a ≤ b else b ≤ a

sub_ℕ_mono_left : (a b c : ℕ) → a ≤ b → sub_ℕ a c ≤ℤ sub_ℕ b c
sub_ℕ_mono_left a b c h = ground arith

sub_ℕ_mono_right : (a b c : ℕ) → b ≤ a → sub_ℕ c a ≤ℤ sub_ℕ c b
sub_ℕ_mono_right a b c h = ground arith

pub pnl_mono : (p : Position) (a b : ℕ) → Worse p a b → calculate_pnl p a ≤ℤ calculate_pnl p b
unfolding calculate_pnl
pnl_mono p a b h = elim (Bool-cases p.is_long) [
  | inl e ↦
      rw e (quot_ℕ_mono _ _ _ (mul_ℕ_mono _ _ _ (sub_ℕ_mono_left a b p.entry_price (rw e at h))))
  | inr e ↦
      rw e (quot_ℕ_mono _ _ _ (mul_ℕ_mono _ _ _ (sub_ℕ_mono_right a b p.entry_price (rw e at h))))
]

pub equity_mono : (p : Position) (a b : ℕ) → Worse p a b → equity p a ≤ℤ equity p b
unfolding equity
equity_mono p a b h = omega (int_laws, pnl_mono p a b h)

pub margin_of_equity_mono :
    (x y : ℤ) (size : ℕ)
    → x ≤ℤ y
    → pos_part y < two_256
    → margin_of_equity x size ≤ margin_of_equity y size
unfolding margin_of_equity
margin_of_equity_mono x y size h small =
    let le = (le_parts x y h).0 in
    rw
      (
        mod-eq_of_lt {n = pos_part y} {m = two_256} small,
        mod-eq_of_lt {n = pos_part x} {m = two_256} (omega arith),
      )
      (elim (Bool-cases (leb (pos_part x) 0)) [
        | inl e ↦ rw e (omega arith)
        | inr e ↦ rw e (ground (arith, div-le-div_right size (mul-le-mul_right 10000 le)))
      ])

pub not-zero : (n : ℕ) → n ≢ 0 → (n == 0) ≡ false
not-zero n h = ground arith

-- At a price that is worse for a position, while its equity at the better price is below 2^256,
-- its margin is no higher.
pub margin_mono :
    (p : Position) (a b : ℕ)
    → Worse p a b
    → pos_part (equity p b) < two_256
    → calculate_margin_bps p a ≤ calculate_margin_bps p b
unfolding calculate_margin_bps
margin_mono p a b h small = elim (Bool-cases ((p.size_usd == 0) || (p.entry_price == 0))) [
  | inl e ↦ rw e (omega arith)
  | inr e ↦
      rw e (margin_of_equity_mono (equity p a) (equity p b) p.size_usd (equity_mono p a b h) small)
]

-- For a position with a size and an entry price and a collateral below 2^255, the margin at the
-- entry price is the collateral times 10000 over the size.
pub margin_at_entry :
    (p : Position)
    → p.size_usd ≢ 0
    → p.entry_price ≢ 0
    → p.collateral_usd < two_255
    → calculate_margin_bps p p.entry_price ≡ p.collateral_usd * 10000 / p.size_usd
unfolding calculate_margin_bps calculate_pnl ◌+ℤ◌ mul_ℕ quot_ℕ
margin_at_entry p hs he hc = rw (as_int256_small p.collateral_usd hc) (
    ground (
      arith,
      mod-eq_of_lt {n = p.collateral_usd} {m = two_256},
      zero-div p.entry_price,
      zero-div p.size_usd,
    ))

margin_of_equity-lt_iff :
    (x : ℤ) (size m : ℕ)
    → 0 < size
    → pos_part x < two_256
    → 0 < m
    → (margin_of_equity x size < m) ↔ (pos_part x * 10000 < m * size)
unfolding margin_of_equity
margin_of_equity-lt_iff x size m hs small hm = elim (Bool-cases (leb (pos_part x) 0)) [
  | inl e ↦ rw e (
    (λ _. omega (arith, leb→le _ _ e, mul-le-mul {n₁ = 1} {m₁ = 1} {n₂ = m} {m₂ = size} hm hs)),
    (λ _. hm),
  )
  | inr e ↦ rw (e, mod-eq_of_lt {n = pos_part x} {m = two_256} small) (div-lt_iff_lt-mul hs)
]

-- For a position with a size and an entry price, an equity below 2^256 and a positive
-- maintenance margin, the margin is below the maintenance margin exactly if the equity, 0 if
-- negative, times 10000 is below the maintenance margin times the size.
margin_lt_iff :
    (p : Position) (price m : ℕ)
    → p.size_usd ≢ 0
    → p.entry_price ≢ 0
    → pos_part (equity p price) < two_256
    → 0 < m
    → (calculate_margin_bps p price < m) ↔ (pos_part (equity p price) * 10000 < m * p.size_usd)
unfolding calculate_margin_bps
margin_lt_iff p price m hs he small hm =
    rw (not-zero p.size_usd hs, not-zero p.entry_price he)
      (margin_of_equity-lt_iff (equity p price) p.size_usd m (omega arith) small hm)
