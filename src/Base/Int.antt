-- ===== src/Base/Int.antt =====
-- JavaScript's BigInt: unbounded signed integers over the native numbers, with division that
-- truncates towards zero, and the casts `BigInt.asIntN(256, x)` and `BigInt.asUintN(256, x)`.
use Prim.Native.Nat.{ℕ, zero, suc, ◌+◌, ◌-◌, ◌*◌, ◌/◌, ◌%◌, ◌^◌, ◌≤◌, ◌<◌}
use mathlib.Core.Path.{◌≡◌, refl, sym, ap}
use native.Mathlib.Omega.{arith}
use native.Mathlib.Nat.{
  mod-eq_of_lt, zero-div, mul-le-mul_right, div-mul-le_self, le-div_iff_mul-le, le_trans,
}
use sidiora_perpetual_protoc.Base.Tests.{ltb, leb, if◌then◌else◌}

-- `negsuc n` is -(n + 1).
pub data ℤ : Type 0 where
  pos : ℕ → ℤ
  negsuc : ℕ → ℤ

abbrev pub pos_part : ℤ → ℕ
pos_part (pos n) = n
pos_part (negsuc n) = 0

abbrev pub neg_part : ℤ → ℕ
neg_part (pos n) = 0
neg_part (negsuc n) = suc n

-- a - b, as an integer.
abbrev pub sub_ℕ : ℕ → ℕ → ℤ
sub_ℕ a b = if leb b a then pos (a - b) else negsuc (b - a - 1)

infixl 65 ◌+ℤ◌ ◌-ℤ◌
infix 50 ◌≤ℤ◌
unfoldable pub ◌+ℤ◌ : ℤ → ℤ → ℤ
a +ℤ b = sub_ℕ (pos_part a + pos_part b) (neg_part a + neg_part b)

unfoldable pub ◌-ℤ◌ : ℤ → ℤ → ℤ
a -ℤ b = sub_ℕ (pos_part a + neg_part b) (neg_part a + pos_part b)

abbrev pub ◌≤ℤ◌ : ℤ → ℤ → Type 0
a ≤ℤ b = pos_part a + neg_part b ≤ pos_part b + neg_part a

-- -n, and the opposite of an integer.
unfoldable pub neg_ℕ : ℕ → ℤ
neg_ℕ n = sub_ℕ 0 n

unfoldable pub neg_ℤ : ℤ → ℤ
neg_ℤ a = sub_ℕ (neg_part a) (pos_part a)

-- An integer by a natural number.
unfoldable pub mul_ℕ : ℤ → ℕ → ℤ
unfolding neg_ℕ
mul_ℕ (pos n) k = pos (n * k)
mul_ℕ (negsuc n) k = neg_ℕ (suc n * k)

-- BigInt division by a natural number rounds towards zero.
unfoldable pub quot_ℕ : ℤ → ℕ → ℤ
unfolding neg_ℕ
quot_ℕ (pos n) k = pos (n / k)
quot_ℕ (negsuc n) k = neg_ℕ (suc n / k)

abbrev pub two_256 : ℕ
two_256 = 2 ^ 256

abbrev pub two_255 : ℕ
two_255 = 2 ^ 255

-- `BigInt.asIntN(256, x)` of a natural number.
unfoldable pub as_int256 : ℕ → ℤ
as_int256 x = let r = x % two_256 in if ltb r two_255 then pos r else sub_ℕ 0 (two_256 - r)

pub +ℤ_parts :
    (a b : ℤ)
    → pos_part (a +ℤ b) + neg_part a + neg_part b ≡ neg_part (a +ℤ b) + pos_part a + pos_part b
unfolding ◌+ℤ◌
+ℤ_parts a b = ground arith

pub -ℤ_parts :
    (a b : ℤ)
    → pos_part (a -ℤ b) + neg_part a + pos_part b ≡ neg_part (a -ℤ b) + pos_part a + neg_part b
unfolding ◌-ℤ◌
-ℤ_parts a b = ground arith

pub eq_of_parts : (a b : ℤ) → pos_part a + neg_part b ≡ pos_part b + neg_part a → a ≡ b
eq_of_parts a b h = ground arith

pub ruleset int_laws = (arith, +ℤ_parts, -ℤ_parts, eq_of_parts)

pub neg_ℤ_parts : (a : ℤ) → (pos_part (neg_ℤ a) ≡ neg_part a) × (neg_part (neg_ℤ a) ≡ pos_part a)
unfolding neg_ℤ
neg_ℤ_parts a = ground arith

pub mul_ℕ_parts :
    (a : ℤ) (k : ℕ)
    → (pos_part (mul_ℕ a k) ≡ pos_part a * k) × (neg_part (mul_ℕ a k) ≡ neg_part a * k)
unfolding mul_ℕ
mul_ℕ_parts (pos n) k = ground arith
mul_ℕ_parts (negsuc n) k = ground arith

pub quot_ℕ_parts :
    (a : ℤ) (k : ℕ)
    → (pos_part (quot_ℕ a k) ≡ pos_part a / k) × (neg_part (quot_ℕ a k) ≡ neg_part a / k)
unfolding quot_ℕ
quot_ℕ_parts (pos n) k = (refl, sym (zero-div k))
quot_ℕ_parts (negsuc n) k = (ground (arith, zero-div k), ground arith)

-- An order between integers is an order between their parts.
pub le_parts : (a b : ℤ) → a ≤ℤ b → (pos_part a ≤ pos_part b) × (neg_part b ≤ neg_part a)
le_parts (pos a) (pos b) h = omega arith
le_parts (pos a) (negsuc b) h = omega arith
le_parts (negsuc a) (pos b) h = omega arith
le_parts (negsuc a) (negsuc b) h = omega arith

pub mul_ℕ_mono : (a b : ℤ) (k : ℕ) → a ≤ℤ b → mul_ℕ a k ≤ℤ mul_ℕ b k
mul_ℕ_mono a b k h = omega (
  arith,
  mul_ℕ_parts a k,
  mul_ℕ_parts b k,
  mul-le-mul_right k (le_parts a b h).0,
  mul-le-mul_right k (le_parts a b h).1,
)

pub div-le-div_right : {m n : ℕ} (k : ℕ) → m ≤ n → m / k ≤ n / k
div-le-div_right {m} {n} zero h = omega arith
div-le-div_right {m} {n} (suc k) h =
    (le-div_iff_mul-le (omega arith)).1 (le_trans (div-mul-le_self m (suc k)) h)

pub quot_ℕ_mono : (a b : ℤ) (k : ℕ) → a ≤ℤ b → quot_ℕ a k ≤ℤ quot_ℕ b k
quot_ℕ_mono a b k h = omega (
  arith,
  quot_ℕ_parts a k,
  quot_ℕ_parts b k,
  div-le-div_right k (le_parts a b h).0,
  div-le-div_right k (le_parts a b h).1,
)

pub mul_ℕ-neg : (a : ℤ) (k : ℕ) → mul_ℕ (neg_ℤ a) k ≡ neg_ℤ (mul_ℕ a k)
mul_ℕ-neg a k = eq_of_parts _ _ (
    omega (
      arith,
      mul_ℕ_parts a k,
      mul_ℕ_parts (neg_ℤ a) k,
      neg_ℤ_parts (mul_ℕ a k),
      ap (λ (t : ℕ). t * k) (neg_ℤ_parts a).0,
      ap (λ (t : ℕ). t * k) (neg_ℤ_parts a).1,
    ))

pub quot_ℕ-neg : (a : ℤ) (k : ℕ) → quot_ℕ (neg_ℤ a) k ≡ neg_ℤ (quot_ℕ a k)
quot_ℕ-neg a k = eq_of_parts _ _ (
    omega (
      arith,
      quot_ℕ_parts a k,
      quot_ℕ_parts (neg_ℤ a) k,
      neg_ℤ_parts (quot_ℕ a k),
      ap (λ (t : ℕ). t / k) (neg_ℤ_parts a).0,
      ap (λ (t : ℕ). t / k) (neg_ℤ_parts a).1,
    ))

pub -ℤ_swap : (a b : ℤ) → a -ℤ b ≡ neg_ℤ (b -ℤ a)
-ℤ_swap a b = omega (int_laws, neg_ℤ_parts (b -ℤ a))

pub as_int256_small : (x : ℕ) → x < two_255 → as_int256 x ≡ pos x
unfolding as_int256
as_int256_small x h = ground (arith, mod-eq_of_lt {n = x} {m = two_256})
