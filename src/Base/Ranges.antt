-- ===== src/Base/Ranges.antt =====
-- Ranges of blocks, as their first and last block.
use sidiora_perpetual_protoc.Base.Tests.{leb, if◌then◌else◌}
use Prim.Native.Nat.{ℕ, ◌+◌}
use mathlib.Core.Path.{◌≡◌}
use mathlib.Core.Bool.{◌&&◌}
use mathlib.Core.List.{List, [], ◌∷◌, ◌++◌}
use native.Mathlib.Omega.{arith}

-- How many of the ranges hold a block.
abbrev pub covering : ℕ → List (ℕ × ℕ) → ℕ
covering b [] = 0
covering b ((lo, hi) ∷ l) = (if leb lo b && leb b hi then 1 else 0) + covering b l

pub covering-append :
    (b : ℕ) (xs ys : List (ℕ × ℕ)) → covering b (xs ++ ys) ≡ covering b xs + covering b ys
covering-append b [] ys = omega arith
covering-append b ((lo, hi) ∷ xs) ys = omega (arith, covering-append b xs ys)
