-- ===== src/Engine/Deviation.antt =====
-- `hasSignificantDeviation` of .perps-engine/src/price-sources/pyth-fetcher.js and, line by line the
-- same, of orderly-fetcher.js: whether a price has moved since it was last submitted. The prices that
-- the fetchers keep are positive.
use native.Mathlib.Nat.{le-div_iff_mul-le}
use sidiora_perpetual_protoc.Base.{
  ℕ, ◌-◌, ◌*◌, ◌/◌, ◌≤◌, ◌<◌, ◌≡◌, refl, ◌⊎◌, ◌↔◌, Bool, true, false, Option, none, some, List, [],
  ◌∷◌, ltb, leb, ◌==◌, if◌then◌else◌, arith, Bool-cases, leb→le, inl, inr,
}
use sidiora_perpetual_protoc.Base.Dict.{Dict, lookup}

abbrev pub distance : ℕ → ℕ → ℕ
distance current last = if ltb last current then current - last else last - current

-- A round of the loop, on the price that was submitted for the symbol.
unfoldable pub has_moved : ℕ → ℕ → Option ℕ → Bool
has_moved threshold current none = false
has_moved threshold current (some last) =
    if last == 0 then false else leb threshold (distance current last * 10000 / last)

-- `hasSignificantDeviation`: the current prices by symbol, the submitted ones, and the threshold in
-- basis points.
unfoldable pub has_significant_deviation : Dict ℕ → Dict ℕ → ℕ → Bool
unfolding has_moved
has_significant_deviation [] submitted threshold = false
has_significant_deviation ((symbol, current) ∷ l) submitted threshold =
    if has_moved threshold current (lookup symbol submitted)
    then true
    else has_significant_deviation l submitted threshold

-- A symbol that was submitted at a price other than 0 has moved by the threshold or more.
abbrev pub Moved : Dict ℕ → ℕ → ℕ × ℕ → Type 0
Moved submitted threshold (symbol, current) =
    (last : ℕ) × (lookup symbol submitted ≡ some last)
    × (0 < last)
    × (threshold * last ≤ distance current last * 10000)

abbrev pub Any {ℓ} : {A : Type ℓ} → (A → Type 0) → List A → Type 0
Any P [] = ⊥
Any P (x ∷ xs) = P x ⊎ Any P xs

moved_by :
    (threshold current : ℕ) (o : Option ℕ)
    → has_moved threshold current o ≡ true
    → (last : ℕ) × (o ≡ some last) × (0 < last) × (threshold * last ≤ distance current last * 10000)
unfolding has_moved
moved_by threshold current none h = absurd (ground arith)
moved_by threshold current (some last) h =
    let positive : 0 < last = ground arith in
    let reached : leb threshold (distance current last * 10000 / last) ≡ true = ground arith in
    (last, refl, positive, (le-div_iff_mul-le positive).0 (leb→le _ _ reached))

moves :
    (threshold current : ℕ) (o : Option ℕ) (last : ℕ)
    → o ≡ some last
    → 0 < last
    → threshold * last ≤ distance current last * 10000
    → has_moved threshold current o ≡ true
unfolding has_moved
moves threshold current o last e positive h =
    let reached : threshold ≤ distance current last * 10000 / last =
      (le-div_iff_mul-le positive).1 h in
    rw (e, has_moved) (ground arith)

found :
    (l submitted : Dict ℕ) (threshold : ℕ)
    → has_significant_deviation l submitted threshold ≡ true
    → Any (Moved submitted threshold) l
unfolding has_significant_deviation
found [] submitted threshold h = absurd (ground arith)
found ((symbol, current) ∷ l) submitted threshold h =
    elim (Bool-cases (has_moved threshold current (lookup symbol submitted))) [
      | inl e ↦ inl (moved_by threshold current (lookup symbol submitted) e)
      | inr e ↦ inr (found l submitted threshold (ground arith))
    ]

enough :
    (l submitted : Dict ℕ) (threshold : ℕ)
    → Any (Moved submitted threshold) l
    → has_significant_deviation l submitted threshold ≡ true
unfolding has_significant_deviation
enough [] submitted threshold h = absurd h
enough ((symbol, current) ∷ l) submitted threshold (inl (last, e, positive, h)) =
    rw (moves threshold current (lookup symbol submitted) last e positive h) refl
enough ((symbol, current) ∷ l) submitted threshold (inr h) =
    elim (Bool-cases (has_moved threshold current (lookup symbol submitted))) [
      | inl e ↦ rw e refl
      | inr e ↦ rw e (enough l submitted threshold h)
    ]

-- A significant deviation is found exactly if some symbol was submitted at a price other than 0
-- from which the current one is away by the threshold or more, in basis points and without
-- rounding.
pub deviation_iff :
    (l submitted : Dict ℕ) (threshold : ℕ)
    → (has_significant_deviation l submitted threshold ≡ true) ↔ Any (Moved submitted threshold) l
deviation_iff l submitted threshold = (found l submitted threshold, enough l submitted threshold)
