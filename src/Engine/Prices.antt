-- ===== src/Engine/Prices.antt =====
-- `PythFetcher` of .perps-engine/src/price-sources/pyth-fetcher.js: prices of any exponent brought to
-- 18 decimals. Feed ids are hexadecimal, so they are numbers.
use sidiora_perpetual_protoc.Base.{
  ℕ, suc, ◌^◌, ◌≤◌, ◌<◌, ◌≡◌, refl, Option, none, some, List, [], ◌∷◌, leb, ◌==◌, if◌then◌else◌,
  length, All, arith, Bool-cases, Option-cases, inl, inr,
}
use sidiora_perpetual_protoc.Base.Dict.{Dict, insert}
use sidiora_perpetual_protoc.Base.Int.{
  ℤ, pos, negsuc, pos_part, ◌+ℤ◌, ◌≤ℤ◌, mul_ℕ, quot_ℕ, mul_ℕ_mono, quot_ℕ_mono,
}

-- `value * 10n ** BigInt(shift)`, or the division by `10n ** BigInt(-shift)`.
unfoldable pub shifted : ℤ → ℤ → ℤ
shifted value (pos n) = mul_ℕ value (10 ^ n)
shifted value (negsuc n) = quot_ℕ value (10 ^ (suc n))

-- `_normalize`
unfoldable pub normalize : ℤ → ℤ → ℤ
unfolding shifted
normalize value expo = shifted value (pos 18 +ℤ expo)

pub record Market : Type 0 where
  pub market_id : ℕ
  pub symbol : ℕ
  pub pyth_id : ℕ

-- The `price` of a feed.
pub record PriceData : Type 0 where
  pub price : ℤ
  pub conf : ℤ
  pub expo : ℤ
  pub publish_time : ℕ

pub record Feed : Type 0 where
  pub id : ℕ
  pub price : Option PriceData

-- An entry of the results; `rawPrice` is for the log only.
pub record Fetched : Type 0 where
  pub market_id : ℕ
  pub symbol : ℕ
  pub price : ℤ
  pub confidence : ℤ
  pub timestamp : ℕ

-- `response.parsed.find(…)` and its `price`.
unfoldable pub find_price : ℕ → List Feed → Option PriceData
find_price id [] = none
find_price id (f ∷ fs) = if f.id == id then f.price else find_price id fs

-- The loop over the markets: the results, and the last prices by symbol.
unfoldable pub collect : List Feed → List Market → Dict ℤ → List Fetched × Dict ℤ
unfolding normalize find_price
collect feeds [] last = ([], last)
collect feeds (m ∷ ms) last =
    let skipped = collect feeds ms last in
    elim (find_price m.pyth_id feeds) [
      | none ↦ skipped
      | some d ↦
          let price18 = normalize d.price d.expo in
          let (results, last') = collect feeds ms (insert m.symbol price18 last) in
          if leb (pos_part price18) 0 then skipped else (
            record {
              market_id = m.market_id;
              symbol = m.symbol;
              price = price18;
              confidence = normalize d.conf d.expo;
              timestamp = d.publish_time;
            }
                ∷ results,
            last',
          )
    ]

-- `fetchPrices` on the parsed feeds of the response: an empty response throws.
unfoldable pub fetch_prices :
    List Market → Option (List Feed) → Dict ℤ → Option (List Fetched) × Dict ℤ
unfolding collect
fetch_prices markets none last = (none, last)
fetch_prices markets (some []) last = (none, last)
fetch_prices markets (some (f ∷ fs)) last =
    let (results, last') = collect (f ∷ fs) markets last in (some results, last')

shifted_mono : (a b shift : ℤ) → a ≤ℤ b → shifted a shift ≤ℤ shifted b shift
unfolding shifted
shifted_mono a b (pos n) h = mul_ℕ_mono a b (10 ^ n) h
shifted_mono a b (negsuc n) h = quot_ℕ_mono a b (10 ^ suc n) h

-- Bringing two prices of one exponent to 18 decimals keeps their order, where digits are lost
-- as well.
pub normalize_mono : (a b expo : ℤ) → a ≤ℤ b → normalize a expo ≤ℤ normalize b expo
unfolding normalize
normalize_mono a b expo h = shifted_mono a b (pos 18 +ℤ expo) h

-- A result with a positive price.
abbrev pub Priced : Fetched → Type 0
Priced r = 0 < pos_part r.price

collect-Priced :
    (feeds : List Feed) (ms : List Market) (last : Dict ℤ)
    → All Priced (collect feeds ms last).0 × (length (collect feeds ms last).0 ≤ length ms)
unfolding collect
collect-Priced feeds [] last = (tt, omega arith)
collect-Priced feeds (m ∷ ms) last = elim (Option-cases (find_price m.pyth_id feeds)) [
  | inl e ↦ let (a, n) = collect-Priced feeds ms last in rw (e, collect) (a, omega arith)
  | inr (d, e) ↦
      let price18 = normalize d.price d.expo in
      let (a, n) = collect-Priced feeds ms last in
      let (b, k) = collect-Priced feeds ms (insert m.symbol price18 last) in
      rw (e, collect)
        (elim (Bool-cases (leb (pos_part price18) 0)) [
          | inl z ↦ rw z (a, omega arith)
          | inr z ↦ rw z ((ground arith, b), omega arith)
        ])
]

-- Every result of a response with at least one feed has a positive price, and no more results
-- come than there are markets.
pub fetched-Priced :
    (markets : List Market) (f : Feed) (fs : List Feed) (last : Dict ℤ)
    → (results : List Fetched) × ((fetch_prices markets (some (f ∷ fs)) last).0 ≡ some results)
      × All Priced results
      × (length results ≤ length markets)
unfolding fetch_prices
fetched-Priced markets f fs last =
    let (a, n) = collect-Priced (f ∷ fs) markets last in
    ((collect (f ∷ fs) markets last).0, refl, a, n)
