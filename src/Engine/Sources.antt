-- ===== src/Engine/Sources.antt =====
-- The first step of a cycle of .perps-engine/index.js and of .oracle/index.js: both sources are asked
-- at once, and one that throws counts as empty. The oracle's files of the sources are copies.
use sidiora_perpetual_protoc.Base.{ℕ, Option, none, some, List, [], ◌++◌, map}
use sidiora_perpetual_protoc.Base.Dict.{Dict}
use sidiora_perpetual_protoc.Base.Int.{ℤ, pos_part}
use sidiora_perpetual_protoc.Engine.Cycle.{Quote}
use sidiora_perpetual_protoc.Engine.Prices
use sidiora_perpetual_protoc.Engine.Orderly

-- The fetchers: their markets and their last prices by symbol. There is no second one where no
-- market has that source.
pub record Fetchers : Type 0 where
  pub pyth_markets : List Prices.Market
  pub pyth_last : Dict ℤ
  pub orderly_markets : Option (List Orderly.Market)
  pub orderly_last : Dict ℕ

-- What the two services answer; `none` throws.
pub record Responses : Type 0 where
  pub feeds : Option (List Prices.Feed)
  pub rows : Option (List Orderly.Row)

-- `.catch(() => [])`
abbrev pub or_empty {ℓ} : {A : Type ℓ} → Option (List A) → List A
or_empty none = []
or_empty (some xs) = xs

-- The price of a result, which is above 0.
abbrev pub from_pyth : Prices.Fetched → Quote
from_pyth f = record { market_id = f.market_id; symbol = f.symbol; price = pos_part f.price }

abbrev pub from_orderly : Orderly.Fetched → Quote
from_orderly f = record { market_id = f.market_id; symbol = f.symbol; price = f.price }

-- `orderlyFetcher.fetchPrices()`, if there is one.
unfoldable pub fetch_orderly : Responses → Fetchers → List Orderly.Fetched × Dict ℕ
unfolding Orderly.fetch_prices
fetch_orderly r f = elim f.orderly_markets [
  | none ↦ ([], f.orderly_last)
  | some markets ↦
      let (results, last) = Orderly.fetch_prices markets r.rows f.orderly_last in
      (or_empty results, last)
]

-- `[...pythPrices, ...orderlyPrices]`
unfoldable pub fetch_all : Responses → Fetchers → List Quote × Fetchers
unfolding Prices.fetch_prices fetch_orderly
fetch_all r f =
    let (pyth, pyth_last) = Prices.fetch_prices f.pyth_markets r.feeds f.pyth_last in
    let (orderly, orderly_last) = fetch_orderly r f in
    (
      map from_pyth (or_empty pyth) ++ map from_orderly orderly,
      record f { pyth_last = pyth_last; orderly_last = orderly_last },
    )
