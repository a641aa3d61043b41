-- ===== src/Engine/Orderly.antt =====
-- `OrderlyFetcher` of .perps-engine/src/price-sources/orderly-fetcher.js, the same file as
-- .oracle/src/orderly-fetcher.js: prices that are numbers of JavaScript become 18-decimal integers by
-- way of their text. The text that `toString` prints for a number is the number here.
pub mod Decimals
pub mod Reading
use sidiora_perpetual_protoc.Base.{
  ℕ, zero, suc, ◌+◌, ◌-◌, ◌*◌, ◌^◌, Bool, Option, none, some, List, [], ◌∷◌, ◌++◌, leb, ◌==◌, ◌&&◌,
  if◌then◌else◌, take,
}
use sidiora_perpetual_protoc.Base.Dict.{Dict, insert, lookup}

-- A number of the response: what `toString` prints for it, and whether it is above 0.
pub record Number : Type 0 where
  pub text : List ℕ
  pub positive : Bool

-- A row of the response; a price may be null or missing.
pub record Row : Type 0 where
  pub symbol : ℕ
  pub mark_price : Option Number
  pub index_price : Option Number
  pub last_price : Option Number

pub record Market : Type 0 where
  pub market_id : ℕ
  pub symbol : ℕ
  pub orderly_symbol : ℕ

-- An entry of the results; `rawPrice` and `timestamp` are for the log only.
pub record Fetched : Type 0 where
  pub market_id : ℕ
  pub symbol : ℕ
  pub price : ℕ

abbrev pub dot : ℕ
dot = 46

abbrev pub is_digit : ℕ → Bool
is_digit c = leb 48 c && leb c 57

-- `BigInt` on digits behind `n`; anything but a digit throws. The text of a number above 0 has no
-- sign in front, no space and no prefix. `BigInt("")` is 0.
unfoldable pub big_int : List ℕ → ℕ → Option ℕ
big_int [] n = some n
big_int (c ∷ s) n = if is_digit c then big_int s (n * 10 + (c - 48)) else none

-- The parts of `str.split(".")`: the first, and the second or "".
unfoldable pub before_dot : List ℕ → List ℕ
before_dot [] = []
before_dot (c ∷ s) = let rest = before_dot s in if c == dot then [] else c ∷ rest

unfoldable pub after_dot : List ℕ → List ℕ
unfolding before_dot
after_dot [] = []
after_dot (c ∷ s) = if c == dot then before_dot s else after_dot s

-- `padEnd(n, "0")`
unfoldable pub pad_end : ℕ → List ℕ → List ℕ
pad_end zero s = s
pad_end (suc n) [] = 48 ∷ pad_end n []
pad_end (suc n) (c ∷ s) = c ∷ pad_end n s

-- `_toPrice18`: `none` is the throw of `BigInt`.
unfoldable pub to_price18 : List ℕ → Option ℕ
unfolding big_int before_dot after_dot pad_end
to_price18 str = elim (big_int (before_dot str) 0) [
  | none ↦ none
  | some i ↦ elim (big_int (take 18 (pad_end 18 (after_dot str))) 0) [
    | none ↦ none
    | some f ↦ some (i * 10 ^ 18 + f)
  ]
]

-- `feedMap`: a later row of a symbol replaces an earlier one.
unfoldable pub feed_map : List Row → Dict Row → Dict Row
feed_map [] m = m
feed_map (r ∷ rs) m = feed_map rs (insert r.symbol r m)

-- `feed.mark_price ?? feed.index_price ?? feed.last_price ?? null`
unfoldable pub raw_price : Row → Option Number
raw_price r = elim r.mark_price [
  | some n ↦ some n
  | none ↦ elim r.index_price [ some n ↦ some n | none ↦ r.last_price ]
]

-- The number whose text a market's price is read from, if it is not skipped before.
unfoldable pub usable : Dict Row → Market → Option Number
unfolding raw_price
usable feeds m = elim (lookup m.orderly_symbol feeds) [
  | none ↦ none
  | some r ↦ elim (raw_price r) [ none ↦ none | some n ↦ if n.positive then some n else none ]
]

-- The loop over the markets: the results, `none` for a throw, and the last prices by symbol, which
-- keep what was set before a throw.
unfoldable pub collect :
    Dict Row → List Market → List Fetched → Dict ℕ → Option (List Fetched) × Dict ℕ
unfolding to_price18 usable
collect feeds [] results last = (some results, last)
collect feeds (m ∷ ms) results last = elim (usable feeds m) [
  | none ↦ collect feeds ms results last
  | some n ↦ elim (to_price18 n.text) [
    | none ↦ (none, last)
    | some price18 ↦
        let kept : Fetched = record {
          market_id = m.market_id;
          symbol = m.symbol;
          price = price18;
        } in
        collect feeds ms (if leb price18 0 then results else results ++ kept ∷ [])
          (if leb price18 0 then last else insert m.symbol price18 last)
  ]
]

-- `fetchPrices` on the rows of the response; `none` is an answer that is an error or has another
-- shape, which throws.
unfoldable pub fetch_prices :
    List Market → Option (List Row) → Dict ℕ → Option (List Fetched) × Dict ℕ
unfolding feed_map collect
fetch_prices markets none last = (none, last)
fetch_prices markets (some rows) last = collect (feed_map rows []) markets [] last
