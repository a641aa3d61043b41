-- ===== src/Engine/Orders.antt =====
-- `OrderScanner` of .perps-engine/src/scanners/order-scanner.js, beside the contract's check.
use sidiora_perpetual_protoc.Base.{
  ℕ, ◌+◌, ◌≡◌, ◌≢◌, Bool, true, false, none, some, List, [], ◌∷◌, map, ◌&&◌, leb, ◌==◌,
  if◌then◌else◌, filter, length, All, arith, refl, ap, Option-cases, inl, inr,
}
use sidiora_perpetual_protoc.Base.Dict.{Dict, lookup}
use sidiora_perpetual_protoc.Protocol.{
  Order, limit_type, stop_limit_type, take_profit_type, stop_loss_type,
}
use sidiora_perpetual_protoc.Chain.{check_trigger}

-- `order.limitPrice || order.triggerPrice`
abbrev pub effective_limit : Order → ℕ
effective_limit o = if o.limit_price == 0 then o.trigger_price else o.limit_price

-- `_isTriggered`
unfoldable pub is_triggered : Order → ℕ → Bool
is_triggered o price =
    if o.order_type == limit_type
    then (if o.is_long then leb price o.trigger_price else leb o.trigger_price price)
    else (if o.order_type == stop_limit_type
        then (if o.is_long
            then leb o.trigger_price price && leb price (effective_limit o)
            else leb price o.trigger_price && leb (effective_limit o) price)
        else (if o.order_type == take_profit_type
            then (if o.is_long then leb o.trigger_price price else leb price o.trigger_price)
            else (if o.order_type == stop_loss_type
                then (if o.is_long then leb price o.trigger_price else leb o.trigger_price price)
                else false)))

pub record Stats : Type 0 where
  pub scans_performed : ℕ
  pub orders_triggered : ℕ

-- A round of the loop: an order with a missing price or a price of 0 is skipped.
abbrev pub at_price : (Order → ℕ → Bool) → Dict ℕ → ℕ × Order → Bool
at_price test prices (id, o) = elim (lookup o.market_id prices) [
  | none ↦ false
  | some price ↦ if price == 0 then false else test o price
]

-- `scan`: the ids of the triggered orders, and the counters.
unfoldable pub scan : Dict ℕ → Dict Order → Stats → List ℕ × Stats
unfolding is_triggered
scan prices orders s =
    let triggered = map (λ o. o.0) (filter (at_price is_triggered prices) orders) in
    (
      triggered,
      record {
        scans_performed = s.scans_performed + 1;
        orders_triggered = s.orders_triggered + length triggered;
      },
    )

-- A stop-limit order has a limit.
abbrev pub Limited : ℕ × Order → Type 0
Limited (id, o) = (o.order_type ≡ 1) → o.limit_price ≢ 0

same_test :
    (o : Order) (price : ℕ)
    → ((o.order_type ≡ 1) → o.limit_price ≢ 0)
    → is_triggered o price ≡ check_trigger o price
unfolding is_triggered check_trigger
same_test o price h = ground arith

same_filter :
    (prices : Dict ℕ) (os : Dict Order)
    → All Limited os
    → filter (at_price is_triggered prices) os ≡ filter (at_price check_trigger prices) os
same_filter prices [] h = refl
same_filter prices ((id, o) ∷ os) (l, h) = elim (Option-cases (lookup o.market_id prices)) [
  | inl e ↦ rw (e, at_price) (same_filter prices os h)
  | inr (price, e) ↦ rw (e, at_price, same_test o price l) (rw (same_filter prices os h) refl)
]

-- Where every stop-limit order has a limit other than 0, the engine's scan returns exactly the
-- orders that the contract's trigger check accepts at the scanned prices, in cache order, and
-- counts them.
pub scan_eq-check_trigger :
    (prices : Dict ℕ) (orders : Dict Order) (s : Stats)
    → All Limited orders
    → let accepted = map (λ o. o.0) (filter (at_price check_trigger prices) orders) in
      ((scan prices orders s).0 ≡ accepted)
      × ((scan prices orders s).1.orders_triggered ≡ s.orders_triggered + length accepted)
unfolding scan
scan_eq-check_trigger prices orders s h =
    let e = same_filter prices orders h in
    (ap (λ l. map (λ o. o.0) l) e, ap (λ l. s.orders_triggered + length (map (λ o. o.0) l)) e)

-- A long stop-limit order with limit 0 and a trigger price other than 0 is triggered by the
-- engine at its trigger price, while the contract's check refuses it at every price but 0.
pub unlimited_order_refused :
    (o : Order)
    → o.order_type ≡ 1
    → o.is_long ≡ true
    → o.limit_price ≡ 0
    → o.trigger_price ≢ 0
    → (is_triggered o o.trigger_price ≡ true)
      × ((price : ℕ) → price ≢ 0 → check_trigger o price ≡ false)
unfolding is_triggered check_trigger
unlimited_order_refused o t l z n = (ground arith, λ price p. ground arith)
