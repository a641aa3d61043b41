-- ===== src/Engine/Cycle.antt =====
-- A cycle of .perps-engine/index.js, up to the health check: the prices go into the cache, the
-- scanners run on them, everything goes out as one transaction, and after a success the orders and
-- positions that were sent leave the cache. `buildFullCycle` is .perps-engine/src/cycle-builder.js.
use sidiora_perpetual_protoc.Base.{
  ℕ, ◌≡◌, refl, ◌∙◌, Bool, true, false, none, List, [], ◌∷◌, ◌++◌, map, ◌&&◌, ◌||◌, not,
  if◌then◌else◌, includes, arith, Bool-cases, inl, inr,
}
use sidiora_perpetual_protoc.Base.Dict.{
  Dict, lookup, insert, erase, Distinct, erase-Distinct, lookup-erase_self, lookup-erase_ne,
}
use sidiora_perpetual_protoc.Engine.Cache.{Cache}
use sidiora_perpetual_protoc.Engine.Orders
use sidiora_perpetual_protoc.Engine.Liquidations

-- A fetched price; the fetchers keep only positive ones.
pub record Quote : Type 0 where
  pub market_id : ℕ
  pub symbol : ℕ
  pub price : ℕ

-- `executeCycle` with its four arrays, or `executePriceCycle`.
pub data Call : Type 0 where
  full_cycle : List ℕ → List ℕ → List ℕ → List ℕ → Call
  price_cycle : List ℕ → List ℕ → Call

abbrev pub is_empty {ℓ} : {A : Type ℓ} → List A → Bool
is_empty [] = true
is_empty (x ∷ xs) = false

-- `buildFullCycle` and the choice of the method by `isFullCycle`.
unfoldable pub build_full_cycle : List Quote → List ℕ → List ℕ → Call
build_full_cycle quotes order_ids liquidation_ids =
    let market_ids = map (λ q. q.market_id) quotes in
    let prices = map (λ q. q.price) quotes in
    if not (is_empty order_ids) || not (is_empty liquidation_ids)
    then full_cycle market_ids prices order_ids liquidation_ids
    else price_cycle market_ids prices

-- `updatePrices`
unfoldable pub update_prices : List Quote → Dict ℕ → Dict ℕ
update_prices [] prices = prices
update_prices (q ∷ qs) prices = update_prices qs (insert q.market_id q.price prices)

unfoldable pub track : List Quote → Dict ℕ → Dict ℕ
track [] submitted = submitted
track (q ∷ qs) submitted = track qs (insert q.symbol q.price submitted)

unfoldable pub remove_all {ℓ} : {V : Type ℓ} → List ℕ → Dict V → Dict V
remove_all [] m = m
remove_all (id ∷ ids) m = remove_all ids (erase id m)

-- The engine; `calls` lists what was submitted.
pub record State (E : Type 0) : Type 0 where
  pub cache : Cache
  pub prices : Dict ℕ
  pub submitted_prices : Dict ℕ
  pub order_stats : Orders.Stats
  pub liquidation_stats : Liquidations.Stats
  pub submitter : E
  pub calls : List Call

-- The `if (result.success)` of a cycle.
unfoldable pub settle : {E : Type 0} → Bool → List Quote → List ℕ → List ℕ → State E → State E
unfolding track remove_all
settle success quotes order_ids liquidation_ids s =
    if success
    then record s {
      submitted_prices = track quotes s.submitted_prices;
      cache = record s.cache {
        active_orders = remove_all order_ids s.cache.active_orders;
        active_positions = remove_all liquidation_ids s.cache.active_positions;
      };
    }
    else s

-- The submission of a call: whether it succeeded.
module _ {E : Type 0} (submit : Call → E → Bool × E) where
  -- A cycle without any price ends at once.
  unfoldable pub run_cycle : List Quote → State E → State E
  unfolding build_full_cycle update_prices settle Orders.scan Liquidations.scan
  run_cycle [] s = s
  run_cycle (q ∷ qs) s =
      let prices = update_prices (q ∷ qs) s.prices in
      let (order_ids, order_stats') = Orders.scan prices s.cache.active_orders s.order_stats in
      let (position_ids, liquidation_stats') =
        Liquidations.scan s.cache prices s.liquidation_stats in
      let call = build_full_cycle (q ∷ qs) order_ids position_ids in
      let (success, submitter') = submit call s.submitter in
      settle success (q ∷ qs) order_ids position_ids (record s {
        prices = prices;
        order_stats = order_stats';
        liquidation_stats = liquidation_stats';
        submitter = submitter';
        calls = s.calls ++ call ∷ [];
      })

lookup-remove_all {ℓ} :
    {V : Type ℓ} (id : ℕ) (ids : List ℕ) (m : Dict V)
    → Distinct m
    → lookup id (remove_all ids m) ≡ (if includes id ids then none else lookup id m)
unfolding remove_all
lookup-remove_all id [] m d = refl
lookup-remove_all id (j ∷ ids) m d =
    lookup-remove_all id ids (erase j m) (erase-Distinct j m d)
    ∙ ground (arith, lookup-erase_self j m d, lookup-erase_ne j id m)

-- A cycle with at least one price, on a cache with distinct keys, submits one call with what
-- the scanners find at the new prices; an order or a position leaves the cache exactly if the
-- submission succeeded and the scan found it, and is cached as before otherwise.
run_cycle_settles :
    {E : Type 0} (submit : Call → E → Bool × E) (q : Quote) (qs : List Quote) (s : State E) (id : ℕ)
    → Distinct s.cache.active_orders
    → Distinct s.cache.active_positions
    → let prices = update_prices (q ∷ qs) s.prices in
      let triggered = (Orders.scan prices s.cache.active_orders s.order_stats).0 in
      let found = (Liquidations.scan s.cache prices s.liquidation_stats).0 in
      let call = build_full_cycle (q ∷ qs) triggered found in
      let success = (submit call s.submitter).0 in
      let t = run_cycle submit (q ∷ qs) s in
      (t.calls ≡ s.calls ++ call ∷ [])
      × (lookup id t.cache.active_orders
          ≡ (if success && includes id triggered then none else lookup id s.cache.active_orders))
      × (lookup id t.cache.active_positions
          ≡ (if success && includes id found then none else lookup id s.cache.active_positions))
unfolding run_cycle settle
run_cycle_settles submit q qs s id d e =
    let prices = update_prices (q ∷ qs) s.prices in
    let triggered = (Orders.scan prices s.cache.active_orders s.order_stats).0 in
    let found = (Liquidations.scan s.cache prices s.liquidation_stats).0 in
    let call = build_full_cycle (q ∷ qs) triggered found in
    elim (Bool-cases (submit call s.submitter).0) [
      | inl y ↦
          rw (y, settle)
            (
              refl,
              lookup-remove_all id triggered s.cache.active_orders d,
              lookup-remove_all id found s.cache.active_positions e,
            )
      | inr n ↦ rw (n, settle) (refl, refl, refl)
    ]
