-- ===== src/Keeper/Cycle/Laws.antt =====
-- The flag and the price cache of .keeper/index.js over its cycles.
use sidiora_perpetual_protoc.Base.{
  ℕ, ◌≤◌, ◌≡◌, refl, ◌∙◌, Bool, true, false, Option, some, List, [], ◌∷◌, if◌then◌else◌, arith,
  length, Bool-cases, inl, inr, filter,
}
use sidiora_perpetual_protoc.Base.Sort.{sort_by}
use sidiora_perpetual_protoc.Protocol.{Order, MarketEntry, TxResult}
use sidiora_perpetual_protoc.Keeper.Cache.{StateCache, remove_order, remove_position}
use sidiora_perpetual_protoc.Keeper.Orders
use sidiora_perpetual_protoc.Keeper.Liquidations
use sidiora_perpetual_protoc.Keeper.Liquidations.{Candidate}
use sidiora_perpetual_protoc.Base.Outcome.{M}
use sidiora_perpetual_protoc.Keeper.Cycle.{
  Modules, Node, Calls, Scanners, PriceEvent, set_prices, run_vamm, run_orders, run_liquidations,
  own_scanners,
}

orders-prices :
    {E : Type 0} (call : ℕ → E → TxResult × E) (os : List (ℕ × Order)) (s : Orders.State E)
    → (Orders.execute_all call os s).cache.prices ≡ s.cache.prices
unfolding Orders.execute_all remove_order
orders-prices call [] s = refl
orders-prices call ((id, o) ∷ os) s =
    orders-prices call os (Orders.execute_triggered_order call (id, o) s)
    ∙ dropped (Orders.settles (call id s.executor).0)
  where
    dropped : (b : Bool) → (if b then remove_order id s.cache else s.cache).prices ≡ s.cache.prices
    dropped true = refl
    dropped false = refl

liquidations-prices :
    {E : Type 0} (check : ℕ → E → Option Bool × E) (call : ℕ → E → TxResult × E)
    (ks : List Candidate) (s : Liquidations.State E)
    → (Liquidations.execute_all check call ks s).cache.prices ≡ s.cache.prices
unfolding Liquidations.execute_all remove_position
liquidations-prices check call [] s = refl
liquidations-prices check call (k ∷ ks) s =
    liquidations-prices check call ks (Liquidations.execute_liquidation check call k s)
    ∙ dropped (Liquidations.settles (Liquidations.attempt check call k.position_id s.executor).0)
  where
    dropped :
        (b : Bool)
        → (if b then remove_position k.position_id s.cache else s.cache).prices ≡ s.cache.prices
    dropped true = refl
    dropped false = refl

scan_orders-prices :
    {E : Type 0} (call : ℕ → E → TxResult × E) (updated : Option (List ℕ)) (s : Orders.State E)
    → (Orders.scan call updated s).cache.prices ≡ s.cache.prices
unfolding Orders.scan
scan_orders-prices call updated s =
    orders-prices call (filter (Orders.selects s.cache updated) s.cache.active_orders)
      (Orders.begin_scan s)

scan_liquidations-prices :
    {E : Type 0} (check : ℕ → E → Option Bool × E) (call : ℕ → E → TxResult × E)
    (updated : Option (List ℕ)) (s : Liquidations.State E)
    → (Liquidations.scan check call updated s).cache.prices ≡ s.cache.prices
unfolding Liquidations.scan
scan_liquidations-prices check call updated s =
    let found = Liquidations.collect s.cache updated s.cache.active_positions in
    liquidations-prices check call (sort_by (λ k. k.margin_bps) found.1)
      (Liquidations.begin_scan found.0 s)

-- What a module leaves alone, also where it throws: the number of cycles and the prices.
pub record Confined {E : Type 0} (m : List ℕ → M (Node E) Unit) : Type 0 where
  pub count : (ids : List ℕ) (n : Node E) → (m ids n).1.cycle_count ≡ n.cycle_count
  pub prices : (ids : List ℕ) (n : Node E) → (m ids n).1.cache.prices ≡ n.cache.prices

pub record AllConfined {E : Type 0} (scanners : Scanners E) : Type 0 where
  pub sync_all : Confined scanners.sync_all
  pub scan_orders : Confined scanners.scan_orders
  pub scan_liquidations : Confined scanners.scan_liquidations

-- The price cache after the prices of some events.
unfoldable pub set_all : List PriceEvent → StateCache → StateCache
unfolding set_prices
set_all [] c = c
set_all (e ∷ es) c = set_all es (set_prices e.now e.market_ids e.prices c)

-- An event with a price for each market.
abbrev pub Priced : PriceEvent → Type 0
Priced e = length e.market_ids ≤ length e.prices

module _ {E : Type 0} (calls : Calls E) (markets : List MarketEntry) (modules : Modules) where
  run_vamm-prices :
      (ids : List ℕ) (n : Node E)
      → (run_vamm calls markets modules ids n).cache.prices ≡ n.cache.prices
  unfolding run_vamm
  run_vamm-prices ids n = elim (Bool-cases modules.vamm_sync) [
    | inl e ↦ rw e refl
    | inr e ↦ rw e refl
  ]

  run_orders-prices :
      (ids : List ℕ) (n : Node E)
      → (run_orders calls markets modules ids n).cache.prices ≡ n.cache.prices
  unfolding run_orders
  run_orders-prices ids n = elim (Bool-cases modules.orders) [
    | inl e ↦ rw e (
        scan_orders-prices calls.execute_order (some ids)
          (record { cache = n.cache; stats = n.order_stats; executor = n.executor; log = [] }))
    | inr e ↦ rw e refl
  ]

  run_liquidations-prices :
      (ids : List ℕ) (n : Node E)
      → (run_liquidations calls markets modules ids n).cache.prices ≡ n.cache.prices
  unfolding run_liquidations
  run_liquidations-prices ids n = elim (Bool-cases modules.liquidations) [
    | inl e ↦ rw e (
        scan_liquidations-prices calls.check_liquidatable calls.liquidate (some ids) (record {
          cache = n.cache;
          stats = n.liquidation_stats;
          executor = n.executor;
          log = [];
        }))
    | inr e ↦ rw e refl
  ]

  run_vamm-count :
      (ids : List ℕ) (n : Node E)
      → (run_vamm calls markets modules ids n).cycle_count ≡ n.cycle_count
  unfolding run_vamm
  run_vamm-count ids n = ground arith

  run_orders-count :
      (ids : List ℕ) (n : Node E)
      → (run_orders calls markets modules ids n).cycle_count ≡ n.cycle_count
  unfolding run_orders
  run_orders-count ids n = ground arith

  run_liquidations-count :
      (ids : List ℕ) (n : Node E)
      → (run_liquidations calls markets modules ids n).cycle_count ≡ n.cycle_count
  unfolding run_liquidations
  run_liquidations-count ids n = ground arith

  -- The keeper's own modules leave the count and the prices alone.
  pub own_scanners-Confined : AllConfined (own_scanners calls markets modules)
  own_scanners-Confined = record {
    sync_all = record { count = run_vamm-count; prices = run_vamm-prices };
    scan_orders = record { count = run_orders-count; prices = run_orders-prices };
    scan_liquidations = record { count = run_liquidations-count; prices = run_liquidations-prices };
  }
