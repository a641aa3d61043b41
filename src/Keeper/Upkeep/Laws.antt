-- ===== src/Keeper/Upkeep/Laws.antt =====
-- What the periodic refresh of .keeper/index.js does to the cache of the orders.
use sidiora_perpetual_protoc.Base.{
  ℕ, ◌-◌, ◌≤◌, ◌≡◌, refl, ap, ◌∙◌, true, none, some, List, [], ◌∷◌, if◌then◌else◌, includes, arith,
  Option-cases, inl, inr,
}
use sidiora_perpetual_protoc.Base.Dict.{lookup}
use sidiora_perpetual_protoc.Protocol.{MarketEntry}
use sidiora_perpetual_protoc.Keeper.Cache.{StateCache}
use sidiora_perpetual_protoc.Keeper.Refresh.{
  Answers, live_order, refresh_positions, refresh_positions_from_indexer,
  refresh_positions_from_chain, load_markets, refresh_market_configs, check_indexer_health,
}
use sidiora_perpetual_protoc.Keeper.Refresh.Laws.{refresh_orders-indexer}
use sidiora_perpetual_protoc.Keeper.Cycle.{Modules, Node}
use sidiora_perpetual_protoc.Keeper.Upkeep.{
  Intervals, Round, tend_orders, tend_positions, tend_cache, refresh_tick,
}

refresh_positions-orders :
    (i : ℕ) (a : Answers) (c : StateCache)
    → (refresh_positions i a c).active_orders ≡ c.active_orders
unfolding refresh_positions refresh_positions_from_indexer refresh_positions_from_chain
refresh_positions-orders i a c = grind arith

check_indexer_health-orders :
    (a : Answers) (c : StateCache) → (check_indexer_health a c).active_orders ≡ c.active_orders
unfolding check_indexer_health
check_indexer_health-orders a c = grind arith

-- Loading market configurations touches neither the orders nor the flag.
load_markets_keeps :
    (a : Answers) (ms : List MarketEntry) (c : StateCache)
    → ((load_markets a ms c).active_orders ≡ c.active_orders)
      × ((load_markets a ms c).indexer_available ≡ c.indexer_available)
unfolding load_markets
load_markets_keeps a [] c = (refl, refl)
load_markets_keeps a (m ∷ ms) c = elim (Option-cases (a.get_market m.market_id)) [
  | inl e ↦ rw (e, load_markets) (load_markets_keeps a ms c)
  | inr (k, e) ↦ rw (e, load_markets) (load_markets_keeps a ms _)
]

refresh_market_configs_keeps :
    (a : Answers) (ms : List MarketEntry) (c : StateCache)
    → ((refresh_market_configs a ms c).active_orders ≡ c.active_orders)
      × ((refresh_market_configs a ms c).indexer_available ≡ c.indexer_available)
unfolding refresh_market_configs
refresh_market_configs_keeps a ms c = grind (arith, load_markets_keeps a ms c)

module _ (iv : Intervals) (markets : List MarketEntry) (modules : Modules) where
  tend_positions-orders :
      (a : Answers) (c : StateCache)
      → (tend_positions iv markets modules a c).active_orders ≡ c.active_orders
  unfolding tend_positions
  tend_positions-orders a c = grind (arith, refresh_positions-orders)

  tend_cache-orders :
      (a : Round) (c : StateCache)
      → (tend_cache iv markets modules a c).active_orders
        ≡ (tend_orders iv markets modules a.orders c).active_orders
  unfolding tend_cache
  tend_cache-orders a c =
      (refresh_market_configs_keeps a.markets markets _).0
      ∙ check_indexer_health-orders a.health _
      ∙ tend_positions-orders a.positions _

  healthy :
      (a : Answers) (c : StateCache)
      → a.indexer_status ≡ true
      → (check_indexer_health a c).indexer_available ≡ true
  unfolding check_indexer_health
  healthy a c h = grind arith

  tend_cache-available :
      (a : Round) (c : StateCache)
      → a.health.indexer_status ≡ true
      → (tend_cache iv markets modules a c).indexer_available ≡ true
  unfolding tend_cache
  tend_cache-available a c h =
      (refresh_market_configs_keeps a.markets markets _).1
      ∙ healthy a.health
          (tend_positions iv markets modules a.positions
            (tend_orders iv markets modules a.orders c))
          h

  tend_orders-indexer :
      (a : Answers) (c : StateCache) (ids : List ℕ) (id : ℕ)
      → modules.orders ≡ true
      → iv.order_refresh ≤ a.now - c.last_order_refresh
      → c.indexer_available ≡ true
      → a.indexed_orders ≡ some ids
      → lookup id (tend_orders iv markets modules a c).active_orders
        ≡ (if includes id ids then live_order (a.get_order id) else none)
  unfolding tend_orders
  tend_orders-indexer a c ids id on due up e =
      rw on ((refresh_orders-indexer iv.order_refresh a c ids due up e).1 id)

  module _ {E : Type 0} where
    -- If the orders are enabled and the indexer answers the health check of one tick of the
    -- keeper's refresh, whatever state the node was in, and lists orders in the next tick, in
    -- which the orders are due, the cache then holds exactly the listed orders that are active
    -- on chain.
    refresh_tick-reconnects :
        (first second : Round) (n : Node E) (ids : List ℕ) (id : ℕ)
        → modules.orders ≡ true
        → first.health.indexer_status ≡ true
        → second.orders.indexed_orders ≡ some ids
        → iv.order_refresh
          ≤ second.orders.now - (refresh_tick iv markets modules first n).cache.last_order_refresh
        → lookup id
            (refresh_tick iv markets modules second
              (refresh_tick iv markets modules first n)).cache.active_orders
          ≡ (if includes id ids then live_order (second.orders.get_order id) else none)
    unfolding refresh_tick
    refresh_tick-reconnects first second n ids id on up e due =
        let c = tend_cache iv markets modules first n.cache in
        ap (lookup id) (tend_cache-orders second c)
        ∙ tend_orders-indexer second.orders c ids id on due (tend_cache-available first n.cache up)
            e
