-- ===== src/Engine/Refresh/Agreement.antt =====
-- The keeper and the engine keep their own caches of the same orders: what .keeper/src/state-cache.js
-- and .perps-engine/src/state-cache.js make of the same answers of the chain.
use sidiora_perpetual_protoc.Base.{
  ℕ, ◌-◌, ◌≤◌, ◌≡◌, refl, sym, ◌∙◌, Bool, true, false, not, ◌&&◌, ◌||◌, Option, none, some, List,
  [], ltb, if◌then◌else◌, includes, arith, Bool-cases, inl, inr,
}
use sidiora_perpetual_protoc.Base.Dict.{lookup}
use sidiora_perpetual_protoc.Protocol.{Order}
use sidiora_perpetual_protoc.Keeper.Cache
use sidiora_perpetual_protoc.Keeper.Refresh.{Answers, live_order, load, add_all}
use sidiora_perpetual_protoc.Keeper.Refresh
use sidiora_perpetual_protoc.Keeper.Refresh.Laws.{
  loaded, includes-add_all, OrderEvents, refresh_orders-chain,
}
use sidiora_perpetual_protoc.Engine.Refresh.{
  StateCache, order_candidates, refresh_orders_from_indexer, refresh_orders_from_chain,
  refresh_orders,
}

candidates_lem :
    (a : Answers) (placed cancelled executed : List ℕ)
    → OrderEvents a placed cancelled executed
    → order_candidates a ≡ some (add_all placed [])
unfolding order_candidates
candidates_lem a placed cancelled executed h = rw (h.block, order_candidates) (rw h.all_placed refl)

-- What the engine's fallback leaves of the orders.
refresh_orders-fallback :
    (interval : ℕ) (a : Answers) (c : StateCache) (placed cancelled executed : List ℕ) (id : ℕ)
    → interval ≤ a.now - c.last_order_refresh
    → a.indexed_orders ≡ none
    → OrderEvents a placed cancelled executed
    → lookup id (refresh_orders interval a c).maps.active_orders
      ≡ (if includes id placed then live_order (a.get_order id) else none)
unfolding refresh_orders
refresh_orders-fallback interval a c placed cancelled executed id due down h =
    let late : ltb (a.now - c.last_order_refresh) interval ≡ false = ground arith in
    let exact : lookup id (load (λ i. live_order (a.get_order i)) (add_all placed []) [])
        ≡ (if includes id placed then live_order (a.get_order id) else none) =
      loaded (λ i. live_order (a.get_order i)) id (add_all placed [])
      ∙ rw (includes-add_all id placed []) refl in
    let candidates = candidates_lem a placed cancelled executed h in
    elim (Bool-cases c.indexer_available) [
      | inl up ↦
          rw (late, up, down, refresh_orders_from_indexer, candidates, refresh_orders_from_chain)
            exact
      | inr off ↦ rw (late, off, candidates, refresh_orders_from_chain) exact
    ]

finished :
    (in_placed in_cancelled in_executed : Bool) (o : Option Order)
    → ((in_cancelled || in_executed) ≡ true → o ≡ none)
    → (if in_placed && not in_cancelled && not in_executed then o else none)
      ≡ (if in_placed then o else none)
finished p c e o h = grind arith

-- On the same answers, where the indexer fails and the chain answers the events' queries of
-- both and every cancelled or executed order is inactive or unreadable on chain, a refresh that
-- is due in each of the two by its own interval leaves the same orders in the keeper's and in
-- the engine's cache.
pub fallbacks_agree :
    (keeper_interval engine_interval : ℕ) (a : Answers) (k : Cache.StateCache) (c : StateCache)
    (placed cancelled executed : List ℕ)
    → keeper_interval ≤ a.now - k.last_order_refresh
    → engine_interval ≤ a.now - c.last_order_refresh
    → a.indexed_orders ≡ none
    → OrderEvents a placed cancelled executed
    → ((id : ℕ)
        → (includes id cancelled || includes id executed) ≡ true
        → live_order (a.get_order id) ≡ none)
    → (id : ℕ)
    → lookup id (Refresh.refresh_orders keeper_interval a k).active_orders
      ≡ lookup id (refresh_orders engine_interval a c).maps.active_orders
fallbacks_agree keeper_interval engine_interval a k c placed cancelled executed late_k late_c down h
      gone id =
    let (d, exact, t, f) =
      refresh_orders-chain keeper_interval a k placed cancelled executed late_k down h in
    exact id
    ∙ finished (includes id placed) (includes id cancelled) (includes id executed)
        (live_order (a.get_order id)) (gone id)
    ∙ sym (refresh_orders-fallback engine_interval a c placed cancelled executed id late_c down h)
