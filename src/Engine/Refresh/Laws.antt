-- ===== src/Engine/Refresh/Laws.antt =====
-- What a refresh of .perps-engine/src/state-cache.js leaves in the cache.
use sidiora_perpetual_protoc.Base.{
  ℕ, ◌-◌, ◌≤◌, ◌≡◌, refl, ap, ◌∙◌, true, false, ◌&&◌, Option, none, some, List, [], ◌∷◌, map, ltb,
  ◌==◌, if◌then◌else◌, includes, arith, Option-cases, inl, inr,
}
use sidiora_perpetual_protoc.Base.Dict.{
  Dict, lookup, insert, lookup-insert, Distinct, insert-Distinct,
}
use sidiora_perpetual_protoc.Protocol.{Position, FundingState, MarketEntry}
use sidiora_perpetual_protoc.Keeper.Refresh.{IndexedPosition, Answers, from_row, live_order}
use sidiora_perpetual_protoc.Keeper.Refresh.Laws.{loaded}
use sidiora_perpetual_protoc.Engine.Refresh.{
  StateCache, row_position, load_rows, refresh_positions_from_indexer, refresh_positions,
  refresh_positions_from_chain, refresh_orders_from_indexer, refresh_orders, refresh_market_configs,
  refresh_funding_states, check_indexer_health, Intervals, Round, refresh_all,
}

-- The last row of a position.
abbrev pub last_row : ℕ → List IndexedPosition → Option IndexedPosition
last_row id [] = none
last_row id (r ∷ rs) = elim (last_row id rs) [
  | some k ↦ some k
  | none ↦ if r.position_id == id then some r else none
]

-- What a refresh from the indexer knows of a position: the chain's entry of a listed position, if
-- it is active, and the last row where the chain cannot be read.
abbrev pub seen :
    (ℕ → Option Position) → List IndexedPosition → ℕ → Option Position → Option Position
seen get rows id old = elim (get id) [
  | some p ↦ if includes id (map (λ r. r.position_id) rows) && p.active then some p else old
  | none ↦ elim (last_row id rows) [ none ↦ old | some r ↦ some (from_row r) ]
]

module _ (get : ℕ → Option Position) where
  load_row : IndexedPosition → Dict Position → Dict Position
  load_row r m = elim (row_position get r) [ none ↦ m | some p ↦ insert r.position_id p m ]

  lookup-load_row :
      (id : ℕ) (r : IndexedPosition) (m : Dict Position)
      → lookup id (load_row r m) ≡ seen get (r ∷ []) id (lookup id m)
  unfolding load_row row_position
  lookup-load_row id r m = grind (arith, lookup-insert r.position_id id _ m)

  seen-cons :
      (id : ℕ) (r : IndexedPosition) (rs : List IndexedPosition) (old : Option Position)
      → seen get rs id (seen get (r ∷ []) id old) ≡ seen get (r ∷ rs) id old
  seen-cons id r rs old = grind arith

  lookup-load_rows :
      (id : ℕ) (rs : List IndexedPosition) (m : Dict Position)
      → lookup id (load_rows get rs m) ≡ seen get rs id (lookup id m)
  unfolding load_rows load_row
  lookup-load_rows id [] m = grind arith
  lookup-load_rows id (r ∷ rs) m =
      lookup-load_rows id rs (load_row r m)
      ∙ ap (seen get rs id) (lookup-load_row id r m)
      ∙ seen-cons id r rs (lookup id m)

  pub load_rows-Distinct :
      (rs : List IndexedPosition) (m : Dict Position) → Distinct m → Distinct (load_rows get rs m)
  unfolding load_rows
  load_rows-Distinct [] m d = d
  load_rows-Distinct (r ∷ rs) m d = elim (Option-cases (row_position get r)) [
    | inl e ↦ rw (e, load_rows) (load_rows-Distinct rs m d)
    | inr (p, e) ↦
        rw (e, load_rows)
          (load_rows-Distinct rs (insert r.position_id p m) (insert-Distinct r.position_id p m d))
  ]

-- A due refresh of the engine's positions, while the indexer is thought available and answers,
-- leaves each position once: as it is on chain if the indexer lists it and it is active there,
-- as its last row where the chain cannot be read, and no other, and stores the time.
refresh_positions-indexer :
    (interval : ℕ) (a : Answers) (c : StateCache) (rows : List IndexedPosition)
    → interval ≤ a.now - c.last_position_refresh
    → c.indexer_available ≡ true
    → a.indexed_positions ≡ some rows
    → let c' = refresh_positions interval a c in
      Distinct c'.maps.active_positions
      × ((id : ℕ) → lookup id c'.maps.active_positions ≡ seen a.get_position rows id none)
      × (c'.last_position_refresh ≡ a.now)
unfolding refresh_positions
refresh_positions-indexer interval a c rows due up e =
    let late : ltb (a.now - c.last_position_refresh) interval ≡ false = ground arith in
    rw (late, up, e, refresh_positions_from_indexer)
      (
        load_rows-Distinct a.get_position rows [] tt,
        (λ id. lookup-load_rows a.get_position id rows []),
        refl,
      )

refresh_positions-orders :
    (i : ℕ) (a : Answers) (c : StateCache)
    → (refresh_positions i a c).maps.active_orders ≡ c.maps.active_orders
unfolding refresh_positions refresh_positions_from_indexer refresh_positions_from_chain
refresh_positions-orders i a c = grind arith

refresh_funding_states-orders :
    (get : ℕ → Option FundingState) (a : Answers) (ms : List MarketEntry) (c : StateCache)
    → (refresh_funding_states get a ms c).maps.active_orders ≡ c.maps.active_orders
unfolding refresh_funding_states
refresh_funding_states-orders get a ms c = grind arith

check_indexer_health-orders :
    (a : Answers) (c : StateCache)
    → (check_indexer_health a c).maps.active_orders ≡ c.maps.active_orders
unfolding check_indexer_health
check_indexer_health-orders a c = grind arith

refresh_market_configs-orders :
    (i : ℕ) (a : Answers) (ms : List MarketEntry) (c : StateCache)
    → (refresh_market_configs i a ms c).maps.active_orders ≡ c.maps.active_orders
unfolding refresh_market_configs
refresh_market_configs-orders i a ms c = grind arith

healthy :
    (i : ℕ) (a b : Answers) (ms : List MarketEntry) (c : StateCache)
    → a.indexer_status ≡ true
    → (refresh_market_configs i b ms (check_indexer_health a c)).indexer_available ≡ true
unfolding refresh_market_configs check_indexer_health
healthy i a b ms c h = grind arith

refresh_orders-indexer :
    (interval : ℕ) (a : Answers) (c : StateCache) (ids : List ℕ) (id : ℕ)
    → interval ≤ a.now - c.last_order_refresh
    → c.indexer_available ≡ true
    → a.indexed_orders ≡ some ids
    → lookup id (refresh_orders interval a c).maps.active_orders
      ≡ (if includes id ids then live_order (a.get_order id) else none)
unfolding refresh_orders
refresh_orders-indexer interval a c ids id due up e =
    let late : ltb (a.now - c.last_order_refresh) interval ≡ false = ground arith in
    rw (late, up, e, refresh_orders_from_indexer) (loaded (λ i. live_order (a.get_order i)) id ids)

-- If the indexer answers the health check of one round of refreshes, whatever state the cache
-- was in, and lists orders in a later round in which the orders are due, the first that
-- follows, the cache then holds exactly the listed orders that are active on chain.
pub refresh_all-reconnects :
    (iv : Intervals) (get : ℕ → Option FundingState) (first second : Round)
    (markets : List MarketEntry) (c : StateCache) (ids : List ℕ) (id : ℕ)
    → first.health.indexer_status ≡ true
    → second.orders.indexed_orders ≡ some ids
    → iv.order_refresh ≤ second.orders.now - (refresh_all iv get first markets c).last_order_refresh
    → lookup id
        (refresh_all iv get second markets (refresh_all iv get first markets c)).maps.active_orders
      ≡ (if includes id ids then live_order (second.orders.get_order id) else none)
unfolding refresh_all
refresh_all-reconnects iv get first second markets c ids id up e due =
    let b = refresh_funding_states get first.funding markets (
      refresh_positions iv.position_refresh first.positions
        (refresh_orders iv.order_refresh first.orders c)) in
    let c' = refresh_all iv get first markets c in
    let c₁ = refresh_orders iv.order_refresh second.orders c' in
    let c₂ = refresh_positions iv.position_refresh second.positions c₁ in
    let c₃ = refresh_funding_states get second.funding markets c₂ in
    let c₄ = check_indexer_health second.health c₃ in
    let same : (refresh_all iv get second markets c').maps.active_orders ≡ c₁.maps.active_orders =
      refresh_market_configs-orders iv.market_config_refresh second.markets markets c₄
      ∙ check_indexer_health-orders second.health c₃
      ∙ refresh_funding_states-orders get second.funding markets c₂
      ∙ refresh_positions-orders iv.position_refresh second.positions c₁ in
    ap (lookup id) same
    ∙ refresh_orders-indexer iv.order_refresh second.orders c' ids id due
        (healthy iv.market_config_refresh first.health first.markets markets b up) e
