-- ===== src/Engine/Main/Invariants.antt =====
-- What every cycle of .perps-engine/index.js preserves.
use sidiora_perpetual_protoc.Base.{
  ℕ, ◌-◌, ◌++◌, ltb, Bool, true, false, Option, List, [], ◌∷◌, length, arith, Bool-cases,
  Option-cases, inl, inr,
}
use sidiora_perpetual_protoc.Base.Dict.{Dict, Distinct, erase, erase-Distinct}
use sidiora_perpetual_protoc.Protocol.{FundingState, MarketEntry}
use sidiora_perpetual_protoc.Retry
use sidiora_perpetual_protoc.Keeper.Refresh.{Answers, live_order, live_position}
use sidiora_perpetual_protoc.Keeper.Refresh.Laws.{load-Distinct}
use sidiora_perpetual_protoc.Engine.Cycle
use sidiora_perpetual_protoc.Engine.Cycle.{Call, Quote, remove_all, settle}
use sidiora_perpetual_protoc.Engine.Orders
use sidiora_perpetual_protoc.Engine.Liquidations
use sidiora_perpetual_protoc.Engine.Submitter.{Stats, submission}
use sidiora_perpetual_protoc.Engine.Submitter.Laws.{Counted, run_cycle-Counted}
use sidiora_perpetual_protoc.Engine.Sources.{fetch_all}
use sidiora_perpetual_protoc.Engine.Refresh.{
  StateCache, refresh_orders, refresh_orders_from_indexer, refresh_orders_from_chain,
  order_candidates, refresh_positions, refresh_positions_from_indexer, refresh_positions_from_chain,
  position_candidates, refresh_funding_states, check_indexer_health, refresh_market_configs,
  Intervals, Round, refresh_all,
}
use sidiora_perpetual_protoc.Engine.Refresh.Laws.{load_rows-Distinct}
use sidiora_perpetual_protoc.Engine.Health.Alerts.{Tracks, check_after_cycle-Tracks}
use sidiora_perpetual_protoc.Engine.Main.{
  Config, Outside, Node, scanned, put_back, after_submission, with_prices, run_cycle, run_cycles,
}

-- Each order and each position is cached once.
abbrev pub Once : StateCache → Type 0
Once c = Distinct c.maps.active_orders × Distinct c.maps.active_positions

orders_from_chain-Once :
    (a : Answers) (c : StateCache) → Once c → Once (refresh_orders_from_chain a c)
unfolding refresh_orders_from_chain
orders_from_chain-Once a c (o, p) = elim (Option-cases (order_candidates a)) [
  | inl e ↦ rw (e, refresh_orders_from_chain) (o, p)
  | inr (ids, e) ↦
      rw (e, refresh_orders_from_chain)
        (load-Distinct (λ id. live_order (a.get_order id)) ids [] tt, p)
]

pub refresh_orders-Once :
    (i : ℕ) (a : Answers) (c : StateCache) → Once c → Once (refresh_orders i a c)
unfolding refresh_orders refresh_orders_from_indexer
refresh_orders-Once i a c h = elim (Bool-cases (ltb (a.now - c.last_order_refresh) i)) [
  | inl e ↦ rw e h
  | inr e ↦ elim (Bool-cases c.indexer_available) [
    | inr off ↦ rw (e, off) (orders_from_chain-Once a (record c { indexer_available = false }) h)
    | inl up ↦ elim (Option-cases a.indexed_orders) [
      | inl q ↦
          rw (e, up, q, refresh_orders_from_indexer)
            (orders_from_chain-Once a (record c { indexer_available = false }) h)
      | inr (ids, q) ↦
          rw (e, up, q, refresh_orders_from_indexer)
            (load-Distinct (λ id. live_order (a.get_order id)) ids [] tt, h.1)
    ]
  ]
]

positions_from_chain-Once :
    (a : Answers) (c : StateCache) → Once c → Once (refresh_positions_from_chain a c)
unfolding refresh_positions_from_chain
positions_from_chain-Once a c (o, p) = elim (Option-cases (position_candidates a)) [
  | inl e ↦ rw (e, refresh_positions_from_chain) (o, p)
  | inr (ids, e) ↦
      rw (e, refresh_positions_from_chain)
        (o, load-Distinct (λ id. live_position (a.get_position id)) ids [] tt)
]

pub refresh_positions-Once :
    (i : ℕ) (a : Answers) (c : StateCache) → Once c → Once (refresh_positions i a c)
unfolding refresh_positions refresh_positions_from_indexer
refresh_positions-Once i a c h = elim (Bool-cases (ltb (a.now - c.last_position_refresh) i)) [
  | inl e ↦ rw e h
  | inr e ↦ elim (Bool-cases c.indexer_available) [
    | inr off ↦ rw (e, off) (positions_from_chain-Once a (record c { indexer_available = false }) h)
    | inl up ↦ elim (Option-cases a.indexed_positions) [
      | inl q ↦ rw (e, up, q, refresh_positions_from_indexer) (positions_from_chain-Once a c h)
      | inr (rows, q) ↦
          rw (e, up, q, refresh_positions_from_indexer)
            (h.0, load_rows-Distinct a.get_position rows [] tt)
    ]
  ]
]

pub funding-Once :
    (get : ℕ → Option FundingState) (a : Answers) (ms : List MarketEntry) (c : StateCache)
    → Once c
    → Once (refresh_funding_states get a ms c)
unfolding refresh_funding_states
funding-Once get a ms c h = elim (Bool-cases (ltb (a.now - c.last_funding_refresh) 60000)) [
  | inl e ↦ rw e h
  | inr e ↦ rw e h
]

pub health-Once : (a : Answers) (c : StateCache) → Once c → Once (check_indexer_health a c)
unfolding check_indexer_health
health-Once a c h = grind arith

pub markets-Once :
    (i : ℕ) (a : Answers) (ms : List MarketEntry) (c : StateCache)
    → Once c
    → Once (refresh_market_configs i a ms c)
unfolding refresh_market_configs
markets-Once i a ms c h = elim (Bool-cases (ltb (a.now - c.last_market_refresh) i)) [
  | inl e ↦ rw e h
  | inr e ↦ rw e h
]

refresh_all-Once :
    (iv : Intervals) (get : ℕ → Option FundingState) (r : Round) (ms : List MarketEntry)
    (c : StateCache)
    → Once c
    → Once (refresh_all iv get r ms c)
unfolding refresh_all
refresh_all-Once iv get r ms c h = markets-Once iv.market_config_refresh r.markets ms _ (
    health-Once r.health _ (
      funding-Once get r.funding ms _ (
        refresh_positions-Once iv.position_refresh r.positions _
          (refresh_orders-Once iv.order_refresh r.orders c h))))

remove_all-Distinct {ℓ} :
    {V : Type ℓ} (ids : List ℕ) (m : Dict V) → Distinct m → Distinct (remove_all ids m)
unfolding remove_all
remove_all-Distinct [] m d = d
remove_all-Distinct (id ∷ ids) m d = remove_all-Distinct ids (erase id m) (erase-Distinct id m d)

module _ {W : Type 0} where
  -- Each order and each position is cached once.
  abbrev pub OnceIn : Cycle.State (Retry.State W Stats) → Type 0
  OnceIn s = Distinct s.cache.active_orders × Distinct s.cache.active_positions

  pub settle-Once :
      (success : Bool) (quotes : List Quote) (os ps : List ℕ)
      (s : Cycle.State (Retry.State W Stats))
      → OnceIn s
      → OnceIn (settle success quotes os ps s)
  unfolding settle
  settle-Once true quotes os ps s (d, e) = (
    remove_all-Distinct os s.cache.active_orders d,
    remove_all-Distinct ps s.cache.active_positions e,
  )
  settle-Once false quotes os ps s h = h

  -- What holds of the engine between two cycles: the statistics count the submissions, the alerts
  -- are spaced, and each order and each position is cached once.
  abbrev pub Invariant : Node W → Type 0
  Invariant n =
      Counted (length n.calls) n.submitter.stats
      × Tracks n.monitor
      × Distinct n.tracked.maps.active_orders
      × Distinct n.tracked.maps.active_positions

  module _ (config : Config) (rpc : Retry.Rpc Call W) where
    scan_cycle-Once :
        (quotes : List Quote) (s : Cycle.State (Retry.State W Stats))
        → OnceIn s
        → OnceIn (Cycle.run_cycle (submission rpc) quotes s)
    unfolding Cycle.run_cycle
    scan_cycle-Once [] s h = h
    scan_cycle-Once (q ∷ qs) s h =
        let prices = Cycle.update_prices (q ∷ qs) s.prices in
        let orders = Orders.scan prices s.cache.active_orders s.order_stats in
        let positions = Liquidations.scan s.cache prices s.liquidation_stats in
        let call = Cycle.build_full_cycle (q ∷ qs) orders.0 positions.0 in
        let answer = submission rpc call s.submitter in
        settle-Once answer.0 (q ∷ qs) orders.0 positions.0
          (record s {
            prices = prices;
            order_stats = orders.1;
            liquidation_stats = positions.1;
            submitter = answer.1;
            calls = s.calls ++ call ∷ [];
          })
          h

    after_submission-Invariant :
        (o : Outside) (n : Node W) → Invariant n → Invariant (after_submission config rpc o n)
    unfolding after_submission
    after_submission-Invariant o n (c, t, d₀, e₀) =
        let (d, e) =
          refresh_all-Once config.intervals o.get_funding_state o.round config.markets n.tracked
            (d₀, e₀) in
        (
          c,
          check_after_cycle-Tracks config.max_failures config.is_low
              n.submitter.stats.consecutive_failures o.health n.monitor t,
          d,
          e,
        )

    with_prices-Invariant :
        (o : Outside) (quotes : List Quote) (n : Node W)
        → Invariant n
        → Invariant (with_prices config rpc o quotes n)
    unfolding with_prices
    with_prices-Invariant o [] n h = h
    with_prices-Invariant o (q ∷ qs) n (c, t, d₀, e₀) =
        let s = Cycle.run_cycle (submission rpc) (q ∷ qs) (scanned n) in
        let (d, e) = scan_cycle-Once (q ∷ qs) (scanned n) (d₀, e₀) in
        after_submission-Invariant o (put_back s n)
          (run_cycle-Counted rpc (q ∷ qs) (scanned n) c, t, d, e)

    -- Over any cycles of the engine, whatever the price services, the node and the indexer
    -- answer, it stays true that each submitted call is counted as one success of one of the
    -- two kinds or as one failure and no more failures are consecutive than there are, that the
    -- alerts of each key are at least its cooldown apart, and that each order and each position
    -- is cached once.
    run_cycles-Invariant :
        (os : List Outside) (n : Node W) → Invariant n → Invariant (run_cycles config rpc os n)
    unfolding run_cycles run_cycle
    run_cycles-Invariant [] n h = h
    run_cycles-Invariant (o ∷ os) n h = run_cycles-Invariant os (run_cycle config rpc o n) (
        with_prices-Invariant o (fetch_all o.responses n.fetchers).0
          (record n { fetchers = (fetch_all o.responses n.fetchers).1 }) h)
