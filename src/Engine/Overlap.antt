-- ===== src/Engine/Overlap.antt =====
-- Cycles of .perps-engine/index.js that run beside one another. The `Promise.race` of a cycle with its
-- time limit does not stop a cycle that outlasts it: it goes on where it awaits, while the loop begins
-- the next. A step is what a cycle does between two awaits of the main loop or of
-- `_submitWithRetry`; every other awaited method is one step.
pub mod Alone
pub mod Invariants
pub mod Completion
pub mod Doubles
use sidiora_perpetual_protoc.Base.{
  ℕ, zero, suc, ◌-◌, Bool, true, false, Option, none, some, List, [], ◌∷◌, ◌++◌,
}
use sidiora_perpetual_protoc.Base.Outcome.{Result, ok, throw, JsError}
use sidiora_perpetual_protoc.Retry
use sidiora_perpetual_protoc.Retry.{max_retries, call_rpc, wait_with_timeout}
use sidiora_perpetual_protoc.Engine.Cycle
use sidiora_perpetual_protoc.Engine.Cycle.{Call, Quote, settle, update_prices, build_full_cycle}
use sidiora_perpetual_protoc.Engine.Orders
use sidiora_perpetual_protoc.Engine.Liquidations
use sidiora_perpetual_protoc.Engine.Submitter.{Stats, confirmed, failure}
use sidiora_perpetual_protoc.Engine.Sources.{fetch_all}
use sidiora_perpetual_protoc.Engine.Refresh.{
  refresh_orders, refresh_positions, refresh_funding_states, check_indexer_health,
  refresh_market_configs,
}
use sidiora_perpetual_protoc.Engine.Health.{check_after_cycle}
use sidiora_perpetual_protoc.Engine.Main.{Config, Outside, Node, scanned, put_back}

-- The local variables of a cycle from its scans on.
pub record Found : Type 0 where
  pub quotes : List Quote
  pub order_ids : List ℕ
  pub position_ids : List ℕ
  pub call : Call

-- Where a cycle awaits: which step is next. A number counts the attempts left after this one.
pub data Stage : Type 0 where
  fetching : Stage
  scanning : List Quote → Stage
  sending : Found → ℕ → Stage
  confirming : Found → ℕ → ℕ → Stage
  settling : Found → Bool → Stage
  checking : Stage
  refreshing_orders : Stage
  refreshing_positions : Stage
  refreshing_funding : Stage
  probing_indexer : Stage
  refreshing_markets : Stage
  done : Stage

module _ {W : Type 0} where
  -- The prices enter the cache and the scanners run on them.
  unfoldable pub scan : List Quote → Node W → Found × Node W
  unfolding update_prices build_full_cycle Orders.scan Liquidations.scan
  scan quotes n =
      let prices = update_prices quotes n.prices in
      let (order_ids, order_stats') =
        Orders.scan prices n.tracked.maps.active_orders n.order_stats in
      let (position_ids, liquidation_stats') =
        Liquidations.scan n.tracked.maps prices n.liquidation_stats in
      (
        record {
          quotes = quotes;
          order_ids = order_ids;
          position_ids = position_ids;
          call = build_full_cycle quotes order_ids position_ids;
        },
        record n {
          prices = prices;
          order_stats = order_stats';
          liquidation_stats = liquidation_stats';
        },
      )

  -- The end of a submission, with what it did to the statistics.
  abbrev pub submitted : Found → (Stats → Stats) → Node W → Node W
  submitted f count n = record n {
    submitter = record n.submitter { stats = count n.submitter.stats };
    calls = n.calls ++ f.call ∷ [];
  }

  -- The `catch` of an attempt.
  unfoldable pub after_error : Found → ℕ → Node W → Stage × Node W
  unfolding failure
  after_error f zero n = (settling f false, submitted f failure n)
  after_error f (suc left) n = (sending f left, n)

  unfoldable pub after_send : Found → ℕ → Result JsError ℕ → Node W → Stage × Node W
  unfolding after_error
  after_send f left (ok hash) n = (confirming f left hash, n)
  after_send f left (throw e) n = after_error f left n

  unfoldable pub after_confirm : Found → ℕ → Result JsError ℕ → Node W → Stage × Node W
  unfolding after_error confirmed
  after_confirm f left (ok hash) n = (settling f true, submitted f (confirmed f.call hash) n)
  after_confirm f left (throw e) n = after_error f left n

  -- The `if (result.success)` of a cycle.
  unfoldable pub settle_found : Found → Bool → Node W → Node W
  unfolding settle
  settle_found f success n =
      put_back (settle success f.quotes f.order_ids f.position_ids (scanned n)) n

module _ {W : Type 0} (config : Config) (rpc : Retry.Rpc Call W) where
  -- What a cycle does up to its next await.
  unfoldable pub step : Outside → Stage → Node W → Stage × Node W
  unfolding fetch_all scan wait_with_timeout after_send after_confirm settle_found check_after_cycle
      refresh_orders refresh_positions refresh_funding_states check_indexer_health
      refresh_market_configs
  step o fetching n =
      let (quotes, fetchers) = fetch_all o.responses n.fetchers in
      (scanning quotes, record n { fetchers = fetchers })
  step o (scanning []) n = (done, n)
  step o (scanning (q ∷ qs)) n = let (f, n') = scan (q ∷ qs) n in (sending f (max_retries - 1), n')
  step o (sending f left) n =
      let (r, s) = call_rpc rpc (rpc.send f.call) n.submitter in
      after_send f left r (record n { submitter = s })
  step o (confirming f left hash) n =
      let (r, s) = wait_with_timeout rpc hash n.submitter in
      after_confirm f left r (record n { submitter = s })
  step o (settling f success) n = (checking, settle_found f success n)
  step o checking n = (
    refreshing_orders,
    record n {
      monitor =
          check_after_cycle config.max_failures config.is_low n.submitter.stats.consecutive_failures
            o.health n.monitor;
    },
  )
  step o refreshing_orders n = (
    refreshing_positions,
    record n { tracked = refresh_orders config.intervals.order_refresh o.round.orders n.tracked },
  )
  step o refreshing_positions n = (
    refreshing_funding,
    record n {
      tracked = refresh_positions config.intervals.position_refresh o.round.positions n.tracked;
    },
  )
  step o refreshing_funding n = (
    probing_indexer,
    record n {
      tracked = refresh_funding_states o.get_funding_state o.round.funding config.markets n.tracked;
    },
  )
  step o probing_indexer n =
      (refreshing_markets, record n { tracked = check_indexer_health o.round.health n.tracked })
  step o refreshing_markets n = (
    done,
    record n {
      tracked =
          refresh_market_configs config.intervals.market_config_refresh o.round.markets
            config.markets n.tracked;
    },
  )
  step o done n = (done, n)

-- A cycle with what answers during it.
pub record Live : Type 0 where
  pub outside : Outside
  pub stage : Stage

-- The engine with the cycles it began, in that order.
pub record Fleet (W : Type 0) : Type 0 where
  pub node : Node W
  pub cycles : List Live

-- The loop begins a cycle, or the cycle with that number takes its next step. The loop begins one
-- when the one before is done or its time is up, which can be after any of its steps.
pub data Event : Type 0 where
  start : Outside → Event
  advance : ℕ → Event

module _ {W : Type 0} (config : Config) (rpc : Retry.Rpc Call W) where
  unfoldable pub advance_at : ℕ → Node W → List Live → Fleet W
  unfolding step
  advance_at i n [] = record { node = n; cycles = [] }
  advance_at zero n (c ∷ cs) =
      let (stage, n') = step config rpc c.outside c.stage n in
      record { node = n'; cycles = record c { stage = stage } ∷ cs }
  advance_at (suc i) n (c ∷ cs) = let f = advance_at i n cs in record f { cycles = c ∷ f.cycles }

  unfoldable pub apply : Event → Fleet W → Fleet W
  unfolding advance_at
  apply (start o) f = record f {
    cycles = f.cycles ++ record { outside = o; stage = fetching } ∷ [];
  }
  apply (advance i) f = advance_at i f.node f.cycles

  -- Any order in which the cycles take their steps.
  unfoldable pub run : List Event → Fleet W → Fleet W
  unfolding apply
  run [] f = f
  run (e ∷ es) f = run es (apply e f)
