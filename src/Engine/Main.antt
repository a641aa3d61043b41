-- ===== src/Engine/Main.antt =====
-- A whole cycle of .perps-engine/index.js: the prices of both sources, the scans and the submission,
-- the health check and the periodic refreshes. A cycle without a price ends before all of them. A
-- cycle that outlasts its time limit is not modelled.
pub mod Invariants
pub mod Outage
use sidiora_perpetual_protoc.Base.{ℕ, Bool, Option, List, [], ◌∷◌}
use sidiora_perpetual_protoc.Base.Dict.{Dict}
use sidiora_perpetual_protoc.Protocol.{FundingState, MarketEntry}
use sidiora_perpetual_protoc.Retry
use sidiora_perpetual_protoc.Engine.Cycle
use sidiora_perpetual_protoc.Engine.Cycle.{Call, Quote}
use sidiora_perpetual_protoc.Engine.Orders
use sidiora_perpetual_protoc.Engine.Liquidations
use sidiora_perpetual_protoc.Engine.Submitter.{Stats, submission}
use sidiora_perpetual_protoc.Engine.Sources.{Fetchers, Responses, fetch_all}
use sidiora_perpetual_protoc.Engine.Refresh.{StateCache, Intervals, Round, refresh_all}
use sidiora_perpetual_protoc.Engine.Health
use sidiora_perpetual_protoc.Engine.Health.{Monitor, check_after_cycle}

-- The constants of .perps-engine/config.js; `is_low` compares a balance with the minimum.
pub record Config : Type 0 where
  pub intervals : Intervals
  pub markets : List MarketEntry
  pub max_failures : ℕ
  pub is_low : ℕ → Bool

-- Everything that answers during a cycle but the RPC endpoint of the submission.
pub record Outside : Type 0 where
  pub responses : Responses
  pub health : Health.Answers
  pub get_funding_state : ℕ → Option FundingState
  pub round : Round

pub record Node (W : Type 0) : Type 0 where
  pub fetchers : Fetchers
  pub tracked : StateCache
  pub prices : Dict ℕ
  pub submitted_prices : Dict ℕ
  pub order_stats : Orders.Stats
  pub liquidation_stats : Liquidations.Stats
  pub submitter : Retry.State W Stats
  pub calls : List Call
  pub monitor : Monitor

module _ {W : Type 0} where
  -- The part of the engine that the scans and the submission touch, and its return.
  abbrev pub scanned : Node W → Cycle.State (Retry.State W Stats)
  scanned n = record {
    cache = n.tracked.maps;
    prices = n.prices;
    submitted_prices = n.submitted_prices;
    order_stats = n.order_stats;
    liquidation_stats = n.liquidation_stats;
    submitter = n.submitter;
    calls = n.calls;
  }

  abbrev pub put_back : Cycle.State (Retry.State W Stats) → Node W → Node W
  put_back s n = record n {
    tracked = record n.tracked { maps = s.cache };
    prices = s.prices;
    submitted_prices = s.submitted_prices;
    order_stats = s.order_stats;
    liquidation_stats = s.liquidation_stats;
    submitter = s.submitter;
    calls = s.calls;
  }

module _ {W : Type 0} (config : Config) (rpc : Retry.Rpc Call W) where
  -- The health check and the refreshes, after the submission.
  unfoldable pub after_submission : Outside → Node W → Node W
  unfolding check_after_cycle refresh_all
  after_submission o n = record n {
    monitor =
        check_after_cycle config.max_failures config.is_low n.submitter.stats.consecutive_failures
          o.health n.monitor;
    tracked = refresh_all config.intervals o.get_funding_state o.round config.markets n.tracked;
  }

  -- What a cycle does with the prices that it fetched.
  unfoldable pub with_prices : Outside → List Quote → Node W → Node W
  unfolding Cycle.run_cycle submission after_submission
  with_prices o [] n = n
  with_prices o (q ∷ qs) n =
      after_submission o (put_back (Cycle.run_cycle (submission rpc) (q ∷ qs) (scanned n)) n)

  -- A cycle of the main loop.
  unfoldable pub run_cycle : Outside → Node W → Node W
  unfolding fetch_all with_prices
  run_cycle o n =
      let (quotes, fetchers) = fetch_all o.responses n.fetchers in
      with_prices o quotes (record n { fetchers = fetchers })

  -- Cycles one after the other.
  unfoldable pub run_cycles : List Outside → Node W → Node W
  unfolding run_cycle
  run_cycles [] n = n
  run_cycles (o ∷ os) n = run_cycles os (run_cycle o n)
