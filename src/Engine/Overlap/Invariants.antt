-- ===== src/Engine/Overlap/Invariants.antt =====
-- What cycles of .perps-engine/index.js preserve in whatever order their steps come.
use sidiora_perpetual_protoc.Base.{
  ℕ, zero, suc, true, false, List, [], ◌≡◌, refl, arith, ◌∷◌, length,
}
use sidiora_perpetual_protoc.Base.Outcome.{Result, ok, throw, JsError}
use sidiora_perpetual_protoc.Retry
use sidiora_perpetual_protoc.Retry.{after_wait, call_rpc, recreate_provider, wait_with_timeout}
use sidiora_perpetual_protoc.Engine.Cycle.{Call, settle}
use sidiora_perpetual_protoc.Engine.Submitter.{Stats, confirmed, failure}
use sidiora_perpetual_protoc.Engine.Submitter.Laws.{
  confirmed-Counted, failure-Counted, sent-Counted,
}
use sidiora_perpetual_protoc.Engine.Health.Alerts.{check_after_cycle-Tracks}
use sidiora_perpetual_protoc.Engine.Main.{Config, Outside, Node, scanned}
use sidiora_perpetual_protoc.Engine.Main.Invariants.{
  Invariant, settle-Once, refresh_orders-Once, refresh_positions-Once, funding-Once, health-Once,
  markets-Once,
}
use sidiora_perpetual_protoc.Engine.Overlap.{
  Found, Stage, scan, settle_found, submitted, after_send, after_confirm, after_error, step, Live,
  Fleet, Event, start, advance, advance_at, apply, run,
}

module _ {W : Type 0} (config : Config) (rpc : Retry.Rpc Call W) where
  failure-Invariant : (f : Found) (n : Node W) → Invariant n → Invariant (submitted f failure n)
  failure-Invariant f n (c, t, d, e) = (
    sent-Counted rpc n.calls f.call (failure n.submitter.stats)
        (failure-Counted (length n.calls) n.submitter.stats c),
    t,
    d,
    e,
  )

  confirmed-Invariant :
      (f : Found) (hash : ℕ) (n : Node W)
      → Invariant n
      → Invariant (submitted f (confirmed f.call hash) n)
  confirmed-Invariant f hash n (c, t, d, e) = (
    sent-Counted rpc n.calls f.call (confirmed f.call hash n.submitter.stats)
        (confirmed-Counted f.call hash (length n.calls) n.submitter.stats c),
    t,
    d,
    e,
  )

  error-Invariant :
      (f : Found) (left : ℕ) (n : Node W) → Invariant n → Invariant (after_error f left n).1
  unfolding after_error
  error-Invariant f zero n h = failure-Invariant f n h
  error-Invariant f (suc left) n h = h

  send-Invariant :
      (f : Found) (left : ℕ) (r : Result JsError ℕ) (n : Node W)
      → Invariant n
      → Invariant (after_send f left r n).1
  unfolding after_send
  send-Invariant f left (ok hash) n h = h
  send-Invariant f left (throw e) n h = error-Invariant f left n h

  confirm-Invariant :
      (f : Found) (left : ℕ) (r : Result JsError ℕ) (n : Node W)
      → Invariant n
      → Invariant (after_confirm f left r n).1
  unfolding after_confirm
  confirm-Invariant f left (ok hash) n h = confirmed-Invariant f hash n h
  confirm-Invariant f left (throw e) n h = error-Invariant f left n h

  wait_stats : (x : Result JsError ℕ × Retry.State W Stats) → (after_wait x).1.stats ≡ x.1.stats
  unfolding after_wait
  wait_stats (ok h, s) = refl
  wait_stats (throw e, s) = ground arith

  step-Invariant :
      (o : Outside) (stage : Stage) (n : Node W)
      → Invariant n
      → Invariant (step config rpc o stage n).1
  unfolding step scan settle settle_found wait_with_timeout
  step-Invariant o Stage.fetching n h = h
  step-Invariant o (Stage.scanning []) n h = h
  step-Invariant o (Stage.scanning (q ∷ qs)) n h = h
  step-Invariant o (Stage.sending f left) n h =
      let x = call_rpc rpc (rpc.send f.call) n.submitter in
      send-Invariant f left x.0 (record n { submitter = x.1 }) h
  step-Invariant o (Stage.confirming f left hash) n (c, t, d, e) =
      let x = wait_with_timeout rpc hash n.submitter in
      confirm-Invariant f left x.0 (record n { submitter = x.1 })
        (rw (wait_stats (call_rpc rpc (rpc.confirm hash) n.submitter)) c, t, d, e)
  step-Invariant o (Stage.settling f true) n (c, t, d, e) =
      let (d', e') = settle-Once true f.quotes f.order_ids f.position_ids (scanned n) (d, e) in
      (c, t, d', e')
  step-Invariant o (Stage.settling f false) n h = h
  step-Invariant o Stage.checking n (c, t, d, e) = (
    c,
    check_after_cycle-Tracks config.max_failures config.is_low
        n.submitter.stats.consecutive_failures o.health n.monitor t,
    d,
    e,
  )
  step-Invariant o Stage.refreshing_orders n (c, t, d, e) =
      let (d', e') =
        refresh_orders-Once config.intervals.order_refresh o.round.orders n.tracked (d, e) in
      (c, t, d', e')
  step-Invariant o Stage.refreshing_positions n (c, t, d, e) =
      let (d', e') =
        refresh_positions-Once config.intervals.position_refresh o.round.positions n.tracked
          (d, e) in
      (c, t, d', e')
  step-Invariant o Stage.refreshing_funding n (c, t, d, e) =
      let (d', e') =
        funding-Once o.get_funding_state o.round.funding config.markets n.tracked (d, e) in
      (c, t, d', e')
  step-Invariant o Stage.probing_indexer n (c, t, d, e) =
      let (d', e') = health-Once o.round.health n.tracked (d, e) in (c, t, d', e')
  step-Invariant o Stage.refreshing_markets n (c, t, d, e) =
      let (d', e') =
        markets-Once config.intervals.market_config_refresh o.round.markets config.markets n.tracked
          (d, e) in
      (c, t, d', e')
  step-Invariant o Stage.done n h = h

  advance_at-Invariant :
      (i : ℕ) (n : Node W) (cs : List Live)
      → Invariant n
      → Invariant (advance_at config rpc i n cs).node
  unfolding advance_at
  advance_at-Invariant zero n [] h = h
  advance_at-Invariant (suc i) n [] h = h
  advance_at-Invariant zero n (c ∷ cs) h = step-Invariant c.outside c.stage n h
  advance_at-Invariant (suc i) n (c ∷ cs) h = advance_at-Invariant i n cs h

  pub run-Invariant :
      (es : List Event) (f : Fleet W) → Invariant f.node → Invariant (run config rpc es f).node
  unfolding run apply
  run-Invariant [] f h = h
  run-Invariant (start o ∷ es) f h = run-Invariant es (apply config rpc (start o) f) h
  run-Invariant (advance i ∷ es) f h =
      run-Invariant es (apply config rpc (advance i) f) (advance_at-Invariant i f.node f.cycles h)
