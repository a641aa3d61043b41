-- ===== src/Engine/Submitter/Laws.antt =====
-- The statistics of .perps-engine/src/submitter.js over the cycles of .perps-engine/index.js.
use sidiora_perpetual_protoc.Base.{
  ℕ, ◌+◌, ◌≤◌, ◌≡◌, Bool, true, false, List, [], ◌∷◌, ◌++◌, length, length-append, arith,
}
use sidiora_perpetual_protoc.Protocol.{TxResult, success, reverted, failed}
use sidiora_perpetual_protoc.Retry.{Rpc, State}
use sidiora_perpetual_protoc.Retry.Laws.{Effect, submit_with_retry-Effect}
use sidiora_perpetual_protoc.Engine.Cycle
use sidiora_perpetual_protoc.Engine.Cycle.{
  Call, full_cycle, price_cycle, Quote, run_cycle, settle, update_prices, build_full_cycle,
}
use sidiora_perpetual_protoc.Engine.Orders
use sidiora_perpetual_protoc.Engine.Liquidations
use sidiora_perpetual_protoc.Engine.Submitter.{
  Stats, on_success, confirmed, failure, submit, submission,
}

-- The counts of `n` submissions: each is one success, of one of the two kinds, or one failure.
abbrev pub Counted : ℕ → Stats → Type 0
Counted n s =
    (s.total_cycles ≡ s.full_cycles + s.price_cycles)
    × (s.total_cycles + s.total_failures ≡ n)
    × (s.consecutive_failures ≤ s.total_failures)

pub confirmed-Counted :
    (call : Call) (hash n : ℕ) (s : Stats) → Counted n s → Counted (n + 1) (confirmed call hash s)
unfolding confirmed on_success
confirmed-Counted (full_cycle a b c d) hash n s (p, q, r) =
    (omega (arith, p), omega (arith, q), omega arith)
confirmed-Counted (price_cycle a b) hash n s (p, q, r) =
    (omega (arith, p), omega (arith, q), omega arith)

pub failure-Counted : (n : ℕ) (s : Stats) → Counted n s → Counted (n + 1) (failure s)
unfolding failure
failure-Counted n s (p, q, r) = (p, omega (arith, q), omega (arith, r))

module _ {W : Type 0} (rpc : Rpc Call W) where
  Effect-Counted :
      (call : Call) (s : State W Stats) (n : ℕ) (x : TxResult × State W Stats)
      → Counted n s.stats
      → Effect rpc (confirmed call) failure 2 call s x
      → Counted (n + 1) x.1.stats
  Effect-Counted call s n (success hash, t) c (k, b, e, h, f) =
      rw f (confirmed-Counted call hash n s.stats c)
  Effect-Counted call s n (reverted r, t) c f = elim f [ ]
  Effect-Counted call s n (failed r, t) c (h, e, f) = rw f (failure-Counted n s.stats c)

  submission-Counted :
      (call : Call) (s : State W Stats) (n : ℕ)
      → Counted n s.stats
      → Counted (n + 1) (submission rpc call s).1.stats
  unfolding submission submit
  submission-Counted call s n c =
      Effect-Counted call s n (submit rpc call s) c
        (submit_with_retry-Effect rpc (confirmed call) failure call s)

  settle-Counted :
      (success : Bool) (quotes : List Quote) (os ps : List ℕ) (s : Cycle.State (State W Stats))
      → Counted (length s.calls) s.submitter.stats
      → Counted
          (length (settle success quotes os ps s).calls)
          (settle success quotes os ps s).submitter.stats
  unfolding settle
  settle-Counted true quotes os ps s c = c
  settle-Counted false quotes os ps s c = c

  pub sent-Counted :
      (calls : List Call) (call : Call) (t : Stats)
      → Counted (length calls + 1) t
      → Counted (length (calls ++ call ∷ [])) t
  sent-Counted calls call t (p, q, r) = (p, omega (arith, q, length-append calls (call ∷ [])), r)

  pub run_cycle-Counted :
      (quotes : List Quote) (s : Cycle.State (State W Stats))
      → Counted (length s.calls) s.submitter.stats
      → Counted
          (length (run_cycle (submission rpc) quotes s).calls)
          (run_cycle (submission rpc) quotes s).submitter.stats
  unfolding run_cycle
  run_cycle-Counted [] s c = c
  run_cycle-Counted (q ∷ qs) s c =
      let prices = update_prices (q ∷ qs) s.prices in
      let orders = Orders.scan prices s.cache.active_orders s.order_stats in
      let positions = Liquidations.scan s.cache prices s.liquidation_stats in
      let call = build_full_cycle (q ∷ qs) orders.0 positions.0 in
      let answer = submission rpc call s.submitter in
      settle-Counted answer.0 (q ∷ qs) orders.0 positions.0
        (record s {
          prices = prices;
          order_stats = orders.1;
          liquidation_stats = positions.1;
          submitter = answer.1;
          calls = s.calls ++ call ∷ [];
        })
        (sent-Counted s.calls call answer.1.stats
          (submission-Counted call s.submitter (length s.calls) c))
