-- ===== src/Oracle/Laws.antt =====
-- What the oracle of .oracle submits and remembers.
use sidiora_perpetual_protoc.Base.{
  ℕ, ◌+◌, ◌≡◌, refl, ap, ◌∙◌, Option, some, List, [], ◌∷◌, ◌==◌, if◌then◌else◌, includes, arith,
}
use sidiora_perpetual_protoc.Base.Dict.{Dict, lookup, insert, lookup-insert}
use sidiora_perpetual_protoc.Protocol.{TxResult, success, reverted, failed}
use sidiora_perpetual_protoc.Retry
use sidiora_perpetual_protoc.Retry.{Rpc}
use sidiora_perpetual_protoc.Retry.Laws.{Effect, submit_with_retry-Effect}
use sidiora_perpetual_protoc.Engine.Cycle.{Quote, track, is_empty}
use sidiora_perpetual_protoc.Engine.Submitter.{is_success}
use sidiora_perpetual_protoc.Engine.Sources.{Fetchers, Responses, fetch_all}
use sidiora_perpetual_protoc.Oracle.{
  Call, Stats, Node, OnChainPrice, confirmed, failure, call_of, submit_prices, submit_fetched,
  run_cycle, get_on_chain_prices, on_chain_price,
}

-- The last price of a symbol in a list, or else the old one.
abbrev pub last_price : ℕ → List Quote → Option ℕ → Option ℕ
last_price symbol [] old = old
last_price symbol (q ∷ qs) old =
    last_price symbol qs (if q.symbol == symbol then some q.price else old)

lookup-track :
    (symbol : ℕ) (qs : List Quote) (m : Dict ℕ)
    → lookup symbol (track qs m) ≡ last_price symbol qs (lookup symbol m)
unfolding track
lookup-track symbol [] m = refl
lookup-track symbol (q ∷ qs) m =
    lookup-track symbol qs (insert q.symbol q.price m)
    ∙ ap (last_price symbol qs) (lookup-insert q.symbol symbol q.price m)

-- The submissions that ended, well or not.
abbrev pub submissions : Stats → ℕ
submissions s = s.total_submissions + s.total_failures

-- How many of these answers bring a price.
abbrev pub priced : List Responses → Fetchers → ℕ
priced [] f = 0
priced (r ∷ rs) f =
    let (quotes, f') = fetch_all r f in (if is_empty quotes then 0 else 1) + priced rs f'

module _ {W : Type 0} (rpc : Rpc Call W) where
  -- How a submission of these quotes ends for the statistics.
  abbrev Ends : List Quote → Stats → TxResult → Stats → Type 0
  Ends quotes s (success hash) t = t ≡ confirmed quotes hash s
  Ends quotes s (reverted r) t = ⊥
  Ends quotes s (failed r) t = t ≡ failure s

  Effect-Ends :
      (quotes : List Quote) (call : Call) (s : Retry.State W Stats)
      (x : TxResult × Retry.State W Stats)
      → Effect rpc (confirmed quotes) failure 2 call s x
      → Ends quotes s.stats x.0 x.1.stats
  Effect-Ends quotes call s (success hash, t) (k, b, e, h, f) = ap (λ z. z.stats) f
  Effect-Ends quotes call s (reverted r, t) f = f
  Effect-Ends quotes call s (failed r, t) (h, e, f) = ap (λ z. z.stats) f

  submit_prices-Ends :
      (q : Quote) (qs : List Quote) (s : Retry.State W Stats)
      → Ends
          (q ∷ qs)
          s.stats
          (submit_prices rpc (q ∷ qs) s).0
          (submit_prices rpc (q ∷ qs) s).1.stats
  unfolding submit_prices
  submit_prices-Ends q qs s =
      Effect-Ends (q ∷ qs) (call_of (q ∷ qs)) s _
        (submit_with_retry-Effect rpc (confirmed (q ∷ qs)) failure (call_of (q ∷ qs)) s)

  Ends-submitted :
      (symbol : ℕ) (quotes : List Quote) (s : Stats) (r : TxResult) (t : Stats)
      → Ends quotes s r t
      → lookup symbol t.submitted_prices ≡ (
          if is_success r
          then last_price symbol quotes (lookup symbol s.submitted_prices)
          else lookup symbol s.submitted_prices)
  unfolding confirmed failure
  Ends-submitted symbol quotes s (success hash) t e =
      ap (λ z. lookup symbol z.submitted_prices) e ∙ lookup-track symbol quotes s.submitted_prices
  Ends-submitted symbol quotes s (reverted r) t e = elim e [ ]
  Ends-submitted symbol quotes s (failed r) t e = ap (λ z. lookup symbol z.submitted_prices) e

  pub submit_prices_tracks :
      (symbol : ℕ) (quotes : List Quote) (s : Retry.State W Stats)
      → lookup symbol (submit_prices rpc quotes s).1.stats.submitted_prices ≡ (
          if is_success (submit_prices rpc quotes s).0
          then last_price symbol quotes (lookup symbol s.stats.submitted_prices)
          else lookup symbol s.stats.submitted_prices)
  unfolding submit_prices
  submit_prices_tracks symbol [] s = refl
  submit_prices_tracks symbol (q ∷ qs) s =
      Ends-submitted symbol (q ∷ qs) s.stats (submit_prices rpc (q ∷ qs) s).0
        (submit_prices rpc (q ∷ qs) s).1.stats (submit_prices-Ends q qs s)

  Ends-submissions :
      (quotes : List Quote) (s : Stats) (r : TxResult) (t : Stats)
      → Ends quotes s r t
      → submissions t ≡ submissions s + 1
  unfolding confirmed failure
  Ends-submissions quotes s (success hash) t e = ap submissions e ∙ omega arith
  Ends-submissions quotes s (reverted r) t e = elim e [ ]
  Ends-submissions quotes s (failed r) t e = ap submissions e ∙ omega arith

  submit_fetched-submissions :
      (quotes : List Quote) (s : Retry.State W Stats)
      → submissions (submit_fetched rpc quotes s).stats
        ≡ submissions s.stats + (if is_empty quotes then 0 else 1)
  unfolding submit_fetched
  submit_fetched-submissions [] s = omega arith
  submit_fetched-submissions (q ∷ qs) s =
      Ends-submissions (q ∷ qs) s.stats (submit_prices rpc (q ∷ qs) s).0
        (submit_prices rpc (q ∷ qs) s).1.stats (submit_prices-Ends q qs s)

  -- Cycles one after the other, each on what the services answer.
  abbrev pub run_cycles : List Responses → Node W → Node W
  run_cycles [] n = n
  run_cycles (r ∷ rs) n = run_cycles rs (run_cycle rpc r n)

  -- Over any cycles of the oracle, its successes and failures together grow by the number of
  -- cycles that bring at least one price, whatever the prices are and were.
  pub run_cycles-submissions :
      (rs : List Responses) (n : Node W)
      → submissions (run_cycles rs n).submitter.stats
        ≡ submissions n.submitter.stats + priced rs n.fetchers
  unfolding run_cycle
  run_cycles-submissions [] n = omega arith
  run_cycles-submissions (r ∷ rs) n = omega (
    arith,
    run_cycles-submissions rs (run_cycle rpc r n),
    submit_fetched-submissions (fetch_all r n.fetchers).0 n.submitter,
  )

pub lookup-get_on_chain_prices :
    (read : ℕ → Option OnChainPrice) (id : ℕ) (ids : List ℕ) (m : Dict OnChainPrice)
    → lookup id (get_on_chain_prices read ids m)
      ≡ (if includes id ids then some (on_chain_price (read id)) else lookup id m)
unfolding get_on_chain_prices
lookup-get_on_chain_prices read id [] m = refl
lookup-get_on_chain_prices read id (j ∷ ids) m = grind (
  arith,
  lookup-get_on_chain_prices read id ids (insert j (on_chain_price (read j)) m),
  lookup-insert j id (on_chain_price (read j)) m,
)
