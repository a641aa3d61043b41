-- ===== src/Oracle.antt =====
-- The oracle, .oracle: a cycle of index.js and `OnChainSubmitter` of src/submitter.js, over the retry
-- loop. `lastSubmissionTime` is only printed; the check of the deviation only writes a log line.
pub mod Laws
use sidiora_perpetual_protoc.Base.{
  ℕ, ◌+◌, Bool, true, false, Option, none, some, List, [], ◌∷◌, map,
}
use sidiora_perpetual_protoc.Base.Dict.{Dict, insert}
use sidiora_perpetual_protoc.Base.Text.{codes}
use sidiora_perpetual_protoc.Protocol.{TxResult, failed}
use sidiora_perpetual_protoc.Retry
use sidiora_perpetual_protoc.Retry.{Rpc, submit_with_retry}
use sidiora_perpetual_protoc.Engine.Cycle.{Quote, track}
use sidiora_perpetual_protoc.Engine.Sources.{Fetchers, Responses, fetch_all}

-- `batchUpdatePrices` with its two arrays.
pub record Call : Type 0 where
  pub market_ids : List ℕ
  pub prices : List ℕ

-- The statistics and `submittedPrices`.
pub record Stats : Type 0 where
  pub total_submissions : ℕ
  pub total_failures : ℕ
  pub consecutive_failures : ℕ
  pub last_tx_hash : Option ℕ
  pub submitted_prices : Dict ℕ

abbrev pub initial_stats : Stats
initial_stats = record {
  total_submissions = 0;
  total_failures = 0;
  consecutive_failures = 0;
  last_tx_hash = none;
  submitted_prices = [];
}

-- What a confirmation does to them.
unfoldable pub confirmed : List Quote → ℕ → Stats → Stats
unfolding track
confirmed quotes hash s = record s {
  total_submissions = s.total_submissions + 1;
  consecutive_failures = 0;
  last_tx_hash = some hash;
  submitted_prices = track quotes s.submitted_prices;
}

-- What the failure of the last attempt does to them.
unfoldable pub failure : Stats → Stats
failure s = record s {
  total_failures = s.total_failures + 1;
  consecutive_failures = s.consecutive_failures + 1;
}

abbrev pub call_of : List Quote → Call
call_of quotes = record {
  market_ids = map (λ q. q.market_id) quotes;
  prices = map (λ q. q.price) quotes;
}

-- An entry of `getOnChainPrices`.
pub record OnChainPrice : Type 0 where
  pub price : ℕ
  pub timestamp : ℕ
  pub stale : Bool

-- What is entered for a market: `none` is a throw of one of its three calls.
unfoldable pub on_chain_price : Option OnChainPrice → OnChainPrice
on_chain_price none = record { price = 0; timestamp = 0; stale = true }
on_chain_price (some p) = p

-- `getOnChainPrices`
unfoldable pub get_on_chain_prices :
    (ℕ → Option OnChainPrice) → List ℕ → Dict OnChainPrice → Dict OnChainPrice
unfolding on_chain_price
get_on_chain_prices read [] results = results
get_on_chain_prices read (id ∷ ids) results =
    get_on_chain_prices read ids (insert id (on_chain_price (read id)) results)

-- The oracle: the fetchers and the submitter.
pub record Node (W : Type 0) : Type 0 where
  pub fetchers : Fetchers
  pub submitter : Retry.State W Stats

module _ {W : Type 0} (rpc : Rpc Call W) where
  -- `submitPrices`
  unfoldable pub submit_prices : List Quote → Retry.State W Stats → TxResult × Retry.State W Stats
  unfolding submit_with_retry confirmed failure
  submit_prices [] s = (failed (codes "No prices"), s)
  submit_prices (q ∷ qs) s = submit_with_retry rpc (confirmed (q ∷ qs)) failure (call_of (q ∷ qs)) s

  -- What a cycle does with the prices.
  unfoldable pub submit_fetched : List Quote → Retry.State W Stats → Retry.State W Stats
  unfolding submit_prices
  submit_fetched [] s = s
  submit_fetched (q ∷ qs) s = (submit_prices (q ∷ qs) s).1

  -- A cycle of the main loop.
  unfoldable pub run_cycle : Responses → Node W → Node W
  unfolding fetch_all submit_fetched
  run_cycle r n =
      let (quotes, fetchers) = fetch_all r n.fetchers in
      record { fetchers = fetchers; submitter = submit_fetched quotes n.submitter }
