-- ===== src/Engine/Submitter.antt =====
-- `Submitter` of .perps-engine/src/submitter.js: the two transactions of a cycle over the retry loop,
-- with the counts of the statistics. `lastCycleTime` is only printed.
pub mod Laws
use sidiora_perpetual_protoc.Base.{ℕ, ◌+◌, Bool, true, false, Option, some, none, zero, suc}
use sidiora_perpetual_protoc.Protocol.{TxResult, success, reverted, failed}
use sidiora_perpetual_protoc.Retry.{Rpc, State, submit_with_retry}
use sidiora_perpetual_protoc.Engine.Cycle.{Call, full_cycle, price_cycle}

pub record Stats : Type 0 where
  pub total_cycles : ℕ
  pub full_cycles : ℕ
  pub price_cycles : ℕ
  pub total_failures : ℕ
  pub consecutive_failures : ℕ
  pub last_tx_hash : Option ℕ

abbrev pub initial_stats : Stats
initial_stats = record {
  total_cycles = 0;
  full_cycles = 0;
  price_cycles = 0;
  total_failures = 0;
  consecutive_failures = 0;
  last_tx_hash = none;
}

-- The callbacks of `submitFullCycle` and `submitPriceCycle`.
unfoldable pub on_success : Call → Stats → Stats
on_success (full_cycle markets prices orders positions) s = record s {
  full_cycles = s.full_cycles + 1;
}
on_success (price_cycle markets prices) s = record s { price_cycles = s.price_cycles + 1 }

-- What a confirmation does to the statistics, the callback included.
unfoldable pub confirmed : Call → ℕ → Stats → Stats
unfolding on_success
confirmed call hash s = on_success call (record s {
  total_cycles = s.total_cycles + 1;
  consecutive_failures = 0;
  last_tx_hash = some hash;
})

-- What the failure of the last attempt does to them.
unfoldable pub failure : Stats → Stats
failure s = record s {
  total_failures = s.total_failures + 1;
  consecutive_failures = s.consecutive_failures + 1;
}

abbrev pub is_success : TxResult → Bool
is_success (success hash) = true
is_success (reverted r) = false
is_success (failed r) = false

module _ {W : Type 0} (rpc : Rpc Call W) where
  -- `submitFullCycle` and `submitPriceCycle`
  unfoldable pub submit : Call → State W Stats → TxResult × State W Stats
  unfolding submit_with_retry confirmed failure
  submit call s = submit_with_retry rpc (confirmed call) failure call s

  -- A submission as the cycle uses it.
  unfoldable pub submission : Call → State W Stats → Bool × State W Stats
  unfolding submit
  submission call s = let (r, t) = submit call s in (is_success r, t)
