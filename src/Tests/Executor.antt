-- ===== src/Tests/Executor.antt =====
-- The executor at two endpoints: one that drops the first transaction, and one that sends nothing.
use sidiora_perpetual_protoc.Base.{
  ℕ, suc, ◌+◌, ◌≤◌, ◌≡◌, refl, false, none, some, ◌==◌, if◌then◌else◌, arith,
}
use sidiora_perpetual_protoc.Base.Text.{codes, includes_text, starts_with}
use sidiora_perpetual_protoc.Base.Outcome.{ok, throw, JsError}
use sidiora_perpetual_protoc.Protocol.{failed}
use sidiora_perpetual_protoc.Keeper.Executor.{
  Call, Rpc, State, extract_reason, some_included, is_non_retryable, get_next_nonce, submit_tx,
  max_retries,
}
use sidiora_perpetual_protoc.Keeper.Executor.Effects.{Effect, submit_tx-Effect}
use sidiora_perpetual_protoc.Keeper.Executor.Nonce.{
  Counts, SendFails, submit_tx_sends_at_most, failed_submission_skips_nonce,
}

abbrev dropped : JsError
dropped = record {
  reason = none;
  short_message = some (codes "could not connect");
  decoded = none;
  message = none;
}

-- The world counts what was sent; the first transaction is lost.
abbrev flaky : Rpc ℕ
flaky = record {
  static_call = λ call w. (none, w);
  transaction_count = λ w. (ok (7 + w), w);
  send = λ call n w. if w == 0 then (throw dropped, 1) else (ok (100 + n), suc w);
  confirm = λ h w. (ok h, w);
}

abbrev dead : Rpc ℕ
dead = record {
  static_call = λ call w. (none, w);
  transaction_count = λ w. (ok 7, w);
  send = λ call n w. (throw dropped, w);
  confirm = λ h w. (ok h, w);
}

abbrev start : State ℕ
start = record {
  world = 0;
  pending_nonce = none;
  providers = 1;
  stats = record {
    orders_executed = 2;
    liquidations_executed = 0;
    vamm_syncs = 0;
    total_failures = 1;
    consecutive_failures = 1;
    last_tx_hash = none;
  };
}

abbrev order : Call
order = Call.execute_order 4

submit_tx-Effect_example : Effect order start.stats (submit_tx flaky order start)
submit_tx-Effect_example = submit_tx-Effect flaky order start

flaky-Counts : Counts flaky (λ w. w)
flaky-Counts = record {
  simulates = λ call w. omega arith;
  counts = λ w. omega arith;
  sends = λ call n w. ground arith;
  confirms = λ h w. omega arith;
}

submit_tx_sends_at_most_example : (submit_tx flaky order start).1.world ≤ 0 + max_retries
submit_tx_sends_at_most_example = submit_tx_sends_at_most flaky (λ w. w) flaky-Counts order start

retryable : is_non_retryable (extract_reason dropped) ≡ false
unfolding is_non_retryable extract_reason some_included includes_text starts_with
retryable = refl

dead_fails : SendFails dead 7 dropped
dead_fails = record {
  passes = λ call w. refl;
  counts = λ w. refl;
  fails = λ call k w. refl;
  retryable = retryable;
}

failed_submission_skips_nonce_example :
    ((submit_tx dead order start).0 ≡ failed (extract_reason dropped))
    × ((submit_tx dead order start).1.pending_nonce ≡ some (7 + 1))
    × ((get_next_nonce dead (submit_tx dead order start).1).0 ≡ ok (7 + 1))
failed_submission_skips_nonce_example =
    failed_submission_skips_nonce dead 7 dropped dead_fails order start
