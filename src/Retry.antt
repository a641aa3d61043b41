-- ===== src/Retry.antt =====
-- The retry loop of .perps-engine/src/submitter.js and, but for the statistics, of
-- .oracle/src/submitter.js: three attempts to send a call and have it confirmed. There is neither a
-- simulation nor a tracked nonce, and every error is retried. The RPC endpoint is a parameter, and
-- so is what a confirmation and a final failure do to the statistics.
pub mod Laws
pub mod Timeouts
use sidiora_perpetual_protoc.Base.{
  ℕ, zero, suc, ◌+◌, ◌-◌, List, [], ◌∷◌, ◌++◌, Option, none, some, if◌then◌else◌,
}
use sidiora_perpetual_protoc.Base.Text.{codes, includes_text}
use sidiora_perpetual_protoc.Base.Outcome.{Result, ok, throw, JsError, M, ◌>>=◌}
use sidiora_perpetual_protoc.Protocol.{Reason, TxResult, success, failed}
use sidiora_perpetual_protoc.Keeper.Executor.{or_else}

-- What the node does over the network with calls `C`, on a state `W` of the world: sending (the
-- transaction's hash), and the race between its confirmation and the timeout (the receipt's hash).
pub record Rpc (C W : Type 0) : Type 0 where
  pub send : C → M W ℕ
  pub confirm : ℕ → M W ℕ

-- The submitter beside its world; `providers` counts the calls of `_initProvider`.
pub record State (W T : Type 0) : Type 0 where
  pub world : W
  pub providers : ℕ
  pub stats : T

-- `error.reason || error.shortMessage || error.message`
abbrev pub reason_of : JsError → Reason
reason_of e = or_else e.reason (or_else e.short_message (or_else e.message []))

-- `TX_WAIT_TIMEOUT_MS`, as it is printed.
abbrev pub tx_wait_timeout_ms : List ℕ
tx_wait_timeout_ms = codes "30000"

-- The error of the timeout, which names the transaction: its hash is given as a text.
abbrev pub timeout_error : List ℕ → JsError
timeout_error hash = record {
  reason = none;
  short_message = none;
  decoded = none;
  message = some (
      codes "tx.wait "
      ++ (codes "timed out"
          ++ (codes " after "
              ++ (tx_wait_timeout_ms ++ (codes "ms (hash=" ++ (hash ++ codes ")"))))));
}

-- `maxRetries` of .perps-engine/config.js and .oracle/config.js.
abbrev pub max_retries : ℕ
max_retries = 3

module _ {W T : Type 0} where
  abbrev pub recreate_provider : State W T → State W T
  recreate_provider s = record s { providers = s.providers + 1 }

  -- The `catch` of `_waitWithTimeout`.
  unfoldable pub after_wait : Result JsError ℕ × State W T → Result JsError ℕ × State W T
  after_wait (ok h, s) = (ok h, s)
  after_wait (throw e, s) = (
    throw e,
    if includes_text (or_else e.message []) (codes "timed out") then recreate_provider s else s,
  )

module _ {C W T : Type 0} (rpc : Rpc C W) where
  abbrev pub call_rpc : M W ℕ → M (State W T) ℕ
  call_rpc m s = let (r, w) = m s.world in (r, record s { world = w })

  -- `_waitWithTimeout`
  unfoldable pub wait_with_timeout : ℕ → M (State W T) ℕ
  unfolding after_wait
  wait_with_timeout hash s = after_wait (call_rpc (rpc.confirm hash) s)

  -- The `try` of an attempt, up to the confirmation.
  unfoldable pub try_once : C → M (State W T) ℕ
  unfolding wait_with_timeout
  try_once call = do hash ← call_rpc (rpc.send call); wait_with_timeout hash

  module _ (on_success : ℕ → T → T) (on_failure : T → T) where
    -- The end of an attempt: a confirmation, or what follows an error.
    unfoldable pub after_try :
        (Reason → State W T → TxResult × State W T)
        → Result JsError ℕ × State W T
        → TxResult × State W T
    after_try next (ok hash, s) = (success hash, record s { stats = on_success hash s.stats })
    after_try next (throw e, s) = next (reason_of e) s

    -- What follows the last attempt's error.
    unfoldable pub exhausted : Reason → State W T → TxResult × State W T
    exhausted r s = (failed r, record s { stats = on_failure s.stats })

    -- An attempt and those that are left after it.
    unfoldable pub attempts : ℕ → C → State W T → TxResult × State W T
    unfolding try_once after_try exhausted
    attempts zero call s = after_try exhausted (try_once call s)
    attempts (suc left) call s = after_try (λ r s'. attempts left call s') (try_once call s)

    -- `_submitWithRetry`
    unfoldable pub submit_with_retry : C → State W T → TxResult × State W T
    unfolding attempts
    submit_with_retry = attempts (max_retries - 1)
