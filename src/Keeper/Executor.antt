-- ===== src/Keeper/Executor.antt =====
-- `Executor` of .keeper/src/executor.js: transactions with a simulation first, a tracked nonce
-- and three attempts. The RPC endpoint and its contract objects are a parameter.
pub mod Reasons
pub mod Effects
pub mod Nonce
use sidiora_perpetual_protoc.Base.{
  ℕ, zero, suc, ◌+◌, ◌-◌, Bool, true, false, Option, none, some, List, [], ◌∷◌, if◌then◌else◌,
}
use sidiora_perpetual_protoc.Base.Text.{codes, to_lower_case, includes_text}
use sidiora_perpetual_protoc.Base.Outcome.{Result, ok, throw, JsError, M, ◌>>=◌, ◌>>◌, pure}
use sidiora_perpetual_protoc.Protocol.{Reason, TxResult, success, reverted, failed}

-- A contract method with its argument.
pub data Call : Type 0 where
  execute_order liquidate sync_to_oracle : ℕ → Call

-- What the node does over the network, on a state `W` of the world: the simulation of a call, the
-- number of transactions of the wallet, sending with a nonce (the transaction's hash), and the
-- race between its confirmation and the timeout (the receipt's hash).
pub record Rpc (W : Type 0) : Type 0 where
  pub static_call : Call → W → Option JsError × W
  pub transaction_count : M W ℕ
  pub send : Call → ℕ → M W ℕ
  pub confirm : ℕ → M W ℕ

pub record Stats : Type 0 where
  pub orders_executed : ℕ
  pub liquidations_executed : ℕ
  pub vamm_syncs : ℕ
  pub total_failures : ℕ
  pub consecutive_failures : ℕ
  pub last_tx_hash : Option ℕ

-- The executor beside its world; `providers` counts the calls of `_initProvider`.
pub record State (W : Type 0) : Type 0 where
  pub world : W
  pub pending_nonce : Option ℕ
  pub providers : ℕ
  pub stats : Stats

-- An empty string is false, as a missing one is.
abbrev pub or_else : Option Reason → Reason → Reason
or_else none r = r
or_else (some []) r = r
or_else (some (c ∷ cs)) r = c ∷ cs

-- `_extractReason`
unfoldable pub extract_reason : JsError → Reason
extract_reason e =
    or_else e.reason
      (or_else e.short_message (or_else e.decoded (or_else e.message (codes "unknown error"))))

abbrev pub permanent : List Reason
permanent =
    codes "order not active"
    ∷ codes "not owner"
    ∷ codes "position not active"
    ∷ codes "position is healthy"
    ∷ codes "no price"
    ∷ codes "no oracle price"
    ∷ codes "limit long not triggered"
    ∷ codes "limit short not triggered"
    ∷ codes "stop long not triggered"
    ∷ codes "stop short not triggered"
    ∷ codes "price above limit"
    ∷ codes "price below limit"
    ∷ codes "user has active position"
    ∷ codes "market not enabled"
    ∷ codes "protocol paused"
    ∷ codes "market paused"
    ∷ codes "pool not initialized"
    ∷ codes "account is missing role"
    ∷ []

-- `permanent.some((r) => lower.includes(r))`
unfoldable pub some_included : Reason → List Reason → Bool
some_included s [] = false
some_included s (p ∷ ps) = if includes_text s p then true else some_included s ps

-- `_isNonRetryable`
unfoldable pub is_non_retryable : Reason → Bool
unfolding some_included
is_non_retryable r = some_included (to_lower_case r) permanent

-- The callback that counts a confirmed call.
unfoldable pub on_success : Call → Stats → Stats
on_success (execute_order id) s = record s { orders_executed = s.orders_executed + 1 }
on_success (liquidate id) s = record s { liquidations_executed = s.liquidations_executed + 1 }
on_success (sync_to_oracle id) s = record s { vamm_syncs = s.vamm_syncs + 1 }

-- What follows a confirmation.
unfoldable pub confirmed : {W : Type 0} → Call → ℕ → State W → TxResult × State W
unfolding on_success
confirmed call hash s = (
  success hash,
  record s {
    stats = on_success call (record s.stats { consecutive_failures = 0; last_tx_hash = some hash });
  },
)

-- What follows the last attempt's failure.
unfoldable pub exhausted : {W : Type 0} → Reason → State W → TxResult × State W
exhausted r s = (
  failed r,
  record s {
    stats = record s.stats {
      total_failures = s.stats.total_failures + 1;
      consecutive_failures = s.stats.consecutive_failures + 1;
    };
  },
)

abbrev pub forget_nonce : {W : Type 0} → State W → State W
forget_nonce s = record s { pending_nonce = none }

module _ {W : Type 0} where
  abbrev pub set_nonce : ℕ → M (State W) ℕ
  set_nonce n s = (ok n, record s { pending_nonce = some (n + 1) })

  -- The `catch` of `_waitWithTimeout`.
  abbrev pub after_wait : Result JsError ℕ × State W → Result JsError ℕ × State W
  after_wait (ok h, s) = (ok h, s)
  after_wait (throw e, s) = (
    throw e,
    if includes_text (or_else e.message []) (codes "timed out")
        then record s { providers = s.providers + 1 }
        else s,
  )

  -- The end of an attempt: a confirmation, a revert for good, which forgets the nonce, or what
  -- follows any other error.
  unfoldable pub after_try :
      Call
      → (Reason → State W → TxResult × State W)
      → Result JsError ℕ × State W
      → TxResult × State W
  unfolding confirmed
  after_try call next (ok hash, s) = confirmed call hash s
  after_try call next (throw e, s) =
      if is_non_retryable (extract_reason e)
      then (reverted (extract_reason e), forget_nonce s)
      else next (extract_reason e) s

-- `maxRetries` of .keeper/config.js.
abbrev pub max_retries : ℕ
max_retries = 3

module _ {W : Type 0} (rpc : Rpc W) where
  -- An RPC call of the executor's world.
  abbrev pub call_rpc : {A : Type 0} → M W A → M (State W) A
  call_rpc m s = let (r, w) = m s.world in (r, record s { world = w })

  -- `_getNextNonce`
  unfoldable pub get_next_nonce : M (State W) ℕ
  get_next_nonce s = elim s.pending_nonce [
    | some n ↦ set_nonce n s
    | none ↦ (call_rpc rpc.transaction_count >>= set_nonce) s
  ]

  -- `_waitWithTimeout`
  unfoldable pub wait_with_timeout : ℕ → M (State W) ℕ
  wait_with_timeout hash s = after_wait (call_rpc (rpc.confirm hash) s)

  -- The `try` of one attempt.
  unfoldable pub try_once : Call → M (State W) ℕ
  unfolding get_next_nonce wait_with_timeout
  try_once call = do
    nonce ← get_next_nonce
    hash ← call_rpc (rpc.send call nonce)
    wait_with_timeout hash

  -- An attempt and those that are left after it. The nonce is forgotten before another attempt.
  unfoldable pub attempts : ℕ → Call → State W → TxResult × State W
  unfolding try_once after_try exhausted
  attempts zero call s = after_try call exhausted (try_once call s)
  attempts (suc left) call s =
      after_try call (λ r s'. attempts left call (forget_nonce s')) (try_once call s)

  -- What follows the simulation: a revert for good ends the call, any other error is ignored.
  unfoldable pub after_static_call : Call → Option JsError → State W → TxResult × State W
  unfolding attempts
  after_static_call call none s = attempts (max_retries - 1) call s
  after_static_call call (some e) s =
      if is_non_retryable (extract_reason e)
      then (reverted (extract_reason e), s)
      else attempts (max_retries - 1) call s

  -- `_submitTx`
  unfoldable pub submit_tx : Call → State W → TxResult × State W
  unfolding after_static_call
  submit_tx call s =
      let (e, w) = rpc.static_call call s.world in after_static_call call e (record s { world = w })
