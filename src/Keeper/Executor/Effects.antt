-- ===== src/Keeper/Executor/Effects.antt =====
-- What a submission of .keeper/src/executor.js leaves in the statistics, however the RPC
-- endpoint answers, and how many transactions it sends.
use mathlib.Core.Path.{subst}
use sidiora_perpetual_protoc.Base.{
  ℕ, zero, suc, ◌+◌, ◌≡◌, refl, true, false, some, arith, Bool-cases, Option-cases, inl, inr,
}
use sidiora_perpetual_protoc.Base.Outcome.{Result, ok, throw, JsError}
use sidiora_perpetual_protoc.Protocol.{Reason, TxResult, success, reverted, failed}
use sidiora_perpetual_protoc.Keeper.Executor.{
  Call, Rpc, Stats, State, extract_reason, is_non_retryable, on_success, confirmed, exhausted,
  forget_nonce, call_rpc, get_next_nonce, after_try, after_wait, wait_with_timeout, try_once,
  attempts, after_static_call, submit_tx,
}

module _ {W : Type 0} where
  -- How a submission that began with these statistics ended.
  abbrev pub Effect : Call → Stats → TxResult × State W → Type 0
  Effect call b (success hash, s) =
      s.stats ≡ on_success call (record b { consecutive_failures = 0; last_tx_hash = some hash })
  Effect call b (reverted r, s) = (is_non_retryable r ≡ true) × (s.stats ≡ b)
  Effect call b (failed r, s) =
      (is_non_retryable r ≡ false)
      × (s.stats ≡ record b {
        total_failures = b.total_failures + 1;
        consecutive_failures = b.consecutive_failures + 1;
      })

  after_wait-stats : (x : Result JsError ℕ × State W) → (after_wait x).1.stats ≡ x.1.stats
  after_wait-stats (ok h, s) = refl
  after_wait-stats (throw e, s) = ground arith

  exhausted-Effect :
      (call : Call) (b : Stats) (r : Reason) (s : State W)
      → is_non_retryable r ≡ false
      → s.stats ≡ b
      → Effect call b (exhausted r s)
  unfolding exhausted
  exhausted-Effect call b r s h e = (h, rw e refl)

  after_try-Effect :
      (call : Call) (next : Reason → State W → TxResult × State W) (b : Stats)
      (x : Result JsError ℕ × State W)
      → x.1.stats ≡ b
      → ((r : Reason) (s : State W)
          → is_non_retryable r ≡ false
          → s.stats ≡ b
          → Effect call b (next r s))
      → Effect call b (after_try call next x)
  unfolding after_try confirmed
  after_try-Effect call next b (ok hash, s) e h = rw e refl
  after_try-Effect call next b (throw x, s) e h =
      elim (Bool-cases (is_non_retryable (extract_reason x))) [
        | inl y ↦ rw y (y, e)
        | inr n ↦ rw n (h (extract_reason x) s n e)
      ]

  module _ (rpc : Rpc W) where
    get_next_nonce-stats : (s : State W) → (get_next_nonce rpc s).1.stats ≡ s.stats
    unfolding get_next_nonce
    get_next_nonce-stats s = ground arith

    wait_with_timeout-stats : (h : ℕ) (s : State W) → (wait_with_timeout rpc h s).1.stats ≡ s.stats
    unfolding wait_with_timeout
    wait_with_timeout-stats h s = after_wait-stats (call_rpc rpc (rpc.confirm h) s)

    try_once-stats : (call : Call) (s : State W) → (try_once rpc call s).1.stats ≡ s.stats
    unfolding try_once
    try_once-stats call s = grind (arith, get_next_nonce-stats, wait_with_timeout-stats)

    attempts-Effect :
        (left : ℕ) (call : Call) (s : State W) → Effect call s.stats (attempts rpc left call s)
    unfolding attempts
    attempts-Effect zero call s =
        after_try-Effect call exhausted s.stats (try_once rpc call s) (try_once-stats call s)
          (exhausted-Effect call s.stats)
    attempts-Effect (suc left) call s =
        after_try-Effect call (λ r t. attempts rpc left call (forget_nonce t)) s.stats
          (try_once rpc call s) (try_once-stats call s)
          (λ r t e h.
            subst (λ b. Effect call b (attempts rpc left call (forget_nonce t))) h
              (attempts-Effect left call (forget_nonce t)))

    -- However the endpoint answers, a submission succeeds, is reverted for good or fails: a
    -- success is counted once and clears the consecutive failures, a revert leaves the
    -- statistics, a failure adds one to both failure counts, and the result is reverted exactly
    -- if its reason is on the permanent list.
    pub submit_tx-Effect : (call : Call) (s : State W) → Effect call s.stats (submit_tx rpc call s)
    unfolding submit_tx after_static_call
    submit_tx-Effect call s = elim (Option-cases (rpc.static_call call s.world).0) [
      | inl e ↦ rw (e, after_static_call) (attempts-Effect 2 call _)
      | inr (x, e) ↦
          rw (e, after_static_call)
            (elim (Bool-cases (is_non_retryable (extract_reason x))) [
              | inl y ↦ rw y (y, refl)
              | inr n ↦ rw n (attempts-Effect 2 call _)
            ])
    ]
