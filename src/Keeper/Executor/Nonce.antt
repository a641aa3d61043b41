-- ===== src/Keeper/Executor/Nonce.antt =====
-- How many transactions a submission of .keeper/src/executor.js sends, and with which nonces.
use sidiora_perpetual_protoc.Base.{
  ℕ, zero, suc, ◌+◌, ◌≤◌, ◌≡◌, refl, ap, false, none, some, arith, Bool-cases, Option-cases, inl,
  inr,
}
use sidiora_perpetual_protoc.Base.Outcome.{Result, ok, throw, JsError}
use sidiora_perpetual_protoc.Protocol.{Reason, TxResult, failed}
use sidiora_perpetual_protoc.Keeper.Executor.{
  Call, Rpc, State, extract_reason, is_non_retryable, confirmed, exhausted, forget_nonce, call_rpc,
  get_next_nonce, after_try, after_wait, wait_with_timeout, try_once, attempts, after_static_call,
  submit_tx, max_retries,
}

-- A measure of the world that counts what was sent: each `send` adds at most one to it, and
-- nothing else adds to it.
pub record Counts {W : Type 0} (rpc : Rpc W) (sent : W → ℕ) : Type 0 where
  pub simulates : (call : Call) (w : W) → sent (rpc.static_call call w).1 ≤ sent w
  pub counts : (w : W) → sent (rpc.transaction_count w).1 ≤ sent w
  pub sends : (call : Call) (n : ℕ) (w : W) → sent (rpc.send call n w).1 ≤ sent w + 1
  pub confirms : (h : ℕ) (w : W) → sent (rpc.confirm h w).1 ≤ sent w

module _ {W : Type 0} (rpc : Rpc W) (sent : W → ℕ) (c : Counts rpc sent) where
  get_next_nonce-sent : (s : State W) → sent (get_next_nonce rpc s).1.world ≤ sent s.world
  unfolding get_next_nonce
  get_next_nonce-sent s = ground (arith, c.counts s.world)

  after_wait-world : (x : Result JsError ℕ × State W) → (after_wait x).1.world ≡ x.1.world
  after_wait-world (ok h, s) = refl
  after_wait-world (throw e, s) = ground arith

  wait_with_timeout-sent :
      (h : ℕ) (s : State W) → sent (wait_with_timeout rpc h s).1.world ≤ sent s.world
  unfolding wait_with_timeout
  wait_with_timeout-sent h s =
      rw (after_wait-world (call_rpc rpc (rpc.confirm h) s)) (c.confirms h s.world)

  try_once-sent :
      (call : Call) (s : State W) → sent (try_once rpc call s).1.world ≤ sent s.world + 1
  unfolding try_once
  try_once-sent call s = grind (arith, get_next_nonce-sent, wait_with_timeout-sent, c.sends)

  after_try-sent :
      (call : Call) (next : Reason → State W → TxResult × State W) (bound : ℕ)
      (x : Result JsError ℕ × State W)
      → sent x.1.world ≤ bound
      → ((r : Reason) (s : State W) → s.world ≡ x.1.world → sent (next r s).1.world ≤ bound)
      → sent (after_try call next x).1.world ≤ bound
  unfolding after_try confirmed
  after_try-sent call next bound (ok hash, s) e h = e
  after_try-sent call next bound (throw x, s) e h =
      elim (Bool-cases (is_non_retryable (extract_reason x))) [
        | inl y ↦ rw y e
        | inr n ↦ rw n (h (extract_reason x) s refl)
      ]

  attempts-sent :
      (left : ℕ) (call : Call) (s : State W)
      → sent (attempts rpc left call s).1.world ≤ sent s.world + suc left
  unfolding attempts exhausted
  attempts-sent zero call s =
      after_try-sent call exhausted (sent s.world + 1) (try_once rpc call s) (try_once-sent call s)
        (λ r t h. rw h (try_once-sent call s))
  attempts-sent (suc left) call s =
      after_try-sent call (λ r t. attempts rpc left call (forget_nonce t))
        (sent s.world + suc (suc left)) (try_once rpc call s) (omega (arith, try_once-sent call s))
        (λ r t h.
          omega (arith, attempts-sent left call (forget_nonce t), try_once-sent call s, ap sent h))

  -- With any measure of the world to which each send adds at most one and nothing else adds, a
  -- submission adds at most three, the number of attempts.
  pub submit_tx_sends_at_most :
      (call : Call) (s : State W) → sent (submit_tx rpc call s).1.world ≤ sent s.world + max_retries
  unfolding submit_tx after_static_call
  submit_tx_sends_at_most call s =
      let simulated = rpc.static_call call s.world in
      elim (Option-cases simulated.0) [
        | inl e ↦
            rw (e, after_static_call)
              (omega (
                arith,
                attempts-sent 2 call (record s { world = simulated.1 }),
                c.simulates call s.world,
              ))
        | inr (x, e) ↦
            rw (e, after_static_call)
              (elim (Bool-cases (is_non_retryable (extract_reason x))) [
                | inl y ↦ rw y (omega (arith, c.simulates call s.world))
                | inr n ↦ rw n (
                    omega (
                      arith,
                      attempts-sent 2 call (record s { world = simulated.1 }),
                      c.simulates call s.world,
                    ))
              ])
      ]

-- An endpoint at which the wallet's count stays `n` and every send fails, with an error that is
-- no revert for good.
pub record SendFails {W : Type 0} (rpc : Rpc W) (n : ℕ) (e : JsError) : Type 0 where
  pub passes : (call : Call) (w : W) → (rpc.static_call call w).0 ≡ none
  pub counts : (w : W) → (rpc.transaction_count w).0 ≡ ok n
  pub fails : (call : Call) (k : ℕ) (w : W) → (rpc.send call k w).0 ≡ throw e
  pub retryable : is_non_retryable (extract_reason e) ≡ false

module _ {W : Type 0} (rpc : Rpc W) (n : ℕ) (e : JsError) (f : SendFails rpc n e) where
  try_once-throw : (call : Call) (s : State W) → (try_once rpc call s).0 ≡ throw e
  unfolding try_once get_next_nonce
  try_once-throw call s = grind (arith, f.counts, f.fails)

  try_once-nonce :
      (call : Call) (s : State W)
      → s.pending_nonce ≡ none
      → (try_once rpc call s).1.pending_nonce ≡ some (n + 1)
  unfolding try_once get_next_nonce
  try_once-nonce call s h = grind (arith, f.counts, f.fails)

  after_try-throw :
      (call : Call) (next : Reason → State W → TxResult × State W) (x : Result JsError ℕ × State W)
      → x.0 ≡ throw e
      → after_try call next x ≡ next (extract_reason e) x.1
  unfolding after_try
  after_try-throw call next (r, s) h = rw (h, after_try) (rw f.retryable)

  attempts_fail :
      (left : ℕ) (call : Call) (s : State W)
      → s.pending_nonce ≡ none
      → ((attempts rpc left call s).0 ≡ failed (extract_reason e))
        × ((attempts rpc left call s).1.pending_nonce ≡ some (n + 1))
  unfolding attempts exhausted
  attempts_fail zero call s h =
      rw (after_try-throw call exhausted (try_once rpc call s) (try_once-throw call s))
        (refl, try_once-nonce call s h)
  attempts_fail (suc left) call s h =
      rw
        (after_try-throw call (λ r t. attempts rpc left call (forget_nonce t)) (try_once rpc call s)
          (try_once-throw call s))
        (attempts_fail left call (forget_nonce (try_once rpc call s).1) refl)

  -- Where the static call passes, the wallet's transaction count stays n and every send fails
  -- with one error whose reason is not on the permanent list, a submission fails with this
  -- reason and keeps n + 1 as the pending nonce, and the next nonce given out is n + 1.
  pub failed_submission_skips_nonce :
      (call : Call) (s : State W)
      → let t = submit_tx rpc call s in
        (t.0 ≡ failed (extract_reason e))
        × (t.1.pending_nonce ≡ some (n + 1))
        × ((get_next_nonce rpc t.1).0 ≡ ok (n + 1))
  unfolding submit_tx after_static_call attempts get_next_nonce
  failed_submission_skips_nonce call s =
      let s' : State W = record s { world = (rpc.static_call call s.world).1 } in
      let (a, b) = attempts_fail 1 call (forget_nonce (try_once rpc call s').1) refl in
      rw (f.passes call s.world, after_static_call)
        (rw
          (after_try-throw call (λ r t. attempts rpc 1 call (forget_nonce t)) (try_once rpc call s')
            (try_once-throw call s'))
          (a, b, rw (b, get_next_nonce) refl))
