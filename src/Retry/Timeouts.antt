-- ===== src/Retry/Timeouts.antt =====
-- The retry loop of .perps-engine/src/submitter.js and .oracle/src/submitter.js at an endpoint that
-- takes every transaction but does not confirm in time.
use sidiora_perpetual_protoc.Base.{ℕ, zero, suc, ◌+◌, ◌≡◌, refl, ap, ◌∙◌, true, List, [], arith}
use sidiora_perpetual_protoc.Base.Text.{codes, includes_text, includes_text-append}
use sidiora_perpetual_protoc.Base.Outcome.{Result, ok, throw, JsError}
use sidiora_perpetual_protoc.Protocol.{Reason, TxResult, failed}
use sidiora_perpetual_protoc.Keeper.Executor.{or_else}
use sidiora_perpetual_protoc.Retry.{
  Rpc, State, reason_of, timeout_error, after_wait, wait_with_timeout, try_once, after_try,
  exhausted, attempts, submit_with_retry,
}

-- An endpoint that takes each transaction, which the measure counts, and never confirms one before
-- the timeout; `text` prints a hash.
pub record Hangs {C W : Type 0} (rpc : Rpc C W) (sent : W → ℕ) (text : ℕ → List ℕ) : Type 0 where
  pub hash : C → W → ℕ
  pub takes : (call : C) (w : W) → (rpc.send call w).0 ≡ ok (hash call w)
  pub counts : (call : C) (w : W) → sent (rpc.send call w).1 ≡ sent w + 1
  pub hangs : (h : ℕ) (w : W) → (rpc.confirm h w).0 ≡ throw (timeout_error (text h))
  pub only_waits : (h : ℕ) (w : W) → sent (rpc.confirm h w).1 ≡ sent w

timed_out :
    (hash : List ℕ)
    → includes_text (or_else (timeout_error hash).message []) (codes "timed out") ≡ true
timed_out hash = includes_text-append (codes "tx.wait ") (codes "timed out") _

module _ {C W : Type 0} (rpc : Rpc C W) (sent : W → ℕ) (text : ℕ → List ℕ)
    (f : Hangs rpc sent text) where
  -- The error of an attempt that begins in a world.
  abbrev error_of : C → W → JsError
  error_of call w = timeout_error (text (f.hash call w))

  module _ {T : Type 0} where
    try_times_out :
        (e : JsError) (h : ℕ) (call : C) (s : State W T)
        → includes_text (or_else e.message []) (codes "timed out") ≡ true
        → (rpc.send call s.world).0 ≡ ok h
        → ((w : W) → (rpc.confirm h w).0 ≡ throw e)
        → let x = try_once rpc call s in
          (x.0 ≡ throw e)
          × (sent x.1.world ≡ sent s.world + 1)
          × (x.1.providers ≡ s.providers + 1)
          × (x.1.stats ≡ s.stats)
    unfolding try_once wait_with_timeout after_wait
    try_times_out e h call s late takes hangs =
        grind (arith, takes, f.counts, hangs, f.only_waits, late)

    try_hangs :
        (call : C) (s : State W T)
        → let x = try_once rpc call s in
          (x.0 ≡ throw (error_of call s.world))
          × (sent x.1.world ≡ sent s.world + 1)
          × (x.1.providers ≡ s.providers + 1)
          × (x.1.stats ≡ s.stats)
    try_hangs call s =
        let h = f.hash call s.world in
        try_times_out (timeout_error (text h)) h call s (timed_out (text h)) (f.takes call s.world)
          (f.hangs h)

    module _ (on_success : ℕ → T → T) (on_failure : T → T) where
      after_try-throw :
          (e : JsError) (next : Reason → State W T → TxResult × State W T)
          (x : Result JsError ℕ × State W T)
          → x.0 ≡ throw e
          → after_try rpc on_success on_failure next x ≡ next (reason_of e) x.1
      unfolding after_try
      after_try-throw e next (r, s) h = rw (h, after_try) refl

      -- How a loop with this many attempts left ends: the reason names the transaction that was sent
      -- last.
      abbrev pub AllHang : ℕ → C → State W T → TxResult × State W T → Type 0
      AllHang left call s x =
          ((w : W) × (sent w ≡ sent s.world + left) × (x.0 ≡ failed (reason_of (error_of call w))))
          × (sent x.1.world ≡ sent s.world + suc left)
          × (x.1.providers ≡ s.providers + suc left)
          × (x.1.stats ≡ on_failure s.stats)

      attempts_hang :
          (left : ℕ) (call : C) (s : State W T)
          → AllHang left call s (attempts rpc on_success on_failure left call s)
      unfolding attempts exhausted
      attempts_hang zero call s =
          let (r, n, p, t) = try_hangs call s in
          rw
            (after_try-throw (error_of call s.world) (exhausted rpc on_success on_failure)
              (try_once rpc call s) r)
            ((s.world, omega arith, refl), n, p, ap on_failure t)
      attempts_hang (suc left) call s =
          let (r, n, p, t) = try_hangs call s in
          let ((w, m, a), b, c, d) = attempts_hang left call (try_once rpc call s).1 in
          rw
            (after_try-throw (error_of call s.world)
              (λ x. attempts rpc on_success on_failure left call) (try_once rpc call s) r)
            (
              (w, omega (arith, m, n), a),
              omega (arith, b, n),
              omega (arith, c, p),
              d ∙ ap on_failure t,
            )

      -- At an endpoint that takes every transaction and confirms none before the timeout, the
      -- retry loop sends three, recreates the provider three times, counts one failure and
      -- returns a failure whose reason is the timeout's message with the hash that the endpoint
      -- gives the call after two sends.
      pub timeouts_resend :
          (call : C) (s : State W T)
          → let x = submit_with_retry rpc on_success on_failure call s in
            ((w : W) × (sent w ≡ sent s.world + 2)
              × (x.0 ≡ failed (reason_of (timeout_error (text (f.hash call w))))))
            × (sent x.1.world ≡ sent s.world + 3)
            × (x.1.providers ≡ s.providers + 3)
            × (x.1.stats ≡ on_failure s.stats)
      unfolding submit_with_retry
      timeouts_resend call s = attempts_hang 2 call s
