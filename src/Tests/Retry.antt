-- ===== src/Tests/Retry.antt =====
-- The retry loop and the statistics of the engine at small inputs.
use sidiora_perpetual_protoc.Base.{
  ℕ, zero, suc, ◌+◌, ◌<◌, ◌≡◌, ◌==◌, refl, List, [], ◌∷◌, none, some, if◌then◌else◌, arith,
}
use sidiora_perpetual_protoc.Base.Text.{codes}
use sidiora_perpetual_protoc.Base.Outcome.{ok, throw, JsError}
use sidiora_perpetual_protoc.Protocol.{failed}
use sidiora_perpetual_protoc.Retry.{
  Rpc, State, reason_of, timeout_error, try_once, wait_with_timeout, after_wait, submit_with_retry,
}
use sidiora_perpetual_protoc.Retry.Laws.{Effect, Throws, tries, submit_with_retry-Effect}
use sidiora_perpetual_protoc.Retry.Timeouts.{Hangs, timeouts_resend}

-- Calls are numbers, and the statistics count successes and failures.
abbrev counts : ℕ → ℕ × ℕ → ℕ × ℕ
counts hash (good, bad) = (good + 1, bad)

abbrev failure : ℕ × ℕ → ℕ × ℕ
failure (good, bad) = (good, bad + 1)

abbrev busy : JsError
busy = record {
  reason = none;
  short_message = some (codes "busy");
  decoded = none;
  message = some (codes "busy (code=1)");
}

-- The text of a hash.
abbrev text : ℕ → List ℕ
text hash = 48 ∷ 120 ∷ hash ∷ []

-- The world counts the sends; the first one throws.
abbrev flaky : Rpc ℕ ℕ
flaky = record {
  send = λ call n. if n == 0 then (throw busy, 1) else (ok (call + n), n + 1);
  confirm = λ hash n. (ok hash, n);
}

abbrev hanging : Rpc ℕ ℕ
hanging = record {
  send = λ call n. (ok (call + n), n + 1);
  confirm = λ hash n. (throw (timeout_error (text hash)), n);
}

abbrev start : State ℕ (ℕ × ℕ)
start = record { world = 0; providers = 0; stats = (4, 1) }

submit_with_retry-Effect_example :
    Effect flaky counts failure 2 50 start (submit_with_retry flaky counts failure 50 start)
submit_with_retry-Effect_example = submit_with_retry-Effect flaky counts failure 50 start

first-Throws : (j : ℕ) → j < 1 → Throws flaky 50 start j
unfolding try_once
first-Throws zero b = (busy, refl)
first-Throws (suc j) b = absurd (omega (arith, b))

second_confirms : (try_once flaky 50 (tries flaky 1 50 start)).0 ≡ ok 51
unfolding try_once wait_with_timeout after_wait
second_confirms = refl

hanging-Hangs : Hangs hanging (λ n. n) text
hanging-Hangs = record {
  hash = λ call n. call + n;
  takes = λ call n. refl;
  counts = λ call n. refl;
  hangs = λ hash n. refl;
  only_waits = λ hash n. refl;
}

timeouts_resend_example :
    let x = submit_with_retry hanging counts failure 50 start in
    ((w : ℕ) × (w ≡ 0 + 2)
      × (x.0 ≡ failed (reason_of (timeout_error (text (hanging-Hangs.hash 50 w))))))
    × (x.1.world ≡ 0 + 3)
    × (x.1.providers ≡ 0 + 3)
    × (x.1.stats ≡ failure (4, 1))
timeouts_resend_example =
    timeouts_resend hanging (λ n. n) text hanging-Hangs counts failure 50 start
