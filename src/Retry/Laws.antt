-- ===== src/Retry/Laws.antt =====
-- How the retry loop of .perps-engine/src/submitter.js and .oracle/src/submitter.js ends.
use sidiora_perpetual_protoc.Base.{ℕ, zero, suc, ◌≤◌, ◌<◌, ◌≡◌, refl, ap, ◌∙◌, ◌⊎◌, inl, inr, arith}
use sidiora_perpetual_protoc.Base.Outcome.{Result, ok, throw, JsError}
use sidiora_perpetual_protoc.Protocol.{Reason, TxResult, success, reverted, failed}
use sidiora_perpetual_protoc.Retry.{
  Rpc, State, reason_of, after_wait, wait_with_timeout, try_once, after_try, exhausted, attempts,
  submit_with_retry,
}

module _ {W T : Type 0} where
  after_wait-stats : (x : Result JsError ℕ × State W T) → (after_wait x).1.stats ≡ x.1.stats
  unfolding after_wait
  after_wait-stats (ok h, s) = refl
  after_wait-stats (throw e, s) = ground arith

module _ {C W T : Type 0} (rpc : Rpc C W) where
  try_once-stats : (call : C) (s : State W T) → (try_once rpc call s).1.stats ≡ s.stats
  unfolding try_once wait_with_timeout
  try_once-stats call s = grind (arith, after_wait-stats)

  -- The state after some tries, whatever they end with.
  abbrev pub tries : ℕ → C → State W T → State W T
  tries zero call s = s
  tries (suc k) call s = tries k call (try_once rpc call s).1

  -- The k-th try throws.
  abbrev pub Throws : C → State W T → ℕ → Type 0
  Throws call s k = (e : JsError) × ((try_once rpc call (tries k call s)).0 ≡ throw e)

  module _ (on_success : ℕ → T → T) (on_failure : T → T) where
    -- How a loop with this many attempts left after the first ended.
    abbrev pub Effect : ℕ → C → State W T → TxResult × State W T → Type 0
    Effect left call s (success hash, t) =
        (k : ℕ) × (k ≤ left)
        × ((try_once rpc call (tries k call s)).0 ≡ ok hash)
        × ((j : ℕ) → j < k → Throws call s j)
        × (t ≡ record (tries (suc k) call s) { stats = on_success hash s.stats })
    Effect left call s (reverted r, t) = ⊥
    Effect left call s (failed r, t) =
        ((j : ℕ) → j < suc left → Throws call s j)
        × ((e : JsError) × ((try_once rpc call (tries left call s)).0 ≡ throw e)
            × (r ≡ reason_of e))
        × (t ≡ record (tries (suc left) call s) { stats = on_failure s.stats })

    Result-cases :
        (x : Result JsError ℕ × State W T)
        → ((h : ℕ) × (x.0 ≡ ok h)) ⊎ ((e : JsError) × (x.0 ≡ throw e))
    Result-cases (ok h, s) = inl (h, refl)
    Result-cases (throw e, s) = inr (e, refl)

    Throws-suc :
        (call : C) (s : State W T) (k : ℕ) (e : JsError)
        → (try_once rpc call s).0 ≡ throw e
        → ((j : ℕ) → j < k → Throws call (try_once rpc call s).1 j)
        → (j : ℕ) → j < suc k
        → Throws call s j
    Throws-suc call s k e h ih zero b = (e, h)
    Throws-suc call s k e h ih (suc j) b = ih j (omega (arith, b))

    Effect-suc :
        (left : ℕ) (call : C) (s : State W T) (e : JsError) (x : TxResult × State W T)
        → (try_once rpc call s).0 ≡ throw e
        → Effect left call (try_once rpc call s).1 x
        → Effect (suc left) call s x
    Effect-suc left call s e (success hash, t) h (k, b, c, d, f) = (
      suc k,
      omega (arith, b),
      c,
      Throws-suc call s k e h d,
      f
          ∙ ap
              (λ z. record (tries (suc k) call (try_once rpc call s).1) {
                stats = on_success hash z;
              })
              (try_once-stats call s),
    )
    Effect-suc left call s e (reverted r, t) h f = elim f [ ]
    Effect-suc left call s e (failed r, t) h (d, c, f) = (
      Throws-suc call s (suc left) e h d,
      c,
      f
          ∙ ap
              (λ z. record (tries (suc left) call (try_once rpc call s).1) { stats = on_failure z })
              (try_once-stats call s),
    )

    after_try-ok :
        (next : Reason → State W T → TxResult × State W T) (x : Result JsError ℕ × State W T)
        (h : ℕ)
        → x.0 ≡ ok h
        → after_try rpc on_success on_failure next x
          ≡ (success h, record x.1 { stats = on_success h x.1.stats })
    unfolding after_try
    after_try-ok next (r, s) h e = rw (e, after_try) refl

    after_try-throw :
        (next : Reason → State W T → TxResult × State W T) (x : Result JsError ℕ × State W T)
        (e : JsError)
        → x.0 ≡ throw e
        → after_try rpc on_success on_failure next x ≡ next (reason_of e) x.1
    unfolding after_try
    after_try-throw next (r, s) x e = rw (e, after_try) refl

    confirmed-Effect :
        (left : ℕ) (call : C) (s : State W T) (h : ℕ)
        (next : Reason → State W T → TxResult × State W T)
        → (try_once rpc call s).0 ≡ ok h
        → Effect left call s (after_try rpc on_success on_failure next (try_once rpc call s))
    confirmed-Effect left call s h next e = rw (after_try-ok next (try_once rpc call s) h e) (
      0,
      omega arith,
      e,
      (λ j b. absurd (omega (arith, b))),
      ap (λ z. record (try_once rpc call s).1 { stats = on_success h z }) (try_once-stats call s),
    )

    attempts-Effect :
        (left : ℕ) (call : C) (s : State W T)
        → Effect left call s (attempts rpc on_success on_failure left call s)
    unfolding attempts exhausted
    attempts-Effect zero call s = elim (Result-cases (try_once rpc call s)) [
      | inl (h, e) ↦ confirmed-Effect zero call s h (exhausted rpc on_success on_failure) e
      | inr (x, e) ↦
          rw (after_try-throw (exhausted rpc on_success on_failure) (try_once rpc call s) x e) (
            Throws-suc call s 0 x e (λ j b. absurd (omega (arith, b))),
            (x, e, refl),
            ap (λ z. record (try_once rpc call s).1 { stats = on_failure z })
                (try_once-stats call s),
          )
    ]
    attempts-Effect (suc left) call s = elim (Result-cases (try_once rpc call s)) [
      | inl (h, e) ↦
          confirmed-Effect (suc left) call s h
            (λ r t. attempts rpc on_success on_failure left call t) e
      | inr (x, e) ↦
          rw
            (after_try-throw (λ r t. attempts rpc on_success on_failure left call t)
              (try_once rpc call s) x e)
            (Effect-suc left call s x _ e (attempts-Effect left call (try_once rpc call s).1))
    ]

    -- However the endpoint answers, the engine's and the oracle's retry loop ends with the
    -- first of the three tries that confirms, with its hash and the success counted, or,
    -- exactly if all three throw, with a failure that has the reason of the third and is
    -- counted once.
    pub submit_with_retry-Effect :
        (call : C) (s : State W T)
        → Effect 2 call s (submit_with_retry rpc on_success on_failure call s)
    unfolding submit_with_retry
    submit_with_retry-Effect call s = attempts-Effect 2 call s

    attempts_confirm :
        (left k : ℕ) (call : C) (s : State W T) (hash : ℕ)
        → k ≤ left
        → ((j : ℕ) → j < k → Throws call s j)
        → (try_once rpc call (tries k call s)).0 ≡ ok hash
        → (attempts rpc on_success on_failure left call s).0 ≡ success hash
    unfolding attempts
    attempts_confirm zero zero call s hash b h e =
        ap (λ p. p.0)
          (after_try-ok (exhausted rpc on_success on_failure) (try_once rpc call s) hash e)
    attempts_confirm zero (suc k) call s hash b h e = absurd (omega (arith, b))
    attempts_confirm (suc left) zero call s hash b h e =
        ap (λ p. p.0)
          (after_try-ok (λ r t. attempts rpc on_success on_failure left call t)
            (try_once rpc call s) hash e)
    attempts_confirm (suc left) (suc k) call s hash b h e =
        let (x, t) = h 0 (omega arith) in
        rw
          (after_try-throw (λ r t. attempts rpc on_success on_failure left call t)
            (try_once rpc call s) x t)
          (attempts_confirm left k call (try_once rpc call s).1 hash (omega (arith, b))
            (λ j c. h (suc j) (omega (arith, c))) e)

    -- If one of the first three tries confirms and those before it throw, the retry loop
    -- returns a success with the hash of that try.
    pub retry_confirms :
        (k : ℕ) (call : C) (s : State W T) (hash : ℕ)
        → k < 3
        → ((j : ℕ) → j < k → Throws call s j)
        → (try_once rpc call (tries k call s)).0 ≡ ok hash
        → (submit_with_retry rpc on_success on_failure call s).0 ≡ success hash
    unfolding submit_with_retry
    retry_confirms k call s hash b = attempts_confirm 2 k call s hash (omega (arith, b))
