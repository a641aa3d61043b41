-- ===== src/Engine/Overlap/Alone.antt =====
-- A cycle of .perps-engine/index.js that no other cycle interrupts.
use sidiora_perpetual_protoc.Base.{
  ℕ, zero, suc, ◌≤◌, ◌≡◌, refl, ap, ◌∙◌, Bool, true, false, List, [], ◌∷◌, ◌++◌, length, arith,
}
use sidiora_perpetual_protoc.Base.Outcome.{Result, ok, throw, JsError}
use sidiora_perpetual_protoc.Protocol.{Reason, TxResult}
use sidiora_perpetual_protoc.Retry
use sidiora_perpetual_protoc.Retry.{
  attempts, submit_with_retry, after_try, reason_of, exhausted, call_rpc, try_once,
  wait_with_timeout,
}
use sidiora_perpetual_protoc.Engine.Cycle
use sidiora_perpetual_protoc.Engine.Cycle.{Call, Quote}
use sidiora_perpetual_protoc.Engine.Sources.{fetch_all}
use sidiora_perpetual_protoc.Engine.Submitter.{
  Stats, confirmed, failure, is_success, submission, submit,
}
use sidiora_perpetual_protoc.Engine.Main.{
  Config, Outside, Node, after_submission, with_prices, run_cycle,
}
use sidiora_perpetual_protoc.Engine.Overlap.{
  Found, Stage, scan, settle_found, after_send, after_confirm, after_error, step, Live, Fleet,
  start, advance, advance_at, apply, run,
}

abbrev pub repeat {ℓ} : {A : Type ℓ} → ℕ → A → List A
repeat zero x = []
repeat (suc k) x = x ∷ repeat k x

module _ {W : Type 0} (config : Config) (rpc : Retry.Rpc Call W) where
  drive : ℕ → Outside → Stage → Node W → Stage × Node W
  unfolding step
  drive zero o stage n = (stage, n)
  drive (suc k) o stage n = let (stage', n') = step config rpc o stage n in drive k o stage' n'

  -- A cycle at a stage ends within so many steps of its own, and leaves that engine.
  abbrev Ends : ℕ → Outside → Stage → Node W → Node W → Type 0
  Ends bound o stage n m = (k : ℕ) × (k ≤ bound) × (drive k o stage n ≡ (Stage.done, m))

  before :
      (bound : ℕ) (o : Outside) (stage : Stage) (n m : Node W)
      → Ends bound o (step config rpc o stage n).0 (step config rpc o stage n).1 m
      → Ends (suc bound) o stage n m
  unfolding drive
  before bound o stage n m (k, h, e) = (suc k, omega arith, e)

  weaken :
      (b c : ℕ) (o : Outside) (stage : Stage) (n m : Node W)
      → b ≤ c
      → Ends b o stage n m
      → Ends c o stage n m
  weaken b c o stage n m h (k, l, e) = (k, omega arith, e)

  after_settling :
      (o : Outside) (f : Found) (success : Bool) (n : Node W)
      → Ends 7 o
          (Stage.settling f success)
          n
          (after_submission config rpc o (settle_found f success n))
  unfolding drive step after_submission
  after_settling o f success n = (7, omega arith, refl)

  -- What the attempts of a submission leave, with its outcome.
  abbrev answered : Found → Node W → TxResult × Retry.State W Stats → Node W
  answered f n (r, s) =
      settle_found f (is_success r) (record n { submitter = s; calls = n.calls ++ f.call ∷ [] })

  module _ (o : Outside) (f : Found) (n : Node W) where
    abbrev Settles : ℕ → ℕ → Retry.State W Stats → TxResult × Retry.State W Stats → Type 0
    Settles bound left s x =
        Ends bound o (after_error f left (record n { submitter = s })).0
          (after_error f left (record n { submitter = s })).1
          (after_submission config rpc o (answered f n x))

    confirm-Ends :
        (bound left : ℕ) (next : Reason → Retry.State W Stats → TxResult × Retry.State W Stats)
        → 7 ≤ bound
        → ((r : Reason) (s : Retry.State W Stats) → Settles bound left s (next r s))
        → (y : Result JsError ℕ × Retry.State W Stats)
        → Ends bound o
            (after_confirm f left y.0 (record n { submitter = y.1 })).0
            (after_confirm f left y.0 (record n { submitter = y.1 })).1
            (after_submission config rpc o
              (answered f n (after_try rpc (confirmed f.call) failure next y)))
    unfolding after_confirm after_try
    confirm-Ends bound left next b h (ok hash, s) = weaken 7 bound _ _ _ _ b (
        after_settling o f true (record n {
          submitter = record s { stats = confirmed f.call hash s.stats };
          calls = n.calls ++ f.call ∷ [];
        }))
    confirm-Ends bound left next b h (throw e, s) = h (reason_of e) s

    send-Ends :
        (bound left : ℕ) (next : Reason → Retry.State W Stats → TxResult × Retry.State W Stats)
        → 7 ≤ bound
        → ((r : Reason) (s : Retry.State W Stats) → Settles bound left s (next r s))
        → (x : Result JsError ℕ × Retry.State W Stats)
        → Ends
            (suc bound)
            o
            (after_send f left x.0 (record n { submitter = x.1 })).0
            (after_send f left x.0 (record n { submitter = x.1 })).1
            (after_submission config rpc o (
              answered f n (
                after_try rpc
                  (confirmed f.call)
                  failure
                  next
                  ((elim x.0 [ ok a ↦ wait_with_timeout rpc a x.1 | throw e ↦ (throw e, x.1) ])))))
    unfolding after_send step after_try
    send-Ends bound left next b h (ok hash, s) =
        before bound o (Stage.confirming f left hash) (record n { submitter = s }) _
          (confirm-Ends bound left next b h (wait_with_timeout rpc hash s))
    send-Ends bound left next b h (throw e, s) =
        weaken bound (suc bound) _ _ _ _ (omega arith) (h (reason_of e) s)

  -- The bound of a submission with so many attempts left, and of what follows it.
  abbrev steps_of : ℕ → ℕ
  steps_of zero = 9
  steps_of (suc left) = suc (suc (steps_of left))

  steps_le : (left : ℕ) → 7 ≤ steps_of left
  steps_le zero = omega arith
  steps_le (suc left) = omega (arith, steps_le left)

  sending-Ends :
      (left : ℕ) (o : Outside) (f : Found) (n : Node W)
      → Ends (steps_of left) o (Stage.sending f left) n (
          after_submission config rpc o
            (answered f n (attempts rpc (confirmed f.call) failure left f.call n.submitter)))
  unfolding attempts try_once after_error exhausted step
  sending-Ends zero o f n = before 8 o (Stage.sending f 0) n _ (
      send-Ends o f n 7 0 (exhausted rpc (confirmed f.call) failure) (omega arith)
        (λ r s. after_settling o f false (record n {
          submitter = record s { stats = failure s.stats };
          calls = n.calls ++ f.call ∷ [];
        }))
        (call_rpc rpc (rpc.send f.call) n.submitter))
  sending-Ends (suc left) o f n = before (suc (steps_of left)) o (Stage.sending f (suc left)) n _ (
      send-Ends o f n (steps_of left) (suc left)
        (λ r s. attempts rpc (confirmed f.call) failure left f.call s) (steps_le left)
        (λ r s. sending-Ends left o f (record n { submitter = s }))
        (call_rpc rpc (rpc.send f.call) n.submitter))

  scanned-Ends :
      (o : Outside) (quotes : List Quote) (n : Node W)
      → Ends 14 o (Stage.scanning quotes) n (with_prices config rpc o quotes n)
  unfolding drive step with_prices submission submit submit_with_retry Cycle.run_cycle scan
      settle_found
  scanned-Ends o [] n = (1, omega arith, refl)
  scanned-Ends o (q ∷ qs) n =
      before 13 o (Stage.scanning (q ∷ qs)) n _
        (sending-Ends 2 o (scan (q ∷ qs) n).0 (scan (q ∷ qs) n).1)

  ends : (o : Outside) (n : Node W) → Ends 15 o Stage.fetching n (run_cycle config rpc o n)
  unfolding step run_cycle
  ends o n =
      let (quotes, fetchers) = fetch_all o.responses n.fetchers in
      before 14 o Stage.fetching n _ (scanned-Ends o quotes (record n { fetchers = fetchers }))

  advance_last :
      (cs : List Live) (c : Live) (n : Node W)
      → advance_at config rpc (length cs) n (cs ++ c ∷ []) ≡ record {
        node = (step config rpc c.outside c.stage n).1;
        cycles = cs ++ record c { stage = (step config rpc c.outside c.stage n).0 } ∷ [];
      }
  unfolding advance_at
  advance_last [] c n = refl
  advance_last (x ∷ cs) c n =
      ap (λ (f : Fleet W). record f { cycles = x ∷ f.cycles }) (advance_last cs c n)

  run_last :
      (k : ℕ) (cs : List Live) (c : Live) (n : Node W)
      → run config rpc (repeat k (advance (length cs))) (record { node = n; cycles = cs ++ c ∷ [] })
        ≡ record {
          node = (drive k c.outside c.stage n).1;
          cycles = cs ++ record c { stage = (drive k c.outside c.stage n).0 } ∷ [];
        }
  unfolding run apply drive
  run_last zero cs c n = refl
  run_last (suc k) cs c n =
      ap (run config rpc (repeat k (advance (length cs)))) (advance_last cs c n)
      ∙ run_last k cs (record c { stage = (step config rpc c.outside c.stage n).0 })
          (step config rpc c.outside c.stage n).1

  -- A cycle that begins and then takes its steps with no other in between ends after at most
  -- fifteen, beside any earlier cycles, and leaves the engine as the cycle that runs in one
  -- piece does.
  pub run_alone :
      (o : Outside) (f : Fleet W)
      → (k : ℕ) × (k ≤ 15)
        × (run config rpc (start o ∷ repeat k (advance (length f.cycles))) f ≡ record {
          node = run_cycle config rpc o f.node;
          cycles = f.cycles ++ record { outside = o; stage = Stage.done } ∷ [];
        })
  unfolding run apply
  run_alone o f =
      let (k, h, e) = ends o f.node in
      (
        k,
        h,
        run_last k f.cycles (record { outside = o; stage = Stage.fetching }) f.node
            ∙ ap
                (λ (x : Stage × Node W). record {
                  node = x.1;
                  cycles = f.cycles ++ record { outside = o; stage = x.0 } ∷ [];
                })
                e,
      )
