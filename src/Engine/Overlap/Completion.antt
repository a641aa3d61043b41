-- ===== src/Engine/Overlap/Completion.antt =====
-- Every cycle of .perps-engine/index.js ends, whatever the others do meanwhile.
use sidiora_perpetual_protoc.Base.{
  ℕ, zero, suc, ◌+◌, ◌-◌, ◌*◌, ◌≤◌, ◌≡◌, refl, ap, ◌∙◌, ◌==◌, Option, none, some, List, [], ◌∷◌,
  ◌++◌, length, arith, if◌then◌else◌,
}
use sidiora_perpetual_protoc.Base.Outcome.{Result, ok, throw, JsError}
use sidiora_perpetual_protoc.Retry
use sidiora_perpetual_protoc.Retry.{call_rpc, wait_with_timeout}
use sidiora_perpetual_protoc.Engine.Cycle.{Call}
use sidiora_perpetual_protoc.Engine.Main.{Config, Outside, Node}
use sidiora_perpetual_protoc.Engine.Overlap.{
  Found, Stage, after_send, after_confirm, after_error, step, Live, Fleet, Event, start, advance,
  advance_at, apply, run,
}

-- The most steps that a cycle at a stage has before it.
abbrev rank : Stage → ℕ
rank Stage.fetching = 15
rank (Stage.scanning quotes) = 14
rank (Stage.sending f left) = 2 * left + 9
rank (Stage.confirming f left hash) = 2 * left + 8
rank (Stage.settling f success) = 7
rank Stage.checking = 6
rank Stage.refreshing_orders = 5
rank Stage.refreshing_positions = 4
rank Stage.refreshing_funding = 3
rank Stage.probing_indexer = 2
rank Stage.refreshing_markets = 1
rank Stage.done = 0

done_of_rank : (s : Stage) → rank s ≤ 0 → s ≡ Stage.done
done_of_rank Stage.done h = refl
done_of_rank Stage.fetching h = absurd (omega arith)
done_of_rank (Stage.scanning quotes) h = absurd (omega arith)
done_of_rank (Stage.sending f left) h = absurd (omega arith)
done_of_rank (Stage.confirming f left hash) h = absurd (omega arith)
done_of_rank (Stage.settling f success) h = absurd (omega arith)
done_of_rank Stage.checking h = absurd (omega arith)
done_of_rank Stage.refreshing_orders h = absurd (omega arith)
done_of_rank Stage.refreshing_positions h = absurd (omega arith)
done_of_rank Stage.refreshing_funding h = absurd (omega arith)
done_of_rank Stage.probing_indexer h = absurd (omega arith)
done_of_rank Stage.refreshing_markets h = absurd (omega arith)

some-injective : {s t : Stage} → some s ≡ some t → s ≡ t
some-injective e = cc

-- How often a cycle takes a step.
abbrev pub turns : ℕ → List Event → ℕ
turns i [] = 0
turns i (start o ∷ es) = turns i es
turns i (advance j ∷ es) = if i == j then suc (turns i es) else turns i es

abbrev pub stage_of : ℕ → List Live → Option Stage
stage_of i [] = none
stage_of zero (c ∷ cs) = some c.stage
stage_of (suc i) (c ∷ cs) = stage_of i cs

-- A cycle that began has at most so many steps before it.
abbrev Within : ℕ → ℕ → List Live → Type 0
Within bound i cs = (s : Stage) × (stage_of i cs ≡ some s) × (rank s ≤ bound)

module _ {W : Type 0} (config : Config) (rpc : Retry.Rpc Call W) where
  rank-after_error :
      (f : Found) (left : ℕ) (n : Node W) → rank (after_error f left n).0 ≤ 2 * left + 7
  unfolding after_error
  rank-after_error f zero n = omega arith
  rank-after_error f (suc left) n = omega arith

  rank-after_send :
      (f : Found) (left : ℕ) (r : Result JsError ℕ) (n : Node W)
      → rank (after_send f left r n).0 ≤ 2 * left + 8
  unfolding after_send
  rank-after_send f left (ok hash) n = omega arith
  rank-after_send f left (throw e) n = omega (arith, rank-after_error f left n)

  rank-after_confirm :
      (f : Found) (left : ℕ) (r : Result JsError ℕ) (n : Node W)
      → rank (after_confirm f left r n).0 ≤ 2 * left + 7
  unfolding after_confirm
  rank-after_confirm f left (ok hash) n = omega arith
  rank-after_confirm f left (throw e) n = omega (arith, rank-after_error f left n)

  rank-step : (o : Outside) (s : Stage) (n : Node W) → rank (step config rpc o s n).0 ≤ rank s - 1
  unfolding step
  rank-step o Stage.fetching n = omega arith
  rank-step o (Stage.scanning []) n = omega arith
  rank-step o (Stage.scanning (q ∷ qs)) n = omega arith
  rank-step o (Stage.sending f left) n =
      let x = call_rpc rpc (rpc.send f.call) n.submitter in
      omega (arith, rank-after_send f left x.0 (record n { submitter = x.1 }))
  rank-step o (Stage.confirming f left hash) n =
      let x = wait_with_timeout rpc hash n.submitter in
      omega (arith, rank-after_confirm f left x.0 (record n { submitter = x.1 }))
  rank-step o (Stage.settling f success) n = omega arith
  rank-step o Stage.checking n = omega arith
  rank-step o Stage.refreshing_orders n = omega arith
  rank-step o Stage.refreshing_positions n = omega arith
  rank-step o Stage.refreshing_funding n = omega arith
  rank-step o Stage.probing_indexer n = omega arith
  rank-step o Stage.refreshing_markets n = omega arith
  rank-step o Stage.done n = omega arith

  weaken : (b c i : ℕ) (cs : List Live) → b ≤ c → Within b i cs → Within c i cs
  weaken b c i cs h (s, e, l) = (s, e, omega arith)

  advance-Within :
      (bound i j : ℕ) (n : Node W) (cs : List Live)
      → Within bound i cs
      → Within (if i == j then bound - 1 else bound) i (advance_at config rpc j n cs).cycles
  unfolding advance_at
  advance-Within bound zero j n [] (s, e, h) = absurd (ground (arith, e))
  advance-Within bound (suc i) j n [] (s, e, h) = absurd (ground (arith, e))
  advance-Within bound zero zero n (c ∷ cs) (s, e, h) = (
    (step config rpc c.outside c.stage n).0,
    refl,
    omega (arith, rank-step c.outside c.stage n, ap rank (some-injective e), h),
  )
  advance-Within bound (suc i) zero n (c ∷ cs) w =
      weaken bound _ (suc i) (record c { stage = (step config rpc c.outside c.stage n).0 } ∷ cs)
        (ground arith) w
  advance-Within bound zero (suc j) n (c ∷ cs) w =
      weaken bound _ zero (c ∷ (advance_at config rpc j n cs).cycles) (ground arith) w
  advance-Within bound (suc i) (suc j) n (c ∷ cs) w =
      weaken (if i == j then bound - 1 else bound) _ i (advance_at config rpc j n cs).cycles
        (ground arith) (advance-Within bound i j n cs w)

  append-Within :
      (bound i : ℕ) (cs : List Live) (c : Live) → Within bound i cs → Within bound i (cs ++ c ∷ [])
  append-Within bound zero [] c (s, e, h) = absurd (ground (arith, e))
  append-Within bound (suc i) [] c (s, e, h) = absurd (ground (arith, e))
  append-Within bound zero (x ∷ cs) c w = w
  append-Within bound (suc i) (x ∷ cs) c w = append-Within bound i cs c w

  run-Within :
      (es : List Event) (bound i : ℕ) (f : Fleet W)
      → Within bound i f.cycles
      → Within (bound - turns i es) i (run config rpc es f).cycles
  unfolding run apply
  run-Within [] bound i f w = weaken bound _ i f.cycles (omega arith) w
  run-Within (start o ∷ es) bound i f w =
      run-Within es bound i (apply config rpc (start o) f)
        (append-Within bound i f.cycles (record { outside = o; stage = Stage.fetching }) w)
  run-Within (advance j ∷ es) bound i f w =
      weaken ((if i == j then bound - 1 else bound) - turns i es) _ i _ (ground arith) (
        run-Within es _ i (advance_at config rpc j f.node f.cycles)
          (advance-Within bound i j f.node f.cycles w))

  last-Within :
      (cs : List Live) (o : Outside)
      → Within 15 (length cs) (cs ++ record { outside = o; stage = Stage.fetching } ∷ [])
  last-Within [] o = (Stage.fetching, refl, omega arith)
  last-Within (c ∷ cs) o = last-Within cs o

  -- A cycle that has taken fifteen steps since it began is done, whatever steps the other
  -- cycles take in between and whatever answers.
  pub cycles_complete :
      (o : Outside) (es : List Event) (f : Fleet W)
      → 15 ≤ turns (length f.cycles) es
      → stage_of (length f.cycles) (run config rpc (start o ∷ es) f).cycles ≡ some Stage.done
  unfolding run apply
  cycles_complete o es f h =
      let (s, e, l) =
        run-Within es 15 (length f.cycles) (apply config rpc (start o) f)
          (last-Within f.cycles o) in
      e ∙ ap some (done_of_rank s (omega arith))
