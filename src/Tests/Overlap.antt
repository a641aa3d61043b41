-- ===== src/Tests/Overlap.antt =====
-- Overlapping cycles of the engine at small inputs.
use sidiora_perpetual_protoc.Base.{ℕ, ◌*◌, ◌≤◌, ◌≡◌, refl, true, some, List, [], ◌∷◌, arith}
use sidiora_perpetual_protoc.Engine.Cycle.{Quote}
use sidiora_perpetual_protoc.Engine.Main.{run_cycle}
use sidiora_perpetual_protoc.Engine.Main.Invariants.{Invariant}
use sidiora_perpetual_protoc.Engine.Overlap.{Stage, Fleet, Event, start, advance, scan, run}
use sidiora_perpetual_protoc.Engine.Overlap.Alone.{repeat, run_alone}
use sidiora_perpetual_protoc.Engine.Overlap.Completion.{stage_of, cycles_complete}
use sidiora_perpetual_protoc.Engine.Overlap.Doubles.{doubled_submission}
use sidiora_perpetual_protoc.Engine.Startup.{Start, startup, engine-Invariant}
use sidiora_perpetual_protoc.Tests.Data.{wad}
use sidiora_perpetual_protoc.Tests.Refresh.{
  engine_config, rpc, node, outside, silent, round, funding,
}

abbrev fleet : Fleet ℕ
fleet = record { node = node; cycles = [] }

run_alone_example :
    (k : ℕ) × (k ≤ 15)
    × (run engine_config rpc (start outside ∷ repeat k (advance 0)) fleet ≡ record {
      node = run_cycle engine_config rpc outside node;
      cycles = record { outside = outside; stage = Stage.done } ∷ [];
    })
run_alone_example = run_alone engine_config rpc outside fleet

-- The second cycle begins while the first one is on its way.
abbrev schedule : List Event
schedule =
    advance 0 ∷ advance 0 ∷ start silent ∷ advance 1 ∷ advance 0 ∷ advance 1 ∷ repeat 12 (advance 0)

cycles_complete_example :
    stage_of 0 (run engine_config rpc (start outside ∷ schedule) fleet).cycles ≡ some Stage.done
cycles_complete_example = cycles_complete engine_config rpc outside schedule fleet (omega arith)

abbrev quote : Quote
quote = record { market_id = 1; symbol = 5; price = 94 * wad }

doubled_submission_example :
    let ready : Stage = Stage.scanning (quote ∷ []) in
    let sent : Stage = Stage.sending (scan (quote ∷ []) node).0 2 in
    (run engine_config rpc (advance 0 ∷ advance 1 ∷ []) (record {
      node = node;
      cycles =
          record { outside = outside; stage = ready }
          ∷ record { outside = silent; stage = ready }
          ∷ [];
    })).cycles
    ≡ record { outside = outside; stage = sent } ∷ record { outside = silent; stage = sent } ∷ []
doubled_submission_example =
    doubled_submission engine_config rpc outside silent quote [] node [] (refl, tt)

abbrev first : Start
first = record {
  diagnostics = record { balance = some 3; has_role = some true };
  get_funding_state = funding;
  round = round 60000 (some (1 ∷ 2 ∷ []));
}

engine-Invariant_example :
    Invariant
      (run engine_config rpc
        (start outside ∷ schedule)
        (record { node = startup engine_config first node.fetchers 0; cycles = [] })).node
engine-Invariant_example =
    engine-Invariant engine_config rpc first node.fetchers 0 (start outside ∷ schedule)
