-- ===== src/Engine/Main/Outage.antt =====
-- Cycles of .perps-engine/index.js in which no source brings a price.
use sidiora_perpetual_protoc.Base.{
  ◌≡◌, refl, ap, ◌∙◌, List, [], ◌∷◌, none, All, map, Option-cases, inl, inr,
}
use sidiora_perpetual_protoc.Retry
use sidiora_perpetual_protoc.Engine.Cycle.{Call}
use sidiora_perpetual_protoc.Engine.Prices
use sidiora_perpetual_protoc.Engine.Orderly
use sidiora_perpetual_protoc.Engine.Sources.{Fetchers, fetch_orderly, fetch_all, from_orderly}
use sidiora_perpetual_protoc.Engine.Main.{Config, Outside, Node, with_prices, run_cycle, run_cycles}

-- Neither service answers.
abbrev pub Silent : Outside → Type 0
Silent o = (o.responses.feeds ≡ none) × (o.responses.rows ≡ none)

silent_orderly :
    (f : Fetchers) → fetch_orderly (record { feeds = none; rows = none }) f ≡ ([], f.orderly_last)
unfolding fetch_orderly Orderly.fetch_prices
silent_orderly f = elim (Option-cases f.orderly_markets) [
  | inl e ↦ rw (e, fetch_orderly) refl
  | inr (ms, e) ↦ rw (e, fetch_orderly) refl
]

silent_fetch : (f : Fetchers) → fetch_all (record { feeds = none; rows = none }) f ≡ ([], f)
unfolding fetch_all Prices.fetch_prices
silent_fetch f =
    ap (λ x. (map from_orderly x.0, record f { orderly_last = x.1 })) (silent_orderly f)

module _ {W : Type 0} (config : Config) (rpc : Retry.Rpc Call W) where
  run_cycle-Silent : (o : Outside) (n : Node W) → Silent o → run_cycle config rpc o n ≡ n
  unfolding run_cycle with_prices
  run_cycle-Silent o n (h, g) =
      ap (λ x. with_prices config rpc o x.0 (record n { fetchers = x.1 }))
        ((λ i. fetch_all (record { feeds = h i; rows = g i }) n.fetchers) ∙ silent_fetch n.fetchers)

  -- Cycles of the engine in which neither price service answers leave it as it is, however many
  -- they are: no order or position is refreshed, nothing is submitted and no alert is raised.
  pub outage_stalls :
      (os : List Outside) (n : Node W) → All Silent os → run_cycles config rpc os n ≡ n
  unfolding run_cycles
  outage_stalls [] n h = refl
  outage_stalls (o ∷ os) n (h, hs) =
      ap (run_cycles config rpc os) (run_cycle-Silent o n h) ∙ outage_stalls os n hs
