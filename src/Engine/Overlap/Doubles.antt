-- ===== src/Engine/Overlap/Doubles.antt =====
-- Two cycles of .perps-engine/index.js that scan the same prices before either has submitted.
use sidiora_perpetual_protoc.Base.{
  ℕ, ◌-◌, ◌≡◌, refl, ap, ◌∙◌, false, some, List, [], ◌∷◌, map, All, includes, NoRepeats, arith,
}
use sidiora_perpetual_protoc.Base.Dict.{Dict, lookup, insert, lookup-insert, insert-lookup}
use sidiora_perpetual_protoc.Retry
use sidiora_perpetual_protoc.Retry.{max_retries}
use sidiora_perpetual_protoc.Engine.Orders
use sidiora_perpetual_protoc.Engine.Liquidations
use sidiora_perpetual_protoc.Engine.Cycle.{Call, Quote, update_prices, build_full_cycle}
use sidiora_perpetual_protoc.Engine.Main.{Config, Outside, Node}
use sidiora_perpetual_protoc.Engine.Overlap.{
  Found, Stage, scan, step, Live, advance, advance_at, apply, run,
}

abbrev pub markets : List Quote → List ℕ
markets qs = map (λ q. q.market_id) qs

lookup-update_prices :
    (id : ℕ) (qs : List Quote) (m : Dict ℕ)
    → includes id (markets qs) ≡ false
    → lookup id (update_prices qs m) ≡ lookup id m
unfolding update_prices
lookup-update_prices id [] m h = refl
lookup-update_prices id (q ∷ qs) m h =
    lookup-update_prices id qs (insert q.market_id q.price m) (ground (arith, h))
    ∙ ground (arith, h, lookup-insert q.market_id id q.price m)

-- The map has each of the prices.
abbrev Holds : List Quote → Dict ℕ → Type 0
Holds qs m = All (λ q. lookup q.market_id m ≡ some q.price) qs

update_prices-Holds :
    (qs : List Quote) (m : Dict ℕ) → NoRepeats (markets qs) → Holds qs (update_prices qs m)
unfolding update_prices
update_prices-Holds [] m n = tt
update_prices-Holds (q ∷ qs) m (h, n) = (
  lookup-update_prices q.market_id qs (insert q.market_id q.price m) h
      ∙ ground (arith, lookup-insert q.market_id q.market_id q.price m),
  update_prices-Holds qs (insert q.market_id q.price m) n,
)

Holds-update_prices : (qs : List Quote) (m : Dict ℕ) → Holds qs m → update_prices qs m ≡ m
unfolding update_prices
Holds-update_prices [] m h = refl
Holds-update_prices (q ∷ qs) m (e, h) =
    ap (update_prices qs) (insert-lookup q.market_id q.price m e) ∙ Holds-update_prices qs m h

module _ {W : Type 0} where
  abbrev found_at : List Quote → Node W → Dict ℕ → Found
  found_at quotes n prices =
      let order_ids = (Orders.scan prices n.tracked.maps.active_orders n.order_stats).0 in
      let position_ids = (Liquidations.scan n.tracked.maps prices n.liquidation_stats).0 in
      record {
        quotes = quotes;
        order_ids = order_ids;
        position_ids = position_ids;
        call = build_full_cycle quotes order_ids position_ids;
      }

  scan_again :
      (quotes : List Quote) (n : Node W)
      → NoRepeats (markets quotes)
      → (scan quotes (scan quotes n).1).0 ≡ (scan quotes n).0
  unfolding scan Orders.scan Liquidations.scan
  scan_again quotes n h = ap (found_at quotes n) (
      Holds-update_prices quotes (update_prices quotes n.prices)
        (update_prices-Holds quotes n.prices h))

  module _ (config : Config) (rpc : Retry.Rpc Call W) where
    -- Two cycles that bring the same prices, at least one and each of another market, and scan
    -- them one after the other before either has submitted, go on to send the same call, with
    -- the same orders and positions.
    pub doubled_submission :
        (o o' : Outside) (q : Quote) (qs : List Quote) (n : Node W) (cs : List Live)
        → NoRepeats (markets (q ∷ qs))
        → let ready : Stage = Stage.scanning (q ∷ qs) in
          let sent : Stage = Stage.sending (scan (q ∷ qs) n).0 (max_retries - 1) in
          (run config rpc (advance 0 ∷ advance 1 ∷ []) (record {
            node = n;
            cycles =
                record { outside = o; stage = ready } ∷ record { outside = o'; stage = ready } ∷ cs;
          })).cycles
          ≡ record { outside = o; stage = sent } ∷ record { outside = o'; stage = sent } ∷ cs
    unfolding run apply advance_at step
    doubled_submission o o' q qs n cs h =
        ap
          (λ (f : Found).
            record { outside = o; stage = Stage.sending (scan (q ∷ qs) n).0 (max_retries - 1) }
            ∷ record { outside = o'; stage = Stage.sending f (max_retries - 1) }
            ∷ cs)
          (scan_again (q ∷ qs) n h)
