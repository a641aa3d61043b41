-- ===== src/Keeper/Liquidations.antt =====
-- `LiquidationScanner` of .keeper/src/liquidation-scanner.js: it finds the positions below their
-- maintenance margin, sorts them by margin, and liquidates them one after the other.
pub mod Scan
use sidiora_perpetual_protoc.Base.{
  ℕ, ◌+◌, Bool, true, false, Option, none, some, List, [], ◌∷◌, ◌++◌, ltb, ◌==◌, if◌then◌else◌,
}
use sidiora_perpetual_protoc.Base.Dict.{Dict, lookup}
use sidiora_perpetual_protoc.Base.Sort.{sort_by}
use sidiora_perpetual_protoc.Protocol.{Position, MarketConfig, TxResult, success, reverted, failed}
use sidiora_perpetual_protoc.Margin.{calculate_margin_bps}
use sidiora_perpetual_protoc.Keeper.Cache.{StateCache, get_price, remove_position, in_updated}

pub record Stats : Type 0 where
  pub scans_performed : ℕ
  pub positions_checked : ℕ
  pub liquidations_triggered : ℕ
  pub liquidations_executed : ℕ
  pub liquidations_failed : ℕ

-- An entry of `candidates`.
pub record Candidate : Type 0 where
  pub position_id : ℕ
  pub position : Position
  pub margin_bps : ℕ
  pub maintenance_margin_bps : ℕ
  pub current_price : ℕ

-- One round of the first loop of `scan` up to `positionsChecked++`: `none` is a `continue`.
unfoldable pub check : StateCache → Option (List ℕ) → ℕ × Position → Option Candidate
unfolding get_price
check c updated (id, p) =
    if in_updated updated p.market_id
    then (elim (get_price p.market_id c) [
      | none ↦ none
      | some price ↦ if price == 0 then none else (elim (lookup p.market_id c.market_configs) [
        | none ↦ none
        | some config ↦ some (record {
          position_id = id;
          position = p;
          margin_bps = calculate_margin_bps p price;
          maintenance_margin_bps = config.maintenance_margin_bps;
          current_price = price;
        })
      ])
    ])
    else none

-- `marginBps < maintenanceMarginBps`
abbrev pub is_undercollateralized : Candidate → Bool
is_undercollateralized k = ltb k.margin_bps k.maintenance_margin_bps

-- The first loop of `scan`: how many positions it checked, and the candidates in cache order.
unfoldable pub collect : StateCache → Option (List ℕ) → Dict Position → ℕ × List Candidate
unfolding check
collect c updated [] = (0, [])
collect c updated (e ∷ es) =
    let (n, ks) = collect c updated es in
    elim (check c updated e) [
      | none ↦ (n, ks)
      | some k ↦ (n + 1, if is_undercollateralized k then k ∷ ks else ks)
    ]

-- How `_executeLiquidation` ended: the on-chain check passed, or a transaction was submitted.
pub data Outcome : Type 0 where
  skipped : Outcome
  submitted : TxResult → Outcome

pub record State (E : Type 0) : Type 0 where
  pub cache : StateCache
  pub stats : Stats
  pub executor : E
  pub log : List (Candidate × Outcome)

-- Whether a position leaves the cache after this outcome.
abbrev pub settles : Outcome → Bool
settles skipped = false
settles (submitted (success hash)) = true
settles (submitted (reverted reason)) = true
settles (submitted (failed reason)) = false

unfoldable pub count : Outcome → Stats → Stats
count skipped s = s
count (submitted (success hash)) s = record s {
  liquidations_executed = s.liquidations_executed + 1;
}
count (submitted (reverted reason)) s = record s { liquidations_failed = s.liquidations_failed + 1 }
count (submitted (failed reason)) s = record s { liquidations_failed = s.liquidations_failed + 1 }

-- `this.stats.scansPerformed++` and the positions that the first loop checked.
abbrev pub begin_scan : {E : Type 0} → ℕ → State E → State E
begin_scan checked s = record s {
  stats = record s.stats {
    scans_performed = s.stats.scans_performed + 1;
    positions_checked = s.stats.positions_checked + checked;
  };
}

-- The executor's two calls. `check_liquidatable` is `none` where the call throws.
module _ {E : Type 0} (check_liquidatable : ℕ → E → Option Bool × E)
    (liquidate : ℕ → E → TxResult × E) where
  -- The on-chain check, and the liquidation where it confirms or throws.
  unfoldable pub attempt : ℕ → E → Outcome × E
  attempt id e =
      let (verdict, e') = check_liquidatable id e in
      let (result, e'') = liquidate id e' in
      elim verdict [
        | none ↦ (submitted result, e'')
        | some true ↦ (submitted result, e'')
        | some false ↦ (skipped, e')
      ]

  -- `_executeLiquidation`
  unfoldable pub execute_liquidation : Candidate → State E → State E
  unfolding attempt count remove_position
  execute_liquidation k s =
      let (outcome, executor') = attempt k.position_id s.executor in
      record {
        cache = if settles outcome then remove_position k.position_id s.cache else s.cache;
        stats =
            count outcome
              (record s.stats { liquidations_triggered = s.stats.liquidations_triggered + 1 });
        executor = executor';
        log = s.log ++ (k, outcome) ∷ [];
      }

  -- The last loop of `scan`.
  unfoldable pub execute_all : List Candidate → State E → State E
  unfolding execute_liquidation
  execute_all [] s = s
  execute_all (k ∷ ks) s = execute_all ks (execute_liquidation k s)

  -- `scan`
  unfoldable pub scan : Option (List ℕ) → State E → State E
  unfolding execute_all collect sort_by
  scan updated s =
      let (checked, candidates) = collect s.cache updated s.cache.active_positions in
      execute_all (sort_by (λ k. k.margin_bps) candidates) (begin_scan checked s)
