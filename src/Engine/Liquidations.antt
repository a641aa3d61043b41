-- ===== src/Engine/Liquidations.antt =====
-- `LiquidationScanner` of .perps-engine/src/scanners/liquidation-scanner.js: it counts the positions
-- that it checks and returns the ids of those below their maintenance margin, lowest margin first.
use sidiora_perpetual_protoc.Base.{
  ℕ, ◌+◌, ◌≤◌, ◌<◌, ◌≡◌, refl, sym, Bool, Option, none, some, List, [], ◌∷◌, map, Perm, ltb, ◌==◌,
  ◌||◌, if◌then◌else◌, filter, length, arith, Bool-cases, inl, inr,
}
use sidiora_perpetual_protoc.Base.Dict.{Dict, lookup}
use sidiora_perpetual_protoc.Base.Int.{pos, pos_part, ◌-ℤ◌, ◌≤ℤ◌, int_laws, two_256}
use sidiora_perpetual_protoc.Base.Sort.{sort_by, Sorted, sort_by-Sorted, sort_by-perm}
use sidiora_perpetual_protoc.Protocol.{Position, FundingState}
use sidiora_perpetual_protoc.Margin.{
  calculate_margin_bps, calculate_funded_margin_bps, pending_funding, equity,
}
use sidiora_perpetual_protoc.Margin.Laws.{margin_of_equity_mono}
use sidiora_perpetual_protoc.Engine.Cache.{Cache}

pub record Stats : Type 0 where
  pub scans_performed : ℕ
  pub positions_checked : ℕ
  pub liquidations_triggered : ℕ

pub record Candidate : Type 0 where
  pub position_id : ℕ
  pub margin_bps : ℕ
  pub maintenance_margin_bps : ℕ

-- A round of the loop: `none` is a `continue`.
unfoldable pub check : Cache → Dict ℕ → ℕ × Position → Option Candidate
check c prices (id, p) = elim (lookup p.market_id prices) [
  | none ↦ none
  | some price ↦ if price == 0 then none else (elim (lookup p.market_id c.market_configs) [
    | none ↦ none
    | some config ↦ some (record {
      position_id = id;
      margin_bps = calculate_funded_margin_bps p price (lookup p.market_id c.funding_states);
      maintenance_margin_bps = config.maintenance_margin_bps;
    })
  ])
]

-- `marginBps < maintenanceMarginBps`
abbrev pub is_liquidatable : Candidate → Bool
is_liquidatable k = ltb k.margin_bps k.maintenance_margin_bps

-- The loop: how many positions it checked, and the candidates in cache order.
unfoldable pub collect : Cache → Dict ℕ → Dict Position → ℕ × List Candidate
unfolding check
collect c prices [] = (0, [])
collect c prices (e ∷ es) =
    let (n, ks) = collect c prices es in
    elim (check c prices e) [
      | none ↦ (n, ks)
      | some k ↦ (n + 1, if is_liquidatable k then k ∷ ks else ks)
    ]

-- `scan`
unfoldable pub scan : Cache → Dict ℕ → Stats → List ℕ × Stats
unfolding collect sort_by
scan c prices s =
    let (checked, candidates) = collect c prices c.active_positions in
    (
      map (λ k. k.position_id) (sort_by (λ k. k.margin_bps) candidates),
      record {
        scans_performed = s.scans_performed + 1;
        positions_checked = s.positions_checked + checked;
        liquidations_triggered = s.liquidations_triggered + length candidates;
      },
    )

-- The positions that the loop does not skip.
abbrev pub checks : Cache → Dict ℕ → Dict Position → List Candidate
checks c prices [] = []
checks c prices (e ∷ es) = elim (check c prices e) [
  | none ↦ checks c prices es
  | some k ↦ k ∷ checks c prices es
]

collect-checks :
    (c : Cache) (prices : Dict ℕ) (es : Dict Position)
    → (collect c prices es).1 ≡ filter is_liquidatable (checks c prices es)
unfolding collect
collect-checks c prices [] = refl
collect-checks c prices (e ∷ es) = ground (arith, collect-checks c prices es)

-- The ids that the engine's liquidation scan returns are those of the checked positions below
-- their maintenance margin, each as often as the cache holds it, in the order of rising
-- margins.
scan_ranks :
    (c : Cache) (prices : Dict ℕ) (s : Stats)
    → (ks : List Candidate) × ((scan c prices s).0 ≡ map (λ k. k.position_id) ks)
      × Sorted (λ k. k.margin_bps) ks
      × Perm ks (filter is_liquidatable (checks c prices c.active_positions))
unfolding scan
scan_ranks c prices s =
    let found = (collect c prices c.active_positions).1 in
    let key : Candidate → ℕ = λ k. k.margin_bps in
    (
      sort_by key found,
      refl,
      sort_by-Sorted key found,
      rw (sym_checks c prices) (sort_by-perm key found),
    )
  where
    sym_checks :
        (c : Cache) (prices : Dict ℕ)
        → filter is_liquidatable (checks c prices c.active_positions)
          ≡ (collect c prices c.active_positions).1
    sym_checks c prices = sym (collect-checks c prices c.active_positions)

-- For a position whose pending funding is not negative, while the equity before funding is
-- below 2^256, the engine's margin is at most the keeper's.
pub funded-le-unfunded :
    (p : Position) (price : ℕ) (f : Option FundingState)
    → pos 0 ≤ℤ pending_funding p f
    → pos_part (equity p price) < two_256
    → calculate_funded_margin_bps p price f ≤ calculate_margin_bps p price
unfolding calculate_funded_margin_bps calculate_margin_bps
funded-le-unfunded p price f owes small =
    elim (Bool-cases ((p.size_usd == 0) || (p.entry_price == 0))) [
      | inl e ↦ rw e (omega arith)
      | inr e ↦ rw e (
          margin_of_equity_mono (equity p price -ℤ pending_funding p f) (equity p price) p.size_usd
            (omega (int_laws, owes)) small)
    ]
