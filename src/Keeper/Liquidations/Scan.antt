-- ===== src/Keeper/Liquidations/Scan.antt =====
-- What one scan of .keeper/src/liquidation-scanner.js tries to liquidate, in which order, and
-- what it removes and counts.
use mathlib.Core.List.{append_assoc, append-nil, map-append}
use sidiora_perpetual_protoc.Base.{
  ℕ, ◌≡◌, refl, sym, ◌∙◌, Bool, true, false, Option, none, some, List, [], ◌∷◌, ◌++◌, map, Perm,
  if◌then◌else◌, arith, length, filter,
}
use sidiora_perpetual_protoc.Base.Dict.{Dict, lookup, erase, Distinct}
use sidiora_perpetual_protoc.Base.Journal.{gone, Tracks, Tracks-step}
use sidiora_perpetual_protoc.Base.Sort.{sort_by, Sorted, sort_by-Sorted, sort_by-perm}
use sidiora_perpetual_protoc.Protocol.{Position, TxResult}
use sidiora_perpetual_protoc.Keeper.Cache.{StateCache, remove_position}
use sidiora_perpetual_protoc.Keeper.Liquidations.{
  Candidate, Outcome, State, settles, check, collect, is_undercollateralized, begin_scan, attempt,
  execute_liquidation, execute_all, scan,
}

abbrev pub journal : List (Candidate × Outcome) → List (ℕ × Bool)
journal = map (λ e. (e.0.position_id, settles e.1))

-- The candidates as the code's loop finds them.
abbrev pub candidates : {E : Type 0} → Option (List ℕ) → State E → List Candidate
candidates updated s = (collect s.cache updated s.cache.active_positions).1

-- The positions that the loop does not skip.
abbrev pub checks : StateCache → Option (List ℕ) → Dict Position → List Candidate
checks c updated [] = []
checks c updated (e ∷ es) = elim (check c updated e) [
  | none ↦ checks c updated es
  | some k ↦ k ∷ checks c updated es
]

if-positions :
    (b : Bool) (id : ℕ) (c : StateCache)
    → (if b then remove_position id c else c).active_positions
      ≡ (if b then erase id c.active_positions else c.active_positions)
unfolding remove_position
if-positions true id c = refl
if-positions false id c = refl

module _ {E : Type 0} (check_liquidatable : ℕ → E → Option Bool × E)
    (liquidate : ℕ → E → TxResult × E) where
  execute_all-log :
      (ks : List Candidate) (s : State E)
      → map (λ e. e.0) (execute_all check_liquidatable liquidate ks s).log
        ≡ map (λ e. e.0) s.log ++ ks
  unfolding execute_all execute_liquidation
  execute_all-log [] s = sym (append-nil _)
  execute_all-log (k ∷ ks) s =
      execute_all-log ks (execute_liquidation check_liquidatable liquidate k s)
      ∙ simp (map-append, append_assoc)

  -- A liquidation scan that starts with an empty log tries every candidate exactly once, the
  -- lowest margin first.
  pub scan_order :
      (updated : Option (List ℕ)) (s : State E)
      → s.log ≡ []
      → let tried = map (λ e. e.0) (scan check_liquidatable liquidate updated s).log in
        Sorted (λ k. k.margin_bps) tried × Perm tried (candidates updated s)
  unfolding scan
  scan_order updated s h =
      let ks = candidates updated s in
      let key : Candidate → ℕ = λ k. k.margin_bps in
      let e : map (λ e. e.0) (scan check_liquidatable liquidate updated s).log ≡ sort_by key ks =
        execute_all-log (sort_by key ks)
          (begin_scan (collect s.cache updated s.cache.active_positions).0 s)
        ∙ rw h in
      rw e (sort_by-Sorted key ks, sort_by-perm key ks)

  execute_all-Tracks :
      (start : Dict Position) (ks : List Candidate) (s : State E)
      → Tracks start s.cache.active_positions (journal s.log)
      → let t = execute_all check_liquidatable liquidate ks s in
        Tracks start t.cache.active_positions (journal t.log)
  unfolding execute_all execute_liquidation
  execute_all-Tracks start [] s h = h
  execute_all-Tracks start (k ∷ ks) s h =
      execute_all-Tracks start ks (execute_liquidation check_liquidatable liquidate k s) (
        rw (map-append, if-positions)
          (Tracks-step start s.cache.active_positions (journal s.log) k.position_id
            (settles (attempt check_liquidatable liquidate k.position_id s.executor).0) h))

  -- After a liquidation scan of a cache with distinct keys that starts with an empty log, a
  -- position is gone from the cache exactly if its liquidation succeeded or reverted for good;
  -- every other position stays.
  pub scan_removes_positions :
      (updated : Option (List ℕ)) (s : State E) (id : ℕ)
      → Distinct s.cache.active_positions
      → s.log ≡ []
      → let t = scan check_liquidatable liquidate updated s in
        lookup id t.cache.active_positions
        ≡ (if gone id (journal t.log) then none else lookup id s.cache.active_positions)
  unfolding scan
  scan_removes_positions updated s id d h =
      (execute_all-Tracks s.cache.active_positions
          (sort_by (λ k. k.margin_bps) (candidates updated s))
          (begin_scan (collect s.cache updated s.cache.active_positions).0 s) (d, λ k. rw h refl)).1
        id

-- The first loop of the liquidation scan counts the positions that it does not skip, and its
-- candidates are exactly those of them below their maintenance margin.
pub collect_lem :
    (c : StateCache) (updated : Option (List ℕ)) (es : Dict Position)
    → ((collect c updated es).0 ≡ length (checks c updated es))
      × ((collect c updated es).1 ≡ filter is_undercollateralized (checks c updated es))
unfolding collect
collect_lem c updated [] = (refl, refl)
collect_lem c updated (e ∷ es) =
    ground (arith, (collect_lem c updated es).0, (collect_lem c updated es).1)
