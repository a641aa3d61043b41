-- ===== src/Keeper/Vamm.antt =====
-- `VammSyncer` of .keeper/src/vamm-syncer.js: it syncs the pools of the markets that updated, and
-- asks for each pool once.
pub mod Pools
use sidiora_perpetual_protoc.Base.{
  ℕ, ◌+◌, Bool, true, false, Option, none, some, List, [], ◌∷◌, ◌++◌, ◌==◌, if◌then◌else◌, includes,
  filter,
}
use sidiora_perpetual_protoc.Protocol.{MarketEntry, PoolState, TxResult, success, reverted, failed}

pub record Stats : Type 0 where
  pub sync_cycles : ℕ
  pub syncs_succeeded : ℕ
  pub syncs_failed : ℕ
  pub skipped_uninitialized : ℕ

-- The syncer with the executor's state; `asked` and `synced` list the markets of the calls of
-- `getPool` and `syncVamm`, in order.
pub record State (E : Type 0) : Type 0 where
  pub initialized_pools : List ℕ
  pub checked_pools : List ℕ
  pub stats : Stats
  pub executor : E
  pub asked : List ℕ
  pub synced : List ℕ

abbrev pub skip : {E : Type 0} → State E → State E
skip s = record s {
  stats = record s.stats { skipped_uninitialized = s.stats.skipped_uninitialized + 1 };
}

unfoldable pub count : TxResult → Stats → Stats
count (success hash) s = record s { syncs_succeeded = s.syncs_succeeded + 1 }
count (reverted reason) s = record s { syncs_failed = s.syncs_failed + 1 }
count (failed reason) s = record s { syncs_failed = s.syncs_failed + 1 }

-- The markets to sync: all of them, or those that updated.
abbrev pub to_sync : Option (List ℕ) → List MarketEntry → List MarketEntry
to_sync none markets = markets
to_sync (some ids) markets = filter (λ m. includes m.market_id ids) markets

-- The executor's two calls. `get_pool` is `none` where the call throws.
module _ {E : Type 0} (get_pool : ℕ → E → Option PoolState × E)
    (sync_vamm : ℕ → E → TxResult × E) where
  -- The end of `_syncMarket`: the transaction and its count.
  unfoldable pub submit : ℕ → State E → State E
  unfolding count
  submit id s =
      let (result, executor') = sync_vamm id s.executor in
      record s { stats = count result s.stats; executor = executor'; synced = s.synced ++ id ∷ [] }

  -- The first look at a pool: it goes on only if the pool has a base reserve.
  unfoldable pub look : ℕ → State E → State E
  unfolding submit
  look id s =
      let (pool, executor') = get_pool id s.executor in
      let s' : State E = record s {
        checked_pools = id ∷ s.checked_pools;
        executor = executor';
        asked = s.asked ++ id ∷ [];
      } in
      elim pool [
        | none ↦ skip s'
        | some p ↦
            if p.base_reserve == 0
            then skip s'
            else submit id (record s' { initialized_pools = id ∷ s.initialized_pools })
      ]

  -- `_syncMarket`
  unfoldable pub sync_market : ℕ → State E → State E
  unfolding look submit
  sync_market id s =
      if includes id s.initialized_pools
      then submit id s
      else (if includes id s.checked_pools then skip s else look id s)

  unfoldable pub sync_each : List MarketEntry → State E → State E
  unfolding sync_market
  sync_each [] s = s
  sync_each (m ∷ ms) s = sync_each ms (sync_market m.market_id s)

  -- `syncAll`
  unfoldable pub sync_all : Option (List ℕ) → List MarketEntry → State E → State E
  unfolding sync_each
  sync_all updated markets s =
      sync_each (to_sync updated markets)
        (record s { stats = record s.stats { sync_cycles = s.stats.sync_cycles + 1 } })

-- `resetPoolChecks`
unfoldable pub reset_pool_checks : {E : Type 0} → State E → State E
reset_pool_checks s = record s { checked_pools = [] }
