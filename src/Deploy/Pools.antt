-- ===== src/Deploy/Pools.antt =====
-- .keeper/scripts/init-pools.js: it opens the pool of each listed market that has a price and no pool.
pub mod Rounds
pub mod Laws
use sidiora_perpetual_protoc.Base.{
  ℕ, ◌+◌, ◌*◌, Bool, true, false, Option, none, some, List, [], ◌∷◌, ◌==◌, ltb, if◌then◌else◌,
}
use sidiora_perpetual_protoc.Deploy.Facets.{AppStorage, Role, precision, initialize_pool}
use sidiora_perpetual_protoc.Deploy.Sending.{Fate, send}

-- `parseEther("1000000")`
abbrev pub virtual_liquidity : ℕ
virtual_liquidity = 1000000 * precision

abbrev pub damping_factor : ℕ
damping_factor = 5000

-- Whether the two reads of a market answer, and what becomes of its transaction.
pub record Network : Type 0 where
  pub pool_read : Bool
  pub price_read : Bool
  pub fate : Fate

pub record Progress : Type 0 where
  pub initialized : ℕ
  pub skipped : ℕ
  pub storage : AppStorage

abbrev pub skip : Progress → Progress
skip p = record p { skipped = p.skipped + 1 }

-- After the transaction: a failure is only logged.
unfoldable pub after_send : Progress → Option (Unit {0}) × AppStorage → Progress
after_send p (none, s) = record p { storage = s }
after_send p (some done, s) = record p { initialized = p.initialized + 1; storage = s }

module _ (admin : ℕ) (now : ℕ) where
  -- A market whose pool is not there yet.
  unfoldable pub open_pool : ℕ → Network → Progress → Progress
  unfolding after_send initialize_pool send
  open_pool id net p =
      if net.price_read
      then (if p.storage.latest_price id == 0
          then skip p
          else after_send p (
              send net.fate
                (initialize_pool admin now id (p.storage.latest_price id) virtual_liquidity
                  damping_factor)
                p.storage))
      else skip p

  -- A round of the loop; `none` is a throw out of the script.
  unfoldable pub init_pool : ℕ → Network → Progress → Option Progress
  unfolding open_pool
  init_pool id net p =
      if net.pool_read
      then some
          (if ltb 0 (p.storage.virtual_pools id).base_reserve then skip p else open_pool id net p)
      else none

  unfoldable pub init_each : List (ℕ × Network) → Progress → Option Progress
  unfolding init_pool
  init_each [] p = some p
  init_each ((id, net) ∷ rest) p = elim (init_pool id net p) [
    | none ↦ none
    | some p' ↦ init_each rest p'
  ]

  -- The script, which ends at once without the role.
  unfoldable pub init_pools : List (ℕ × Network) → AppStorage → Option Progress
  unfolding init_each
  init_pools markets s =
      if s.roles Role.market_admin admin
      then init_each markets (record { initialized = 0; skipped = 0; storage = s })
      else none
