-- ===== src/Keeper/Vamm/Pools.antt =====
-- Which pools .keeper/src/vamm-syncer.js syncs and asks for.
use sidiora_perpetual_protoc.Base.{
  ℕ, suc, ◌+◌, ◌≤◌, ◌≡◌, true, false, Option, List, [], ◌∷◌, ◌++◌, ◌==◌, if◌then◌else◌, includes,
  arith, Bool-cases, Option-cases, inl, inr,
}
use sidiora_perpetual_protoc.Protocol.{MarketEntry, PoolState, TxResult}
use sidiora_perpetual_protoc.Keeper.Vamm.{
  State, submit, look, sync_market, sync_each, to_sync, sync_all,
}

-- How often a market stands in a list.
abbrev pub occurrences : ℕ → List ℕ → ℕ
occurrences id [] = 0
occurrences id (j ∷ l) = if j == id then suc (occurrences id l) else occurrences id l

occurrences-append :
    (id : ℕ) (xs ys : List ℕ) → occurrences id (xs ++ ys) ≡ occurrences id xs + occurrences id ys
occurrences-append id [] ys = omega arith
occurrences-append id (x ∷ xs) ys = ground (arith, occurrences-append id xs ys)

-- Since the last reset a pool was asked for at most once, and only if it is marked; a market
-- that was ever synced is marked as initialized.
pub record IsValid {E : Type 0} (id : ℕ) (s : State E) : Type 0 where
  pub once : occurrences id s.asked ≤ (if includes id s.checked_pools then 1 else 0)
  pub known : includes id s.synced ≡ true → includes id s.initialized_pools ≡ true

module _ {E : Type 0} (get_pool : ℕ → E → Option PoolState × E)
    (sync_vamm : ℕ → E → TxResult × E) where
  includes-append :
      (a : ℕ) (xs : List ℕ) (b : ℕ)
      → includes a (xs ++ b ∷ []) ≡ (if includes a xs then true else b == a)
  includes-append a [] b = ground arith
  includes-append a (x ∷ xs) b = ground (arith, includes-append a xs b)

  submit-IsValid :
      (id m : ℕ) (s : State E)
      → includes m s.initialized_pools ≡ true
      → IsValid id s
      → IsValid id (submit get_pool sync_vamm m s)
  unfolding submit
  submit-IsValid id m s h v = record {
    once = v.once;
    known = ground (arith, includes-append id s.synced m, v.known);
  }

  look-IsValid :
      (id m : ℕ) (s : State E)
      → includes m s.checked_pools ≡ false
      → IsValid id s
      → IsValid id (look get_pool sync_vamm m s)
  unfolding look
  look-IsValid id m s f v =
      let facts = occurrences-append id s.asked (m ∷ []) in
      elim (Option-cases (get_pool m s.executor).0) [
        | inl e ↦ rw (e, look) (record { once = ground (arith, facts, v.once); known = v.known })
        | inr (p, e) ↦
            rw (e, look)
              (record {
                once = ground (arith, facts, v.once);
                known = ground (arith, includes-append id s.synced m, v.known);
              })
      ]

  sync_market-IsValid :
      (id m : ℕ) (s : State E) → IsValid id s → IsValid id (sync_market get_pool sync_vamm m s)
  unfolding sync_market
  sync_market-IsValid id m s v = elim (Bool-cases (includes m s.initialized_pools)) [
    | inl e ↦ rw e (submit-IsValid id m s e v)
    | inr e ↦ rw e (elim (Bool-cases (includes m s.checked_pools)) [
      | inl f ↦ rw f (record { once = v.once; known = v.known })
      | inr f ↦ rw f (look-IsValid id m s f v)
    ])
  ]

  sync_each-IsValid :
      (id : ℕ) (ms : List MarketEntry) (s : State E)
      → IsValid id s
      → IsValid id (sync_each get_pool sync_vamm ms s)
  unfolding sync_each
  sync_each-IsValid id [] s v = v
  sync_each-IsValid id (m ∷ ms) s v =
      sync_each-IsValid id ms (sync_market get_pool sync_vamm m.market_id s)
        (sync_market-IsValid id m.market_id s v)

  -- A sync of any markets keeps the invariant that since the last reset a pool was asked for at
  -- most once, and only if it is marked, and that a market that was ever synced is marked as
  -- initialized.
  sync_all-IsValid :
      (id : ℕ) (updated : Option (List ℕ)) (markets : List MarketEntry) (s : State E)
      → IsValid id s
      → IsValid id (sync_all get_pool sync_vamm updated markets s)
  unfolding sync_all
  sync_all-IsValid id updated markets s v =
      sync_each-IsValid id (to_sync updated markets)
        (record s { stats = record s.stats { sync_cycles = s.stats.sync_cycles + 1 } })
        (record { once = v.once; known = v.known })
