-- ===== src/Keeper/Orders/Scan.antt =====
-- What one scan of .keeper/src/order-scanner.js submits, what it removes and what it counts.
use sidiora_perpetual_protoc.Base.{
  ℕ, ◌+◌, ◌≤◌, ◌<◌, ◌==◌, ◌≡◌, refl, sym, ◌∙◌, ◌⊎◌, Bool, true, false, Option, none, some,
  Option-cases, Bool-cases, inl, inr, List, [], ◌∷◌, ◌++◌, map, if◌then◌else◌, filter, arith,
}
use sidiora_perpetual_protoc.Base.Dict.{erase, Dict, lookup, Distinct}
use sidiora_perpetual_protoc.Base.Journal.{gone, Tracks, Tracks-step}
use sidiora_perpetual_protoc.Protocol.{Order, TxResult, stop_limit_type}
use sidiora_perpetual_protoc.Chain.{execute_order_accepts}
use sidiora_perpetual_protoc.Keeper.Cache.{StateCache, remove_order, get_price}
use sidiora_perpetual_protoc.Keeper.Orders.{
  State, in_updated, is_triggered, selects, settles, execute_triggered_order, execute_all, scan,
  begin_scan,
}
use mathlib.Core.List.{append_assoc, append-nil, map-append}

is_triggered-eq-execute_order_accepts :
    (o : Order) (price : ℕ)
    → o.order_type ≤ stop_limit_type
    → 0 < price
    → is_triggered o price ≡ execute_order_accepts o price
unfolding is_triggered execute_order_accepts
is_triggered-eq-execute_order_accepts o price h p = ground arith

-- For a limit or stop-limit order of an updated market, whatever the market's cached price is,
-- the keeper's scan selects the order exactly if there is one and the price checks of the
-- contract at execution accept the order at it.
pub selects-eq-execute_order_accepts :
    (c : StateCache) (updated : Option (List ℕ)) (id : ℕ) (o : Order)
    → o.order_type ≤ stop_limit_type
    → in_updated updated o.market_id ≡ true
    → selects c updated (id, o) ≡ (elim (get_price o.market_id c) [
      | none ↦ false
      | some price ↦ execute_order_accepts o price
    ])
unfolding selects execute_order_accepts
selects-eq-execute_order_accepts c updated id o h u =
    elim (Option-cases (get_price o.market_id c)) [
      | inl n ↦ rw (u, n, selects) refl
      | inr (price, e) ↦ elim (Bool-cases (price == 0)) [
        | inl z ↦ rw (u, e, selects) (grind (arith, z))
        | inr z ↦
            rw (u, e, selects)
              (rw z (is_triggered-eq-execute_order_accepts o price h (ground (arith, z))))
      ]
    ]

-- The keeper triggers a take-profit or stop-loss order at no price, although the contract
-- accepts it at its trigger price, if that is not 0.
close_order_ignored :
    (o : Order)
    → 0 < o.trigger_price
    → (o.order_type ≡ 2) ⊎ (o.order_type ≡ 3)
    → ((price : ℕ) → is_triggered o price ≡ false)
      × (execute_order_accepts o o.trigger_price ≡ true)
unfolding is_triggered execute_order_accepts
close_order_ignored o p h = ((λ price. ground arith), ground arith)

-- Which orders the log's results removed from the cache.
abbrev pub journal : List (ℕ × TxResult) → List (ℕ × Bool)
journal = map (λ e. (e.0, settles e.1))

if-orders :
    (b : Bool) (id : ℕ) (c : StateCache)
    → (if b then remove_order id c else c).active_orders
      ≡ (if b then erase id c.active_orders else c.active_orders)
unfolding remove_order
if-orders true id c = refl
if-orders false id c = refl

module _ {E : Type 0} (execute_order : ℕ → E → TxResult × E) where
  -- Every triggered order is counted as executed or as failed.
  abbrev pub Accounted : State E → Type 0
  Accounted s = s.stats.orders_triggered ≡ s.stats.orders_executed + s.stats.orders_failed

  execute_triggered_order-Accounted :
      (o : ℕ × Order) (s : State E)
      → Accounted s
      → Accounted (execute_triggered_order execute_order o s)
  unfolding execute_triggered_order
  execute_triggered_order-Accounted (id, o) s h = ground arith

  execute_all-Accounted :
      (os : List (ℕ × Order)) (s : State E)
      → Accounted s
      → Accounted (execute_all execute_order os s)
  unfolding execute_all
  execute_all-Accounted [] s h = h
  execute_all-Accounted (o ∷ os) s h =
      execute_all-Accounted os (execute_triggered_order execute_order o s)
        (execute_triggered_order-Accounted o s h)

  -- An order scan keeps the account that the triggered orders are the executed and the failed
  -- ones.
  pub scan-Accounted :
      (updated : Option (List ℕ)) (s : State E)
      → Accounted s
      → Accounted (scan execute_order updated s)
  unfolding scan
  scan-Accounted updated s h =
      execute_all-Accounted (filter (selects s.cache updated) s.cache.active_orders) (begin_scan s)
        h

  execute_all-log :
      (os : List (ℕ × Order)) (s : State E)
      → map (λ e. e.0) (execute_all execute_order os s).log
        ≡ map (λ e. e.0) s.log ++ map (λ o. o.0) os
  unfolding execute_all execute_triggered_order
  execute_all-log [] s = sym (append-nil _)
  execute_all-log (o ∷ os) s =
      execute_all-log os (execute_triggered_order execute_order o s)
      ∙ simp (map-append, append_assoc)

  -- An order scan that starts with an empty log submits exactly the orders that its test
  -- selects from the cache, each once and in cache order.
  pub scan_submits :
      (updated : Option (List ℕ)) (s : State E)
      → s.log ≡ []
      → map (λ e. e.0) (scan execute_order updated s).log
        ≡ map (λ o. o.0) (filter (selects s.cache updated) s.cache.active_orders)
  unfolding scan
  scan_submits updated s h =
      execute_all-log (filter (selects s.cache updated) s.cache.active_orders) (begin_scan s) ∙ rw h

  execute_all-Tracks :
      (start : Dict Order) (os : List (ℕ × Order)) (s : State E)
      → Tracks start s.cache.active_orders (journal s.log)
      → let t = execute_all execute_order os s in Tracks start t.cache.active_orders (journal t.log)
  unfolding execute_all execute_triggered_order remove_order
  execute_all-Tracks start [] s h = h
  execute_all-Tracks start ((j, o) ∷ os) s h =
      execute_all-Tracks start os (execute_triggered_order execute_order (j, o) s) (
        rw (map-append, if-orders)
          (Tracks-step start s.cache.active_orders (journal s.log) j
            (settles (execute_order j s.executor).0) h))

  -- After an order scan of a cache with distinct keys that starts with an empty log, an order
  -- is gone from the cache exactly if its submission succeeded or reverted for good; every
  -- other order is cached as before.
  pub scan_removes_orders :
      (updated : Option (List ℕ)) (s : State E) (id : ℕ)
      → Distinct s.cache.active_orders
      → s.log ≡ []
      → let t = scan execute_order updated s in
        lookup id t.cache.active_orders
        ≡ (if gone id (journal t.log) then none else lookup id s.cache.active_orders)
  unfolding scan
  scan_removes_orders updated s id d h =
      (execute_all-Tracks s.cache.active_orders
          (filter (selects s.cache updated) s.cache.active_orders) (begin_scan s)
          (d, λ k. rw h refl)).1
        id
