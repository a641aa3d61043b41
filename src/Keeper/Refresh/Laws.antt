-- ===== src/Keeper/Refresh/Laws.antt =====
-- What a refresh of .keeper/src/state-cache.js leaves in the cache.
use sidiora_perpetual_protoc.Base.{
  ℕ, ◌-◌, ◌≤◌, ◌≡◌, refl, ◌∙◌, true, false, not, ◌&&◌, ◌||◌, Option, none, some, List, [], ◌∷◌,
  ◌++◌, ltb, ◌==◌, if◌then◌else◌, includes, arith, Bool-cases, Option-cases, inl, inr,
}
use sidiora_perpetual_protoc.Base.Dict.{
  Dict, lookup, insert, lookup-insert, Distinct, insert-Distinct,
}
use sidiora_perpetual_protoc.Protocol.{Order}
use sidiora_perpetual_protoc.Keeper.Cache.{StateCache}
use sidiora_perpetual_protoc.Keeper.Refresh.{
  Answers, live_order, load, add_all, delete, delete_all, refresh_orders_from_indexer,
  order_candidates, refresh_orders_from_chain, refresh_orders,
}

module _ {V : Type 0} (live : ℕ → Option V) where
  lookup-load :
      (id : ℕ) (ids : List ℕ) (m : Dict V)
      → lookup id (load live ids m) ≡ (
          if includes id ids
          then (elim (live id) [ none ↦ lookup id m | some v ↦ some v ])
          else lookup id m)
  unfolding load
  lookup-load id [] m = refl
  lookup-load id (j ∷ ids) m = elim (Option-cases (live j)) [
    | inl e ↦ rw (e, load) (ground (arith, lookup-load id ids m))
    | inr (v, e) ↦
        rw (e, load) (ground (arith, lookup-load id ids (insert j v m), lookup-insert j id v m))
  ]

  pub load-Distinct : (ids : List ℕ) (m : Dict V) → Distinct m → Distinct (load live ids m)
  unfolding load
  load-Distinct [] m d = d
  load-Distinct (j ∷ ids) m d = elim (Option-cases (live j)) [
    | inl e ↦ rw (e, load) (load-Distinct ids m d)
    | inr (v, e) ↦ rw (e, load) (load-Distinct ids (insert j v m) (insert-Distinct j v m d))
  ]

  pub loaded :
      (id : ℕ) (ids : List ℕ)
      → lookup id (load live ids []) ≡ (if includes id ids then live id else none)
  loaded id ids = lookup-load id ids [] ∙ ground arith

includes-append :
    (a : ℕ) (xs ys : List ℕ) → includes a (xs ++ ys) ≡ (includes a xs || includes a ys)
includes-append a [] ys = refl
includes-append a (x ∷ xs) ys = ground (arith, includes-append a xs ys)

pub includes-add_all :
    (a : ℕ) (ids set : List ℕ) → includes a (add_all ids set) ≡ (includes a set || includes a ids)
unfolding add_all
includes-add_all a [] set = ground arith
includes-add_all a (j ∷ ids) set = elim (Bool-cases (includes j set)) [
  | inl e ↦ rw e (ground (arith, includes-add_all a ids set))
  | inr e ↦
      rw e (ground (arith, includes-add_all a ids (set ++ j ∷ []), includes-append a set (j ∷ [])))
]

includes-delete :
    (a j : ℕ) (set : List ℕ)
    → includes a (delete j set) ≡ (if j == a then false else includes a set)
unfolding delete
includes-delete a j [] = ground arith
includes-delete a j (x ∷ set) = ground (arith, includes-delete a j set)

includes-delete_all :
    (a : ℕ) (ids set : List ℕ)
    → includes a (delete_all ids set) ≡ (includes a set && not (includes a ids))
unfolding delete_all
includes-delete_all a [] set = ground arith
includes-delete_all a (j ∷ ids) set =
    ground (arith, includes-delete_all a ids (delete j set), includes-delete a j set)

-- A due refresh of the orders, while the indexer is thought available and answers, leaves
-- exactly the orders that the indexer lists and that are active on chain, as they are on chain,
-- each once, and stores the time.
pub refresh_orders-indexer :
    (interval : ℕ) (a : Answers) (c : StateCache) (ids : List ℕ)
    → interval ≤ a.now - c.last_order_refresh
    → c.indexer_available ≡ true
    → a.indexed_orders ≡ some ids
    → let c' = refresh_orders interval a c in
      Distinct c'.active_orders
      × ((id : ℕ)
          → lookup id c'.active_orders
            ≡ (if includes id ids then live_order (a.get_order id) else none))
      × (c'.last_order_refresh ≡ a.now)
unfolding refresh_orders
refresh_orders-indexer interval a c ids due up e =
    let live : ℕ → Option Order = λ id. live_order (a.get_order id) in
    let late : ltb (a.now - c.last_order_refresh) interval ≡ false = ground arith in
    rw (late, up, e, refresh_orders_from_indexer)
      (load-Distinct live ids [] tt, (λ id. loaded live id ids), refl)

-- The chain answered every query of the fallback on orders.
pub record OrderEvents (a : Answers) (placed cancelled executed : List ℕ) : Type 0 where
  pub current : ℕ
  pub block : a.block_number ≡ some current
  pub all_placed : a.orders_placed (current - 50000) current ≡ some placed
  pub all_cancelled : a.orders_cancelled (current - 50000) current ≡ some cancelled
  pub all_executed : a.orders_executed (current - 50000) current ≡ some executed

candidates_lem :
    (a : Answers) (placed cancelled executed : List ℕ)
    → OrderEvents a placed cancelled executed
    → order_candidates a ≡ some (delete_all executed (delete_all cancelled (add_all placed [])))
unfolding order_candidates
candidates_lem a placed cancelled executed h =
    rw (h.block, order_candidates) (rw h.all_placed (rw h.all_cancelled (rw h.all_executed refl)))

-- A due refresh of the orders where the indexer fails and the chain answers its events' queries
-- leaves exactly the orders that are placed, neither cancelled nor executed, and active on
-- chain, each once, stores the time and has the indexer marked unavailable.
pub refresh_orders-chain :
    (interval : ℕ) (a : Answers) (c : StateCache) (placed cancelled executed : List ℕ)
    → interval ≤ a.now - c.last_order_refresh
    → a.indexed_orders ≡ none
    → OrderEvents a placed cancelled executed
    → let c' = refresh_orders interval a c in
      Distinct c'.active_orders
      × ((id : ℕ)
          → lookup id c'.active_orders ≡ (
              if includes id placed && not (includes id cancelled) && not (includes id executed)
              then live_order (a.get_order id)
              else none))
      × (c'.last_order_refresh ≡ a.now)
      × (c'.indexer_available ≡ false)
unfolding refresh_orders
refresh_orders-chain interval a c placed cancelled executed due down h =
    let live : ℕ → Option Order = λ id. live_order (a.get_order id) in
    let ids : List ℕ = delete_all executed (delete_all cancelled (add_all placed [])) in
    let late : ltb (a.now - c.last_order_refresh) interval ≡ false = ground arith in
    let exact : (id : ℕ)
        → lookup id (load live ids []) ≡ (
            if includes id placed && not (includes id cancelled) && not (includes id executed)
            then live id
            else none) =
      λ id.
        loaded live id ids
        ∙ rw
            (
              includes-delete_all id executed (delete_all cancelled (add_all placed [])),
              includes-delete_all id cancelled (add_all placed []),
              includes-add_all id placed [],
            )
            refl in
    elim (Bool-cases c.indexer_available) [
      | inl up ↦
          rw
            (
              late,
              up,
              down,
              refresh_orders_from_indexer,
              candidates_lem a placed cancelled executed h,
              refresh_orders_from_chain,
            )
            (load-Distinct live ids [] tt, exact, refl, refl)
      | inr off ↦
          rw (late, off, candidates_lem a placed cancelled executed h, refresh_orders_from_chain)
            (load-Distinct live ids [] tt, exact, refl, off)
    ]
