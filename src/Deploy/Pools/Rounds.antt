-- ===== src/Deploy/Pools/Rounds.antt =====
-- A round of .keeper/scripts/init-pools.js where the network is reached.
use sidiora_perpetual_protoc.Base.{
  ℕ, ◌+◌, ◌*◌, ◌/◌, ◌≡◌, refl, ◌==◌, ◌&&◌, not, ltb, Bool, true, false, Option, none, some, List,
  map, arith, Bool-cases, inl, inr, if◌then◌else◌,
}
use sidiora_perpetual_protoc.Base.Int.{two_256}
use sidiora_perpetual_protoc.Engine.Cycle.{is_empty}
use sidiora_perpetual_protoc.Deploy.Facets.{AppStorage, Role, precision, initialize_pool}
use sidiora_perpetual_protoc.Deploy.Facets.Laws.{with_pool}
use sidiora_perpetual_protoc.Deploy.Sending.{delivered, seen, send}
use sidiora_perpetual_protoc.Deploy.Pools.{
  virtual_liquidity, damping_factor, Network, Progress, skip, after_send, open_pool, init_pool,
}

-- Every read answers and every transaction is delivered.
abbrev pub reached : Network
reached = record { pool_read = true; price_read = true; fate = delivered }

abbrev pub at_network : List ℕ → List (ℕ × Network)
at_network ids = map (λ id. (id, reached)) ids

regrouped {ℓ} :
    {A : Type ℓ} (r p n b o : Bool) (q : ℕ) (f : ℕ → A)
    → (if r && p && true && true && true && n && b
        then (elim (if o then some q else none) as (λ x. Option A) [
          | none ↦ none
          | some v ↦ some (f v)
        ])
        else none)
      ≡ (if r && n && p && b && o then some (f q) else none)
regrouped false p n b o q f = refl
regrouped true false false b o q f = refl
regrouped true false true b o q f = refl
regrouped true true false b o q f = refl
regrouped true true true false o q f = refl
regrouped true true true true false q f = refl
regrouped true true true true true q f = refl

module _ (admin : ℕ) where
  -- Whether the script can open a pool for a market.
  abbrev pub openable : ℕ → AppStorage → Bool
  openable id s =
      s.roles Role.market_admin admin
      && not (is_empty (s.markets id).symbol)
      && ltb 0 (s.latest_price id)
      && (s.virtual_pools id).base_reserve == 0
      && ltb (virtual_liquidity * s.latest_price id) two_256

  abbrev pub opened : ℕ → ℕ → AppStorage → AppStorage
  opened now id s =
      with_pool now id virtual_liquidity damping_factor s
        (virtual_liquidity * s.latest_price id / precision)

  initialize_pool_lem :
      (now id : ℕ) (s : AppStorage)
      → initialize_pool admin now id (s.latest_price id) virtual_liquidity damping_factor s
        ≡ (if openable id s then some (tt, opened now id s) else none)
  unfolding initialize_pool
  initialize_pool_lem now id s =
      regrouped (s.roles Role.market_admin admin) (ltb 0 (s.latest_price id))
        (not (is_empty (s.markets id).symbol)) ((s.virtual_pools id).base_reserve == 0)
        (ltb (virtual_liquidity * s.latest_price id) two_256)
        (virtual_liquidity * s.latest_price id / precision)
        (λ v. (tt, with_pool now id virtual_liquidity damping_factor s v))

  with_base :
      (id : ℕ) (s : AppStorage)
      → ltb 0 (s.virtual_pools id).base_reserve ≡ true
      → openable id s ≡ false
  with_base id s h = ground (arith, h)

  without_price :
      (id : ℕ) (s : AppStorage) → (s.latest_price id == 0) ≡ true → openable id s ≡ false
  without_price id s h = ground (arith, h)

  -- The storage and the count after a round, where the network is reached.
  abbrev pub Round : ℕ → ℕ → Progress → Progress → Type 0
  Round now id p q =
      (q.storage ≡ (if openable id p.storage then opened now id p.storage else p.storage))
      × (q.initialized ≡ (if openable id p.storage then p.initialized + 1 else p.initialized))

  sent-Round :
      (now id : ℕ) (p : Progress)
      → Round now id p (
          after_send p (
            send delivered
              (initialize_pool admin now id
                (p.storage.latest_price id)
                virtual_liquidity
                damping_factor)
              p.storage))
  unfolding after_send send
  sent-Round now id p =
      rw (initialize_pool_lem now id p.storage)
        (elim (openable id p.storage)
          as (λ b.
            let q =
              after_send p
                (seen p.storage (if b then some (tt, opened now id p.storage) else none)) in
            (q.storage ≡ (if b then opened now id p.storage else p.storage))
            × (q.initialized ≡ (if b then p.initialized + 1 else p.initialized))) [
              | true ↦ (refl, refl)
              | false ↦ (refl, refl)
            ])

  pub round_lem :
      (now id : ℕ) (p : Progress)
      → (q : Progress) × (init_pool admin now id reached p ≡ some q) × Round now id p q
  unfolding init_pool open_pool
  round_lem now id p = elim (Bool-cases (ltb 0 (p.storage.virtual_pools id).base_reserve)) [
    | inl e ↦ (
      skip p,
      rw e refl,
      (rw (with_base id p.storage e) refl, rw (with_base id p.storage e) refl),
    )
    | inr e ↦ elim (Bool-cases (p.storage.latest_price id == 0)) [
      | inl z ↦ (
        skip p,
        rw (e, z) refl,
        (rw (without_price id p.storage z) refl, rw (without_price id p.storage z) refl),
      )
      | inr z ↦
          let (a, b) = sent-Round now id p in
          (
            after_send p (
                send delivered
                  (initialize_pool admin now id (p.storage.latest_price id) virtual_liquidity
                    damping_factor)
                  p.storage),
            rw (e, z) refl,
            (a, b),
          )
    ]
  ]
