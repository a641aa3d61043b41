-- ===== src/Deploy/Pools/Laws.antt =====
-- What a run of .keeper/scripts/init-pools.js reaches, and what a second run does.
use sidiora_perpetual_protoc.Base.{
  ℕ, ◌*◌, ◌/◌, ◌≡◌, refl, sym, ap, ◌∙◌, ◌==◌, ◌&&◌, not, ltb, Bool, true, false, Option, none, some,
  List, [], ◌∷◌, includes, arith, Bool-cases, ==→eq, inl, inr, if◌then◌else◌,
}
use sidiora_perpetual_protoc.Base.Int.{two_256}
use sidiora_perpetual_protoc.Engine.Cycle.{is_empty}
use sidiora_perpetual_protoc.Deploy.Facets.{AppStorage, Role, VirtualPool, precision}
use sidiora_perpetual_protoc.Deploy.Pools.{
  virtual_liquidity, damping_factor, Progress, init_pool, init_each, init_pools,
}
use mathlib.Core.Path.{subst}
use sidiora_perpetual_protoc.Deploy.Pools.Rounds.{reached, at_network, openable, opened, round_lem}

blocked : (r n p o : Bool) → (r && n && p && false && o) ≡ false
blocked false n p o = refl
blocked true false p o = refl
blocked true true false o = refl
blocked true true true o = refl

rejoined {ℓ} :
    {A : Type ℓ} (i b : Bool) (x y : A)
    → (if i && false then x else if b then x else y) ≡ (if b then x else y)
rejoined true b x y = refl
rejoined false b x y = refl

module _ (admin : ℕ) where
  -- The pool that the script opens.
  abbrev pub pool_of : ℕ → ℕ → VirtualPool
  pool_of now price = record {
    base_reserve = virtual_liquidity;
    quote_reserve = virtual_liquidity * price / precision;
    last_sync_timestamp = now;
    damping_factor = damping_factor;
  }

  -- The storage after a run over these ids: the pools that could be opened are, and nothing else
  -- that the script reads has changed.
  abbrev pub Opened : ℕ → List ℕ → AppStorage → AppStorage → Type 0
  Opened now ids s t =
      (t.roles ≡ s.roles)
      × (t.markets ≡ s.markets)
      × (t.latest_price ≡ s.latest_price)
      × ((j : ℕ)
          → t.virtual_pools j ≡ (
              if includes j ids && openable admin j s
              then pool_of now (s.latest_price j)
              else s.virtual_pools j))

  openable_of :
      (j : ℕ) (s t : AppStorage)
      → t.roles ≡ s.roles
      → t.markets ≡ s.markets
      → t.latest_price ≡ s.latest_price
      → openable admin j t ≡ (
          s.roles Role.market_admin admin
          && not (is_empty (s.markets j).symbol)
          && ltb 0 (s.latest_price j)
          && (t.virtual_pools j).base_reserve == 0
          && ltb (virtual_liquidity * s.latest_price j) two_256)
  openable_of j s t a b c = rw (a, b, c) refl

  abbrev after : ℕ → ℕ → AppStorage → AppStorage
  after now id s = if openable admin id s then opened admin now id s else s

  opened_at :
      (now id j : ℕ) (s : AppStorage)
      → openable admin id s ≡ true
      → (opened admin now id s).virtual_pools j ≡ (
          if includes j (id ∷ []) && openable admin j s
          then pool_of now (s.latest_price j)
          else s.virtual_pools j)
  opened_at now id j s e = elim (Bool-cases (id == j)) [
    | inl q ↦
        let i = ==→eq id j q in
        let e' : openable admin j s ≡ true = ap (λ k. openable admin k s) (sym i) ∙ e in
        rw (q, e') (ap (λ k. pool_of now (s.latest_price k)) i)
    | inr q ↦ rw q refl
  ]

  same_at :
      (now id j : ℕ) (s : AppStorage)
      → openable admin id s ≡ false
      → s.virtual_pools j ≡ (
          if includes j (id ∷ []) && openable admin j s
          then pool_of now (s.latest_price j)
          else s.virtual_pools j)
  same_at now id j s e = elim (Bool-cases (id == j)) [
    | inl q ↦
        let e' : openable admin j s ≡ false =
          ap (λ k. openable admin k s) (sym (==→eq id j q)) ∙ e in
        rw (q, e') refl
    | inr q ↦ rw q refl
  ]

  after-Opened : (now id : ℕ) (s : AppStorage) → Opened now (id ∷ []) s (after now id s)
  after-Opened now id s = elim (Bool-cases (openable admin id s)) [
    | inl e ↦ rw e (refl, refl, refl, (λ j. opened_at now id j s e))
    | inr e ↦ rw e (refl, refl, refl, (λ j. same_at now id j s e))
  ]

  -- An opened pool cannot be opened again.
  Opened-openable :
      (now j : ℕ) (ids : List ℕ) (s t : AppStorage)
      → Opened now ids s t
      → openable admin j t ≡ (if includes j ids then false else openable admin j s)
  Opened-openable now j ids s t (a, b, c, d) =
      openable_of j s t a b c
      ∙ rw (d j) (elim (Bool-cases (includes j ids)) [
        | inr i ↦ rw i refl
        | inl i ↦ elim (Bool-cases (openable admin j s)) [
          | inl e ↦
              rw (i, e)
                (blocked (s.roles Role.market_admin admin) (not (is_empty (s.markets j).symbol))
                  (ltb 0 (s.latest_price j)) (ltb (virtual_liquidity * s.latest_price j) two_256))
          | inr e ↦ rw (i, e) e
        ]
      ])

  Opened-cons :
      (now id : ℕ) (ids : List ℕ) (s t u : AppStorage)
      → Opened now (id ∷ []) s t
      → Opened now ids t u
      → Opened now (id ∷ ids) s u
  Opened-cons now id ids s t u (a, b, c, d) (a', b', c', d') = (
    a' ∙ a,
    b' ∙ b,
    c' ∙ c,
    (λ j.
        d' j
        ∙ rw (Opened-openable now j (id ∷ []) s t (a, b, c, d), d j, ap (λ f. f j) c)
            (elim (Bool-cases (id == j)) [
              | inl q ↦ rw q (rejoined (includes j ids) (openable admin j s) _ _)
              | inr q ↦ rw q refl
            ])),
  )

  next_lem :
      (now id : ℕ) (ids : List ℕ) (p q : Progress)
      → init_pool admin now id reached p ≡ some q
      → init_each admin now (at_network (id ∷ ids)) p ≡ init_each admin now (at_network ids) q
  unfolding init_each
  next_lem now id ids p q e =
      ap
        (λ o. elim o as (λ x. Option Progress) [
          | none ↦ none
          | some r ↦ init_each admin now (at_network ids) r
        ])
        e

  init_each_lem :
      (now : ℕ) (ids : List ℕ) (p : Progress)
      → (q : Progress) × (init_each admin now (at_network ids) p ≡ some q)
        × Opened now ids p.storage q.storage
  unfolding init_each
  init_each_lem now [] p = (p, refl, (refl, refl, refl, (λ j. refl)))
  init_each_lem now (id ∷ ids) p =
      let (q, e, (t, c)) = round_lem admin now id p in
      let (r, f, o) = init_each_lem now ids q in
      (
        r,
        next_lem now id ids p q e ∙ f,
        Opened-cons now id ids p.storage q.storage r.storage
            (subst (Opened now (id ∷ []) p.storage) (sym t) (after-Opened now id p.storage)) o,
      )

  init_pools_opens :
      (now : ℕ) (ids : List ℕ) (s : AppStorage)
      → s.roles Role.market_admin admin ≡ true
      → (p : Progress) × (init_pools admin now (at_network ids) s ≡ some p)
        × Opened now ids s p.storage
  unfolding init_pools
  init_pools_opens now ids s h =
      let start : Progress = record { initialized = 0; skipped = 0; storage = s } in
      let (p, e, o) = init_each_lem now ids start in (p, rw h e, o)

  idle :
      (now : ℕ) (ids : List ℕ) (p : Progress)
      → ((j : ℕ) → includes j ids ≡ true → openable admin j p.storage ≡ false)
      → (q : Progress) × (init_each admin now (at_network ids) p ≡ some q)
        × (q.storage ≡ p.storage)
        × (q.initialized ≡ p.initialized)
  unfolding init_each
  idle now [] p h = (p, refl, refl, refl)
  idle now (id ∷ ids) p h =
      let (q, e, (t, c)) = round_lem admin now id p in
      let n = h id (ground arith) in
      let t' : q.storage ≡ p.storage = rw n at t in
      let c' : q.initialized ≡ p.initialized = rw n at c in
      let (r, f, u, i) =
        idle now ids q (λ j k. ap (openable admin j) t' ∙ h j (ground (arith, k))) in
      (r, next_lem now id ids p q e ∙ f, u ∙ t', i ∙ c')

  -- Over a network that delivers and with the role, a run of the pool script gives each listed
  -- market that has a symbol and a price, no pool and no overflow at that price a pool of the
  -- set liquidity at it, and changes no other pool, price, market or role. A second run then
  -- opens no pool and changes nothing.
  pub init_pools_again :
      (now later : ℕ) (ids : List ℕ) (s : AppStorage)
      → s.roles Role.market_admin admin ≡ true
      → (p q : Progress) × (init_pools admin now (at_network ids) s ≡ some p)
        × Opened now ids s p.storage
        × (init_pools admin later (at_network ids) p.storage ≡ some q)
        × (q.storage ≡ p.storage)
        × (q.initialized ≡ 0)
  unfolding init_pools
  init_pools_again now later ids s h =
      let (p, e, o) = init_pools_opens now ids s h in
      let start : Progress = record { initialized = 0; skipped = 0; storage = p.storage } in
      let (q, f, t, i) =
        idle later ids start (λ j k. Opened-openable now j ids s p.storage o ∙ rw k refl) in
      (p, q, e, o, rw (ap (λ r. r Role.market_admin admin) o.0 ∙ h) f, t, i)
