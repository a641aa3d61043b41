-- ===== src/Deploy/Markets/Laws.antt =====
-- What scripts/deploy/09-add-market.js records, whatever the network does.
use sidiora_perpetual_protoc.Base.{
  ℕ, ◌+◌, ◌≤◌, ◌<◌, ◌≡◌, refl, sym, Option, none, some, List, [], ◌∷◌, arith, Bool-cases, inl, inr,
}
use sidiora_perpetual_protoc.Deploy.Facets.{AppStorage, Role}
use sidiora_perpetual_protoc.Deploy.Facets.Laws.{Kept, Kept-refl, Kept-trans}
use sidiora_perpetual_protoc.Deploy.Markets.{
  Definition, Network, Outcome, success, unposted, unpooled, failed, add_market, push, add_markets,
  add_new_markets, recorded,
}
use mathlib.Core.Path.{subst}
use sidiora_perpetual_protoc.Deploy.Markets.Rounds.{Ready, Ready-Kept, Added, add_market-Added}

-- Every recorded market is ready, and the ids rise from the first new one on.
abbrev pub AllReady : ℕ → AppStorage → List (ℕ × Definition) → Type 0
AllReady from s [] = Unit
AllReady from s ((id, m) ∷ rs) = (from ≤ id) × Ready id m s × AllReady (id + 1) s rs

AllReady-from :
    (a b : ℕ) (s : AppStorage) (rs : List (ℕ × Definition))
    → a ≤ b
    → AllReady b s rs
    → AllReady a s rs
AllReady-from a b s [] h r = tt
AllReady-from a b s ((id, m) ∷ rs) h (l, x, r) = (omega arith, x, r)

-- What a run of the loop leaves.
abbrev Sound : AppStorage → Option (List Outcome) × AppStorage → Type 0
Sound s (r, t) =
    Kept s.next_market_id s t
    × ((rs : List Outcome) → r ≡ some rs → AllReady s.next_market_id t (recorded rs))

recorded-AllReady :
    (m : Definition) (s t u : AppStorage) (o : Outcome) (rs : List Outcome)
    → Added m s (some o, t)
    → Kept t.next_market_id t u
    → AllReady t.next_market_id u (recorded rs)
    → AllReady s.next_market_id u (recorded (o ∷ rs))
unfolding recorded
recorded-AllReady m s t u (success id m') rs (k, f) g h =
    let (a, b, l, r) = f id m' refl in
    (
      omega arith,
      Ready-Kept t.next_market_id id m' t u (omega arith) g (subst (λ x. Ready id x t) (sym a) r),
      AllReady-from (id + 1) t.next_market_id u (recorded rs) (omega arith) h,
    )
recorded-AllReady m s t u (unposted id m') rs (k, f) g h =
    AllReady-from s.next_market_id t.next_market_id u (recorded rs) k.grows h
recorded-AllReady m s t u (unpooled id m') rs (k, f) g h =
    AllReady-from s.next_market_id t.next_market_id u (recorded rs) k.grows h
recorded-AllReady m s t u (failed m') rs (k, f) g h =
    AllReady-from s.next_market_id t.next_market_id u (recorded rs) k.grows h

push-Sound :
    (m : Definition) (s t : AppStorage) (o : Outcome) (y : Option (List Outcome) × AppStorage)
    → Added m s (some o, t)
    → Sound t y
    → Sound s (push o y)
push-Sound m s t o (none, u) a (g, h) =
    (Kept-trans s.next_market_id t.next_market_id s t u a.0.grows a.0 g, λ rs e. cc)
push-Sound m s t o (some rs, u) a (g, h) = (
  Kept-trans s.next_market_id t.next_market_id s t u a.0.grows a.0 g,
  λ rs' e.
      let e' : (o ∷ rs) ≡ rs' = cc in
      subst (λ l. AllReady s.next_market_id u (recorded l)) e'
        (recorded-AllReady m s t u o rs a g (h rs refl)),
)

round-Sound :
    (m : Definition) (s t : AppStorage) (r : Option Outcome)
    (y : Option (List Outcome) × AppStorage)
    → Added m s (r, t)
    → Sound t y
    → Sound s (elim r as (λ x. Option (List Outcome) × AppStorage) [
      | none ↦ (none, t)
      | some x ↦ push x y
    ])
round-Sound m s t none y a h = (a.0, (λ rs e. cc))
round-Sound m s t (some o) y a h = push-Sound m s t o y a h

module _ (admin : ℕ) where
  add_markets-Sound :
      (ms : List (Definition × ℕ × Network)) (s : AppStorage) → Sound s (add_markets admin ms s)
  unfolding add_markets recorded
  add_markets-Sound [] s = (
    Kept-refl s.next_market_id s,
    λ rs h. let e : [] ≡ rs = cc in subst (λ l. AllReady s.next_market_id s (recorded l)) e tt,
  )
  add_markets-Sound ((m, now, net) ∷ rest) s =
      let x = add_market admin now m net s in
      round-Sound m s x.1 x.0 (add_markets admin rest x.1) (add_market-Added admin now m net s)
        (add_markets-Sound rest x.1)

  -- Whatever becomes of the transactions of the market script, if it does not throw, each
  -- market that it records in the manifest is on chain as its definition says, with the
  -- definition's price and a pool of the definition's liquidity at that price, under rising ids
  -- from the first new one on. Earlier markets keep their terms, prices and pools, also if it
  -- throws.
  pub recorded_markets_ready :
      (ms : List (Definition × ℕ × Network)) (s : AppStorage)
      → let x = add_new_markets admin ms s in
        ((id : ℕ)
          → id < s.next_market_id
          → (x.1.markets id ≡ s.markets id)
            × (x.1.latest_price id ≡ s.latest_price id)
            × (x.1.virtual_pools id ≡ s.virtual_pools id))
        × ((rs : List Outcome) → x.0 ≡ some rs → AllReady s.next_market_id x.1 (recorded rs))
  unfolding add_new_markets
  recorded_markets_ready ms s = elim (Bool-cases (s.roles Role.market_admin admin)) [
    | inr a ↦ rw a ((λ id h. (refl, refl, refl)), (λ rs h. cc))
    | inl a ↦ elim (Bool-cases (s.roles Role.oracle_poster admin)) [
      | inr b ↦ rw (a, b) ((λ id h. (refl, refl, refl)), (λ rs h. cc))
      | inl b ↦
          let (k, h) = add_markets-Sound ms s in
          rw (a, b) ((λ id l. (k.markets id l, k.price id l, k.pool id l)), h)
    ]
  ]
