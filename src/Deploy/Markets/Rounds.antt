-- ===== src/Deploy/Markets/Rounds.antt =====
-- What a round of scripts/deploy/09-add-market.js leaves on chain, whatever becomes of its transactions.
use sidiora_perpetual_protoc.Base.{
  ℕ, ◌*◌, ◌/◌, ◌<◌, ◌≡◌, refl, sym, ap, ◌∙◌, true, Option, none, some, [], ◌∷◌, arith, Bool-cases,
  inl, inr,
}
use sidiora_perpetual_protoc.Deploy.Facets.{
  AppStorage, Market, precision, create_market, batch_update_prices, initialize_pool,
}
use sidiora_perpetual_protoc.Deploy.Facets.Laws.{
  Kept, Kept-refl, Kept-trans, Created, create_market-Created, batch_update_prices-Posted,
  initialize_pool-Pooled,
}
use sidiora_perpetual_protoc.Deploy.Sending.{send, send-keeps, send_returns}
use sidiora_perpetual_protoc.Deploy.Markets.{
  Definition, Network, Outcome, success, after_pool, after_post, after_create, add_market,
}
use mathlib.Core.Path.{subst}

-- A definition's market.
abbrev pub listed : Definition → Market
listed m = record {
  name = m.name;
  symbol = m.symbol;
  max_leverage = m.max_leverage;
  maintenance_margin_bps = m.maintenance_margin_bps;
  max_open_interest = m.max_open_interest;
  enabled = true;
}

-- A market with its price and its pool, as its definition says.
pub record Ready (id : ℕ) (m : Definition) (s : AppStorage) : Type 0 where
  pub market : s.markets id ≡ record {
    name = m.name;
    symbol = m.symbol;
    max_leverage = m.max_leverage;
    maintenance_margin_bps = m.maintenance_margin_bps;
    max_open_interest = m.max_open_interest;
    enabled = true;
  }
  pub price : s.latest_price id ≡ m.price
  pub base : (s.virtual_pools id).base_reserve ≡ m.virtual_liquidity
  pub quote : (s.virtual_pools id).quote_reserve ≡ m.virtual_liquidity * m.price / precision

pub Ready-Kept :
    (from id : ℕ) (m : Definition) (s t : AppStorage)
    → id < from
    → Kept from s t
    → Ready id m s
    → Ready id m t
Ready-Kept from id m s t l k r = record {
  market = k.markets id l ∙ r.market;
  price = k.price id l ∙ r.price;
  base = ap (λ p. p.base_reserve) (k.pool id l) ∙ r.base;
  quote = ap (λ p. p.quote_reserve) (k.pool id l) ∙ r.quote;
}

-- What a definition leaves: every market before it is as it was, and if it succeeds, the next one is
-- ready.
abbrev pub Added : Definition → AppStorage → Option Outcome × AppStorage → Type 0
Added m s (r, t) =
    Kept s.next_market_id s t
    × ((id : ℕ) (m' : Definition)
        → r ≡ some (success id m')
        → (m' ≡ m) × (id ≡ s.next_market_id) × (s.next_market_id < t.next_market_id) × Ready id m t)

success-injective :
    {i j : ℕ} {m n : Definition} → some (success i m) ≡ some (success j n) → (i ≡ j) × (m ≡ n)
success-injective h = (cc, cc)

module _ (admin now : ℕ) (m : Definition) (net : Network) where
  after_pool-Added :
      (id : ℕ) (s t : AppStorage) (r : Option (Unit {0}))
      → Kept s.next_market_id s t
      → id ≡ s.next_market_id
      → s.next_market_id < t.next_market_id
      → ((u : Unit {0}) → r ≡ some u → Ready id m t)
      → Added m s (after_pool admin now m net id (r, t))
  unfolding after_pool
  after_pool-Added id s t none k e l h = (k, (λ j m' i. cc))
  after_pool-Added id s t (some u) k e l h = elim (Bool-cases net.verified) [
    | inl v ↦ rw v (
      k,
      (λ j m' i.
          let (a, b) = success-injective i in
          (sym b, sym a ∙ e, l, subst (λ x. Ready x m t) a (h u refl))),
    )
    | inr v ↦ rw v (k, (λ j m' i. cc))
  ]

  after_post-Added :
      (id : ℕ) (s t : AppStorage) (r : Option (Unit {0}))
      → Kept s.next_market_id s t
      → id ≡ s.next_market_id
      → s.next_market_id < t.next_market_id
      → (t.markets id ≡ listed m)
      → ((u : Unit {0}) → r ≡ some u → t.latest_price id ≡ m.price)
      → Added m s (after_post admin now m net id (r, t))
  unfolding after_post
  after_post-Added id s t none k e l w h = (k, (λ j m' i. cc))
  after_post-Added id s t (some done) k e l w h =
      let call = initialize_pool admin now id m.price m.virtual_liquidity m.damping_factor in
      let x = send net.pool call t in
      let (k', l') : Kept s.next_market_id s x.1 × (s.next_market_id < x.1.next_market_id) =
        send-keeps (λ v. Kept s.next_market_id s v × (s.next_market_id < v.next_market_id)) net.pool
          call t (k, l)
          (λ u v c.
            let (g, n, b, p, q, y) =
              initialize_pool-Pooled admin now id m.price m.virtual_liquidity m.damping_factor t v u
                c in
            (Kept-trans s.next_market_id id s t v (omega arith) k g, omega arith)) in
      after_pool-Added id s x.1 x.0 k' e l' (λ u c.
        let (g, n, b, p, q, v) =
          initialize_pool-Pooled admin now id m.price m.virtual_liquidity m.damping_factor t x.1 u
            (send_returns net.pool call t u c) in
        record {
          market = ap (λ f. f id) b ∙ w;
          price = ap (λ f. f id) p ∙ h done refl;
          base = q;
          quote = v;
        })

  after_create-Added :
      (s t : AppStorage) (r : Option ℕ)
      → Kept s.next_market_id s t
      → ((id : ℕ) → r ≡ some id → Created (listed m) s (id, t))
      → Added m s (after_create admin now m net (r, t))
  unfolding after_create
  after_create-Added s t none k h = (k, (λ j m' i. cc))
  after_create-Added s t (some id) k h =
      let call = batch_update_prices admin now ((id, m.price) ∷ []) in
      let (k', e, n, w) : Created (listed m) s (id, t) = h id refl in
      let x = send net.post call t in
      let (k₂, l₂, w₂) : Kept s.next_market_id s x.1
          × (s.next_market_id < x.1.next_market_id)
          × (x.1.markets id ≡ listed m) =
        send-keeps
          (λ v.
            Kept s.next_market_id s v
            × (s.next_market_id < v.next_market_id)
            × (v.markets id ≡ listed m))
          net.post call t (k, omega arith, w)
          (λ u v c.
            let (g, a, b, p, q) = batch_update_prices-Posted admin now id m.price t v u c in
            (
              Kept-trans s.next_market_id id s t v (omega arith) k g,
              omega arith,
              ap (λ f. f id) b ∙ w,
            )) in
      after_post-Added id s x.1 x.0 k₂ e l₂ w₂ (λ u c.
        let (g, a, b, p, q) =
          batch_update_prices-Posted admin now id m.price t x.1 u
            (send_returns net.post call t u c) in
        q)

  pub add_market-Added : (s : AppStorage) → Added m s (add_market admin now m net s)
  unfolding add_market
  add_market-Added s =
      let call =
        create_market admin m.name m.symbol m.max_leverage m.maintenance_margin_bps
          m.max_open_interest in
      after_create-Added s (send net.create call s).1 (send net.create call s).0
        (send-keeps (Kept s.next_market_id s) net.create call s (Kept-refl s.next_market_id s)
          (λ id t c.
            (create_market-Created admin m.name m.symbol m.max_leverage m.maintenance_margin_bps
              m.max_open_interest s t id c).0))
        (λ id c.
          create_market-Created admin m.name m.symbol m.max_leverage m.maintenance_margin_bps
            m.max_open_interest s (send net.create call s).1 id
            (send_returns net.create call s id c))
