-- ===== src/Deploy/Facets/Laws.antt =====
-- What the calls of the scripts leave of the storage where they do not revert.
use sidiora_perpetual_protoc.Base.{
  ℕ, ◌+◌, ◌*◌, ◌/◌, ◌≤◌, ◌<◌, ◌≡◌, refl, ap, ◌∙◌, ◌==◌, ◌&&◌, not, ltb, leb, Bool, true, false,
  Option, none, some, List, [], ◌∷◌, arith, if◌then◌else◌,
}
use sidiora_perpetual_protoc.Base.Int.{two_256}
use sidiora_perpetual_protoc.Engine.Cycle.{is_empty}
use sidiora_perpetual_protoc.Deploy.Facets.{
  AppStorage, Market, VirtualPool, Role, write, precision, create_market, batch_update_prices,
  update_each, update_price, initialize_pool,
}
use mathlib.Core.Path.{subst}

-- Between the two states no market with a smaller id changed, and ids were handed out from there on.
pub record Kept (from : ℕ) (s t : AppStorage) : Type 0 where
  pub grows : s.next_market_id ≤ t.next_market_id
  pub markets : (id : ℕ) → id < from → t.markets id ≡ s.markets id
  pub price : (id : ℕ) → id < from → t.latest_price id ≡ s.latest_price id
  pub pool : (id : ℕ) → id < from → t.virtual_pools id ≡ s.virtual_pools id

pub Kept-refl : (from : ℕ) (s : AppStorage) → Kept from s s
Kept-refl from s = record {
  grows = omega arith;
  markets = λ id h. refl;
  price = λ id h. refl;
  pool = λ id h. refl;
}

pub Kept-trans :
    (from above : ℕ) (s t u : AppStorage)
    → from ≤ above
    → Kept from s t
    → Kept above t u
    → Kept from s u
Kept-trans from above s t u l h k = record {
  grows = omega (arith, h.grows, k.grows);
  markets = λ id i. k.markets id (omega arith) ∙ h.markets id i;
  price = λ id i. k.price id (omega arith) ∙ h.price id i;
  pool = λ id i. k.pool id (omega arith) ∙ h.pool id i;
}

if_some {ℓ} :
    {A : Type ℓ} (c : Bool) (x y : A) → (if c then some x else none) ≡ some y → (c ≡ true) × (x ≡ y)
if_some true x y h = (refl, cc)
if_some false x y h = cc

if_then {ℓ} :
    {A : Type ℓ} (c : Bool) (o : Option A) (y : A) → (if c then o else none) ≡ some y → o ≡ some y
if_then true o y h = h
if_then false o y h = cc

returned :
    (o : Option AppStorage) (u : Unit {0}) (t : AppStorage)
    → (elim o as (λ x. Option (Unit {0} × AppStorage)) [ none ↦ none | some v ↦ some (tt, v) ])
      ≡ some (u, t)
    → o ≡ some t
returned none u t h = cc
returned (some v) u t h = cc

checked :
    (b : Bool) (q : ℕ) (f : ℕ → AppStorage) (u : Unit {0}) (t : AppStorage)
    → (elim (if b then some q else none) as (λ x. Option (Unit {0} × AppStorage)) [
      | none ↦ none
      | some v ↦ some (tt, f v)
    ])
      ≡ some (u, t)
    → f q ≡ t
checked true q f u t h = cc
checked false q f u t h = cc

-- What `createMarket` leaves.
abbrev pub Created : Market → AppStorage → ℕ × AppStorage → Type 0
Created m s (id, t) =
    Kept s.next_market_id s t
    × (id ≡ s.next_market_id)
    × (t.next_market_id ≡ s.next_market_id + 1)
    × (t.markets id ≡ m)

pub write_self {ℓ} : {V : Type ℓ} (k : ℕ) (v : V) (m : ℕ → V) → write k v m k ≡ v
write_self k v m = ground arith

write_below {ℓ} : {V : Type ℓ} (k j : ℕ) (v : V) (m : ℕ → V) → j < k → write k v m j ≡ m j
write_below k j v m h = ground (arith, h)

pub create_market-Created :
    (admin : ℕ) (name symbol : List ℕ) (leverage margin interest : ℕ) (s t : AppStorage) (id : ℕ)
    → create_market admin name symbol leverage margin interest s ≡ some (id, t)
    → Created
        (record {
          name = name;
          symbol = symbol;
          max_leverage = leverage;
          maintenance_margin_bps = margin;
          max_open_interest = interest;
          enabled = true;
        })
        s
        (id, t)
unfolding create_market
create_market-Created admin name symbol leverage margin interest s t id h =
    let m : Market = record {
      name = name;
      symbol = symbol;
      max_leverage = leverage;
      maintenance_margin_bps = margin;
      max_open_interest = interest;
      enabled = true;
    } in
    let (c, e) = if_some _ _ (id, t) h in
    subst (Created m s) e (
      record {
        grows = omega arith;
        markets = λ j i. write_below s.next_market_id j m s.markets i;
        price = λ j i. refl;
        pool = λ j i. refl;
      },
      refl,
      refl,
      write_self s.next_market_id m s.markets,
    )

one_update :
    (o : Option AppStorage) (t : AppStorage)
    → (elim o as (λ x. Option AppStorage) [ none ↦ none | some v ↦ some v ]) ≡ some t
    → o ≡ some t
one_update none t h = h
one_update (some v) t h = h

-- What the first price leaves: nothing else changes.
abbrev pub Posted : ℕ → ℕ → AppStorage → Unit {0} × AppStorage → Type 0
Posted id price s (done, t) =
    Kept id s t
    × (t.next_market_id ≡ s.next_market_id)
    × (t.markets ≡ s.markets)
    × (t.virtual_pools ≡ s.virtual_pools)
    × (t.latest_price id ≡ price)

update_price-Posted :
    (now id price : ℕ) (s t : AppStorage)
    → update_price now id price s ≡ some t
    → Posted id price s (tt, t)
unfolding update_price
update_price-Posted now id price s t h =
    let (c, e) = if_some _ _ t h in
    subst (λ u. Posted id price s (tt, u)) e
      (
        record {
          grows = omega arith;
          markets = λ j i. refl;
          price = λ j i. write_below id j price s.latest_price i;
          pool = λ j i. refl;
        },
        refl,
        refl,
        refl,
        write_self id price s.latest_price,
      )

pub batch_update_prices-Posted :
    (admin now id price : ℕ) (s t : AppStorage) (u : Unit {0})
    → batch_update_prices admin now ((id, price) ∷ []) s ≡ some (u, t)
    → Posted id price s (u, t)
unfolding batch_update_prices update_each
batch_update_prices-Posted admin now id price s t u h =
    update_price-Posted now id price s t
      (one_update (update_price now id price s) t (returned _ u t (if_then _ _ (u, t) h)))

abbrev pub with_pool : ℕ → ℕ → ℕ → ℕ → AppStorage → ℕ → AppStorage
with_pool now id liquidity damping s quote = record s {
  virtual_pools =
      write id
        (record {
          base_reserve = liquidity;
          quote_reserve = quote;
          last_sync_timestamp = now;
          damping_factor = damping;
        })
        s.virtual_pools;
}

-- What the pool leaves.
abbrev pub Pooled : ℕ → ℕ → ℕ → AppStorage → Unit {0} × AppStorage → Type 0
Pooled id price liquidity s (done, t) =
    Kept id s t
    × (t.next_market_id ≡ s.next_market_id)
    × (t.markets ≡ s.markets)
    × (t.latest_price ≡ s.latest_price)
    × ((t.virtual_pools id).base_reserve ≡ liquidity)
    × ((t.virtual_pools id).quote_reserve ≡ liquidity * price / precision)

pub initialize_pool-Pooled :
    (admin now id price liquidity damping : ℕ) (s t : AppStorage) (u : Unit {0})
    → initialize_pool admin now id price liquidity damping s ≡ some (u, t)
    → Pooled id price liquidity s (u, t)
unfolding initialize_pool
initialize_pool-Pooled admin now id price liquidity damping s t u h =
    let pool : VirtualPool = record {
      base_reserve = liquidity;
      quote_reserve = liquidity * price / precision;
      last_sync_timestamp = now;
      damping_factor = damping;
    } in
    subst (λ v. Pooled id price liquidity s (u, v))
      (checked (ltb (liquidity * price) two_256) (liquidity * price / precision)
        (with_pool now id liquidity damping s) u t
        (if_then
          (s.roles Role.market_admin admin
            && ltb 0 price
            && ltb 0 liquidity
            && ltb 0 damping
            && leb damping 10000
            && not (is_empty (s.markets id).symbol)
            && (s.virtual_pools id).base_reserve == 0)
          _ (u, t) h))
      (
        record {
          grows = omega arith;
          markets = λ j i. refl;
          price = λ j i. refl;
          pool = λ j i. write_below id j pool s.virtual_pools i;
        },
        refl,
        refl,
        refl,
        ap (λ (p : VirtualPool). p.base_reserve) (write_self id pool s.virtual_pools),
        ap (λ (p : VirtualPool). p.quote_reserve) (write_self id pool s.virtual_pools),
      )
