-- ===== src/Deploy/Markets/Complete.antt =====
-- A run of scripts/deploy/09-add-market.js over a network that delivers.
use sidiora_perpetual_protoc.Base.{
  ℕ, ◌+◌, ◌*◌, ◌/◌, ◌++◌, ◌≤◌, ◌<◌, ◌≡◌, refl, ap, ◌∙◌, ltb, leb, true, false, Option, none, some,
  List, [], ◌∷◌, All, map, arith,
}
use sidiora_perpetual_protoc.Base.Int.{two_256}
use sidiora_perpetual_protoc.Engine.Cycle.{is_empty}
use sidiora_perpetual_protoc.Deploy.Facets.{
  AppStorage, VirtualPool, Role, write, precision, create_market, batch_update_prices, update_each,
  update_price, within_deviation, initialize_pool,
}
use sidiora_perpetual_protoc.Deploy.Facets.Laws.{write_self, with_pool}
use sidiora_perpetual_protoc.Deploy.Sending.{delivered, seen, send}
use sidiora_perpetual_protoc.Deploy.Markets.{
  Definition, Network, Outcome, success, after_pool, after_post, after_create, add_market, push,
  add_markets, add_new_markets,
}
use sidiora_perpetual_protoc.Deploy.Markets.Rounds.{listed}

-- Every transaction is delivered and the reads answer.
abbrev pub reached : Network
reached = record { create = delivered; post = delivered; pool = delivered; verified = true }

-- What the facets ask of a definition.
pub record Valid (m : Definition) : Type 0 where
  pub named : is_empty m.name ≡ false
  pub symboled : is_empty m.symbol ≡ false
  pub leveraged : ltb 0 m.max_leverage ≡ true
  pub bounded : leb m.max_leverage (1000 * precision) ≡ true
  pub margined : ltb 0 m.maintenance_margin_bps ≡ true
  pub below : ltb m.maintenance_margin_bps 10000 ≡ true
  pub interest : ltb 0 m.max_open_interest ≡ true
  pub priced : ltb 0 m.price ≡ true
  pub liquid : ltb 0 m.virtual_liquidity ≡ true
  pub damped : ltb 0 m.damping_factor ≡ true
  pub converging : leb m.damping_factor 10000 ≡ true
  pub product : ltb (m.virtual_liquidity * m.price) two_256 ≡ true

-- The ids that are not handed out yet have neither a price nor a pool.
abbrev pub Fresh : AppStorage → Type 0
Fresh s =
    (id : ℕ)
    → s.next_market_id ≤ id
    → (s.latest_price id ≡ 0) × ((s.virtual_pools id).base_reserve ≡ 0)

abbrev pub successes : ℕ → List (Definition × ℕ) → List Outcome
successes id [] = []
successes id ((m, now) ∷ ms) = success id m ∷ successes (id + 1) ms

abbrev pub at_network : List (Definition × ℕ) → List (Definition × ℕ × Network)
at_network ms = map (λ e. (e.0, e.1, reached)) ms

write_above {ℓ} : {V : Type ℓ} (k j : ℕ) (v : V) (m : ℕ → V) → k < j → write k v m j ≡ m j
write_above k j v m h = ground (arith, h)

pushed :
    (r : Outcome) (y : Option (List Outcome) × AppStorage) (rs : List Outcome)
    → y.0 ≡ some rs
    → (push r y).0 ≡ some (r ∷ rs)
pushed r (none, s) rs h = cc
pushed r (some ys, s) rs h = cc

module _ (admin : ℕ) where
  abbrev created : Definition → AppStorage → AppStorage
  created m s = record s {
    next_market_id = s.next_market_id + 1;
    markets = write s.next_market_id (listed m) s.markets;
    active_market_ids = s.active_market_ids ++ s.next_market_id ∷ [];
  }

  abbrev posted : ℕ → ℕ → ℕ → AppStorage → AppStorage
  posted now id price s = record s {
    latest_price = write id price s.latest_price;
    latest_price_timestamp = write id now s.latest_price_timestamp;
  }

  abbrev placed : ℕ → Definition → AppStorage → AppStorage
  placed now m s =
      with_pool now s.next_market_id m.virtual_liquidity m.damping_factor
        (posted now s.next_market_id m.price (created m s))
        (m.virtual_liquidity * m.price / precision)

  create_succeeds :
      (m : Definition) (s : AppStorage)
      → Valid m
      → s.roles Role.market_admin admin ≡ true
      → create_market admin m.name m.symbol m.max_leverage m.maintenance_margin_bps
          m.max_open_interest s
        ≡ some (s.next_market_id, created m s)
  unfolding create_market
  create_succeeds m s v r =
      rw (r, v.named, v.symboled, v.leveraged, v.bounded, v.margined, v.below, v.interest) refl

  post_succeeds :
      (now : ℕ) (m : Definition) (s : AppStorage)
      → Valid m
      → Fresh s
      → s.roles Role.oracle_poster admin ≡ true
      → batch_update_prices admin now ((s.next_market_id, m.price) ∷ []) (created m s)
        ≡ some (tt, posted now s.next_market_id m.price (created m s))
  unfolding batch_update_prices update_each update_price within_deviation
  post_succeeds now m s v f r =
      rw
        (
          r,
          v.priced,
          write_self s.next_market_id (listed m) s.markets,
          v.symboled,
          (f s.next_market_id (omega arith)).0,
        )
        refl

  pool_succeeds :
      (now : ℕ) (m : Definition) (s : AppStorage)
      → Valid m
      → Fresh s
      → s.roles Role.market_admin admin ≡ true
      → initialize_pool admin now s.next_market_id m.price m.virtual_liquidity m.damping_factor
          (posted now s.next_market_id m.price (created m s))
        ≡ some (tt, placed now m s)
  unfolding initialize_pool
  pool_succeeds now m s v f r =
      rw
        (
          r,
          v.priced,
          v.liquid,
          v.damped,
          v.converging,
          write_self s.next_market_id (listed m) s.markets,
          v.symboled,
          (f s.next_market_id (omega arith)).1,
          v.product,
        )
        refl

  round_succeeds :
      (now : ℕ) (m : Definition) (s : AppStorage)
      → Valid m
      → Fresh s
      → s.roles Role.market_admin admin ≡ true
      → s.roles Role.oracle_poster admin ≡ true
      → add_market admin now m reached s ≡ (some (success s.next_market_id m), placed now m s)
  unfolding add_market after_create after_post after_pool send
  round_succeeds now m s v f a o =
      ap (λ c. after_create admin now m reached (seen s c)) (create_succeeds m s v a)
      ∙ ap (λ c. after_post admin now m reached s.next_market_id (seen (created m s) c))
          (post_succeeds now m s v f o)
      ∙ ap
          (λ c.
            after_pool admin now m reached s.next_market_id
              (seen (posted now s.next_market_id m.price (created m s)) c))
          (pool_succeeds now m s v f a)

  placed-Fresh : (now : ℕ) (m : Definition) (s : AppStorage) → Fresh s → Fresh (placed now m s)
  placed-Fresh now m s f id h = (
    write_above s.next_market_id id m.price s.latest_price (omega arith) ∙ (f id (omega arith)).0,
    ap (λ (p : VirtualPool). p.base_reserve)
          (write_above s.next_market_id id _ s.virtual_pools (omega arith))
        ∙ (f id (omega arith)).1,
  )

  loop_succeeds :
      (ms : List (Definition × ℕ)) (s : AppStorage)
      → s.roles Role.market_admin admin ≡ true
      → s.roles Role.oracle_poster admin ≡ true
      → Fresh s
      → All (λ e. Valid e.0) ms
      → (add_markets admin (at_network ms) s).0 ≡ some (successes s.next_market_id ms)
  unfolding add_markets
  loop_succeeds [] s a o f v = refl
  loop_succeeds ((m, now) ∷ ms) s a o f (v, vs) =
      ap
        (λ (x : Option Outcome × AppStorage).
          (elim x.0 as (λ y. Option (List Outcome) × AppStorage) [
            | none ↦ (none, x.1)
            | some r ↦ push r (add_markets admin (at_network ms) x.1)
          ]).0)
        (round_succeeds now m s v f a o)
      ∙ pushed (success s.next_market_id m) (add_markets admin (at_network ms) (placed now m s))
          (successes (s.next_market_id + 1) ms)
          (loop_succeeds ms (placed now m s) a o (placed-Fresh now m s f) vs)

  -- Over a network that delivers, with both roles, with definitions that meet the facets'
  -- conditions and where no id still to be handed out has a price or a pool, every definition
  -- of the market script succeeds, and the ids follow one another.
  pub add_new_markets_succeeds :
      (ms : List (Definition × ℕ)) (s : AppStorage)
      → s.roles Role.market_admin admin ≡ true
      → s.roles Role.oracle_poster admin ≡ true
      → Fresh s
      → All (λ e. Valid e.0) ms
      → (add_new_markets admin (at_network ms) s).0 ≡ some (successes s.next_market_id ms)
  unfolding add_new_markets
  add_new_markets_succeeds ms s a o f v = rw (a, o) (loop_succeeds ms s a o f v)
