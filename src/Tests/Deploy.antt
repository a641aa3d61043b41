-- ===== src/Tests/Deploy.antt =====
-- The set-up scripts at small inputs.
use sidiora_perpetual_protoc.Base.{
  ℕ, ◌*◌, ◌<◌, ◌≡◌, ◌==◌, refl, true, some, List, [], ◌∷◌, if◌then◌else◌, arith,
}
use sidiora_perpetual_protoc.Base.Text.{codes}
use sidiora_perpetual_protoc.Deploy.Facets.{AppStorage, Market, precision}
use sidiora_perpetual_protoc.Deploy.Sending.{unconfirmed}
use sidiora_perpetual_protoc.Deploy.Markets.{
  Definition, Network, Outcome, add_new_markets, recorded,
}
use sidiora_perpetual_protoc.Deploy.Markets.Laws.{AllReady, recorded_markets_ready}
use sidiora_perpetual_protoc.Deploy.Markets.Complete.{
  Fresh, Valid, successes, at_network, reached, add_new_markets_succeeds,
}
use sidiora_perpetual_protoc.Deploy.Pools
use sidiora_perpetual_protoc.Deploy.Pools.{Progress, init_pools}
use sidiora_perpetual_protoc.Deploy.Pools.Rounds
use sidiora_perpetual_protoc.Deploy.Pools.Laws.{Opened, init_pools_again}

abbrev bitcoin : Market
bitcoin = record {
  name = codes "Bitcoin";
  symbol = codes "BTC";
  max_leverage = 1000 * precision;
  maintenance_margin_bps = 50;
  max_open_interest = 10000000 * precision;
  enabled = true;
}

-- Market 0 has a price and no pool; account 9 has both roles.
abbrev storage : AppStorage
storage = record {
  roles = λ r a. a == 9;
  next_market_id = 1;
  markets = λ id. if id == 0 then bitcoin else record bitcoin { name = []; symbol = [] };
  active_market_ids = 0 ∷ [];
  latest_price = λ id. if id == 0 then 60000 * precision else 0;
  latest_price_timestamp = λ id. 0;
  max_price_deviation_bps = 3000;
  virtual_pools = λ id. record {
    base_reserve = 0;
    quote_reserve = 0;
    last_sync_timestamp = 0;
    damping_factor = 0;
  };
}

abbrev tesla : Definition
tesla = record {
  name = codes "Tesla";
  symbol = codes "TSLA";
  price = 426 * precision;
  max_leverage = 500 * precision;
  maintenance_margin_bps = 100;
  max_open_interest = 5000000 * precision;
  virtual_liquidity = 1000000 * precision;
  damping_factor = 5000;
}

-- The pool's receipt of the first market never arrives.
abbrev entries : List (Definition × ℕ × Network)
entries = (tesla, 7, record reached { pool = unconfirmed }) ∷ (tesla, 8, reached) ∷ []

recorded_markets_ready_example :
    let x = add_new_markets 9 entries storage in
    ((id : ℕ)
      → id < 1
      → (x.1.markets id ≡ storage.markets id)
        × (x.1.latest_price id ≡ storage.latest_price id)
        × (x.1.virtual_pools id ≡ storage.virtual_pools id))
    × ((rs : List Outcome) → x.0 ≡ some rs → AllReady 1 x.1 (recorded rs))
recorded_markets_ready_example = recorded_markets_ready 9 entries storage

tesla-Valid : Valid tesla
tesla-Valid = record {
  named = refl;
  symboled = refl;
  leveraged = refl;
  bounded = refl;
  margined = refl;
  below = refl;
  interest = refl;
  priced = refl;
  liquid = refl;
  damped = refl;
  converging = refl;
  product = refl;
}

storage-Fresh : Fresh storage
storage-Fresh id h = (ground (arith, h), refl)

add_new_markets_succeeds_example :
    (add_new_markets 9 (at_network ((tesla, 7) ∷ (tesla, 8) ∷ [])) storage).0
    ≡ some (successes 1 ((tesla, 7) ∷ (tesla, 8) ∷ []))
add_new_markets_succeeds_example =
    add_new_markets_succeeds 9 ((tesla, 7) ∷ (tesla, 8) ∷ []) storage refl refl storage-Fresh
      (tesla-Valid, (tesla-Valid, tt))

abbrev ids : List ℕ
ids = 0 ∷ 1 ∷ []

init_pools_again_example :
    (p q : Progress) × (init_pools 9 50 (Pools.Rounds.at_network ids) storage ≡ some p)
    × Opened 9 50 ids storage p.storage
    × (init_pools 9 60 (Pools.Rounds.at_network ids) p.storage ≡ some q)
    × (q.storage ≡ p.storage)
    × (q.initialized ≡ 0)
init_pools_again_example = init_pools_again 9 50 60 ids storage refl
