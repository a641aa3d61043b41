-- ===== src/Deploy/Markets.antt =====
-- The market pipeline of scripts/deploy/09-add-market.js: for each definition a market, its first
-- price and its pool, each step by a transaction of its own. A failed step ends the definition, and a
-- failed read at its end ends the script before the manifest is written.
pub mod Rounds
pub mod Laws
pub mod Complete
use sidiora_perpetual_protoc.Base.{
  ℕ, Bool, true, false, Option, none, some, List, [], ◌∷◌, ◌++◌, if◌then◌else◌,
}
use sidiora_perpetual_protoc.Deploy.Facets.{
  AppStorage, Role, create_market, batch_update_prices, initialize_pool,
}
use sidiora_perpetual_protoc.Deploy.Sending.{Fate, send}

-- An entry of NEW_MARKETS, its texts read by `parseEther` and `Number`.
pub record Definition : Type 0 where
  pub name : List ℕ
  pub symbol : List ℕ
  pub price : ℕ
  pub max_leverage : ℕ
  pub maintenance_margin_bps : ℕ
  pub max_open_interest : ℕ
  pub virtual_liquidity : ℕ
  pub damping_factor : ℕ

-- What becomes of the three transactions, and whether the reads that verify the market answer.
pub record Network : Type 0 where
  pub create : Fate
  pub post : Fate
  pub pool : Fate
  pub verified : Bool

-- An element of `results`, with its definition.
pub data Outcome : Type 0 where
  success : ℕ → Definition → Outcome
  unposted : ℕ → Definition → Outcome
  unpooled : ℕ → Definition → Outcome
  failed : Definition → Outcome

module _ (admin : ℕ) (now : ℕ) (m : Definition) (net : Network) where
  -- After the third step; `none` is a throw out of the script.
  unfoldable pub after_pool : ℕ → Option (Unit {0}) × AppStorage → Option Outcome × AppStorage
  after_pool id (none, s) = (some (unpooled id m), s)
  after_pool id (some done, s) = (if net.verified then some (success id m) else none, s)

  unfoldable pub after_post : ℕ → Option (Unit {0}) × AppStorage → Option Outcome × AppStorage
  unfolding after_pool initialize_pool send
  after_post id (none, s) = (some (unposted id m), s)
  after_post id (some done, s) =
      after_pool id (
        send net.pool (initialize_pool admin now id m.price m.virtual_liquidity m.damping_factor) s)

  unfoldable pub after_create : Option ℕ × AppStorage → Option Outcome × AppStorage
  unfolding after_post batch_update_prices send
  after_create (none, s) = (some (failed m), s)
  after_create (some id, s) =
      after_post id (send net.post (batch_update_prices admin now ((id, m.price) ∷ [])) s)

  -- A round of the loop.
  unfoldable pub add_market : AppStorage → Option Outcome × AppStorage
  unfolding after_create create_market send
  add_market s = after_create (
      send net.create
        (create_market admin m.name m.symbol m.max_leverage m.maintenance_margin_bps
          m.max_open_interest)
        s)

-- The loop over the definitions, each with its time and its network; `none` is a throw.
abbrev pub push : Outcome → Option (List Outcome) × AppStorage → Option (List Outcome) × AppStorage
push r (none, s) = (none, s)
push r (some rs, s) = (some (r ∷ rs), s)

module _ (admin : ℕ) where
  unfoldable pub add_markets :
      List (Definition × ℕ × Network) → AppStorage → Option (List Outcome) × AppStorage
  unfolding add_market
  add_markets [] s = (some [], s)
  add_markets ((m, now, net) ∷ rest) s =
      let (r, s') = add_market admin now m net s in
      elim r [ none ↦ (none, s') | some x ↦ push x (add_markets rest s') ]

  -- The script; it checks both roles of its signer first.
  unfoldable pub add_new_markets :
      List (Definition × ℕ × Network) → AppStorage → Option (List Outcome) × AppStorage
  unfolding add_markets
  add_new_markets ms s =
      if s.roles Role.market_admin admin
      then (if s.roles Role.oracle_poster admin then add_markets ms s else (none, s))
      else (none, s)

-- The entries of `deployment.markets` that the script adds.
unfoldable pub recorded : List Outcome → List (ℕ × Definition)
recorded [] = []
recorded (success id m ∷ rs) = (id, m) ∷ recorded rs
recorded (unposted id m ∷ rs) = recorded rs
recorded (unpooled id m ∷ rs) = recorded rs
recorded (failed m ∷ rs) = recorded rs
