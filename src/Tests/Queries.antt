-- ===== src/Tests/Queries.antt =====
-- The lists and statistics of the indexer at small inputs, on a database that orders by insertion.
use sidiora_perpetual_protoc.Base.{
  ℕ, ◌+◌, ◌≤◌, ◌<◌, ◌≡◌, ◌⊎◌, ◌∙◌, inl, inr, refl, Bool, true, false, some, List, [], ◌∷◌, ◌==◌,
  ◌&&◌, ◌||◌, ltb, leb, length, if◌then◌else◌, All, arith, Bool-cases,
}
use sidiora_perpetual_protoc.Base.Sort.{sort_by}
use sidiora_perpetual_protoc.Indexer.Rows.{Db, TradeRow, TradeType}
use sidiora_perpetual_protoc.Base.Int.{pos}
use sidiora_perpetual_protoc.Indexer.Queries.{count, Falling, Database}
use sidiora_perpetual_protoc.Indexer.Queries.Stats.{user_stats, global_stats, distinct_users}
use sidiora_perpetual_protoc.Indexer.Queries.Sums.{sum_over, stats_add_up}
use sidiora_perpetual_protoc.Tests.Indexer.{db}

module _ {A : Type 0} (major minor : A → ℕ) where
  abbrev Below : A → A → Type 0
  Below x y = (major y < major x) ⊎ ((major y ≡ major x) × (minor y ≤ minor x))

  abbrev above : A → A → Bool
  above x y = ltb (major y) (major x) || ((major y == major x) && leb (minor y) (minor x))

  abbrev insert_row : A → List A → List A
  insert_row x [] = x ∷ []
  insert_row x (y ∷ ys) = let rest = insert_row x ys in if above x y then x ∷ y ∷ ys else y ∷ rest

  abbrev sort_rows : List A → List A
  sort_rows [] = []
  sort_rows (x ∷ xs) = insert_row x (sort_rows xs)

  count-insert_row :
      (test : A → Bool) (x : A) (ys : List A) → count test (insert_row x ys) ≡ count test (x ∷ ys)
  count-insert_row test x [] = refl
  count-insert_row test x (y ∷ ys) = grind (arith, count-insert_row test x ys)

  count-sort_rows : (test : A → Bool) (xs : List A) → count test (sort_rows xs) ≡ count test xs
  count-sort_rows test [] = refl
  count-sort_rows test (x ∷ xs) =
      count-insert_row test x (sort_rows xs) ∙ grind (arith, count-sort_rows test xs)

  Below-trans : (x y z : A) → Below x y → Below y z → Below x z
  Below-trans x y z (inl a) (inl b) = inl (omega (arith, a, b))
  Below-trans x y z (inl a) (inr (b, c)) = inl (omega (arith, a, b))
  Below-trans x y z (inr (a, d)) (inl b) = inl (omega (arith, a, b))
  Below-trans x y z (inr (a, d)) (inr (b, c)) = inr (omega (arith, a, b), omega (arith, c, d))

  All-Below : (x y : A) (zs : List A) → Below x y → All (Below y) zs → All (Below x) zs
  All-Below x y [] h a = tt
  All-Below x y (z ∷ zs) h (b, a) = (Below-trans x y z h b, All-Below x y zs h a)

  All-insert_row :
      (w x : A) (ys : List A) → Below w x → All (Below w) ys → All (Below w) (insert_row x ys)
  All-insert_row w x [] h a = (h, tt)
  All-insert_row w x (y ∷ ys) h (b, a) = elim (Bool-cases (above x y)) [
    | inl e ↦ rw e (h, (b, a))
    | inr e ↦ rw e (b, All-insert_row w x ys h a)
  ]

  above-Below : (x y : A) → above x y ≡ true → Below x y
  above-Below x y h = grind arith

  not_above-Below : (x y : A) → above x y ≡ false → Below y x
  not_above-Below x y h = grind arith

  insert_row-Falling :
      (x : A) (ys : List A) → Falling major minor ys → Falling major minor (insert_row x ys)
  insert_row-Falling x [] h = (tt, tt)
  insert_row-Falling x (y ∷ ys) (a, h) = elim (Bool-cases (above x y)) [
    | inl e ↦ rw e ((above-Below x y e, All-Below x y ys (above-Below x y e) a), (a, h))
    | inr e ↦ rw e (All-insert_row y x ys (not_above-Below x y e) a, insert_row-Falling x ys h)
  ]

  sort_rows-Falling : (xs : List A) → Falling major minor (sort_rows xs)
  sort_rows-Falling [] = tt
  sort_rows-Falling (x ∷ xs) = insert_row-Falling x (sort_rows xs) (sort_rows-Falling xs)

abbrev database : Database
database = record {
  order_by = λ major minor rows. sort_rows major minor rows;
  order_asc = λ key rows. sort_by key rows;
  same_rows = λ major minor rows test. count-sort_rows major minor test rows;
  falls = λ major minor rows. sort_rows-Falling major minor rows;
}

abbrev trade_at : ℕ → ℕ → ℕ → TradeRow
trade_at user time log_index = record {
  position_id = 7;
  user = user;
  market_id = 1;
  trade_type = TradeType.open_trade;
  is_long = some true;
  size_usd = 1000;
  price = 94;
  realized_pnl = pos 0;
  block_number = 20;
  tx_hash = 900;
  log_index = log_index;
  timestamp = time;
}

abbrev traded : Db
traded = record db {
  trades = trade_at 17 50 1 ∷ trade_at 18 60 1 ∷ trade_at 17 50 4 ∷ trade_at 17 70 2 ∷ [];
}

stats_add_up_example :
    let users = distinct_users db.positions in
    let s = user_stats 17 db in
    (s.total_positions ≡ s.open_positions + s.closed_positions + s.liquidated_positions)
    × (sum_over (λ u. (user_stats u db).total_positions) users ≡ (global_stats db).total_positions)
    × (sum_over (λ u. (user_stats u db).open_positions) users ≡ (global_stats db).open_positions)
    × (length users ≡ (global_stats db).total_users)
stats_add_up_example = stats_add_up db 17
