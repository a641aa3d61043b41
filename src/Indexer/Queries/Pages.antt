-- ===== src/Indexer/Queries/Pages.antt =====
-- The pages that the lists of .indexer/src/graphql/resolvers.js answer with.
use sidiora_perpetual_protoc.Base.{
  ℕ, zero, suc, ◌-◌, ◌≡◌, refl, sym, ap, ◌∙◌, Bool, true, not, Option, List, [], ◌∷◌, min, filter,
  take, drop, length, All, All-filter, arith, Bool-cases, inl, inr,
}
use sidiora_perpetual_protoc.Indexer.Rows.{Db, TradeType}
use sidiora_perpetual_protoc.Indexer.Resolvers.{paginate}
use sidiora_perpetual_protoc.Indexer.Resolvers.Pages.{length-take, length-drop, All-take, All-drop}
use sidiora_perpetual_protoc.Indexer.Queries.{count, Falling, Database, page, trades, trade_matches}

module _ {A : Type 0} where
  count_all : (rows : List A) → count (λ x. true) rows ≡ length rows
  count_all [] = refl
  count_all (x ∷ rows) = ap suc (count_all rows)

  count-not :
      (test : A → Bool) (rows : List A)
      → All (λ x. test x ≡ true) rows
      → count (λ x. not (test x)) rows ≡ 0
  count-not test [] h = refl
  count-not test (x ∷ rows) (e, h) = rw e (count-not test rows h)

  All-count :
      (test : A → Bool) (rows : List A)
      → count (λ x. not (test x)) rows ≡ 0
      → All (λ x. test x ≡ true) rows
  All-count test [] h = tt
  All-count test (x ∷ rows) h = elim (Bool-cases (test x)) [
    | inl e ↦ (e, All-count test rows (rw e at h))
    | inr e ↦ absurd (grind (arith, e, h))
  ]

  take-Falling :
      (major minor : A → ℕ) (n : ℕ) (xs : List A)
      → Falling major minor xs
      → Falling major minor (take n xs)
  take-Falling major minor zero xs h = tt
  take-Falling major minor (suc n) [] h = tt
  take-Falling major minor (suc n) (x ∷ xs) (a, h) =
      (All-take _ n xs a, take-Falling major minor n xs h)

  drop-Falling :
      (major minor : A → ℕ) (n : ℕ) (xs : List A)
      → Falling major minor xs
      → Falling major minor (drop n xs)
  drop-Falling major minor zero xs h = h
  drop-Falling major minor (suc n) [] h = tt
  drop-Falling major minor (suc n) (x ∷ xs) (a, h) = drop-Falling major minor n xs h

  -- What a page of the rows that pass a test is.
  abbrev pub IsPage :
      (A → Bool) → (A → ℕ) → (A → ℕ) → Option ℕ → Option ℕ → List A → List A → Type 0
  IsPage test major minor limit offset rows xs =
      All (λ x. test x ≡ true) xs
      × Falling major minor xs
      × (length xs ≡ min (paginate limit offset).0 (count test rows - (paginate limit offset).1))

  page-IsPage :
      (d : Database) (test : A → Bool) (major minor : A → ℕ) (limit offset : Option ℕ)
      (rows : List A)
      → IsPage test major minor limit offset rows (page d test major minor limit offset rows)
  unfolding page
  page-IsPage d test major minor limit offset rows =
      let l = (paginate limit offset).0 in
      let o = (paginate limit offset).1 in
      let kept = filter test rows in
      let ordered = d.order_by major minor kept in
      let passes : All (λ x. test x ≡ true) ordered = All-count test ordered (
        d.same_rows major minor kept (λ x. not (test x))
        ∙ count-not test kept (All-filter test rows)) in
      let as_many : length ordered ≡ length kept =
        sym (count_all ordered) ∙ d.same_rows major minor kept (λ x. true) ∙ count_all kept in
      (
        All-take (λ x. test x ≡ true) l (drop o ordered)
            (All-drop (λ x. test x ≡ true) o ordered passes),
        take-Falling major minor l (drop o ordered)
            (drop-Falling major minor o ordered (d.falls major minor kept)),
        length-take l (drop o ordered)
            ∙ ap (min l) (length-drop o ordered ∙ ap (λ n. n - o) as_many),
      )

-- On any database that orders rows as it is told and returns the rows it is given, a page of
-- the trades query holds rows that match the arguments, by falling time and then by falling log
-- index, and as many as the limit and the matching rows after the offset allow.
trades-IsPage :
    (d : Database) (user market position : Option ℕ) (trade_type : Option TradeType)
    (limit offset : Option ℕ) (db : Db)
    → IsPage
        (trade_matches user market position trade_type)
        (λ t. t.timestamp)
        (λ t. t.log_index)
        limit
        offset
        db.trades
        (trades d user market position trade_type limit offset db)
unfolding trades
trades-IsPage d user market position trade_type limit offset db =
    page-IsPage d (trade_matches user market position trade_type) (λ t. t.timestamp)
      (λ t. t.log_index) limit offset db.trades
