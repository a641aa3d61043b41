-- ===== src/Indexer/Queries/Sums.antt =====
-- How the statistics of .indexer/src/graphql/resolvers.js fit together.
use sidiora_perpetual_protoc.Base.{
  ℕ, suc, ◌+◌, ◌≡◌, refl, sym, ap, ◌∙◌, Bool, true, false, List, [], ◌∷◌, ◌==◌, length, filter,
  includes, if◌then◌else◌, arith, Bool-cases, inl, inr,
}
use sidiora_perpetual_protoc.Base.Dict.{Dict}
use sidiora_perpetual_protoc.Indexer.Rows.{Db, PositionRow, PositionStatus}
use sidiora_perpetual_protoc.Indexer.Resolvers.{same_position_status}
use sidiora_perpetual_protoc.Indexer.Queries.{count}
use sidiora_perpetual_protoc.Indexer.Queries.Stats.{
  with_status, user_stats, distinct_users, global_stats,
}

abbrev pub sum_over : (ℕ → ℕ) → List ℕ → ℕ
sum_over f [] = 0
sum_over f (u ∷ us) = f u + sum_over f us

-- How often a number stands in a list.
abbrev occurs : ℕ → List ℕ → ℕ
occurs a [] = 0
occurs a (u ∷ us) = let rest = occurs a us in if a == u then suc rest else rest

-- How many rows of a user pass a test.
abbrev tally : (ℕ × PositionRow → Bool) → Dict PositionRow → ℕ → ℕ
tally test rows u = count test (filter (λ r. r.1.user == u) rows)

not_included : (a : ℕ) (us : List ℕ) → includes a us ≡ false → occurs a us ≡ 0
not_included a [] h = refl
not_included a (u ∷ us) h = ground (arith, not_included a us)

included_once :
    (a : ℕ) (rows : Dict PositionRow)
    → includes a (distinct_users rows) ≡ true
    → occurs a (distinct_users rows) ≡ 1
unfolding distinct_users
included_once a [] h = cc
included_once a ((id, p) ∷ rows) h = elim (Bool-cases (includes p.user (distinct_users rows))) [
  | inl e ↦ rw e (included_once a rows (rw e at h))
  | inr e ↦
      rw e (
        grind (arith, rw e at h, not_included p.user (distinct_users rows) e, included_once a rows))
]

not_counted :
    (test : ℕ × PositionRow → Bool) (a : ℕ) (rows : Dict PositionRow)
    → includes a (distinct_users rows) ≡ false
    → tally test rows a ≡ 0
unfolding distinct_users
not_counted test a [] h = refl
not_counted test a ((id, p) ∷ rows) h = elim (Bool-cases (includes p.user (distinct_users rows))) [
  | inl e ↦ grind (arith, rw e at h, e, not_counted test a rows)
  | inr e ↦ grind (arith, rw e at h, e, not_counted test a rows)
]

sum_step :
    (test : ℕ × PositionRow → Bool) (r : ℕ × PositionRow) (rows : Dict PositionRow) (us : List ℕ)
    → sum_over (tally test (r ∷ rows)) us
      ≡ (if test r then occurs r.1.user us else 0) + sum_over (tally test rows) us
sum_step test r rows [] = grind arith
sum_step test r rows (u ∷ us) = grind (arith, sum_step test r rows us)

sum-tally :
    (test : ℕ × PositionRow → Bool) (rows : Dict PositionRow)
    → sum_over (tally test rows) (distinct_users rows) ≡ count test rows
unfolding distinct_users
sum-tally test [] = refl
sum-tally test ((id, p) ∷ rows) = elim (Bool-cases (includes p.user (distinct_users rows))) [
  | inl e ↦ rw e (
      sum_step test (id, p) rows (distinct_users rows)
      ∙ grind (arith, included_once p.user rows e, sum-tally test rows))
  | inr e ↦ rw e (
      sum_step test (id, p) rows (p.user ∷ distinct_users rows)
      ∙ grind (
        arith,
        not_included p.user (distinct_users rows) e,
        not_counted test p.user rows e,
        sum-tally test rows,
      ))
]

abbrev flag : Bool → ℕ
flag b = if b then 1 else 0

one_status :
    (s : PositionStatus)
    → flag (same_position_status s PositionStatus.opened)
        + flag (same_position_status s PositionStatus.closed)
        + flag (same_position_status s PositionStatus.liquidated)
      ≡ 1
one_status PositionStatus.opened = refl
one_status PositionStatus.closed = refl
one_status PositionStatus.liquidated = refl

statuses_add_up :
    (rows : Dict PositionRow)
    → length rows
      ≡ count (with_status PositionStatus.opened) rows
        + count (with_status PositionStatus.closed) rows
        + count (with_status PositionStatus.liquidated) rows
statuses_add_up [] = refl
statuses_add_up ((id, p) ∷ rows) = grind (arith, statuses_add_up rows, one_status p.status)

count_all {ℓ} : {A : Type ℓ} (rows : List A) → count (λ x. true) rows ≡ length rows
count_all [] = refl
count_all (x ∷ rows) = ap suc (count_all rows)

sum_over-eq : (f g : ℕ → ℕ) (us : List ℕ) → ((u : ℕ) → f u ≡ g u) → sum_over f us ≡ sum_over g us
sum_over-eq f g [] h = refl
sum_over-eq f g (u ∷ us) h = omega (arith, h u, sum_over-eq f g us h)

-- A user's positions are the open, the closed and the liquidated ones together, and over the
-- distinct users of the positions, as many as the global statistics count, the users' positions
-- and open positions add up to the global ones.
pub stats_add_up :
    (db : Db) (user : ℕ)
    → let users = distinct_users db.positions in
      let s = user_stats user db in
      (s.total_positions ≡ s.open_positions + s.closed_positions + s.liquidated_positions)
      × (sum_over (λ u. (user_stats u db).total_positions) users
          ≡ (global_stats db).total_positions)
      × (sum_over (λ u. (user_stats u db).open_positions) users ≡ (global_stats db).open_positions)
      × (length users ≡ (global_stats db).total_users)
unfolding user_stats global_stats
stats_add_up db user =
    let users = distinct_users db.positions in
    (
      statuses_add_up (filter (λ r. r.1.user == user) db.positions),
      sum_over-eq _ (tally (λ r. true) db.positions) users
            (λ u. sym (count_all (filter (λ r. r.1.user == u) db.positions)))
          ∙ sum-tally (λ r. true) db.positions
          ∙ count_all db.positions,
      sum-tally (with_status PositionStatus.opened) db.positions,
      refl,
    )
