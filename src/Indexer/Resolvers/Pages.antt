-- ===== src/Indexer/Resolvers/Pages.antt =====
-- The pages that .indexer/src/graphql/resolvers.js answers with.
use sidiora_perpetual_protoc.Base.{
  ℕ, zero, suc, ◌-◌, ◌≤◌, ◌≡◌, refl, ap, ◌∙◌, true, List, [], ◌∷◌, leb, min, filter, take, drop,
  length, All, All-filter, arith, Bool-cases, inl, inr,
}
use sidiora_perpetual_protoc.Base.Dict.{Dict}
use sidiora_perpetual_protoc.Indexer.Rows.{Db, PositionRow, PositionStatus}
use sidiora_perpetual_protoc.Indexer.Resolvers.{
  Arguments, paginate, insert_desc, order_desc, select, position_matches, positions,
}

module _ {ℓ} {A : Type ℓ} where
  pub length-take : (n : ℕ) (xs : List A) → length (take n xs) ≡ min n (length xs)
  length-take zero xs = omega arith
  length-take (suc n) [] = omega arith
  length-take (suc n) (x ∷ xs) = omega (arith, length-take n xs)

  pub length-drop : (n : ℕ) (xs : List A) → length (drop n xs) ≡ length xs - n
  length-drop zero xs = omega arith
  length-drop (suc n) [] = omega arith
  length-drop (suc n) (x ∷ xs) = omega (arith, length-drop n xs)

  pub All-take {κ} : (P : A → Type κ) (n : ℕ) (xs : List A) → All P xs → All P (take n xs)
  All-take P zero xs h = tt
  All-take P (suc n) [] h = tt
  All-take P (suc n) (x ∷ xs) (p, h) = (p, All-take P n xs h)

  pub All-drop {κ} : (P : A → Type κ) (n : ℕ) (xs : List A) → All P xs → All P (drop n xs)
  All-drop P zero xs h = h
  All-drop P (suc n) [] h = tt
  All-drop P (suc n) (x ∷ xs) (p, h) = All-drop P n xs h

module _ {ℓ} {V : Type ℓ} where
  length-insert_desc : (r : ℕ × V) (m : Dict V) → length (insert_desc r m) ≡ suc (length m)
  unfolding insert_desc
  length-insert_desc (k, v) [] = refl
  length-insert_desc (k, v) ((j, w) ∷ m) = ground (arith, length-insert_desc (k, v) m)

  length-order_desc : (m : Dict V) → length (order_desc m) ≡ length m
  unfolding order_desc
  length-order_desc [] = refl
  length-order_desc (r ∷ m) = length-insert_desc r (order_desc m) ∙ ap suc (length-order_desc m)

  All-insert_desc {κ} :
      (P : ℕ × V → Type κ) (r : ℕ × V) (m : Dict V) → P r → All P m → All P (insert_desc r m)
  unfolding insert_desc
  All-insert_desc P (k, v) [] p h = (p, tt)
  All-insert_desc P (k, v) ((j, w) ∷ m) p (q, h) = elim (Bool-cases (leb j k)) [
    | inl e ↦ rw e (p, (q, h))
    | inr e ↦ rw e (q, All-insert_desc P (k, v) m p h)
  ]

  All-order_desc {κ} : (P : ℕ × V → Type κ) (m : Dict V) → All P m → All P (order_desc m)
  unfolding order_desc
  All-order_desc P [] h = tt
  All-order_desc P (r ∷ m) (p, h) = All-insert_desc P r (order_desc m) p (All-order_desc P m h)

  -- No id of the list is above that of a row before it.
  abbrev pub Descending : Dict V → Type ℓ
  Descending [] = Unit
  Descending ((k, v) ∷ m) = All (λ r. r.0 ≤ k) m × Descending m

  weaken : (j k : ℕ) (m : Dict V) → j ≤ k → All (λ r. r.0 ≤ j) m → All (λ r. r.0 ≤ k) m
  weaken j k [] le h = tt
  weaken j k ((i, w) ∷ m) le (p, h) = (omega arith, weaken j k m le h)

  insert_desc-Descending : (r : ℕ × V) (m : Dict V) → Descending m → Descending (insert_desc r m)
  unfolding insert_desc
  insert_desc-Descending (k, v) [] h = (tt, tt)
  insert_desc-Descending (k, v) ((j, w) ∷ m) (a, h) = elim (Bool-cases (leb j k)) [
    | inl e ↦ let le : j ≤ k = ground arith in rw e ((le, weaken j k m le a), (a, h))
    | inr e ↦ rw e (
      All-insert_desc (λ r. r.0 ≤ j) (k, v) m (ground arith) a,
      insert_desc-Descending (k, v) m h,
    )
  ]

  order_desc-Descending : (m : Dict V) → Descending (order_desc m)
  unfolding order_desc
  order_desc-Descending [] = tt
  order_desc-Descending (r ∷ m) = insert_desc-Descending r (order_desc m) (order_desc-Descending m)

  take-Descending : (n : ℕ) (m : Dict V) → Descending m → Descending (take n m)
  take-Descending zero m h = tt
  take-Descending (suc n) [] h = tt
  take-Descending (suc n) (r ∷ m) (a, h) = (All-take (λ q. q.0 ≤ r.0) n m a, take-Descending n m h)

  drop-Descending : (n : ℕ) (m : Dict V) → Descending m → Descending (drop n m)
  drop-Descending zero m h = h
  drop-Descending (suc n) [] h = tt
  drop-Descending (suc n) (r ∷ m) (a, h) = drop-Descending n m h

abbrev pub Matching : Arguments PositionStatus → ℕ × PositionRow → Type 0
Matching a r = position_matches a r ≡ true

-- A page of the positions query holds rows that match the arguments, by falling id, and as many
-- as the limit, which is never above 500, and the rows after the offset allow.
pub positions_page :
    (a : Arguments PositionStatus) (db : Db)
    → let page = positions a db in
      let (limit, offset) = paginate a.limit a.offset in
      All (Matching a) page
      × Descending page
      × (length page ≡ min limit (length (filter (position_matches a) db.positions) - offset))
      × (limit ≤ 500)
unfolding positions select paginate
positions_page a db =
    let (limit, offset) = paginate a.limit a.offset in
    let rows = filter (position_matches a) db.positions in
    (
      All-take (Matching a) limit (drop offset (order_desc rows)) (
          All-drop (Matching a) offset (order_desc rows)
            (All-order_desc (Matching a) rows (All-filter (position_matches a) db.positions))),
      take-Descending limit (drop offset (order_desc rows))
          (drop-Descending offset (order_desc rows) (order_desc-Descending rows)),
      length-take limit (drop offset (order_desc rows))
          ∙ ap (min limit) (
              length-drop offset (order_desc rows) ∙ ap (λ n. n - offset) (length-order_desc rows)),
      omega arith,
    )
