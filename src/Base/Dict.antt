-- ===== src/Base/Dict.antt =====
-- A JavaScript `Map` keyed by numbers, as its entries in insertion order: `set` writes in place
-- or appends, `delete` drops the entry. A `Set` is a map to `Unit`.
use sidiora_perpetual_protoc.Base.Tests.{◌==◌, if◌then◌else◌, Bool-cases, Option-cases, ==→eq}
use Prim.Native.Nat.{ℕ}
use mathlib.Core.Path.{◌≡◌, refl, ap}
use mathlib.Core.Logic.{inl, inr}
use mathlib.Core.Bool.{Bool, true, false}
use mathlib.Core.Option.{Option, none, some}
use mathlib.Core.List.{List, [], ◌∷◌}
use native.Mathlib.Omega.{arith}

abbrev pub Dict {ℓ} : Type ℓ → Type ℓ
Dict V = List (ℕ × V)

module _ {ℓ} {V : Type ℓ} where
  abbrev pub lookup : ℕ → Dict V → Option V
  lookup k [] = none
  lookup k ((j, v) ∷ m) = if j == k then some v else lookup k m

  abbrev pub has : ℕ → Dict V → Bool
  has k [] = false
  has k ((j, v) ∷ m) = if j == k then true else has k m

  abbrev pub insert : ℕ → V → Dict V → Dict V
  insert k v [] = (k, v) ∷ []
  insert k v ((j, w) ∷ m) = if j == k then (j, v) ∷ m else (j, w) ∷ insert k v m

  abbrev pub erase : ℕ → Dict V → Dict V
  erase k [] = []
  erase k ((j, w) ∷ m) = if j == k then m else (j, w) ∷ erase k m

  -- No key stands twice.
  abbrev pub Distinct : Dict V → Type 0
  Distinct [] = Unit
  Distinct ((j, w) ∷ m) = (has j m ≡ false) × Distinct m

module _ {ℓ} {V : Type ℓ} where
  pub lookup-insert :
      (k j : ℕ) (v : V) (m : Dict V)
      → lookup j (insert k v m) ≡ (if k == j then some v else lookup j m)
  lookup-insert k j v [] = ground arith
  lookup-insert k j v ((i, w) ∷ m) = ground (arith, lookup-insert k j v m)

  -- Writing what is there changes nothing.
  pub insert-lookup : (k : ℕ) (v : V) (m : Dict V) → lookup k m ≡ some v → insert k v m ≡ m
  insert-lookup k v [] h = absurd (ground (arith, h))
  insert-lookup k v ((i, w) ∷ m) h = elim (Bool-cases (i == k)) [
    | inl e ↦ ground (arith, e, h)
    | inr e ↦ rw e (ap (λ t. (i, w) ∷ t) (insert-lookup k v m (ground (arith, e, h))))
  ]

  pub has-insert :
      (k j : ℕ) (v : V) (m : Dict V) → has j (insert k v m) ≡ (if k == j then true else has j m)
  has-insert k j v [] = ground arith
  has-insert k j v ((i, w) ∷ m) = ground (arith, has-insert k j v m)

  pub insert-Distinct : (k : ℕ) (v : V) (m : Dict V) → Distinct m → Distinct (insert k v m)
  insert-Distinct k v [] d = (refl, tt)
  insert-Distinct k v ((i, w) ∷ m) d = ground (arith, insert-Distinct k v m d.1, has-insert k i v m)

  pub has-erase_ne : (k j : ℕ) (m : Dict V) → has j m ≡ false → has j (erase k m) ≡ false
  has-erase_ne k j [] h = refl
  has-erase_ne k j ((i, w) ∷ m) h = ground (arith, has-erase_ne k j m)

  pub erase-Distinct : (k : ℕ) (m : Dict V) → Distinct m → Distinct (erase k m)
  erase-Distinct k [] d = tt
  erase-Distinct k ((i, w) ∷ m) d = ground (arith, erase-Distinct k m d.1, has-erase_ne k i m)

  pub lookup_of_not-has : (k : ℕ) (m : Dict V) → has k m ≡ false → lookup k m ≡ none
  lookup_of_not-has k [] h = refl
  lookup_of_not-has k ((i, w) ∷ m) h = ground (arith, lookup_of_not-has k m)

  pub lookup-erase_self : (k : ℕ) (m : Dict V) → Distinct m → lookup k (erase k m) ≡ none
  lookup-erase_self k [] d = refl
  lookup-erase_self k ((i, w) ∷ m) d =
      ground (arith, lookup-erase_self k m d.1, lookup_of_not-has k m)

  pub lookup-erase_ne :
      (k j : ℕ) (m : Dict V) → (k == j) ≡ false → lookup j (erase k m) ≡ lookup j m
  lookup-erase_ne k j [] h = refl
  lookup-erase_ne k j ((i, w) ∷ m) h = ground (arith, lookup-erase_ne k j m h)

module _ {ℓ} {V : Type ℓ} where
  -- `UPDATE … WHERE key = k`: no row with the key, no change.
  abbrev pub update : ℕ → (V → V) → Dict V → Dict V
  update k f m = elim (lookup k m) [ none ↦ m | some v ↦ insert k (f v) m ]

  -- `INSERT … ON CONFLICT (key) DO NOTHING`
  abbrev pub insert_new : ℕ → V → Dict V → Dict V
  insert_new k v m = if has k m then m else insert k v m

  -- `INSERT … ON CONFLICT (key) DO UPDATE`
  abbrev pub upsert : ℕ → V → (V → V) → Dict V → Dict V
  upsert k v f m = elim (lookup k m) [ none ↦ insert k v m | some w ↦ insert k (f w) m ]

  pub lookup_of-has : (k : ℕ) (m : Dict V) (v : V) → lookup k m ≡ some v → has k m ≡ true
  lookup_of-has k [] v h = ground arith
  lookup_of-has k ((i, w) ∷ m) v h = ground (arith, lookup_of-has k m v)

  lookup_same : (k j : ℕ) (m : Dict V) → (k == j) ≡ true → lookup k m ≡ lookup j m
  lookup_same k j m e = ap (λ i. lookup i m) (==→eq k j e)

  -- An update changes the row of its key alone.
  pub lookup-update :
      (k j : ℕ) (f : V → V) (m : Dict V) (v : V)
      → lookup j m ≡ some v
      → lookup j (update k f m) ≡ some (if k == j then f v else v)
  lookup-update k j f m v h = elim (Option-cases (lookup k m)) [
    | inl e ↦ rw (e, update) (ground (arith, lookup_same k j m))
    | inr (w, e) ↦ rw (e, update, lookup-insert k j (f w) m) (ground (arith, lookup_same k j m))
  ]

  -- An insertion without overwriting keeps every row that is there.
  pub lookup-insert_new :
      (k j : ℕ) (w : V) (m : Dict V) (v : V)
      → lookup j m ≡ some v
      → lookup j (insert_new k w m) ≡ some v
  lookup-insert_new k j w m v h = ground (arith, lookup-insert k j w m, lookup_of-has k m v)

  -- The key has a row, and the row has the property.
  abbrev pub Holds : ℕ → (V → Type 0) → Dict V → Type ℓ
  Holds k P m = (v : V) × (lookup k m ≡ some v) × P v

  pub update-Holds :
      (P : V → Type 0) (k j : ℕ) (f : V → V) (m : Dict V)
      → ((v : V) → P v → P (f v))
      → Holds j P m
      → Holds j P (update k f m)
  update-Holds P k j f m step (v, e, p) = (
    if k == j then f v else v,
    lookup-update k j f m v e,
    elim (k == j) as (λ b. P (if b then f v else v)) [ true ↦ step v p | false ↦ p ],
  )

  pub insert_new-Holds :
      (P : V → Type 0) (k j : ℕ) (w : V) (m : Dict V) → Holds j P m → Holds j P (insert_new k w m)
  insert_new-Holds P k j w m (v, e, p) = (v, lookup-insert_new k j w m v e, p)
