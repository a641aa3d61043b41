-- ===== src/Base/Journal.antt =====
-- A cache from which entries are deleted one by one, with a journal of the keys that were tried
-- and whether each was deleted.
use sidiora_perpetual_protoc.Base.{
  ℕ, ◌≡◌, Bool, true, false, none, List, [], ◌∷◌, ◌++◌, ◌==◌, if◌then◌else◌, arith,
}
use sidiora_perpetual_protoc.Base.Dict.{
  Dict, lookup, erase, Distinct, erase-Distinct, lookup-erase_self, lookup-erase_ne,
}

-- Whether the journal says that the key was deleted.
abbrev pub gone : ℕ → List (ℕ × Bool) → Bool
gone id [] = false
gone id ((j, b) ∷ l) = if j == id then (if b then true else gone id l) else gone id l

gone-append :
    (id : ℕ) (l : List (ℕ × Bool)) (j : ℕ) (b : Bool)
    → gone id (l ++ (j, b) ∷ []) ≡ (if gone id l then true else (if j == id then b else false))
gone-append id [] j b = ground arith
gone-append id ((k, q) ∷ l) j b = ground (arith, gone-append id l j b)

module _ {ℓ} {V : Type ℓ} where
  -- The cache is the one at the start, less the keys that the journal says are gone.
  abbrev pub Tracks : Dict V → Dict V → List (ℕ × Bool) → Type ℓ
  Tracks start m l =
      Distinct m × ((id : ℕ) → lookup id m ≡ (if gone id l then none else lookup id start))

  tracked :
      (start m : Dict V) (l : List (ℕ × Bool)) (j : ℕ) (b : Bool) (id : ℕ)
      → Distinct m
      → lookup id m ≡ (if gone id l then none else lookup id start)
      → lookup id (if b then erase j m else m)
        ≡ (if gone id (l ++ (j, b) ∷ []) then none else lookup id start)
  tracked start m l j true id d t =
      rw (gone-append id l j true) (ground (arith, lookup-erase_self j m d, lookup-erase_ne j id m))
  tracked start m l j false id d t = rw (gone-append id l j false) (ground arith)

  pub Tracks-step :
      (start m : Dict V) (l : List (ℕ × Bool)) (j : ℕ) (b : Bool)
      → Tracks start m l
      → Tracks start (if b then erase j m else m) (l ++ (j, b) ∷ [])
  Tracks-step start m l j true (d, t) =
      (erase-Distinct j m d, λ id. tracked start m l j true id d (t id))
  Tracks-step start m l j false (d, t) = (d, λ id. tracked start m l j false id d (t id))
