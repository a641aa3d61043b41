-- ===== src/Base/Outcome.antt =====
-- A call that may throw, and calls that change a state: what was done stays done after a throw.
use sidiora_perpetual_protoc.Base.{List, ℕ, Option}

pub data Result {ℓ κ} (X : Type ℓ) (A : Type κ) : Type (ℓ ⊔ κ) where
  ok : A → Result X A
  throw : X → Result X A

-- An `Error` of ethers: `reason`, `shortMessage`, what the interface decodes from `data`, and
-- `message`, each of which may be missing.
pub record JsError : Type 0 where
  pub reason : Option (List ℕ)
  pub short_message : Option (List ℕ)
  pub decoded : Option (List ℕ)
  pub message : Option (List ℕ)

abbrev pub M : Type 0 → Type 0 → Type 0
M S A = S → Result JsError A × S

infixl 5 ◌>>=◌ ◌>>◌
abbrev pub ◌>>=◌ : {S A B : Type 0} → M S A → (A → M S B) → M S B
◌>>=◌ m f s = let (r, s') = m s in elim r [ ok a ↦ f a s' | throw e ↦ (throw e, s') ]

abbrev pub ◌>>◌ : {S A B : Type 0} → M S A → M S B → M S B
m >> k = m >>= λ _. k

abbrev pub pure : {S A : Type 0} → A → M S A
pure a s = (ok a, s)
