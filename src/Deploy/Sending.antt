-- ===== src/Deploy/Sending.antt =====
-- Sending a transaction from a script and waiting for it: `await tx.wait()` in a `try`. The network is
-- a parameter: the call takes effect and its receipt arrives, it never takes effect, or it does and
-- the script sees an error.
use sidiora_perpetual_protoc.Base.{◌≡◌, ap, Option, none, some, Option-cases, inl, inr, arith}
use mathlib.Core.Option

pub data Fate : Type 0 where
  delivered lost unconfirmed : Fate

module _ {S A : Type 0} where
  -- What a call that reverts or returns leaves, with what the script sees: `none` is an error.
  abbrev pub seen : S → Option (A × S) → Option A × S
  seen s none = (none, s)
  seen s (some (a, t)) = (some a, t)

  abbrev pub unseen : S → Option (A × S) → Option A × S
  unseen s none = (none, s)
  unseen s (some (a, t)) = (none, t)

  unfoldable pub send : Fate → (S → Option (A × S)) → S → Option A × S
  send delivered call s = seen s (call s)
  send lost call s = (none, s)
  send unconfirmed call s = unseen s (call s)

  -- What holds before and after a call holds after sending it.
  pub send-keeps :
      (P : S → Type 0) (fate : Fate) (call : S → Option (A × S)) (s : S)
      → P s
      → ((a : A) (t : S) → call s ≡ some (a, t) → P t)
      → P (send fate call s).1
  unfolding send
  send-keeps P lost call s h k = h
  send-keeps P delivered call s h k = elim (Option-cases (call s)) [
    | inl e ↦ rw e h
    | inr ((a, t), e) ↦ rw e (k a t e)
  ]
  send-keeps P unconfirmed call s h k = elim (Option-cases (call s)) [
    | inl e ↦ rw e h
    | inr ((a, t), e) ↦ rw e (k a t e)
  ]

  seen_returns :
      (s : S) (x : Option (A × S)) (a : A) → (seen s x).0 ≡ some a → x ≡ some (a, (seen s x).1)
  seen_returns s none a h = cc
  seen_returns s (some (b, t)) a h = ap (Option.map (λ c. (c, t))) h

  not_unseen : (s : S) (x : Option (A × S)) (a : A) → ¬ ((unseen s x).0 ≡ some a)
  not_unseen s none a h = cc
  not_unseen s (some (b, t)) a h = cc

  -- What a script sees returned is what the call returned.
  pub send_returns :
      (fate : Fate) (call : S → Option (A × S)) (s : S) (a : A)
      → (send fate call s).0 ≡ some a
      → call s ≡ some (a, (send fate call s).1)
  unfolding send
  send_returns lost call s a h = ground (arith, h)
  send_returns delivered call s a h = seen_returns s (call s) a h
  send_returns unconfirmed call s a h = absurd (not_unseen s (call s) a h)
