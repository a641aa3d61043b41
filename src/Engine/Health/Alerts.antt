-- ===== src/Engine/Health/Alerts.antt =====
-- When the alerts of .perps-engine/src/health-monitor.js are raised.
use sidiora_perpetual_protoc.Base.{
  ℕ, ◌+◌, ◌-◌, ◌≤◌, ◌<◌, ◌≡◌, refl, Bool, true, false, some, List, [], ◌∷◌, ltb, leb, ◌==◌,
  if◌then◌else◌, ◌∙◌, arith, Bool-cases, Option-cases, inl, inr,
}
use sidiora_perpetual_protoc.Base.Dict.{lookup-insert}
use sidiora_perpetual_protoc.Engine.Health.{
  Alert, Monitor, Answers, last_alert, alert, check_failures, check_balance, check_after_cycle,
  consecutive_failures, low_balance, failures_cooldown, balance_cooldown,
}

-- The times of the alerts of a key, the newest first.
abbrev pub times : ℕ → List Alert → List ℕ
times key [] = []
times key (x ∷ xs) = let rest = times key xs in if x.key == key then x.time ∷ rest else rest

abbrev pub newest : List ℕ → ℕ
newest [] = 0
newest (t ∷ ts) = t

-- Each time is at least `cooldown` after the one before it.
abbrev pub Spaced : ℕ → List ℕ → Type 0
Spaced cooldown [] = Unit
Spaced cooldown (t ∷ ts) = (newest ts + cooldown ≤ t) × Spaced cooldown ts

-- The alerts of a key are spaced, and the monitor knows the newest.
abbrev pub Tracked : ℕ → ℕ → Monitor → Type 0
Tracked key cooldown s =
    Spaced cooldown (times key s.alerts) × (last_alert key s ≡ newest (times key s.alerts))

abbrev pub Tracks : Monitor → Type 0
Tracks s = Tracked consecutive_failures failures_cooldown s × Tracked low_balance balance_cooldown s

alert-Tracked_self :
    (key cooldown now : ℕ) (s : Monitor)
    → 0 < cooldown
    → Tracked key cooldown s
    → Tracked key cooldown (alert key cooldown now s)
unfolding alert
alert-Tracked_self key cooldown now s pos (h, e) =
    elim (Bool-cases (ltb (now - last_alert key s) cooldown)) [
      | inl early ↦ rw early (h, e)
      | inr due ↦ rw due (grind (arith, lookup-insert key key now s.alert_cooldowns))
    ]

alert-Tracked_other :
    (other key cooldown c now : ℕ) (s : Monitor)
    → (other == key) ≡ false
    → Tracked key cooldown s
    → Tracked key cooldown (alert other c now s)
unfolding alert
alert-Tracked_other other key cooldown c now s ne (h, e) =
    elim (Bool-cases (ltb (now - last_alert other s) c)) [
      | inl early ↦ rw early (h, e)
      | inr due ↦ rw due (rw ne (h, grind (arith, lookup-insert other key now s.alert_cooldowns)))
    ]

module _ (max_failures : ℕ) (is_low : ℕ → Bool) where
  check_failures-Tracks :
      (failures : ℕ) (a : Answers) (s : Monitor)
      → Tracks s
      → Tracks (check_failures max_failures is_low failures a s)
  unfolding check_failures
  check_failures-Tracks failures a s (h, g) = elim (Bool-cases (leb max_failures failures)) [
    | inl e ↦ rw e (
      alert-Tracked_self consecutive_failures failures_cooldown a.failures_at s (omega arith) h,
      alert-Tracked_other consecutive_failures low_balance balance_cooldown failures_cooldown
          a.failures_at s refl g,
    )
    | inr e ↦ rw e (h, g)
  ]

  -- A balance that was read.
  abbrev read_balance : ℕ → Answers → Monitor → Monitor
  read_balance b a s = record s { last_balance = some b; last_balance_check = a.now }

  low_balance-Tracks :
      (b : ℕ) (a : Answers) (s : Monitor)
      → Tracks s
      → Tracks (
          if is_low b
          then alert low_balance balance_cooldown a.balance_at (read_balance b a s)
          else read_balance b a s)
  low_balance-Tracks b a s (h, g) = elim (Bool-cases (is_low b)) [
    | inl e ↦ rw e (
      alert-Tracked_other low_balance consecutive_failures failures_cooldown balance_cooldown
          a.balance_at (read_balance b a s) refl h,
      alert-Tracked_self low_balance balance_cooldown a.balance_at (read_balance b a s)
          (omega arith) g,
    )
    | inr e ↦ rw e (h, g)
  ]

  check_balance-Tracks :
      (a : Answers) (s : Monitor) → Tracks s → Tracks (check_balance max_failures is_low a s)
  unfolding check_balance
  check_balance-Tracks a s h = elim (Bool-cases (ltb 300000 (a.now - s.last_balance_check))) [
    | inr e ↦ rw e h
    | inl e ↦ elim (Option-cases a.balance) [
      | inl q ↦ rw (e, q) h
      | inr (b, q) ↦ rw (e, q) (low_balance-Tracks b a s h)
    ]
  ]

  pub check_after_cycle-Tracks :
      (failures : ℕ) (a : Answers) (s : Monitor)
      → Tracks s
      → Tracks (check_after_cycle max_failures is_low failures a s)
  unfolding check_after_cycle
  check_after_cycle-Tracks failures a s h =
      check_balance-Tracks a (check_failures max_failures is_low failures a s)
        (check_failures-Tracks failures a s h)

  alert_recent :
      (now : ℕ) (s : Monitor)
      → Tracked consecutive_failures failures_cooldown s
      → failures_cooldown ≤ now
      → (t : ℕ) × (ts : List ℕ) × (times consecutive_failures
            (alert consecutive_failures failures_cooldown now s).alerts
          ≡ t ∷ ts)
        × (now < t + failures_cooldown)
  unfolding alert
  alert_recent now s (h, e) late =
      elim (Bool-cases (ltb (now - last_alert consecutive_failures s) failures_cooldown)) [
        | inr due ↦ rw due (now, times consecutive_failures s.alerts, refl, omega arith)
        | inl early ↦ rw early (recent (times consecutive_failures s.alerts) (grind arith))
      ]
    where
      recent :
          (ts : List ℕ)
          → now < newest ts + failures_cooldown
          → (t : ℕ) × (rest : List ℕ) × (ts ≡ t ∷ rest) × (now < t + failures_cooldown)
      recent [] b = absurd (omega (arith, b, late))
      recent (t ∷ ts) b = (t, ts, refl, b)

  alert-times :
      (now : ℕ) (s : Monitor)
      → times consecutive_failures (alert low_balance balance_cooldown now s).alerts
        ≡ times consecutive_failures s.alerts
  unfolding alert
  alert-times now s = grind arith

  check_balance-times :
      (a : Answers) (s : Monitor)
      → times consecutive_failures (check_balance max_failures is_low a s).alerts
        ≡ times consecutive_failures s.alerts
  unfolding check_balance
  check_balance-times a s = grind (arith, alert-times)

  -- A check at which the consecutive failures have reached the maximum, at a time of five
  -- minutes or later, leaves an alert on them that is less than five minutes old, if the
  -- monitor knows the newest alert of each key.
  failures_alerted :
      (failures : ℕ) (a : Answers) (s : Monitor)
      → Tracks s
      → max_failures ≤ failures
      → failures_cooldown ≤ a.failures_at
      → (t : ℕ) × (ts : List ℕ) × (times consecutive_failures
            (check_after_cycle max_failures is_low failures a s).alerts
          ≡ t ∷ ts)
        × (a.failures_at < t + failures_cooldown)
  unfolding check_after_cycle check_failures
  failures_alerted failures a s (h, g) reached late =
      let (t, ts, e, b) = alert_recent a.failures_at s h late in
      let enough : leb max_failures failures ≡ true = ground arith in
      (t, ts, check_balance-times a _ ∙ rw enough e, b)
