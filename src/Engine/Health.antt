-- ===== src/Engine/Health.antt =====
-- `HealthMonitor` of .perps-engine/src/health-monitor.js: alerts with a cooldown on consecutive
-- failures and on a low balance, and the diagnostics at the start. An alert counts when it is logged;
-- whether Slack or Telegram take it changes nothing.
pub mod Alerts
use sidiora_perpetual_protoc.Base.{
  ℕ, ◌-◌, Bool, true, false, Option, none, some, List, [], ◌∷◌, ◌++◌, ltb, leb, if◌then◌else◌,
}
use sidiora_perpetual_protoc.Base.Dict.{Dict, lookup, insert}

-- The keys of the alerts, with their cooldowns in milliseconds.
abbrev pub consecutive_failures : ℕ
consecutive_failures = 1

abbrev pub low_balance : ℕ
low_balance = 2

abbrev pub failures_cooldown : ℕ
failures_cooldown = 300000

abbrev pub balance_cooldown : ℕ
balance_cooldown = 600000

-- A logged alert.
pub record Alert : Type 0 where
  pub key : ℕ
  pub time : ℕ

-- The monitor; `alerts` lists what was logged, the newest first.
pub record Monitor : Type 0 where
  pub last_balance_check : ℕ
  pub last_balance : Option ℕ
  pub alert_cooldowns : Dict ℕ
  pub alerts : List Alert

-- `this._alertCooldowns.get(key) || 0`
abbrev pub last_alert : ℕ → Monitor → ℕ
last_alert key s = elim (lookup key s.alert_cooldowns) [ none ↦ 0 | some t ↦ t ]

-- `_alert`
unfoldable pub alert : ℕ → ℕ → ℕ → Monitor → Monitor
alert key cooldown now s = if ltb (now - last_alert key s) cooldown then s else record s {
  alert_cooldowns = insert key now s.alert_cooldowns;
  alerts = record { key = key; time = now } ∷ s.alerts;
}

-- What the clock says at the alert on failures, at the balance check and at the alert on the
-- balance, and what the node answers for the balance; `none` is a throw.
pub record Answers : Type 0 where
  pub failures_at : ℕ
  pub now : ℕ
  pub balance : Option ℕ
  pub balance_at : ℕ

-- What the node answers at the start; `none` is a throw.
pub record StartAnswers : Type 0 where
  pub balance : Option ℕ
  pub has_role : Option Bool

pub data Issue : Type 0 where
  low_balance_issue : ℕ → Issue
  balance_unknown role_missing role_unknown : Issue

-- `maxConsecutiveFailures`, and whether a balance is below `minWalletBalancePax`, which is a
-- comparison of floating-point numbers.
module _ (max_failures : ℕ) (is_low : ℕ → Bool) where
  -- The first check of `checkAfterCycle`, on the count of the statistics.
  unfoldable pub check_failures : ℕ → Answers → Monitor → Monitor
  unfolding alert
  check_failures failures a s =
      if leb max_failures failures
      then alert consecutive_failures failures_cooldown a.failures_at s
      else s

  -- The second, at most every five minutes.
  unfoldable pub check_balance : Answers → Monitor → Monitor
  unfolding alert
  check_balance a s =
      if ltb 300000 (a.now - s.last_balance_check)
      then (elim a.balance [
        | none ↦ s
        | some b ↦
            let s' : Monitor = record s { last_balance = some b; last_balance_check = a.now } in
            if is_low b then alert low_balance balance_cooldown a.balance_at s' else s'
      ])
      else s

  -- `checkAfterCycle`
  unfoldable pub check_after_cycle : ℕ → Answers → Monitor → Monitor
  unfolding check_failures check_balance
  check_after_cycle failures a s = check_balance a (check_failures failures a s)

  -- `issues` of `runStartupDiagnostics`; the check of the robustness parameters only logs.
  unfoldable pub startup_issues : StartAnswers → List Issue
  startup_issues a =
      (elim a.balance [
        | none ↦ balance_unknown ∷ []
        | some b ↦ if is_low b then low_balance_issue b ∷ [] else []
      ])
      ++ (elim a.has_role [
        | none ↦ role_unknown ∷ []
        | some r ↦ if r then [] else role_missing ∷ []
      ])

  -- `runStartupDiagnostics`
  unfoldable pub run_startup_diagnostics : StartAnswers → Monitor → List Issue × Monitor
  unfolding startup_issues
  run_startup_diagnostics a s =
      (startup_issues a, elim a.balance [ none ↦ s | some b ↦ record s { last_balance = some b } ])
