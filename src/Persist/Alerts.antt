-- ===== src/Persist/Alerts.antt =====
-- go/internal/persist/alerts.go: which decisions raise an alert, and how severe it is.
pub mod Verdicts
use payment_infrastructure.Base.{String, Bool, true, false, not, ◌&&◌}
use payment_infrastructure.Contract.Action.{
  Action, allow, allow_monitor, step_up, step_up_interstitial, hold, block, value_cap, action_eq,
}

unfoldable pub severity : Action → String
severity block = "critical"
severity hold = "high"
severity value_cap = "medium"
severity step_up_interstitial = "low"
severity step_up = "low"
severity _ = "low"

unfoldable pub should_alert : Action → Bool
should_alert action = not (action_eq action allow) && not (action_eq action allow_monitor)
