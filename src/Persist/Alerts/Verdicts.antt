-- ===== src/Persist/Alerts/Verdicts.antt =====
-- go/internal/persist/alerts.go and go/internal/decide/engine.go: the alerts that decisions raise.
use payment_infrastructure.Base.{◌≡◌, refl, ap, ◌≢◌, ◌↔◌, List, Option, none, ok}
use payment_infrastructure.Base.Float.{Float64}
use payment_infrastructure.Contract.Action.{Action, block, value_cap}
use payment_infrastructure.Contract.Decision.{Decision}
use payment_infrastructure.Contract.Finding.{Finding}
use payment_infrastructure.Decide.Policy.{Policy, Pointer}
use payment_infrastructure.Decide.Engine.{Engine, Input, snapshot}
use payment_infrastructure.Decide.Sequence.{decide}
use payment_infrastructure.Decide.Sequence.Guards.{IsRunnable, block_iff}
use payment_infrastructure.Decide.Sequence.Verdict.{hit_of}
use payment_infrastructure.Persist.Alerts.{severity}

only_block : (a : Action) → severity a ≡ "critical" → a ≡ block
unfolding severity
only_block block h = refl
only_block Action.hold h = absurd (cc)
only_block value_cap h = absurd (cc)
only_block _ h = absurd (cc)

module _ {F : Type 0} ⦃f : Float64 F⦄ (e0 : Engine F) (swapped : Option (Pointer (Policy F)))
    (in' : Input F) {d : Decision F} {fs : List (Finding F)} (runnable : IsRunnable e0 in')
    (run : decide e0 swapped in' ≡ ok (d, fs)) where
  -- With explanations for all rules and advisories, the severity of a decision is critical exactly when
  -- the creditor account is on the local blocklist.
  pub critical_iff : (severity d.action ≡ "critical") ↔ (hit_of (snapshot e0) in' ≢ none)
  unfolding severity
  critical_iff = (
    λ h. (block_iff e0 swapped in' runnable run).0 (only_block d.action h),
    λ hits. ap severity ((block_iff e0 swapped in' runnable run).1 hits),
  )
