-- ===== src/Tests/Decide.antt =====
-- The theorems on go/internal/decide/engine.go at sample payments.
use payment_infrastructure.Base.{
  ◌≡◌, refl, sym, ap, subst, ◌∙◌, ◌≢◌, ◌↔◌, false, List, [], ◌∷◌, Option, none, some, Run, ok,
  panic, arith, lookup, lookup_or, All,
}
use payment_infrastructure.Base.Int.{ℤ, pos, ◌≤ℤ◌, ◌+ℤ◌, ◌-ℤ◌}
use payment_infrastructure.Contract.Action.{
  allow, block, value_cap, hold, step_up_interstitial, ladder_index, action_of,
}
use payment_infrastructure.Contract.Decision.{Decision}
use payment_infrastructure.Contract.Finding.{Finding}
use payment_infrastructure.Rules.{
  evaluate, evaluate_all, evaluate_rule, rail_applies, build_activation,
}
use payment_infrastructure.Decide.Blocklist.{hit}
use payment_infrastructure.Decide.Prevalence.{adjust}
use payment_infrastructure.Decide.Policy.{Policy, Pointer, load, advisory_max_rung_action}
use payment_infrastructure.Decide.Engine.{
  Input, snapshot, swap, first_cap, is_cap, trusted_pair, build_decision,
}
use payment_infrastructure.Decide.Engine.Control.{control_assignment}
use payment_infrastructure.Decide.Sequence.{decide, cost_stage, degrade}
use payment_infrastructure.Decide.Ladder.{apply_policy_rails, apply_rail, rung_of}
use payment_infrastructure.Decide.Ladder.Advisories.{admissible_of}
use payment_infrastructure.Decide.Cost.{
  minimise_cost, economics_key, chosen_row, cost_table, total_cost,
}
use payment_infrastructure.Decide.Sequence.Parts.{p_adjusted_of}
use payment_infrastructure.Decide.Sequence.Actions.{own_action}
use payment_infrastructure.Decide.Sequence.Verdict.{
  Verdict, is_blocked, is_capped, is_controlled, is_trusted, is_scored, decide_lem, hit_of,
  results_of, control_of, trusted_of,
}
use payment_infrastructure.Decide.Sequence.Guards.{
  IsRunnable, decide-Verdict, decide-IsScored, block_iff, cap_iff, degraded_guard, hold_is_own,
}
use payment_infrastructure.Decide.Sequence.Swap.{cost_swapped, priced_by}
use payment_infrastructure.Tests.Sample.{
  millionths, scale, unscale, multiply, million, engine, payment, newer,
}

-- The decision of a run that returns; any other one stands for a panic.
unfoldable pub decision_of : Run (Decision ℤ × List (Finding ℤ)) → Decision ℤ
decision_of (ok (d, findings)) = d
decision_of panic =
    build_decision engine (payment "" (pos 0) []).event (payment "" (pos 0) []).features allow allow
      "" [] none none [] false (pos 0) []

abbrev pub swap_in : Option (Pointer (Policy ℤ)) → Input ℤ → Decision ℤ
swap_in swapped in' = decision_of (decide engine swapped in')

abbrev decision : Input ℤ → Decision ℤ
decision in' = swap_in none in'

abbrev listed : Input ℤ
listed = payment "mule" (pos 50_000) []

abbrev usual : Input ℤ
usual = payment "shop" (pos 5_000_000) ("graph" ∷ [])

abbrev large : Input ℤ
large = payment "shop" (pos 9_500_000) []

runnable : (in' : Input ℤ) → in'.advisories ≡ usual.advisories → IsRunnable engine in'
runnable in' e = record { ruled = (refl, (refl, tt)); explained = rw e (refl, tt) }

decided :
    (swapped : Option (Pointer (Policy ℤ))) (in' : Input ℤ)
    → in'.advisories ≡ usual.advisories
    → decide engine swapped in' ≡ ok (swap_in swapped in', (swap_in swapped in').findings)
unfolding decision_of
decided swapped in' e =
    let r = runnable in' e in
    let (d, run, _) = decide_lem engine swapped in' r.ruled r.explained in
    subst (λ d. decide engine swapped in' ≡ ok (d, d.findings)) (sym (ap decision_of run)) run

decide_lem_example :
    (d : Decision ℤ) × (decide engine none usual ≡ ok (d, d.findings))
    × Verdict (snapshot engine) none usual d
decide_lem_example = decide_lem engine none usual (refl, (refl, tt)) (refl, tt)

block_iff_example : ((decision listed).action ≡ block) ↔ (hit_of (snapshot engine) listed ≢ none)
block_iff_example = block_iff engine none listed (runnable listed refl) (decided none listed refl)

cap_iff_example : ((decision large).action ≡ value_cap) ↔ (
    (hit_of (snapshot engine) large ≡ none)
    × ¬ All (λ r. is_cap r ≡ false) (results_of (snapshot engine) large))
cap_iff_example = cap_iff engine none large (runnable large refl) (decided none large refl)

usual_unlisted : hit_of (snapshot engine) usual ≡ none
unfolding snapshot hit lookup load
usual_unlisted = refl

usual_uncapped : first_cap (results_of (snapshot engine) usual) ≡ none
unfolding snapshot load first_cap is_cap evaluate evaluate_all evaluate_rule rail_applies
    build_activation
usual_uncapped = refl

usual_live : (control_of (snapshot engine) usual).0 ≡ false
unfolding snapshot load control_assignment millionths
usual_live = refl

usual_untrusted : trusted_of (snapshot engine) usual ≡ false
unfolding trusted_pair
usual_untrusted = refl

degraded_guard_example : ladder_index step_up_interstitial ≤ℤ ladder_index (decision usual).action
unfolding snapshot load
degraded_guard_example =
    degraded_guard engine none usual (runnable usual refl) (decided none usual refl) usual_unlisted
      usual_uncapped usual_live (λ e. absurd (cc)) (omega arith)

-- A payment that nothing reports.
abbrev pub quiet : Input ℤ
quiet = record usual { advisories = [] }

pub quiet_decided :
    (swapped : Option (Pointer (Policy ℤ)))
    → decide engine swapped quiet ≡ ok (swap_in swapped quiet, (swap_in swapped quiet).findings)
unfolding decision_of
quiet_decided swapped =
    let (d, run, _) = decide_lem engine swapped quiet (refl, (refl, tt)) tt in
    subst (λ d. decide engine swapped quiet ≡ ok (d, d.findings)) (sym (ap decision_of run)) run

abbrev pub quiet_runnable : IsRunnable engine quiet
quiet_runnable = record { ruled = (refl, (refl, tt)); explained = tt }

quiet_p_of :
    (swapped : Option (Pointer (Policy ℤ))) (d : Decision ℤ)
    → Verdict (snapshot engine) swapped quiet d
    → d.p_prevalence_adj ≡ some (pos 400_000)
unfolding snapshot hit lookup load first_cap is_cap evaluate evaluate_all evaluate_rule rail_applies
    build_activation control_assignment millionths trusted_pair p_adjusted_of adjust
quiet_p_of swapped d (is_blocked _ h _ _) = absurd (cc)
quiet_p_of swapped d (is_capped _ _ h _ _ _) = absurd (cc)
quiet_p_of swapped d (is_controlled _ _ h _ _ _) = absurd (cc)
quiet_p_of swapped d (is_trusted _ _ _ h _ _) = absurd (cc)
quiet_p_of swapped d (is_scored _ _ _ _ s) = s.adjusted

pub quiet_p :
    (swapped : Option (Pointer (Policy ℤ)))
    → (swap_in swapped quiet).p_prevalence_adj ≡ some (pos 400_000)
quiet_p swapped =
    quiet_p_of swapped (swap_in swapped quiet)
      (decide-Verdict engine swapped quiet quiet_runnable (quiet_decided swapped))

cost_swapped_example :
    ((swap_in (some newer) quiet).policy_version ≡ (snapshot engine).policy_version)
    × ((swap_in (some newer) quiet).expected_cost_minor
        ≡ priced_by newer.target (pos 400_000) quiet.event)
unfolding snapshot load
cost_swapped_example =
    cost_swapped engine quiet quiet_runnable newer (quiet_decided (some newer))
      (quiet_p (some newer)) (λ e. absurd (cc)) refl

quiet_own :
    (own_action
      (snapshot engine)
      none
      quiet
      (results_of (snapshot engine) quiet)
      (some (pos 400_000))).0
    ≡ hold
unfolding own_action snapshot load evaluate evaluate_all evaluate_rule rail_applies build_activation
    millionths cost_stage minimise_cost apply_policy_rails apply_rail ladder_index lookup_or swap
    ◌+ℤ◌ ◌-ℤ◌ degrade economics_key chosen_row cost_table total_cost rung_of scale unscale multiply
    million lookup
quiet_own = refl

quiet_held : (decision quiet).action ≡ hold
unfolding admissible_of
quiet_held =
    (decide-IsScored engine none quiet quiet_runnable (quiet_decided none) (quiet_p none)).untouched
      refl
    ∙ ap (λ p. (own_action (snapshot engine) none quiet (results_of (snapshot engine) quiet) p).0)
        (quiet_p none)
    ∙ quiet_own

hold_is_own_example :
    (own_action
      (snapshot engine)
      none
      quiet
      (results_of (snapshot engine) quiet)
      (decision quiet).p_prevalence_adj).0
    ≡ hold
unfolding advisory_max_rung_action action_of ladder_index snapshot load
hold_is_own_example =
    hold_is_own engine none quiet quiet_runnable (quiet_decided none) (omega arith) quiet_held
