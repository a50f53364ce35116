-- ===== src/Tests/Tuning.antt =====
-- The theorems on go/cmd/nazar/handlers_policy.go with a sample bundle.
use payment_infrastructure.Base.{
  ◌+◌, ◌≡◌, ◌≢◌, refl, sym, ap, subst, Bool, true, List, [], ◌∷◌, Option, none, some, ok, take,
  length, filter_by, lookup, All,
}
use payment_infrastructure.Base.Int.{ℤ, pos, add64}
use payment_infrastructure.Contract.Action.{other}
use payment_infrastructure.Contract.Decision.{Decision}
use payment_infrastructure.Rules.{
  evaluate, evaluate_all, evaluate_rule, rail_applies, build_activation,
}
use payment_infrastructure.Decide.Policy.{load, store}
use payment_infrastructure.Decide.Blocklist.{hit}
use payment_infrastructure.Decide.Prevalence.{adjust}
use payment_infrastructure.Decide.Engine.{Engine, snapshot, first_cap, is_cap, trusted_pair}
use payment_infrastructure.Decide.Engine.Control.{control_assignment}
use payment_infrastructure.Decide.Sequence.{decide}
use payment_infrastructure.Decide.Sequence.Parts.{IsDefExplained}
use payment_infrastructure.Decide.Sequence.Parts.{p_adjusted_of}
use payment_infrastructure.Decide.Sequence.Verdict.{
  Verdict, is_blocked, is_capped, is_controlled, is_trusted, is_scored, decide_lem,
}
use payment_infrastructure.Decide.Sequence.Guards.{IsRunnable, decide-Verdict}
use payment_infrastructure.Decide.Sequence.Swap.{priced_by}
use payment_infrastructure.Server.Tuning.{
  TuneRequest, TuneReply, ReplayRow, PolicyStudio, policy_tune, policy_reset, new_tally, max_flips,
  live_policy, candidate_policy, under, tuned, tuned_version, go_live,
}
use payment_infrastructure.Server.Tuning.Counts.{no_change, policy_tune_lem, is_raised, flips_of}
use payment_infrastructure.Server.Tuning.Stamped.{IsWired, policy_tune-stamps}
use payment_infrastructure.Tests.Sample.{millionths, engine, pinned}
use payment_infrastructure.Tests.Decide.{decision_of, quiet}

abbrev studio : PolicyStudio ℤ
studio = record { engine = engine; base_policy = pinned; tune_counter = pos 0 }

abbrev rows : List (ReplayRow ℤ)
rows =
    record {
      end_to_end_id = "e2e-1";
      decided_at_ms = pos 1;
      action = other "";
      p_adjusted = pos 400_000;
      amount_minor = pos 50_000;
      rail = "UPI";
      rail_floor = other "";
      debtor = "payer";
      creditor = "shop";
    }
    ∷ []

abbrev query : ℤ → Option (List (ReplayRow ℤ))
query limit = some rows

-- Holding a payment costs nothing.
abbrev free_hold : TuneRequest ℤ
free_hold = record (no_change true (pos 0)) {
  hold_friction_minor = some (pos 0);
  hold_abandon_prob = some (pos 0);
}

policy_tune_lem_example :
    let current = under (live_policy engine) engine in
    let proposed = under (candidate_policy 7 free_hold engine) engine in
    (r : TuneReply ℤ) × ((policy_tune 7 free_hold query studio).1 ≡ some r)
    × (r.evaluated_against ≡ length rows)
    × (r.tally.stricter ≡ length (filter_by (is_raised current proposed) rows))
    × (r.tally.stricter + r.tally.looser ≡ length (flips_of current proposed rows))
    × (r.tally.flips ≡ take max_flips (flips_of current proposed rows))
    × ((apply : Bool) (limit : ℤ) → free_hold ≡ no_change apply limit → r.tally ≡ new_tally)
policy_tune_lem_example = policy_tune_lem 7 free_hold query studio rows refl

abbrev live : PolicyStudio ℤ
live = (policy_tune 7 free_hold query studio).0

abbrev back : PolicyStudio ℤ
back = policy_reset live

abbrev decision_on : Engine ℤ → Decision ℤ
decision_on e = decision_of (decide e none quiet)

decided_on :
    (e : Engine ℤ)
    → All IsDefExplained e.rules.rules
    → decide e none quiet ≡ ok (decision_on e, (decision_on e).findings)
unfolding decision_of
decided_on e ruled =
    let (d, run, _) = decide_lem e none quiet ruled tt in
    subst (λ d. decide e none quiet ≡ ok (d, d.findings)) (sym (ap decision_of run)) run

live_runnable : IsRunnable live.engine quiet
unfolding policy_tune go_live
live_runnable = record { ruled = (refl, (refl, tt)); explained = tt }

back_runnable : IsRunnable back.engine quiet
unfolding policy_tune go_live policy_reset
back_runnable = record { ruled = (refl, (refl, tt)); explained = tt }

live_run :
    decide live.engine none quiet ≡ ok (decision_on live.engine, (decision_on live.engine).findings)
live_run = decided_on live.engine live_runnable.ruled

back_run :
    decide back.engine none quiet ≡ ok (decision_on back.engine, (decision_on back.engine).findings)
back_run = decided_on back.engine back_runnable.ruled

live_p :
    (d : Decision ℤ)
    → Verdict (snapshot live.engine) none quiet d
    → d.p_prevalence_adj ≡ some (pos 400_000)
unfolding policy_tune go_live candidate_policy live_policy tuned store snapshot hit lookup load
    first_cap is_cap evaluate evaluate_all evaluate_rule rail_applies build_activation
    control_assignment millionths trusted_pair p_adjusted_of adjust
live_p d (is_blocked _ h _ _) = absurd (cc)
live_p d (is_capped _ _ h _ _ _) = absurd (cc)
live_p d (is_controlled _ _ h _ _ _) = absurd (cc)
live_p d (is_trusted _ _ _ h _ _) = absurd (cc)
live_p d (is_scored _ _ _ _ s) = s.adjusted

back_p :
    (d : Decision ℤ)
    → Verdict (snapshot back.engine) none quiet d
    → d.p_prevalence_adj ≡ some (pos 400_000)
unfolding policy_tune go_live policy_reset candidate_policy live_policy tuned store snapshot hit
    lookup load first_cap is_cap evaluate evaluate_all evaluate_rule rail_applies build_activation
    control_assignment millionths trusted_pair p_adjusted_of adjust
back_p d (is_blocked _ h _ _) = absurd (cc)
back_p d (is_capped _ _ h _ _ _) = absurd (cc)
back_p d (is_controlled _ _ h _ _ _) = absurd (cc)
back_p d (is_trusted _ _ _ h _ _) = absurd (cc)
back_p d (is_scored _ _ _ _ s) = s.adjusted

studio-IsWired : IsWired studio
studio-IsWired = record {
  slot = record { slot = some pinned };
  wired = refl;
  same_bundle = refl;
  same_version = refl;
}

policy_tune-stamps_example :
    let d1 = decision_on live.engine in
    let d2 = decision_on back.engine in
    let version = tuned_version "v1" (add64 (pos 0) (pos 1)) in
    (d1.policy_version ≡ version)
    × (d1.policy_version ≢ "v1")
    × (d1.expected_cost_minor
        ≡ priced_by
            (record (tuned free_hold (live_policy engine).target) { version = version })
            (pos 400_000)
            quiet.event)
    × (d2.policy_version ≡ "v1")
    × (d2.expected_cost_minor ≡ priced_by pinned.target (pos 400_000) quiet.event)
policy_tune-stamps_example =
    policy_tune-stamps 7 free_hold query studio rows quiet quiet (decision_on live.engine)
      (decision_on back.engine) (decision_on live.engine).findings
      (decision_on back.engine).findings (pos 400_000) (pos 400_000) studio-IsWired refl refl refl
      live_runnable back_runnable live_run back_run
      (live_p (decision_on live.engine)
        (decide-Verdict live.engine none quiet live_runnable live_run))
      (back_p (decision_on back.engine)
        (decide-Verdict back.engine none quiet back_runnable back_run))
