-- ===== src/Tests/Ladder.antt =====
-- The theorems on the ladder, the costs, the rules and the blocklist at sample inputs.
use payment_infrastructure.Base.{
  ℕ, ◌-◌, ◌≤◌, ◌≡◌, refl, ◌⊎◌, true, false, [], ◌∷◌, none, some, ok, All, get_elem?, map, String,
  ltb, if◌then◌else◌, lookup_or,
}
use payment_infrastructure.Base.Int.{ℤ, pos, ◌≤ℤ◌, ◌<ℤ◌, ◌+ℤ◌, ◌-ℤ◌}
use payment_infrastructure.Contract.Action.{
  Action, allow, allow_monitor, step_up, hold, ladder_index,
}
use payment_infrastructure.Rules.{Result, policy, steps_up}
use payment_infrastructure.Decide.Blocklist.{Entry, hit, row, rows, refresh}
use payment_infrastructure.Decide.Blocklist.Refresh.{latest, hit-refresh}
use payment_infrastructure.Decide.Cost.{
  cost_candidates, chosen_action, total_cost, cost_table, max_amount, break_even_with,
  economics_key,
}
use payment_infrastructure.Decide.Cost.Argmin.{cost_table_argmin}
use payment_infrastructure.Decide.Cost.BreakEven.{break_even_lem}
use payment_infrastructure.Decide.Ladder.{Attached, apply_policy_rails, attach_advisories}
use payment_infrastructure.Decide.Ladder.Laws.{AnyAsks, apply_policy_rails_lub}
use payment_infrastructure.Decide.Ladder.Advisories.{IsAttached, attach_advisories_lem}
use payment_infrastructure.Tests.Sample.{
  millionths, scale, unscale, multiply, million, ltb_ℤ-IsStrict, policy_version, engine, advisory,
}

abbrev economics_total : Action → ℤ
economics_total a = total_cost (policy_version "v1") (pos 400_000) "UPI" (pos 5_000_000) a

cost_table_argmin_example :
    (i : ℕ) × (a : Action) × (get_elem? cost_candidates i ≡ some a)
    × (chosen_action (cost_table (policy_version "v1") (pos 400_000) "UPI" (pos 5_000_000)) ≡ a)
    × All (λ c. millionths.lt (economics_total c) (economics_total a) ≡ false) cost_candidates
unfolding total_cost millionths economics_key lookup_or scale unscale multiply million ◌+ℤ◌ ◌-ℤ◌
cost_table_argmin_example =
    cost_table_argmin (policy_version "v1") (pos 400_000) "UPI" (pos 5_000_000) ltb_ℤ-IsStrict refl

abbrev rail_result : Result
rail_result = record {
  rule_id = "RAIL-101";
  class = policy;
  fired = true;
  action = steps_up;
  cap_minor = pos 0;
  explanation = "rate above the baseline";
  authority = "";
  verified_on = "";
}

apply_policy_rails_lub_example :
    (ladder_index allow ≤ℤ ladder_index (apply_policy_rails (rail_result ∷ []) (allow, [])).0)
    × ((rung : Action)
        → AnyAsks rung (rail_result ∷ [])
        → ladder_index rung ≤ℤ ladder_index (apply_policy_rails (rail_result ∷ []) (allow, [])).0)
    × (((apply_policy_rails (rail_result ∷ []) (allow, [])).0 ≡ allow)
        ⊎ AnyAsks (apply_policy_rails (rail_result ∷ []) (allow, [])).0 (rail_result ∷ []))
apply_policy_rails_lub_example = apply_policy_rails_lub (rail_result ∷ []) allow []

attach_advisories_lem_example :
    (out : Attached ℤ) × (attach_advisories
        (policy_version "v1")
        allow_monitor
        (advisory ∷ [])
        []
        []
      ≡ ok out)
    × IsAttached (policy_version "v1") allow_monitor (advisory ∷ []) [] [] out
attach_advisories_lem_example =
    attach_advisories_lem (policy_version "v1") allow_monitor (advisory ∷ []) [] [] (refl, tt)
      (λ e. absurd (cc)) (λ e. absurd (cc))

abbrev holds_from : ℕ → Action
holds_from amount = if ltb amount 70_000 then allow else hold

break_even_lem_example :
    ((ladder_index (holds_from max_amount) <ℤ ladder_index step_up)
      × (break_even_with holds_from step_up ≡ some none))
    ⊎ ((ladder_index step_up ≤ℤ ladder_index (holds_from max_amount))
        × (lo : ℕ) × (break_even_with holds_from step_up ≡ some (some lo))
        × (lo ≤ max_amount)
        × (ladder_index step_up ≤ℤ ladder_index (holds_from lo))
        × ((lo ≡ 0) ⊎ (ladder_index (holds_from (lo - 1)) <ℤ ladder_index step_up)))
break_even_lem_example = break_even_lem holds_from step_up

abbrev entry : String → Entry
entry reason = record { account = "mule"; list = "local"; reason = reason; reporter_count = pos 1 }

hit-refresh_example :
    ((refresh (rows (map row (entry "a" ∷ entry "b" ∷ [])) true) engine.blocklist).1 ≡ true)
    × (hit (refresh (rows (map row (entry "a" ∷ entry "b" ∷ [])) true) engine.blocklist).0 "mule"
        ≡ latest "mule" (entry "a" ∷ entry "b" ∷ []))
hit-refresh_example = hit-refresh (entry "a" ∷ entry "b" ∷ []) true engine.blocklist "mule"
