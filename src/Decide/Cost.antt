-- ===== src/Decide/Cost.antt =====
-- go/internal/decide/cost_table.go: the expected-cost table, its cheapest row, and the amount at which
-- an action takes over. `e.Policy` is the bundle that CostTable's own snapshot pins.
pub mod Argmin
pub mod BreakEven
pub mod Rungs
use payment_infrastructure.Base.{
  ℕ, zero, suc, ◌+◌, ◌-◌, ◌/◌, String, Bool, true, false, ◌&&◌, List, [], ◌∷◌, ◌++◌, Option, none,
  some, lookup_or, ltb, if◌then◌else◌,
}
use payment_infrastructure.Base.Int.{ℤ, pos, ltb_ℤ, leb_ℤ}
use payment_infrastructure.Base.Float.{Float64}
use payment_infrastructure.Contract.Action.{
  Action, allow, allow_monitor, step_up, step_up_interstitial, hold, action_eq, ladder_index,
}
use payment_infrastructure.Contract.Event.{Rail}
use payment_infrastructure.Decide.Policy.{Policy}

pub record ActionCost : Type 0 where
  pub action : Action
  pub expected_fraud_loss_minor : ℤ
  pub friction_minor : ℤ
  pub lost_business_minor : ℤ
  pub total_cost_minor : ℤ
  pub chosen : Bool

abbrev pub cost_candidates : List Action
cost_candidates = allow ∷ step_up ∷ step_up_interstitial ∷ hold ∷ []

unfoldable pub economics_key : Action → String
economics_key allow = "allow"
economics_key allow_monitor = "allow_monitor"
economics_key step_up = "step_up"
economics_key step_up_interstitial = "step_up_interstitial"
economics_key hold = "hold"
economics_key _ = "allow"

-- `rows[i].Chosen = true`
abbrev pub choose : List ActionCost → ℕ → List ActionCost
choose [] i = []
choose (r ∷ rs) zero = record r { chosen = true } ∷ rs
choose (r ∷ rs) (suc i) = r ∷ choose rs i

-- The loop of `at`: the first chosen row's action.
unfoldable pub chosen_action : List ActionCost → Action
chosen_action [] = allow
chosen_action (r ∷ rs) = if r.chosen then r.action else chosen_action rs

-- The loop of minimiseCost: the first chosen row.
unfoldable pub chosen_row : List ActionCost → Action × ℤ × ℤ
chosen_row [] = (allow, pos 0, pos 0)
chosen_row (r ∷ rs) =
    if r.chosen then (r.action, r.expected_fraud_loss_minor, r.total_cost_minor) else chosen_row rs

module _ {F : Type 0} ⦃f : Float64 F⦄ where
  fraud_loss : Policy F → F → Rail → ℤ → Action → F
  fraud_loss p p_fraud rail amount_minor a =
      let lgf = lookup_or (f.of_int (pos 0)) rail p.economics.loss_given_fraud in
      let stop = lookup_or (f.of_int (pos 0)) (economics_key a) p.economics.stop_prob in
      f.times (f.times (f.times p_fraud (f.of_int amount_minor)) lgf)
        (f.minus (f.of_int (pos 1)) stop)

  friction : Policy F → Action → F
  friction p a = f.of_int (lookup_or (pos 0) (economics_key a) p.economics.friction_cost_minor)

  lost_business : Policy F → F → Action → F
  lost_business p p_fraud a =
      let abandon = lookup_or (f.of_int (pos 0)) (economics_key a) p.economics.abandon_prob in
      f.times (f.times (f.minus (f.of_int (pos 1)) p_fraud) abandon)
        (f.of_int p.economics.margin_minor)

  unfoldable pub total_cost : Policy F → F → Rail → ℤ → Action → F
  unfolding fraud_loss friction lost_business
  total_cost p p_fraud rail amount_minor a =
      f.plus (f.plus (fraud_loss p p_fraud rail amount_minor a) (friction p a))
        (lost_business p p_fraud a)

  cost_row : Policy F → F → Rail → ℤ → Action → ActionCost
  unfolding fraud_loss friction lost_business total_cost
  cost_row p p_fraud rail amount_minor a = record {
    action = a;
    expected_fraud_loss_minor = f.to_int (fraud_loss p p_fraud rail amount_minor a);
    friction_minor = f.to_int (friction p a);
    lost_business_minor = f.to_int (lost_business p p_fraud a);
    total_cost_minor = f.to_int (total_cost p p_fraud rail amount_minor a);
    chosen = false;
  }

  -- The loop over the candidates from number `i` on: `bestIdx` at its end.
  best_from : (Action → F) → List Action → (i : ℕ) → (best_cost : F) → (best_idx : ℕ) → ℕ
  best_from total [] i best_cost best_idx = best_idx
  best_from total (a ∷ as') i best_cost best_idx =
      if f.lt (total a) best_cost
      then best_from total as' (suc i) (total a) i
      else best_from total as' (suc i) best_cost best_idx

  rows_of : Policy F → F → Rail → ℤ → List Action → List ActionCost
  unfolding cost_row
  rows_of p p_fraud rail amount_minor [] = []
  rows_of p p_fraud rail amount_minor (a ∷ as') =
      cost_row p p_fraud rail amount_minor a ∷ rows_of p p_fraud rail amount_minor as'

  unfoldable pub cost_table : Policy F → F → Rail → ℤ → List ActionCost
  unfolding rows_of best_from total_cost
  cost_table p p_fraud rail amount_minor =
      choose (rows_of p p_fraud rail amount_minor cost_candidates)
        (best_from (total_cost p p_fraud rail amount_minor) cost_candidates 0 f.max_float 0)

  -- ALLOW_MONITOR is a tie-break over ALLOW, at a probability of 0.01 or more.
  pub monitored : F → Action → Action
  monitored p_fraud best_action =
      if action_eq best_action allow && f.le (f.decimal 1 2) p_fraud
      then allow_monitor
      else best_action

  unfoldable pub minimise_cost : Policy F → F → Rail → ℤ → Action × ℤ × ℤ
  unfolding cost_table chosen_row monitored
  minimise_cost p p_fraud rail amount_minor =
      let (best_action, best_loss, best_cost) =
        chosen_row (cost_table p p_fraud rail amount_minor) in
      (monitored p_fraud best_action, best_loss, best_cost)

abbrev pub max_amount : ℕ
max_amount = 100_000_000

-- `LadderIndex(at(amount)) >= LadderIndex(target)`
unfoldable pub reaches : (ℕ → Action) → Action → ℕ → Bool
reaches action_at target amount = leb_ℤ (ladder_index target) (ladder_index (action_at amount))

-- The loop `for lo < hi`, on fuel: `none` when the fuel runs out.
unfoldable pub bisect : ℕ → (ℕ → Bool) → ℕ → ℕ → Option ℕ
bisect zero test lo hi = none
bisect (suc fuel) test lo hi =
    let mid = lo + (hi - lo) / 2 in
    let below = bisect fuel test lo mid in
    let above = bisect fuel test (mid + 1) hi in
    if ltb lo hi then (if test mid then below else above) else some lo

-- 27 halvings take 100,000,000 to nothing; one more round ends the loop.
abbrev pub bisect_fuel : ℕ
bisect_fuel = 28

-- `BreakEvenAmount`: `none` in the outer option is fuel run out, in the inner one `(0, false)`.
unfoldable pub break_even_with : (ℕ → Action) → Action → Option (Option ℕ)
break_even_with action_at target =
    if ltb_ℤ (ladder_index (action_at max_amount)) (ladder_index target)
    then some none
    else elim (bisect bisect_fuel (reaches action_at target) 0 max_amount) [
      | none ↦ none
      | some lo ↦ some (some lo)
    ]

module _ {F : Type 0} ⦃f : Float64 F⦄ where
  unfoldable pub break_even_amount : Policy F → F → Rail → Action → Option (Option ℕ)
  unfolding break_even_with cost_table
  break_even_amount p p_fraud rail =
      break_even_with (λ amt. chosen_action (cost_table p p_fraud rail (pos amt)))
