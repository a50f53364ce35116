-- ===== src/Decide/Cost/Rungs.antt =====
-- go/internal/decide/cost_table.go: the actions that minimiseCost can return.
use payment_infrastructure.Base.{ℕ, zero, suc, List, [], ◌∷◌, arith, All}
use payment_infrastructure.Base.Int.{ℤ, pos, ◌≤ℤ◌}
use payment_infrastructure.Base.Float.{Float64}
use payment_infrastructure.Contract.Action.{Action, allow, allow_monitor, ladder_index}
use payment_infrastructure.Contract.Event.{Rail}
use payment_infrastructure.Decide.Policy.{Policy}
use payment_infrastructure.Decide.Cost.{
  ActionCost, cost_candidates, rows_of, best_from, total_cost, choose, chosen_row, monitored,
  minimise_cost,
}

abbrev pub OnLadder : Action → Type 0
OnLadder a = pos 0 ≤ℤ ladder_index a

pub allow-OnLadder : OnLadder allow
unfolding ladder_index
allow-OnLadder = omega arith

candidates-OnLadder : All OnLadder cost_candidates
unfolding ladder_index
candidates-OnLadder = omega arith

abbrev RowOnLadder : ActionCost → Type 0
RowOnLadder r = OnLadder r.action

choose-OnLadder :
    (rows : List ActionCost) (i : ℕ) → All RowOnLadder rows → All RowOnLadder (choose rows i)
choose-OnLadder [] i h = tt
choose-OnLadder (r ∷ rs) zero h = h
choose-OnLadder (r ∷ rs) (suc i) (h, hs) = (h, choose-OnLadder rs i hs)

chosen_row-OnLadder : (rows : List ActionCost) → All RowOnLadder rows → OnLadder (chosen_row rows).0
unfolding chosen_row
chosen_row-OnLadder [] h = allow-OnLadder
chosen_row-OnLadder (r ∷ rs) (h, hs) = ground (arith, chosen_row-OnLadder rs hs)

module _ {F : Type 0} ⦃f : Float64 F⦄ where
  rows_of-OnLadder :
      (p : Policy F) (p_fraud : F) (rail : Rail) (amount : ℤ) (as' : List Action)
      → All OnLadder as'
      → All RowOnLadder (rows_of p p_fraud rail amount as')
  unfolding rows_of
  rows_of-OnLadder p p_fraud rail amount [] h = tt
  rows_of-OnLadder p p_fraud rail amount (a ∷ as') (h, hs) =
      (h, rows_of-OnLadder p p_fraud rail amount as' hs)

  monitored-OnLadder : (p_fraud : F) (a : Action) → OnLadder a → OnLadder (monitored p_fraud a)
  unfolding monitored
  monitored-OnLadder p_fraud a h = ground (arith, monitor-OnLadder)
    where
      monitor-OnLadder : OnLadder allow_monitor
      monitor-OnLadder = unfold ladder_index in omega arith

  -- Whatever the economics, the cheapest action is a rung of the ladder.
  pub minimise_cost-OnLadder :
      (p : Policy F) (p_fraud : F) (rail : Rail) (amount : ℤ)
      → OnLadder (minimise_cost p p_fraud rail amount).0
  unfolding minimise_cost
  minimise_cost-OnLadder p p_fraud rail amount =
      let rows = rows_of p p_fraud rail amount cost_candidates in
      let best = best_from (total_cost p p_fraud rail amount) cost_candidates 0 f.max_float 0 in
      monitored-OnLadder p_fraud (chosen_row (choose rows best)).0 (
        chosen_row-OnLadder (choose rows best) (
          choose-OnLadder rows best
            (rows_of-OnLadder p p_fraud rail amount cost_candidates candidates-OnLadder)))
