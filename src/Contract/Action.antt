-- ===== src/Contract/Action.antt =====
-- go/internal/contract/decision.go: actions and the ladder.
use payment_infrastructure.Base.{
  ℕ, suc, ◌≡◌, String, Bool, true, false, List, [], ◌∷◌, arith, str_eq, if◌then◌else◌,
}
use payment_infrastructure.Base.Int.{ℤ, pos, negsuc, ◌≤ℤ◌}

-- `other` is a text that is none of the seven constants, such as the empty one.
pub data Action : Type 0 where
  allow allow_monitor step_up step_up_interstitial hold block value_cap : Action
  other : String → Action

-- Go's `==` on actions.
abbrev pub action_eq : Action → Action → Bool
action_eq allow allow = true
action_eq allow_monitor allow_monitor = true
action_eq step_up step_up = true
action_eq step_up_interstitial step_up_interstitial = true
action_eq hold hold = true
action_eq block block = true
action_eq value_cap value_cap = true
action_eq (other s) (other t) = str_eq s t
action_eq _ _ = false

-- `contract.Action(s)`
unfoldable pub action_of : String → Action
action_of s =
    if str_eq s "ALLOW"
    then allow
    else if str_eq s "ALLOW_MONITOR"
    then allow_monitor
    else if str_eq s "STEP_UP"
    then step_up
    else if str_eq s "STEP_UP_INTERSTITIAL"
    then step_up_interstitial
    else if str_eq s "HOLD"
    then hold
    else if str_eq s "BLOCK"
    then block
    else if str_eq s "CAP"
    then value_cap
    else other s

-- `string(a)`
abbrev pub action_text : Action → String
action_text allow = "ALLOW"
action_text allow_monitor = "ALLOW_MONITOR"
action_text step_up = "STEP_UP"
action_text step_up_interstitial = "STEP_UP_INTERSTITIAL"
action_text hold = "HOLD"
action_text block = "BLOCK"
action_text value_cap = "CAP"
action_text (other s) = s

abbrev pub ladder : List Action
ladder = allow ∷ allow_monitor ∷ step_up ∷ step_up_interstitial ∷ hold ∷ []

index_from : List Action → ℕ → Action → ℤ
index_from [] i a = negsuc 0
index_from (x ∷ xs) i a = if action_eq x a then pos i else index_from xs (suc i) a

-- -1 for what is not on the ladder.
unfoldable pub ladder_index : Action → ℤ
unfolding index_from
ladder_index a = index_from ladder 0 a

-- The ladder index lies between -1 and 4.
pub ladder_index_bounds : (a : Action) → (negsuc 0 ≤ℤ ladder_index a) × (ladder_index a ≤ℤ pos 4)
unfolding ladder_index
ladder_index_bounds allow = omega arith
ladder_index_bounds _ = omega arith

-- Equal actions have one ladder index.
pub ladder_index_same : (a b : Action) → action_eq a b ≡ true → ladder_index a ≡ ladder_index b
unfolding ladder_index
ladder_index_same a b h = ground arith
