-- ===== src/Graph/Payers.antt =====
-- go/internal/graph/engine.go: the ring size is the number of distinct payers.
use payment_infrastructure.Base.{
  Bool, true, false, String, List, [], ◌∷◌, ◌++◌, Map, str_eq, if◌then◌else◌,
}
use payment_infrastructure.Base.Int.{ℤ}
use payment_infrastructure.Graph.{GraphEngine, new_graph, on_event}

-- One call of OnEvent.
pub record Payment : Type 0 where
  pub payer : String
  pub payee : String
  pub device_id : String
  pub at_ms : ℤ

-- The graph after some payments, the last one first in the list.
unfoldable pub on_events : List Payment → GraphEngine
unfolding on_event new_graph
on_events [] = new_graph
on_events (p ∷ ps) = on_event p.payer p.payee p.device_id p.at_ms (on_events ps)

unfoldable pub member : String → List String → Bool
member x [] = false
member x (y ∷ ys) = if str_eq y x then true else member x ys

-- The distinct payers of a payee.
unfoldable pub payers_of : String → List Payment → List String
unfolding member
payers_of payee [] = []
payers_of payee (p ∷ ps) =
    let rest = payers_of payee ps in
    if str_eq p.payee payee
    then (if member p.payer rest then rest else rest ++ p.payer ∷ [])
    else rest

keys : {V : Type 0} → Map V → List String
keys [] = []
keys (entry ∷ m) = entry.0 ∷ keys m
