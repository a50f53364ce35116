-- ===== src/Tests/Graph.antt =====
-- The theorems on go/internal/graph/engine.go at a small ring.
use payment_infrastructure.Base.{◌≤◌, ◌≡◌, true, String, List, [], ◌∷◌, length}
use payment_infrastructure.Base.Int.{pos}
use payment_infrastructure.Graph.{cashout_depth}
use payment_infrastructure.Graph.Payers.{Payment, on_events}
use payment_infrastructure.Graph.Walk.{IsWalk, cashout_depth-IsWalk}

abbrev paid : String → String → Payment
paid payer payee = record { payer = payer; payee = payee; device_id = "phone"; at_ms = pos 1_000 }

abbrev ring : List Payment
ring = paid "a-1" "m-1" ∷ paid "b-1" "m-1" ∷ paid "a-1" "m-1" ∷ paid "m-1" "n-1" ∷ []

cashout_depth-IsWalk_example :
    (stops : List String) × IsWalk
      (on_events ring).payer_to_payees
      (pos 2_000)
      "m-1"
      (("m-1", true) ∷ [])
      stops
    × (cashout_depth "m-1" (pos 2_000) 5 (on_events ring) ≡ length stops)
    × (length stops ≤ 5)
cashout_depth-IsWalk_example = cashout_depth-IsWalk "m-1" (pos 2_000) 5 (on_events ring)
