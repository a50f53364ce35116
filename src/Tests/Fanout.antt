-- ===== src/Tests/Fanout.antt =====
-- The theorems on go/internal/fanout/hub.go with a slow reader and a quick one.
use payment_infrastructure.Base.{◌≤◌, ◌≡◌, refl, false, List, [], ◌∷◌, ◌++◌, some, arith}
use payment_infrastructure.Audit.{Bytes}
use payment_infrastructure.Fanout.{
  Client, Hub, HubMove, publishes, connects, leaves, delivers, beats, hub_run, find,
}
use payment_infrastructure.Fanout.Bounded.{promised_run, IsBounded, hub_run-IsBounded}
use payment_infrastructure.Fanout.Delivery.{events_of, turns, hub_run-Served}

abbrev waiting : Client
waiting = record { queue = (1 ∷ []) ∷ (2 ∷ []) ∷ []; written = [] }

abbrev hub : Hub
hub = record { clients = (1, waiting) ∷ (2, waiting) ∷ [] }

abbrev moves : List HubMove
moves =
    delivers 1 false
    ∷ publishes "decision" (some (123 ∷ []))
    ∷ beats 1 false
    ∷ leaves 2
    ∷ delivers 1 false
    ∷ connects 3
    ∷ []

hub-waiting : find 1 hub.clients ≡ some waiting
unfolding find
hub-waiting = refl

bounded : IsBounded (find 1 hub.clients)
unfolding find
bounded = omega arith

hub_run-IsBounded_example :
    (find 1 (hub_run moves hub).clients ≡ promised_run 1 moves (find 1 hub.clients))
    × IsBounded (find 1 (hub_run moves hub).clients)
hub_run-IsBounded_example = hub_run-IsBounded 1 moves hub bounded

two_turns : 2 ≤ turns 1 moves
unfolding turns
two_turns = omega arith

hub_run-Served_example :
    (c' : Client) × (later : List Bytes) × (find 1 (hub_run moves hub).clients ≡ some c')
    × (events_of c'.written ≡ events_of [] ++ (events_of ((1 ∷ []) ∷ (2 ∷ []) ∷ []) ++ later))
hub_run-Served_example =
    hub_run-Served 1 moves hub waiting hub-waiting
      ((λ h. refl), (tt, ((λ h. refl), (refl, ((λ h. refl), (refl, tt)))))) two_turns
