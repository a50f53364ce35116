-- ===== src/Tests/Lanes.antt =====
-- The theorems on the asynchronous lane and the latency ring at sample runs.
use payment_infrastructure.Base.{
  ◌≡◌, refl, ◌⊎◌, ◌++◌, List, [], ◌∷◌, ok, length, map, ◌<◌, arith, String,
}
use payment_infrastructure.Base.Int.{ℤ, pos, add64, wrap64, ◌+ℤ◌}
use payment_infrastructure.Persist.Shipper.{
  Shipper, offer, receive, step, new_shipper, enqueue, take_next, received,
}
use payment_infrastructure.Persist.Shipper.Order.{
  Log, Reaches, start, move, IsConsistent, Reaches-IsConsistent,
}
use payment_infrastructure.Obs.Latency.{
  Sample, LatencyTracker, new_latency_tracker, snapshot, percentiles,
}
use payment_infrastructure.Base.Sort.{sort_floats}
use payment_infrastructure.Obs.Latency.Window.{record_all, record_all-keeps_latest}
use payment_infrastructure.Tests.Sample.{millionths}

-- Two decisions are sent and one of them is taken before their goroutines count them, and a third is shed.
abbrev final : Shipper String
final = record {
  queue = "b" ∷ [];
  capacity = 1;
  async_shed_total = pos 1;
  queue_depth = pos 0;
  uncounted = 2;
  worker = received "a";
}

abbrev final_log : Log String
final_log = record { accepted = "a" ∷ "b" ∷ []; shed = "c" ∷ []; emitted = [] }

final_Reaches : Reaches 1 final_log final
unfolding step enqueue take_next new_shipper add64 wrap64 ◌+ℤ◌
final_Reaches =
    move (offer "c") (move (offer "b") (move receive (move (offer "a") start refl) refl) refl) refl

Reaches-IsConsistent_example : IsConsistent 1 final_log final
Reaches-IsConsistent_example = Reaches-IsConsistent final_Reaches

abbrev sample : ℤ → Sample ℤ
sample ms = record { total_ms = ms; queue_delay_ms = pos 0; service_ms = ms }

abbrev recorded : List (Sample ℤ)
recorded = sample (pos 1) ∷ sample (pos 2) ∷ sample (pos 3) ∷ []

record_all-keeps_latest_example :
    (t : LatencyTracker ℤ) × (record_all recorded (new_latency_tracker 2) ≡ ok t)
    × (latest : List (Sample ℤ)) × (snapshot t
        ≡ percentiles (sort_floats (map (λ s. s.total_ms) latest)))
    × (((latest ≡ recorded) × (length recorded < 2))
        ⊎ ((gone : List (Sample ℤ)) × (older : List (Sample ℤ)) × (recent : List (Sample ℤ))
            × (recorded ≡ gone ++ (older ++ recent))
            × (latest ≡ recent ++ older)
            × (length latest ≡ 2)))
record_all-keeps_latest_example = record_all-keeps_latest 2 recorded (omega arith)
