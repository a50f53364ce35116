-- ===== src/Persist/Shipper.antt =====
-- go/internal/persist/shipper.go: the bounded asynchronous lane. Enqueue runs in any number of
-- goroutines and Run in one, so each of their atomic operations is a move of its own, and a run is a
-- sequence of moves. The channel has a buffer of at least one place.
pub mod Order
use payment_infrastructure.Base.{
  ℕ, zero, suc, ◌-◌, Bool, true, false, List, [], ◌∷◌, ◌++◌, Option, none, some, length, ltb,
  if◌then◌else◌,
}
use payment_infrastructure.Base.Int.{ℤ, pos, negsuc, add64}

-- Where the goroutine of Run is: at the select, after the receive, before the call of Emit, or done.
pub data Worker (D : Type 0) : Type 0 where
  selecting : Worker D
  received : D → Worker D
  emitting : D → Worker D
  stopped : Worker D

-- `uncounted` is the number of goroutines that have sent, and have not yet added to the depth.
pub record Shipper (D : Type 0) : Type 0 where
  pub queue : List D
  pub capacity : ℕ
  pub async_shed_total : ℤ
  pub queue_depth : ℤ
  pub uncounted : ℕ
  pub worker : Worker D

pub data Move (D : Type 0) : Type 0 where
  offer : D → Move D
  count_in : Move D
  receive : Move D
  count_out : Move D
  emit : Move D
  cancel : Move D

-- What a move does outside the shipper.
pub data Effect (D : Type 0) : Type 0 where
  accepts : D → Effect D
  sheds : D → Effect D
  emits : D → Effect D
  silent : Effect D

module _ {D : Type 0} where
  unfoldable pub new_shipper : ℕ → Shipper D
  new_shipper buffer_size = record {
    queue = [];
    capacity = buffer_size;
    async_shed_total = pos 0;
    queue_depth = pos 0;
    uncounted = 0;
    worker = selecting;
  }

  -- The select of Enqueue.
  unfoldable pub enqueue : D → Shipper D → Shipper D × Effect D
  enqueue d s =
      if ltb (length s.queue) s.capacity
      then (record s { queue = s.queue ++ d ∷ []; uncounted = suc s.uncounted }, accepts d)
      else (record s { async_shed_total = add64 s.async_shed_total (pos 1) }, sheds d)

  unfoldable pub count : Shipper D → ℕ → Option (Shipper D × Effect D)
  count s zero = none
  count s (suc n) =
      some (record s { queue_depth = add64 s.queue_depth (pos 1); uncounted = n }, silent)

  -- The receive of Run, if the worker is at the select and the queue is not empty.
  unfoldable pub take_next : Shipper D → Worker D → List D → Option (Shipper D × Effect D)
  take_next s selecting (d ∷ queue) = some (record s { queue = queue; worker = received d }, silent)
  take_next s _ _ = none

  unfoldable pub run_count : Shipper D → Worker D → Option (Shipper D × Effect D)
  run_count s (received d) =
      some (record s { queue_depth = add64 s.queue_depth (negsuc 0); worker = emitting d }, silent)
  run_count s _ = none

  -- Emit's error is only logged.
  unfoldable pub run_emit : Shipper D → Worker D → Option (Shipper D × Effect D)
  run_emit s (emitting d) = some (record s { worker = selecting }, emits d)
  run_emit s _ = none

  unfoldable pub run_cancel : Shipper D → Worker D → Option (Shipper D × Effect D)
  run_cancel s selecting = some (record s { worker = stopped }, silent)
  run_cancel s _ = none

  -- One move, if it can be made.
  unfoldable pub step : Move D → Shipper D → Option (Shipper D × Effect D)
  unfolding enqueue count take_next run_count run_emit run_cancel
  step (offer d) s = some (enqueue d s)
  step count_in s = count s s.uncounted
  step receive s = take_next s s.worker s.queue
  step count_out s = run_count s s.worker
  step emit s = run_emit s s.worker
  step cancel s = run_cancel s s.worker
