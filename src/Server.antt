-- ===== src/Server.antt =====
-- go/cmd/nazar/server.go and handlers.go: the decision path, from the body of a request to the answer,
-- and the asynchronous lane behind it. What the environment gives a request is a record of its own.
-- `Decide` sets the rule features in the vector that it is given, so the vector that the novelty engine
-- reads is the decision's. SQL and the profile store's Apply are calls that the state lists.
pub mod Events
pub mod Advisories
pub mod Tuning
pub mod Outage
pub mod Replays
pub mod Totality
use payment_infrastructure.Base.{
  ℕ, zero, suc, String, Bool, true, false, List, [], ◌∷◌, ◌++◌, Option, none, some, Map, Run, ok,
  panic, ◌>>=◌, str_eq, concat, if◌then◌else◌,
}
use payment_infrastructure.Base.Int.{ℤ, pos}
use payment_infrastructure.Base.Float.{Float64}
use payment_infrastructure.Audit.{Bytes, Hashing}
use payment_infrastructure.Contract.Event.{Event}
use payment_infrastructure.Contract.Decision.{Decision}
use payment_infrastructure.Contract.Feature.{FeatureVector}
use payment_infrastructure.Contract.Profile.{ProfileBundle, GraphResult}
use payment_infrastructure.Features.{compute}
use payment_infrastructure.Features.Numbers.{Math}
use payment_infrastructure.Decide.Policy.{Policy, Pointer}
use payment_infrastructure.Decide.Engine.{Engine, Input, swap}
use payment_infrastructure.Decide.Sequence.{decide}
use payment_infrastructure.Graph
use payment_infrastructure.Graph.{GraphEngine, RingResult, on_event}
use payment_infrastructure.Novelty
use payment_infrastructure.Novelty.{NoveltyEngine, observe}
use payment_infrastructure.Consortium.{Hmac, Tokeniser, QueryReply}
use payment_infrastructure.Wal.{Wal, Codec, Answers, append}
use payment_infrastructure.Persist.Shipper.{Shipper, enqueue}
use payment_infrastructure.Obs.Latency.{Sample, LatencyTracker, record_sample}
use payment_infrastructure.Fanout.{Hub, publish}
use payment_infrastructure.Profile.Empty.{empty_bundle}
use payment_infrastructure.Profile.Idempotency.{
  Loaded, not_found, load_error, found, load_decision, store_decision,
}
use payment_infrastructure.Server.Events.{
  validate_event, stamp_event, degraded_list, novelty_finding, LiveRow, live_monitor_row,
  is_setup_traffic, sorted_keys,
}
use payment_infrastructure.Server.Advisories.{consortium_advisories}

-- A goroutine of `applyAsync` that has not run yet.
pub record AsyncJob (F : Type 0) : Type 0 where
  pub event : Event
  pub decision : Decision F

unfoldable pub take_job :
    {F : Type 0} → List (AsyncJob F) → ℕ → Option (AsyncJob F × List (AsyncJob F))
take_job [] i = none
take_job (job ∷ rest) zero = some (job, rest)
take_job (job ∷ rest) (suc i) = elim (take_job rest i) [
  | none ↦ none
  | some (chosen, others) ↦ some (chosen, job ∷ others)
]

-- A call that leaves the program.
pub data OutsideCall : Type 0 where
  apply_profile : Event → OutsideCall
  emit_transaction : Event → OutsideCall

pub record Server (F : Type 0) : Type 0 where
  pub engine : Engine F
  pub policy : Policy F
  pub graph : GraphEngine
  pub novelty : NoveltyEngine F
  pub consortium : Option (Hmac × Tokeniser)
  pub wal : Wal
  pub hub : Hub
  pub latency : LatencyTracker F
  pub shipper : Shipper (Decision F)
  pub stored : Map Bytes
  pub jobs : List (AsyncJob F)
  pub calls : List OutsideCall

-- What the code calls.
pub record Encoders (F : Type 0) : Type 0 where
  pub hashing : Hashing
  pub codec : Codec F
  pub marshal_row : LiveRow F → Option Bytes

-- What the environment gives one request: clock readings and durations, the profile that the store
-- loads, if it does in time, the database's answer, the log's, and what fails.
pub record Surroundings (F : Type 0) : Type 0 where
  pub t0_ms : ℤ
  pub decided_ms : ℤ
  pub queue_delay_ms : F
  pub service_ms : F
  pub total_ms : F
  pub load_fails : Bool
  pub store_fails : Bool
  pub profile : Option (ProfileBundle F)
  pub query : String → QueryReply F
  pub hours_since : ℤ → F
  pub swapped : Option (Pointer (Policy F))
  pub wal_answers : Answers

module _ {F : Type 0} ⦃f : Float64 F⦄ where
  -- `LoadProfileWithDeadline`, from what the store's Load returns in time.
  unfoldable pub load_profile_with_deadline : Option (ProfileBundle F) → ProfileBundle F
  load_profile_with_deadline none = empty_bundle
  load_profile_with_deadline (some pb) = pb

  unfoldable pub graph_result : RingResult F → GraphResult F
  graph_result gr = record {
    evaluated = true;
    staleness_sec = f.of_int (pos 0);
    ring_score = gr.ring_score;
    ring_size = gr.ring_size;
    component_bank_count = gr.component_bank_count;
    hops_to_cashout = gr.hops_to_cashout;
    device_shared_degree = gr.device_shared_degree;
  }

  -- What Decide is given.
  unfoldable pub input_of :
      Surroundings F → Event → ProfileBundle F → FeatureVector F → Server F → Input F
  unfolding graph_result
  input_of env ev pb fv s = record {
    event = ev;
    profile = pb;
    features = fv;
    degraded = degraded_list pb;
    graph = some (graph_result (Graph.evaluate ev.creditor_account ev.accepted_at_ms s.graph));
    advisories =
        consortium_advisories s.consortium env.query s.policy.ladder.min_reporter_reputation
          env.hours_since ev.creditor_account;
  }

module _ {F : Type 0} ⦃f : Float64 F⦄ ⦃m : Math F⦄ where
  -- The decision with its novelty finding and its times, before the log stamps it.
  unfoldable pub decided : Surroundings F → Event → Server F → Run (Decision F)
  unfolding load_profile_with_deadline input_of
  decided env ev s = do
    let pb = load_profile_with_deadline env.profile
    fv ← compute ev pb ev.accepted_at_ms
    outcome ← decide s.engine env.swapped (input_of env ev pb fv s)
    let d = outcome.0
    finding ← novelty_finding (Novelty.evaluate d.features.values s.novelty)
    ok (record d {
      findings = d.findings ++ finding ∷ [];
      decided_at_ms = env.decided_ms;
      queue_delay_ms = env.queue_delay_ms;
      service_ms = env.service_ms;
    })

module _ {F : Type 0} where
  unfoldable pub latency_sample : Decision F → Sample F
  latency_sample d = record {
    total_ms = d.total_ms;
    queue_delay_ms = d.queue_delay_ms;
    service_ms = d.service_ms;
  }

module _ {F : Type 0} ⦃f : Float64 F⦄ ⦃m : Math F⦄ (enc : Encoders F) where
  -- The log's answer, and the decision as it is stored and returned.
  unfoldable pub logged : Surroundings F → Decision F → Server F → Wal × Decision F
  logged env d s =
      let (wal, stamped, _) = append enc.hashing enc.codec env.wal_answers d s.wal in
      (wal, record stamped { total_ms = env.total_ms })

  -- The server after the idempotency store, the broadcast, and the start of the asynchronous goroutine.
  -- Errors of the log and of the store are only printed.
  unfoldable pub settled :
      Surroundings F → Event → Wal → Decision F → LatencyTracker F → Server F → Server F
  settled env ev wal final latency s = record s {
    engine = swap env.swapped s.engine;
    wal = wal;
    stored = (store_decision enc.codec env.store_fails ev.end_to_end_id final s.stored).0;
    latency = latency;
    hub =
        if is_setup_traffic ev.end_to_end_id
        then s.hub
        else publish "decision" (enc.marshal_row (live_monitor_row ev final)) s.hub;
    jobs = s.jobs ++ record { event = ev; decision = final } ∷ [];
  }

  -- The path after the decision is made.
  unfoldable pub persist :
      Surroundings F → Event → Decision F → Server F → Run (Server F × Decision F)
  unfolding logged latency_sample settled
  persist env ev d s =
      let (wal, final) = logged env d s in
      do
        latency ← record_sample (latency_sample final) s.latency
        ok (settled env ev wal final latency s, final)

  unfoldable pub fresh_decision :
      Surroundings F → Event → Server F → Run (Server F × Decision F × Bool)
  unfolding decided persist
  fresh_decision env ev s = do
    d ← decided env ev s
    done ← persist env ev d s
    ok (done.0, done.1, false)

  -- `DecideAndPersist`: the server, the decision, and whether it is a stored one.
  unfoldable pub decide_and_persist :
      Surroundings F → Event → Server F → Run (Server F × Decision F × Bool)
  unfolding fresh_decision
  decide_and_persist env event s =
      let ev = stamp_event env.t0_ms event in
      elim (load_decision enc.codec env.load_fails ev.end_to_end_id s.stored) [
        | found d ↦ ok (s, d, true)
        | _ ↦ fresh_decision env ev s
      ]

  -- One goroutine of `applyAsync`.
  unfoldable pub apply_async : AsyncJob F → Server F → Server F
  apply_async job s = record s {
    calls = s.calls ++ (apply_profile job.event ∷ emit_transaction job.event ∷ []);
    shipper = (enqueue job.decision s.shipper).0;
    graph =
        on_event job.event.debtor_account job.event.creditor_account job.event.device_id
          job.event.accepted_at_ms s.graph;
    novelty =
        observe job.decision.features.values (sorted_keys job.decision.features.values) s.novelty;
  }

  -- Goroutine number `i` of those that wait runs; they may run in any order.
  unfoldable pub run_async : ℕ → Server F → Server F
  unfolding apply_async take_job
  run_async i s = elim (take_job s.jobs i) [
    | none ↦ s
    | some (job, rest) ↦ apply_async job (record s { jobs = rest })
  ]

-- The answer of `handleDecide`.
pub data Response (F : Type 0) : Type 0 where
  bad_request : String → Response F
  answer : Decision F → (replayed : Bool) → Response F

module _ {F : Type 0} ⦃f : Float64 F⦄ ⦃m : Math F⦄ (enc : Encoders F) where
  -- `handleDecide` from the body as an event, or an error's text.
  unfoldable pub handle_decide :
      Surroundings F → (error : String) → Option Event → Server F → Run (Server F × Response F)
  unfolding decide_and_persist validate_event
  handle_decide env error none s = ok (s, bad_request (concat "invalid JSON: " error))
  handle_decide env error (some ev) s =
      if str_eq (validate_event ev) ""
      then (do done ← decide_and_persist enc env ev s; ok (done.0, answer done.1 done.2))
      else ok (s, bad_request (validate_event ev))
