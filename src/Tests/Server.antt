-- ===== src/Tests/Server.antt =====
-- The theorems on the decision path of go/cmd/nazar at a new server.
use payment_infrastructure.Base.{
  ◌≡◌, refl, Bool, true, false, [], ◌∷◌, some, none, ok, arith, some-eq, ap, length, sym, lookup,
}
use payment_infrastructure.Base.Int.{ℤ, pos}
use payment_infrastructure.Audit.{new_chain}
use payment_infrastructure.Contract.Event.{Event}
use payment_infrastructure.Contract.Decision.{Decision}
use payment_infrastructure.Contract.Feature.{FeatureVector}
use payment_infrastructure.Contract.Finding.{Finding}
use payment_infrastructure.Features.{compute}
use payment_infrastructure.Features.Honest.{IsHonest}
use payment_infrastructure.Decide.Engine.{snapshot}
use payment_infrastructure.Decide.Sequence.{decide}
use payment_infrastructure.Decide.Sequence.Verdict.{Verdict}
use payment_infrastructure.Graph.{new_graph}
use payment_infrastructure.Novelty.{new_novelty}
use payment_infrastructure.Consortium.{query_failed}
use payment_infrastructure.Wal.{all_written}
use payment_infrastructure.Persist.Shipper.{new_shipper}
use payment_infrastructure.Obs.Latency.{new_latency_tracker}
use payment_infrastructure.Obs.Latency.Window.{new-IsWindow}
use payment_infrastructure.Fanout.{new_hub}
use payment_infrastructure.Profile.Idempotency.{Loaded, load_decision}
use payment_infrastructure.Server.{
  Server, Encoders, Surroundings, decide_and_persist, decided, run_async, input_of,
  load_profile_with_deadline,
}
use payment_infrastructure.Server.Replays.{async_job, request, happen_all, happen, repeat_answers}
use payment_infrastructure.Server.Totality.{
  IsReady, HasHours, first_answer, always_answers, decided-Verdict, with_novelty,
}
use payment_infrastructure.Tests.Sample.{millionths, engine, event, policy_version}
use payment_infrastructure.Tests.Features.{rough, daily}
use payment_infrastructure.Tests.Wal.{hashing, codec, sample_decision}

abbrev encoders : Encoders ℤ
encoders = record { hashing = hashing; codec = codec; marshal_row = λ row. some (123 ∷ []) }

abbrev pub server : Server ℤ
server = record {
  engine = engine;
  policy = policy_version "v1";
  graph = new_graph;
  novelty = new_novelty;
  consortium = none;
  wal = record { file = []; chain = new_chain (pos 0) };
  hub = new_hub;
  latency = new_latency_tracker 8;
  shipper = new_shipper 4;
  stored = [];
  jobs = [];
  calls = [];
}

abbrev pub surroundings : Surroundings ℤ
surroundings = record {
  t0_ms = pos 1_700_000_000_000;
  decided_ms = pos 1_700_000_000_004;
  queue_delay_ms = pos 0;
  service_ms = pos 4_000_000;
  total_ms = pos 5_000_000;
  load_fails = false;
  store_fails = false;
  profile = some daily;
  query = λ token. query_failed;
  hours_since = λ t. pos 0;
  swapped = none;
  wal_answers = record { write = all_written; sync = true; truncate = true; seek = true };
}

abbrev payment_event : Event
payment_event = event "shop" (pos 50_000)

server-IsReady : IsReady server
server-IsReady = record {
  ruled = (refl, (refl, tt));
  seen = [];
  window = new-IsWindow 8 (omega arith);
}

surroundings-HasHours : HasHours surroundings
surroundings-HasHours pb h = ap (λ x. length x.payer.hour_hist) (sym (some-eq h))

no_decision : load_decision codec false payment_event.end_to_end_id [] ≡ Loaded.not_found
unfolding load_decision lookup
no_decision = refl

abbrev first :
    (s1 : Server ℤ) × (d : Decision ℤ) × (decide_and_persist encoders surroundings payment_event
        server
      ≡ ok (s1, d, false))
first =
    first_answer encoders surroundings payment_event server server-IsReady surroundings-HasHours
      no_decision

first-async : happen_all encoders (async_job 0 ∷ []) first.0 ≡ ok (run_async encoders 0 first.0)
unfolding happen_all happen
first-async = refl

repeat_answers_example :
    decide_and_persist encoders surroundings payment_event (run_async encoders 0 first.0)
    ≡ ok (run_async encoders 0 first.0, sample_decision, true)
repeat_answers_example =
    repeat_answers encoders surroundings payment_event server first.0 (run_async encoders 0 first.0)
      first.1 sample_decision (65 ∷ []) (async_job 0 ∷ []) surroundings payment_event first.2 refl
      refl refl (tt, tt) first-async refl refl

decided-Verdict_example :
    let pb = load_profile_with_deadline (some daily) in
    (fv : FeatureVector ℤ) × (d : Decision ℤ) × (x : Finding ℤ) × (compute payment_event pb
        payment_event.accepted_at_ms
      ≡ ok fv)
    × IsHonest fv
    × (decide engine none (input_of surroundings payment_event pb fv server) ≡ ok (d, d.findings))
    × Verdict (snapshot engine) none (input_of surroundings payment_event pb fv server) d
    × (decided surroundings payment_event server ≡ ok (with_novelty surroundings d x))
    × (x.signal_id ≡ "novelty")
decided-Verdict_example =
    decided-Verdict surroundings payment_event server (refl, (refl, tt)) surroundings-HasHours

always_answers_example :
    (s' : Server ℤ) × (happen_all encoders
        (request surroundings payment_event ∷ async_job 0 ∷ [])
        server
      ≡ ok s')
    × ((out : Server ℤ × Decision ℤ × Bool) × (decide_and_persist encoders surroundings
            payment_event s'
          ≡ ok out))
always_answers_example =
    always_answers encoders (request surroundings payment_event ∷ async_job 0 ∷ []) server
      surroundings payment_event server-IsReady (surroundings-HasHours, (tt, tt))
      surroundings-HasHours
