-- ===== src/Tests/Sample.antt =====
-- Sample inputs for go/internal/decide: numbers in millionths in the place of float64, a policy, an
-- engine and payments.
use payment_infrastructure.Base.{
  ℕ, ◌+◌, ◌-◌, ◌*◌, ◌/◌, ◌^◌, ◌≡◌, true, false, List, [], ◌∷◌, none, some, decimal, arith, String,
}
use payment_infrastructure.Base.Int.{
  ℤ, pos, ◌+ℤ◌, ◌-ℤ◌, sub_ℕ, pos_part, neg_part, ltb_ℤ, leb_ℤ, eqb_ℤ,
}
use payment_infrastructure.Base.Float.{Float64}
use payment_infrastructure.Contract.Event.{Event}
use payment_infrastructure.Contract.Feature.{new_feature_vector}
use payment_infrastructure.Contract.Profile.{ProfileBundle}
use payment_infrastructure.Rules.{RuleEngine, bool_value, policy, regulatory, caps, steps_up}
use payment_infrastructure.Decide.Policy.{Policy, Pointer, new_policy_ref}
use payment_infrastructure.Decide.Cost.Argmin.{IsStrict}
use payment_infrastructure.Decide.Engine.{Engine, Input, scored}
use payment_infrastructure.Decide.Ladder.{Advisory}

unfoldable pub million : ℕ
million = 1_000_000

unfoldable pub scale : ℤ → ℤ
unfolding million
scale n = sub_ℕ (pos_part n * million) (neg_part n * million)

unfoldable pub unscale : ℤ → ℤ
unfolding million
unscale n = sub_ℕ (pos_part n / million) (neg_part n / million)

unfoldable pub multiply : ℤ → ℤ → ℤ
multiply a b =
    sub_ℕ (pos_part a * pos_part b + neg_part a * neg_part b)
      (pos_part a * neg_part b + neg_part a * pos_part b)

instance unfoldable pub millionths : Float64 ℤ
unfolding scale unscale multiply
millionths = record {
  of_int = scale;
  decimal = λ m k. pos ((m * 1_000_000 + (10 ^ k - 1)) / 10 ^ k);
  to_int = unscale;
  nan = pos 0;
  is_nan = λ x. false;
  is_inf = λ x. false;
  max_float = pos (10 ^ 30);
  plus = λ a b. a +ℤ b;
  minus = λ a b. a -ℤ b;
  times = λ a b. unscale (multiply a b);
  over = λ a b. pos (pos_part a * 1_000_000 / pos_part b);
  lt = ltb_ℤ;
  le = leb_ℤ;
  eq = eqb_ℤ;
  fixed = λ k x. decimal (pos_part x / 1_000_000);
}

ltb_ℤ_irrefl : (x : ℤ) → ltb_ℤ x x ≡ false
ltb_ℤ_irrefl x = ground arith

ltb_ℤ_trans : (x y z : ℤ) → ltb_ℤ x y ≡ true → ltb_ℤ y z ≡ true → ltb_ℤ x z ≡ true
ltb_ℤ_trans x y z p q = ground arith

pub ltb_ℤ-IsStrict : IsStrict ℤ
unfolding millionths
ltb_ℤ-IsStrict = record { irrefl = ltb_ℤ_irrefl; trans = ltb_ℤ_trans }

-- Half the value is lost to fraud, and a hold stops it all.
abbrev pub policy_version : String → Policy ℤ
policy_version version = record {
  version = version;
  effective_from = "2025-01-01";
  approved_by = "risk" ∷ [];
  economics = record {
    loss_given_fraud = ("UPI", pos 500_000) ∷ [];
    friction_cost_minor =
        ("step_up", pos 100) ∷ ("step_up_interstitial", pos 300) ∷ ("hold", pos 5_000) ∷ [];
    abandon_prob =
        ("step_up", pos 10_000) ∷ ("step_up_interstitial", pos 20_000) ∷ ("hold", pos 100_000) ∷ [];
    stop_prob =
        ("step_up", pos 500_000)
        ∷ ("step_up_interstitial", pos 700_000)
        ∷ ("hold", pos 1_000_000)
        ∷ [];
    margin_minor = pos 200;
  };
  ladder = record {
    rungs = "ALLOW" ∷ "ALLOW_MONITOR" ∷ "STEP_UP" ∷ "STEP_UP_INTERSTITIAL" ∷ "HOLD" ∷ [];
    advisory_max_rung = "STEP_UP_INTERSTITIAL";
    advisory_max_steps = pos 1;
    min_reporter_reputation = pos 600_000;
    max_advisory_age_hours = pos 72_000_000;
    min_advisory_confidence = pos 500_000;
  };
  trusted_pair = record {
    min_txn_count_90d = pos 5;
    amount_headroom_ratio = pos 1_500_000;
    sample_rate = pos 0;
  };
  degradation = record { value_cap_minor = pos 10_000 };
  control_group = record { fraction = pos 0; exempt = [] };
}

abbrev pub pinned : Pointer (Policy ℤ)
pinned = record { address = 1; target = policy_version "v1" }

abbrev pub newer : Pointer (Policy ℤ)
newer = record { address = 2; target = policy_version "v2" }

-- A policy rule and a regulatory one, which fires above an amount.
abbrev pub rule_engine : RuleEngine ℤ
rule_engine = record {
  version = "r1";
  rules =
      record {
        def = record {
          id = "RAIL-101";
          class = policy;
          authority = "";
          verified_on = "";
          predicate = "true";
          action = steps_up;
          cap_minor = pos 0;
          rails = "UPI" ∷ [];
          explanation = "rate above the baseline";
        };
        program = λ a. bool_value true;
      }
      ∷ record {
        def = record {
          id = "RAIL-001";
          class = regulatory;
          authority = "";
          verified_on = "";
          predicate = "event.amount_minor > 9000000";
          action = caps;
          cap_minor = pos 500_000;
          rails = [];
          explanation = "cooling period";
        };
        program = λ a. bool_value (ltb_ℤ (pos 9_000_000) a.event_amount_minor);
      }
      ∷ [];
}

abbrev pub engine : Engine ℤ
engine = record {
  policy = pinned;
  rules = rule_engine;
  score = λ fv. scored (pos 400_000) (("F01", pos 120_000) ∷ []);
  calibrate = λ x. x;
  prevalence = record { version = "p1"; train_prevalence = pos 0; natural_prevalence = pos 0 };
  blocklist = record {
    entries =
        (
          "mule",
          record { account = "mule"; list = "local"; reason = "reported"; reporter_count = pos 3 },
        )
        ∷ [];
  };
  live_ref = some (new_policy_ref pinned);
  model_bundle_version = "m1";
  policy_version = "v1";
  rules_version = "r1";
  signal_registry_version = "s1";
}

abbrev pub event : String → ℤ → Event
event account amount = record {
  end_to_end_id = "e2e-1";
  event_ts_ms = pos 1;
  accepted_at_ms = pos 2;
  rail = "UPI";
  channel = "app";
  bank_instance = "b";
  debtor_account = "payer";
  debtor_vpa = "";
  creditor_account = account;
  creditor_vpa = "";
  creditor_ifsc = "";
  instructed_amount_minor = amount;
  currency = "INR";
  device_id = "";
  ip = "";
  asn = pos 0;
  geo_cell = "";
  session_id = "";
  app_version = "";
  initiation = "";
  remittance_info = "";
  claimed = record { creditor_account_opened_ms = pos 0; device_first_seen_ms = pos 0 };
  schema_version = 1;
}

-- A pair with a history of payments of up to 1000.00.
abbrev pub profile : ProfileBundle ℤ
profile = record {
  payer = record {
    present = true;
    degraded = false;
    amt_median_minor = pos 0;
    amt_mad_minor = pos 0;
    amt_p95_minor = pos 0;
    amt_p99_minor = pos 0;
    hour_hist = [];
    payee_set_size = pos 0;
    device_set_size = pos 0;
    account_age_days = pos 0;
    txn_count_lifetime = pos 0;
    txn_1h_p999 = pos 0;
    baseline_version = "";
    baseline_updated_at_ms = pos 0;
    known_payees = [];
    known_devices = [];
    known_asns = [];
    last_ts_ms = pos 0;
    last_geo_cell = "";
    last_amt_minor = pos 0;
    txn_velocity_1m = pos 0;
    txn_velocity_5m = pos 0;
    txn_velocity_1h = pos 0;
    txn_velocity_24h = pos 0;
    amt_sum_1h_minor = pos 0;
    amt_sum_24h_minor = pos 0;
    amt_mean_30d_daily_minor = pos 0;
  };
  payee = record {
    present = true;
    degraded = false;
    first_seen_by_us_at_ms = pos 0;
    fanin_1h = pos 0;
    fanin_24h = pos 0;
    inflow_sum_1h_minor = pos 0;
    outflow_sum_1h_minor = pos 0;
    fwd_latency_p50_sec = pos 0;
    fwd_sample_n = pos 0;
    fwd_updated_at_ms = pos 0;
    payer_inflow_share_24h = [];
    distinct_payer_banks_1h = pos 0;
  };
  device = record {
    present = false;
    degraded = false;
    first_seen_at_ms = pos 0;
    acct_degree_24h = pos 0;
  };
  pair = record {
    present = true;
    degraded = false;
    txn_count_90d = pos 9;
    amt_p95_minor = pos 100_000;
    last_ts_ms = pos 0;
    last_disposition = "";
    first_added_at_ms = pos 0;
    last_creditor_account = "";
  };
  asn = record { present = false; degraded = false; acct_degree_1h = pos 0 };
  loaded_at_ms = pos 0;
}

abbrev pub advisory : Advisory ℤ
advisory = record {
  signal_id = "peer";
  signature_valid = true;
  reporter_reputation = pos 900_000;
  age_hours = pos 1_000_000;
  confidence = pos 800_000;
  steps = pos 2;
  explanation = "reported by two banks";
}

abbrev pub payment : String → ℤ → List String → Input ℤ
payment account amount degraded = record {
  event = event account amount;
  profile = profile;
  features = new_feature_vector;
  degraded = degraded;
  graph = none;
  advisories = advisory ∷ [];
}
