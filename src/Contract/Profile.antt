-- ===== src/Contract/Profile.antt =====
-- go/internal/contract/profile.go and scoring_context.go: the state read before scoring.
use payment_infrastructure.Base.{ℕ, String, Bool, List, Map}
use payment_infrastructure.Base.Int.{ℤ}

pub record PayerBundle (F : Type 0) : Type 0 where
  pub present : Bool
  pub degraded : Bool
  pub amt_median_minor : ℤ
  pub amt_mad_minor : ℤ
  pub amt_p95_minor : ℤ
  pub amt_p99_minor : ℤ
  -- [24]float64
  pub hour_hist : List F
  pub payee_set_size : ℤ
  pub device_set_size : ℤ
  pub account_age_days : F
  pub txn_count_lifetime : ℤ
  pub txn_1h_p999 : F
  pub baseline_version : String
  pub baseline_updated_at_ms : ℤ
  pub known_payees : Map Bool
  pub known_devices : Map Bool
  pub known_asns : List (ℤ × Bool)
  pub last_ts_ms : ℤ
  pub last_geo_cell : String
  pub last_amt_minor : ℤ
  pub txn_velocity_1m : ℤ
  pub txn_velocity_5m : ℤ
  pub txn_velocity_1h : ℤ
  pub txn_velocity_24h : ℤ
  pub amt_sum_1h_minor : ℤ
  pub amt_sum_24h_minor : ℤ
  pub amt_mean_30d_daily_minor : ℤ

pub record PayeeBundle (F : Type 0) : Type 0 where
  pub present : Bool
  pub degraded : Bool
  pub first_seen_by_us_at_ms : ℤ
  pub fanin_1h : ℤ
  pub fanin_24h : ℤ
  pub inflow_sum_1h_minor : ℤ
  pub outflow_sum_1h_minor : ℤ
  pub fwd_latency_p50_sec : F
  pub fwd_sample_n : ℤ
  pub fwd_updated_at_ms : ℤ
  pub payer_inflow_share_24h : Map F
  pub distinct_payer_banks_1h : ℤ

pub record DeviceBundle : Type 0 where
  pub present : Bool
  pub degraded : Bool
  pub first_seen_at_ms : ℤ
  pub acct_degree_24h : ℤ

pub record PairBundle : Type 0 where
  pub present : Bool
  pub degraded : Bool
  pub txn_count_90d : ℤ
  pub amt_p95_minor : ℤ
  pub last_ts_ms : ℤ
  pub last_disposition : String
  pub first_added_at_ms : ℤ
  pub last_creditor_account : String

pub record AsnBundle : Type 0 where
  pub present : Bool
  pub degraded : Bool
  pub acct_degree_1h : ℤ

pub record ProfileBundle (F : Type 0) : Type 0 where
  pub payer : PayerBundle F
  pub payee : PayeeBundle F
  pub device : DeviceBundle
  pub pair : PairBundle
  pub asn : AsnBundle
  pub loaded_at_ms : ℤ

pub record GraphResult (F : Type 0) : Type 0 where
  pub evaluated : Bool
  pub staleness_sec : F
  pub ring_score : F
  pub ring_size : ℕ
  pub component_bank_count : ℕ
  pub hops_to_cashout : ℕ
  pub device_shared_degree : ℕ
