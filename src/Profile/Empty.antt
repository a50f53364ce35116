-- ===== src/Profile/Empty.antt =====
-- go/internal/contract/profile.go: the zero values of the bundles, with which Go starts a literal.
use payment_infrastructure.Base.{false, [], ◌∷◌}
use payment_infrastructure.Base.Int.{pos}
use payment_infrastructure.Base.Float.{Float64}
use payment_infrastructure.Contract.Profile.{
  PayerBundle, PayeeBundle, DeviceBundle, PairBundle, AsnBundle, ProfileBundle,
}

module _ {F : Type 0} ⦃f : Float64 F⦄ where
  unfoldable pub empty_payer : PayerBundle F
  empty_payer =
      let zero = f.of_int (pos 0) in
      record {
        present = false;
        degraded = false;
        amt_median_minor = pos 0;
        amt_mad_minor = pos 0;
        amt_p95_minor = pos 0;
        amt_p99_minor = pos 0;
        hour_hist =
            zero ∷ zero ∷ zero ∷ zero ∷ zero ∷ zero ∷ zero ∷ zero ∷ zero ∷ zero ∷ zero ∷ zero ∷ zero
            ∷ zero ∷ zero ∷ zero ∷ zero ∷ zero ∷ zero ∷ zero ∷ zero ∷ zero ∷ zero ∷ zero ∷ [];
        payee_set_size = pos 0;
        device_set_size = pos 0;
        account_age_days = zero;
        txn_count_lifetime = pos 0;
        txn_1h_p999 = zero;
        baseline_version = "";
        baseline_updated_at_ms = pos 0;
        known_payees = [];
        known_devices = [];
        known_asns = [];
        last_ts_ms = pos 0;
        last_geo_cell = "";
        last_amt_minor = pos 0;
        txn_velocity_1m = pos 0;
        txn_velocity_5m = pos 0;
        txn_velocity_1h = pos 0;
        txn_velocity_24h = pos 0;
        amt_sum_1h_minor = pos 0;
        amt_sum_24h_minor = pos 0;
        amt_mean_30d_daily_minor = pos 0;
      }

  unfoldable pub empty_payee : PayeeBundle F
  empty_payee =
      let zero = f.of_int (pos 0) in
      record {
        present = false;
        degraded = false;
        first_seen_by_us_at_ms = pos 0;
        fanin_1h = pos 0;
        fanin_24h = pos 0;
        inflow_sum_1h_minor = pos 0;
        outflow_sum_1h_minor = pos 0;
        fwd_latency_p50_sec = zero;
        fwd_sample_n = pos 0;
        fwd_updated_at_ms = pos 0;
        payer_inflow_share_24h = [];
        distinct_payer_banks_1h = pos 0;
      }

unfoldable pub empty_device : DeviceBundle
empty_device = record {
  present = false;
  degraded = false;
  first_seen_at_ms = pos 0;
  acct_degree_24h = pos 0;
}

unfoldable pub empty_pair : PairBundle
empty_pair = record {
  present = false;
  degraded = false;
  txn_count_90d = pos 0;
  amt_p95_minor = pos 0;
  last_ts_ms = pos 0;
  last_disposition = "";
  first_added_at_ms = pos 0;
  last_creditor_account = "";
}

unfoldable pub empty_asn : AsnBundle
empty_asn = record { present = false; degraded = false; acct_degree_1h = pos 0 }

module _ {F : Type 0} ⦃f : Float64 F⦄ where
  -- `&contract.ProfileBundle{}`
  unfoldable pub empty_bundle : ProfileBundle F
  unfolding empty_payer empty_payee empty_device empty_pair empty_asn
  empty_bundle = record {
    payer = empty_payer;
    payee = empty_payee;
    device = empty_device;
    pair = empty_pair;
    asn = empty_asn;
    loaded_at_ms = pos 0;
  }
