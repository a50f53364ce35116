-- ===== src/Profile/Loads.antt =====
-- go/internal/profile/store.go: Load, with one job for each part of the bundle. Redis is a parameter: what
-- its reads answer, and whether a pipeline fails with an error other than redis.Nil. The jobs write
-- different parts of the bundle, so their order does not matter.

pub mod Degraded
use payment_infrastructure.Base.{
  ℕ, String, Bool, true, false, not, List, [], ◌∷◌, Option, none, some, Map, lookup_or, insert,
  length, str_eq, int_text, if◌then◌else◌,
}
use payment_infrastructure.Base.Int.{ℤ, pos, sub64, ltb_ℤ, eqb_ℤ}
use payment_infrastructure.Base.Float.{Float64}
use payment_infrastructure.Contract.Event.{Event}
use payment_infrastructure.Contract.Profile.{
  PayerBundle, PayeeBundle, DeviceBundle, PairBundle, AsnBundle, ProfileBundle,
}
use payment_infrastructure.Features.Clock.{quot}
use payment_infrastructure.Features.Numbers.{Math}
use payment_infrastructure.Profile.Empty.{
  empty_payer, empty_payee, empty_device, empty_pair, empty_asn,
}
use payment_infrastructure.Profile.Helpers.{
  Texts, minute_ms, hour_ms, day_ms, bucket_keys, parse_int64, parse_float, sum_hmget, members_of,
  asn_members_of, bank_of_account, decode_hour_hist,
}
use payment_infrastructure.Profile.Keys.{
  payer_txn_window, payer_amt_minute, payer_amt_hour, payer_amt_day, payer_baseline,
  payer_payee_set, payer_device_set, payer_asn_set, payer_last, payer_first_seen,
  payee_payers_window, payee_in_minute, payee_out_minute, payee_fwd, payee_first_seen,
  payee_inflow_share, device_accts, device_first_seen, pair_hash, asn_accts,
}

-- The reads of the client; `none` is an error, redis.Nil included.
pub record Redis : Type 0 where
  pub zcount : (key min max : String) → Option ℤ
  pub zrange_by_score : (key min max : String) → Option (List String)
  pub hgetall : (key : String) → Option (Map String)
  pub hmget : (key : String) → List String → Option (List (Option String))
  pub scard : (key : String) → Option ℤ
  pub smembers : (key : String) → Option (List String)
  pub get : (key : String) → Option String
  -- The commands of a job fail, with an error other than redis.Nil.
  pub payer_fails : Bool
  pub payee_fails : Bool
  pub device_fails : Bool
  pub pair_fails : Bool
  pub asn_fails : Bool

-- A failed command leaves the zero value.
abbrev pub count_of : Option ℤ → ℤ
count_of none = pos 0
count_of (some n) = n

abbrev pub fields_of : Option (Map String) → Map String
fields_of none = []
fields_of (some m) = m

abbrev items_of : Option (List String) → List String
items_of none = []
items_of (some xs) = xs

-- The banks of a list of accounts, as the keys of a map.
unfoldable pub payer_banks : List String → Map Bool → Map Bool
unfolding bank_of_account
payer_banks [] banks = banks
payer_banks (p ∷ ps) banks = payer_banks ps (insert (bank_of_account p) true banks)

module _ (r : Redis) where
  -- The count of a window that ends now.
  unfoldable pub count_window : String → ℤ → (span : ℕ) → ℤ
  count_window key now_ms span =
      count_of (r.zcount key (int_text (sub64 now_ms (pos span))) (int_text now_ms))

module _ (r : Redis) (t : Texts) where
  -- A time that a key holds, or 0.
  unfoldable pub time_at : String → ℤ
  time_at key = elim (r.get key) [ none ↦ pos 0 | some s ↦ parse_int64 t s ]

  unfoldable pub load_device : String → ℤ → DeviceBundle
  unfolding empty_device count_window time_at
  load_device id now_ms =
      if r.device_fails then record empty_device { degraded = true } else record {
        present = true;
        degraded = false;
        acct_degree_24h = count_window r (device_accts id) now_ms day_ms;
        first_seen_at_ms = time_at (device_first_seen id);
      }

  unfoldable pub load_pair : String → String → PairBundle
  unfolding empty_pair
  load_pair payer payee =
      if r.pair_fails
      then record empty_pair { degraded = true }
      else (let res = fields_of (r.hgetall (pair_hash payer payee)) in
          let count = parse_int64 t (lookup_or "" "txn_count_90d" res) in
          if ltb_ℤ count (pos 2) then empty_pair else record {
            present = true;
            degraded = false;
            txn_count_90d = count;
            amt_p95_minor = parse_int64 t (lookup_or "" "amt_p95_minor" res);
            last_ts_ms = parse_int64 t (lookup_or "" "last_ts_ms" res);
            last_disposition = lookup_or "" "last_disposition" res;
            first_added_at_ms = parse_int64 t (lookup_or "" "first_added_ms" res);
            last_creditor_account = lookup_or "" "last_creditor_account" res;
          })

unfoldable pub load_asn : Redis → ℤ → ℤ → AsnBundle
unfolding empty_asn count_window
load_asn r asn now_ms = if r.asn_fails then record empty_asn { degraded = true } else record {
  present = true;
  degraded = false;
  acct_degree_1h = count_window r (asn_accts asn) now_ms hour_ms;
}

module _ {F : Type 0} ⦃f : Float64 F⦄ ⦃m : Math F⦄ (r : Redis) (t : Texts) where
  -- The account's age, 0 at a cold start.
  unfoldable pub age_days : ℤ → Option String → F
  age_days now_ms none = f.of_int (pos 0)
  age_days now_ms (some first_seen) =
      f.over (f.of_int (sub64 now_ms (parse_int64 t first_seen))) (f.of_int (pos day_ms))

  unfoldable pub load_payer : String → ℤ → PayerBundle F
  unfolding empty_payer count_window age_days quot
  load_payer acct now_ms =
      if r.payer_fails
      then record empty_payer { degraded = true }
      else (let bl = fields_of (r.hgetall (payer_baseline acct)) in
          let last_vals = fields_of (r.hgetall (payer_last acct)) in
          let number : String → ℤ = λ field. parse_int64 t (lookup_or "" field bl) in
          let sums : String → ℕ → ℕ → ℤ =
            λ key span n. sum_hmget t (r.hmget key (bucket_keys span now_ms n)) in
          record {
            present = true;
            degraded = false;
            amt_median_minor = number "amt_median";
            amt_mad_minor = number "amt_mad";
            amt_p95_minor = number "amt_p95";
            amt_p99_minor = number "amt_p99";
            hour_hist = decode_hour_hist t (lookup_or "" "hour_hist" bl);
            payee_set_size = count_of (r.scard (payer_payee_set acct));
            device_set_size = count_of (r.scard (payer_device_set acct));
            account_age_days = age_days now_ms (r.get (payer_first_seen acct));
            txn_count_lifetime = number "txn_count_lifetime";
            txn_1h_p999 = parse_float t (lookup_or "" "txn_1h_p999" bl);
            baseline_version = lookup_or "" "baseline_version" bl;
            baseline_updated_at_ms = number "updated_at";
            known_payees = members_of (r.smembers (payer_payee_set acct));
            known_devices = members_of (r.smembers (payer_device_set acct));
            known_asns = asn_members_of t (r.smembers (payer_asn_set acct));
            last_ts_ms = parse_int64 t (lookup_or "" "last_ts_ms" last_vals);
            last_geo_cell = lookup_or "" "last_geo_cell" last_vals;
            last_amt_minor = parse_int64 t (lookup_or "" "last_amt_minor" last_vals);
            txn_velocity_1m = count_window r (payer_txn_window acct) now_ms 60_000;
            txn_velocity_5m = count_window r (payer_txn_window acct) now_ms 300_000;
            txn_velocity_1h = count_window r (payer_txn_window acct) now_ms 3_600_000;
            txn_velocity_24h = count_window r (payer_txn_window acct) now_ms 86_400_000;
            amt_sum_1h_minor = sums (payer_amt_minute acct) minute_ms 60;
            amt_sum_24h_minor = sums (payer_amt_hour acct) hour_ms 24;
            amt_mean_30d_daily_minor = quot (sums (payer_amt_day acct) day_ms 30) 30;
          })

  -- The loop over the inflow shares.
  unfoldable pub shares_in : Map String → Map F → Map F
  shares_in [] out = out
  shares_in (entry ∷ rest) out = shares_in rest (insert entry.0 (parse_float t entry.1) out)

  unfoldable pub load_payee : String → ℤ → PayeeBundle F
  unfolding empty_payee count_window time_at shares_in payer_banks
  load_payee acct now_ms =
      if r.payee_fails
      then record empty_payee { degraded = true }
      else (let fwd = fields_of (r.hgetall (payee_fwd acct)) in
          let in_keys = bucket_keys minute_ms now_ms 60 in
          let payers = items_of (
            r.zrange_by_score (payee_payers_window acct) (int_text (sub64 now_ms (pos 3_600_000)))
              (int_text now_ms)) in
          record {
            present = true;
            degraded = false;
            first_seen_by_us_at_ms = time_at r t (payee_first_seen acct);
            fanin_1h = count_window r (payee_payers_window acct) now_ms 3_600_000;
            fanin_24h = count_window r (payee_payers_window acct) now_ms 86_400_000;
            inflow_sum_1h_minor = sum_hmget t (r.hmget (payee_in_minute acct) in_keys);
            outflow_sum_1h_minor = sum_hmget t (r.hmget (payee_out_minute acct) in_keys);
            fwd_latency_p50_sec = parse_float t (lookup_or "" "fwd_latency_p50_s" fwd);
            fwd_sample_n = parse_int64 t (lookup_or "" "fwd_sample_n" fwd);
            fwd_updated_at_ms = parse_int64 t (lookup_or "" "fwd_updated_at" fwd);
            payer_inflow_share_24h = shares_in (fields_of (r.hgetall (payee_inflow_share acct))) [];
            distinct_payer_banks_1h = pos (length (payer_banks payers []));
          })

  -- `Load`, at a time of the clock.
  unfoldable pub load_bundle : (loaded_at_ms : ℤ) → Event → ProfileBundle F
  unfolding load_payer load_payee load_device load_pair load_asn
  load_bundle loaded_at_ms ev =
      let now = ev.accepted_at_ms in
      record {
        payer = load_payer ev.debtor_account now;
        payee = load_payee ev.creditor_account now;
        device = if str_eq ev.device_id "" then empty_device else load_device r t ev.device_id now;
        pair = load_pair r t ev.debtor_account ev.creditor_account;
        asn = if eqb_ℤ ev.asn (pos 0) then empty_asn else load_asn r ev.asn now;
        loaded_at_ms = loaded_at_ms;
      }
