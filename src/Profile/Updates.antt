-- ===== src/Profile/Updates.antt =====
-- go/internal/profile/store.go: Apply, as the commands that it sends to Redis, the recomputed baseline,
-- and the pair's running amount. A score is the time that it is made from; a time to live is in hours.
pub mod Amounts
pub mod Sums
use payment_infrastructure.Base.{
  ℕ, ◌*◌, String, Bool, true, false, List, [], ◌∷◌, ◌++◌, Option, none, some, Map, length, map, ltb,
  str_eq, int_text, ◌==◌, if◌then◌else◌,
}
use payment_infrastructure.Base.Int.{ℤ, pos, negsuc, add64, sub64, ltb_ℤ, eqb_ℤ}
use payment_infrastructure.Base.Float.{Float64}
use payment_infrastructure.Base.Sort.{sort_floats}
use payment_infrastructure.Contract.Event.{Event}
use payment_infrastructure.Features.Clock.{quot}
use payment_infrastructure.Features.Numbers.{Math}
use payment_infrastructure.Profile.Helpers.{
  Texts, minute_ms, hour_ms, day_ms, epoch_str, hour_of_day_utc, parse_int64, parse_float,
  percentile, encode_hour_hist,
}
use payment_infrastructure.Profile.Keys.{
  payer_txn_window, payer_amt_minute, payer_amt_hour, payer_amt_day, payer_baseline,
  payer_payee_set, payer_device_set, payer_asn_set, payer_last, payer_first_seen, payer_amt_sample,
  hour_hist_key, payee_payers_window, payee_txn_window, payee_in_minute, payee_out_minute,
  payee_first_seen, device_accts, device_first_seen, pair_hash, asn_accts,
}

pub data Command : Type 0 where
  zadd : (key : String) → (score : ℤ) → (member : String) → Command
  zrem_range_by_score : (key min max : String) → Command
  expire_hours : (key : String) → ℕ → Command
  hincr_by : (key field : String) → ℤ → Command
  hset : (key : String) → Map String → Command
  hset_nx : (key field value : String) → Command
  sadd : (key member : String) → Command
  set_nx : (key value : String) → Command
  lpush : (key value : String) → Command
  ltrim : (key : String) → (start stop : ℤ) → Command

abbrev pub max_window_ms : ℕ
max_window_ms = 24 * 3600 * 1000

-- A member of a window, and what falls out of it.
abbrev pub window_add : String → ℤ → String → List Command
window_add key now_ms member =
    zadd key now_ms member
    ∷ zrem_range_by_score key "0" (int_text (sub64 now_ms (pos max_window_ms)))
    ∷ expire_hours key 26
    ∷ []

unfoldable pub payer_commands : Event → List Command
unfolding epoch_str hour_of_day_utc
payer_commands ev =
    let now_ms = ev.accepted_at_ms in
    let acct = ev.debtor_account in
    let amount = ev.instructed_amount_minor in
    window_add (payer_txn_window acct) now_ms ev.end_to_end_id
    ++ (hincr_by (payer_amt_minute acct) (epoch_str minute_ms now_ms) amount
        ∷ hincr_by (payer_amt_hour acct) (epoch_str hour_ms now_ms) amount
        ∷ hincr_by (payer_amt_day acct) (epoch_str day_ms now_ms) amount
        ∷ expire_hours (payer_amt_minute acct) 90
        ∷ expire_hours (payer_amt_hour acct) (31 * 24)
        ∷ expire_hours (payer_amt_day acct) (91 * 24)
        ∷ sadd (payer_payee_set acct) ev.creditor_account
        ∷ [])
    ++ (if str_eq ev.device_id "" then [] else sadd (payer_device_set acct) ev.device_id ∷ [])
    ++ (if eqb_ℤ ev.asn (pos 0) then [] else sadd (payer_asn_set acct) (int_text ev.asn) ∷ [])
    ++ (hset (payer_last acct) (
          ("last_ts_ms", int_text now_ms)
          ∷ ("last_geo_cell", ev.geo_cell)
          ∷ ("last_amt_minor", int_text amount)
          ∷ [])
        ∷ set_nx (payer_first_seen acct) (int_text now_ms)
        ∷ lpush (payer_amt_sample acct) (int_text amount)
        ∷ ltrim (payer_amt_sample acct) (pos 0) (pos 499)
        ∷ hincr_by (payer_baseline acct) "txn_count_lifetime" (pos 1)
        ∷ hincr_by (hour_hist_key acct) (hour_of_day_utc now_ms) (pos 1)
        ∷ [])

unfoldable pub payee_commands : Event → List Command
unfolding epoch_str
payee_commands ev =
    let now_ms = ev.accepted_at_ms in
    let acct = ev.creditor_account in
    let amount = ev.instructed_amount_minor in
    window_add (payee_payers_window acct) now_ms ev.debtor_account
    ++ (zadd (payee_txn_window acct) now_ms ev.end_to_end_id
        ∷ set_nx (payee_first_seen acct) (int_text now_ms)
        ∷ hincr_by (payee_in_minute acct) (epoch_str minute_ms now_ms) amount
        ∷ hincr_by (payee_out_minute ev.debtor_account) (epoch_str minute_ms now_ms) amount
        ∷ expire_hours (payee_in_minute acct) 90
        ∷ expire_hours (payee_out_minute ev.debtor_account) 90
        ∷ [])

unfoldable pub device_commands : Event → List Command
device_commands ev =
    if str_eq ev.device_id ""
    then []
    else window_add (device_accts ev.device_id) ev.accepted_at_ms ev.debtor_account
      ++ (set_nx (device_first_seen ev.device_id) (int_text ev.accepted_at_ms) ∷ [])

unfoldable pub pair_commands : Event → List Command
pair_commands ev =
    let key = pair_hash ev.debtor_account ev.creditor_account in
    hincr_by key "txn_count_90d" (pos 1)
    ∷ hset_nx key "first_added_ms" (int_text ev.accepted_at_ms)
    ∷ hset key (
        ("last_ts_ms", int_text ev.accepted_at_ms)
        ∷ ("last_creditor_account", ev.creditor_account)
        ∷ [])
    ∷ hset_nx key "last_disposition" "UNKNOWN"
    ∷ expire_hours key (91 * 24)
    ∷ []

unfoldable pub asn_commands : Event → List Command
asn_commands ev =
    if eqb_ℤ ev.asn (pos 0)
    then []
    else window_add (asn_accts ev.asn) ev.accepted_at_ms ev.debtor_account

-- The transaction of `Apply`.
unfoldable pub apply_commands : Event → List Command
unfolding payer_commands payee_commands device_commands pair_commands asn_commands
apply_commands ev =
    payer_commands ev
    ++ (payee_commands ev ++ (device_commands ev ++ (pair_commands ev ++ asn_commands ev)))

-- The next amount of a pair. Go's `/` rounds towards 0.
unfoldable pub next_amt_p95 : (cur_val amt : ℤ) → ℤ
unfolding quot
next_amt_p95 cur_val amt =
    if eqb_ℤ cur_val (pos 0)
    then amt
    else if ltb_ℤ cur_val amt
    then add64 cur_val (quot (sub64 amt cur_val) 3)
    else sub64 cur_val (quot (sub64 cur_val amt) 10)

-- What the reads after the transaction answer; `none` is an error.
pub record Reread : Type 0 where
  pub samples : Option (List String)
  pub hour_counts : Option (Map String)
  pub pair_p95 : Option String

unfoldable pub update_pair_amt_p95 : Texts → Option String → String → ℤ → Command
unfolding next_amt_p95 parse_int64
update_pair_amt_p95 t cur pair_key amt =
    let cur_val = parse_int64 t (elim cur [ none ↦ "" | some s ↦ s ]) in
    hset pair_key (("amt_p95_minor", int_text (next_amt_p95 cur_val amt)) ∷ [])

module _ {F : Type 0} ⦃f : Float64 F⦄ ⦃m : Math F⦄ where
  -- The fields that the baseline computes from the sorted values.
  unfoldable pub baseline_fields : (vals : List F) → (hist : String) → ℤ → Map String
  unfolding percentile
  baseline_fields vals hist now_ms =
      let median = percentile vals (f.decimal 5 1) in
      let mad =
        percentile (sort_floats (map (λ v. m.abs (f.minus v median)) vals)) (f.decimal 5 1) in
      ("amt_median", int_text (f.to_int median))
      ∷ ("amt_mad", int_text (f.to_int mad))
      ∷ ("amt_p95", int_text (f.to_int (percentile vals (f.decimal 95 2))))
      ∷ ("amt_p99", int_text (f.to_int (percentile vals (f.decimal 99 2))))
      ∷ ("hour_hist", hist)
      ∷ ("payee_set_size", "0")
      ∷ ("device_set_size", "0")
      ∷ ("baseline_version", "v1")
      ∷ ("updated_at", int_text now_ms)
      ∷ []

module _ (F : Type 0) ⦃f : Float64 F⦄ ⦃m : Math F⦄ (t : Texts) where
  unfoldable pub recompute_from : List String → Map String → String → ℤ → List Command
  unfolding baseline_fields encode_hour_hist
  recompute_from [] counts acct now_ms = []
  recompute_from (s ∷ ss) counts acct now_ms =
      hset (payer_baseline acct) (
        baseline_fields (sort_floats (map (parse_float {F = F} t) (s ∷ ss)))
          (encode_hour_hist t counts) now_ms)
      ∷ []

  unfoldable pub recompute_baseline : Reread → String → ℤ → List Command
  unfolding recompute_from
  recompute_baseline rr acct now_ms = elim rr.samples [
    | none ↦ []
    | some samples ↦
        recompute_from samples (elim rr.hour_counts [ none ↦ [] | some m ↦ m ]) acct now_ms
  ]

  -- `Apply`: the commands that are sent, and whether it returns an error.
  unfoldable pub apply_event : (exec_fails : Bool) → Reread → Event → List Command × Bool
  unfolding apply_commands recompute_baseline update_pair_amt_p95
  apply_event true rr ev = (apply_commands ev, true)
  apply_event false rr ev = (
    apply_commands ev
        ++ (recompute_baseline rr ev.debtor_account ev.accepted_at_ms
            ++ (update_pair_amt_p95 t rr.pair_p95 (pair_hash ev.debtor_account ev.creditor_account)
                  ev.instructed_amount_minor
                ∷ [])),
    false,
  )
