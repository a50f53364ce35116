-- ===== src/Features/Counterparty.antt =====
-- go/internal/features/compute.go: computeCounterpartyFeatures.
use payment_infrastructure.Base.{
  Bool, false, not, ◌&&◌, ◌||◌, String, List, [], ◌∷◌, Map, lookup_or, if◌then◌else◌,
}
use payment_infrastructure.Base.Int.{ℤ, pos, sub64, ltb_ℤ, leb_ℤ, eqb_ℤ}
use payment_infrastructure.Base.Float.{Float64}
use payment_infrastructure.Contract.Event.{Event}
use payment_infrastructure.Contract.Feature.{
  FeatureVector, set_feature, mark_not_evaluated, mark_not_applicable,
}
use payment_infrastructure.Contract.Profile.{ProfileBundle, PayerBundle, PayeeBundle, PairBundle}
use payment_infrastructure.Features.Payer.{mark_all}

abbrev pub payee_ids : List String
payee_ids =
    "payee_is_new_to_payer" ∷ "payee_first_seen_by_us_days" ∷ "payee_fanin_1h" ∷ "payee_fanin_24h"
    ∷ "payee_fanin_burstiness" ∷ "payee_fwd_latency_p50_s" ∷ "payee_fwd_ratio_1h"
    ∷ "payee_inflow_concentration" ∷ "payee_distinct_payer_banks_1h" ∷ []

module _ {F : Type 0} ⦃f : Float64 F⦄ where
  unfoldable pub bool_f : Bool → F
  bool_f b = f.of_int (pos (if b then 1 else 0))

  unfoldable pub fanin_features :
      PayerBundle F → PayeeBundle F → Event → (now_ms : ℤ) → FeatureVector F → FeatureVector F
  fanin_features payer payee ev now_ms fv =
      let is_new = payer.present && not (lookup_or false ev.creditor_account payer.known_payees) in
      let fv1 = set_feature "payee_is_new_to_payer" (bool_f is_new) fv in
      let fv2 =
        if eqb_ℤ payee.first_seen_by_us_at_ms (pos 0)
        then mark_not_evaluated "payee_first_seen_by_us_days" "COLD_START" fv1
        else set_feature "payee_first_seen_by_us_days"
            (f.over (f.of_int (sub64 now_ms payee.first_seen_by_us_at_ms))
              (f.of_int (pos 86_400_000)))
            fv1 in
      let fv3 =
        set_feature "payee_fanin_24h" (f.of_int payee.fanin_24h)
          (set_feature "payee_fanin_1h" (f.of_int payee.fanin_1h) fv2) in
      if ltb_ℤ payee.fanin_24h (pos 6)
      then mark_not_applicable "payee_fanin_burstiness" "FANIN_24H_BELOW_GATE" fv3
      else set_feature "payee_fanin_burstiness"
          (f.over (f.of_int payee.fanin_1h) (f.over (f.of_int payee.fanin_24h) (f.of_int (pos 24))))
          fv3

  -- Updated at all, and more than 15 minutes ago.
  unfoldable pub is_stale : PayeeBundle F → (now_ms : ℤ) → Bool
  is_stale payee now_ms =
      not (eqb_ℤ payee.fwd_updated_at_ms (pos 0))
      && ltb_ℤ (pos 900_000) (sub64 now_ms payee.fwd_updated_at_ms)

  unfoldable pub forward_features : PayeeBundle F → (now_ms : ℤ) → FeatureVector F → FeatureVector F
  forward_features payee now_ms fv =
      let fv1 =
        if ltb_ℤ payee.fwd_sample_n (pos 3)
        then mark_not_applicable "payee_fwd_latency_p50_s" "INSUFFICIENT_SAMPLE" fv
        else if is_stale payee now_ms
        then mark_not_evaluated "payee_fwd_latency_p50_s" "STALE" fv
        else set_feature "payee_fwd_latency_p50_s" payee.fwd_latency_p50_sec fv in
      if ltb_ℤ payee.inflow_sum_1h_minor (pos 100) || ltb_ℤ payee.fwd_sample_n (pos 3)
      then mark_not_applicable "payee_fwd_ratio_1h" "INSUFFICIENT_INFLOW_OR_SAMPLE" fv1
      else if is_stale payee now_ms
      then mark_not_evaluated "payee_fwd_ratio_1h" "STALE" fv1
      else set_feature "payee_fwd_ratio_1h"
          (f.over (f.of_int payee.outflow_sum_1h_minor) (f.of_int payee.inflow_sum_1h_minor)) fv1

  -- The loop over the payers' shares.
  unfoldable pub sum_of_squares : Map F → F → F
  sum_of_squares [] hhi = hhi
  sum_of_squares ((_, share) ∷ shares) hhi =
      sum_of_squares shares (f.plus hhi (f.times share share))

  unfoldable pub concentration_feature : Map F → FeatureVector F → FeatureVector F
  concentration_feature [] fv = mark_not_evaluated "payee_inflow_concentration" "COLD_START" fv
  concentration_feature (s ∷ shares) fv =
      set_feature "payee_inflow_concentration" (sum_of_squares (s ∷ shares) (f.of_int (pos 0))) fv

  unfoldable pub pair_features : PairBundle → Event → FeatureVector F → FeatureVector F
  pair_features pair ev fv =
      if not pair.present
      then mark_not_applicable "pair_amt_ratio_p95" "NO_RELATIONSHIP"
          (mark_not_applicable "pair_txn_count_90d" "NO_RELATIONSHIP" fv)
      else let fv1 = set_feature "pair_txn_count_90d" (f.of_int pair.txn_count_90d) fv in
        if leb_ℤ pair.amt_p95_minor (pos 0) || ltb_ℤ pair.txn_count_90d (pos 3)
        then mark_not_applicable "pair_amt_ratio_p95" "INSUFFICIENT_PAIR_HISTORY" fv1
        else set_feature "pair_amt_ratio_p95"
            (f.over (f.of_int ev.instructed_amount_minor) (f.of_int pair.amt_p95_minor)) fv1

  unfoldable pub compute_counterparty_features :
      Event → ProfileBundle F → (now_ms : ℤ) → FeatureVector F → FeatureVector F
  compute_counterparty_features ev pb now_ms fv =
      let payee = pb.payee in
      pair_features pb.pair ev (
        if not payee.present || payee.degraded
        then mark_all payee_ids "PROFILE_DEGRADED" fv
        else set_feature "payee_distinct_payer_banks_1h" (f.of_int payee.distinct_payer_banks_1h) (
            concentration_feature payee.payer_inflow_share_24h
              (forward_features payee now_ms (fanin_features pb.payer payee ev now_ms fv))))
