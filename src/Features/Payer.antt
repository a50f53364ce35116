-- ===== src/Features/Payer.antt =====
-- go/internal/features/compute.go: computePayerFeatures.
use payment_infrastructure.Base.{
  not, ◌||◌, String, List, [], ◌∷◌, Option, none, some, get_elem?, Run, ok, panic, if◌then◌else◌,
}
use payment_infrastructure.Base.Int.{ℤ, pos, negsuc, sub64, ltb_ℤ, leb_ℤ, eqb_ℤ}
use payment_infrastructure.Base.Float.{Float64}
use payment_infrastructure.Contract.Event.{Event}
use payment_infrastructure.Contract.Feature.{
  FeatureVector, set_feature, mark_not_evaluated, mark_not_applicable,
}
use payment_infrastructure.Contract.Profile.{ProfileBundle, PayerBundle}
use payment_infrastructure.Features.Numbers.{Math}
use payment_infrastructure.Features.Clock.{hour_of_day}

module _ {F : Type 0} ⦃f : Float64 F⦄ where
  unfoldable pub mark_all : List String → (reason : String) → FeatureVector F → FeatureVector F
  mark_all [] reason fv = fv
  mark_all (id ∷ ids) reason fv = mark_all ids reason (mark_not_evaluated id reason fv)

abbrev pub payer_ids : List String
payer_ids =
    "amt_robust_z" ∷ "amt_over_p95" ∷ "hour_surprisal" ∷ "txn_velocity_1m" ∷ "txn_velocity_5m"
    ∷ "txn_velocity_1h" ∷ "txn_velocity_24h" ∷ "amt_velocity_1h" ∷ "amt_velocity_24h"
    ∷ "account_age_days" ∷ "dormancy_days" ∷ "baseline_staleness_h" ∷ []

module _ {F : Type 0} ⦃f : Float64 F⦄ ⦃m : Math F⦄ where
  unfoldable pub robust_z : PayerBundle F → (amt : F) → F
  robust_z p amt =
      let median = f.of_int p.amt_median_minor in
      let mad = f.of_int p.amt_mad_minor in
      let mad_eff = m.max mad (m.max (f.times (f.decimal 2 2) median) (f.of_int (pos 100))) in
      f.over (f.times (f.decimal 6745 4) (f.minus amt median)) mad_eff

  unfoldable pub robust_z_feature : PayerBundle F → Event → FeatureVector F → FeatureVector F
  robust_z_feature p ev fv =
      let z = robust_z p (f.of_int ev.instructed_amount_minor) in
      if ltb_ℤ p.txn_count_lifetime (pos 10)
      then mark_not_evaluated "amt_robust_z" "COLD_START" fv
      else if f.is_inf z || f.is_nan z || f.lt (f.of_int (pos 25)) (m.abs z)
      then mark_not_evaluated "amt_robust_z" "OFF_SCALE" fv
      else set_feature "amt_robust_z" z fv

  unfoldable pub over_p95_feature : PayerBundle F → Event → FeatureVector F → FeatureVector F
  over_p95_feature p ev fv =
      if leb_ℤ p.amt_p95_minor (pos 0)
      then mark_not_evaluated "amt_over_p95" "COLD_START" fv
      else set_feature "amt_over_p95"
          (m.min (f.over (f.of_int ev.instructed_amount_minor) (f.of_int p.amt_p95_minor))
            (f.of_int (pos 20)))
          fv

  -- `p.HourHist[hour]`: an index outside the array panics.
  unfoldable pub hour_share : List F → ℤ → Option F
  hour_share hist (negsuc n) = none
  hour_share hist (pos hour) = get_elem? hist hour

  unfoldable pub surprisal : F → F
  surprisal prob = m.neg (m.log2 (if f.le prob (f.of_int (pos 0)) then f.decimal 1 6 else prob))

  unfoldable pub velocity_features : PayerBundle F → FeatureVector F → FeatureVector F
  velocity_features p fv =
      let fv1 = set_feature "txn_velocity_24h" (f.of_int p.txn_velocity_24h) (
        set_feature "txn_velocity_1h" (f.of_int p.txn_velocity_1h) (
          set_feature "txn_velocity_5m" (f.of_int p.txn_velocity_5m)
            (set_feature "txn_velocity_1m" (f.of_int p.txn_velocity_1m) fv))) in
      if leb_ℤ p.amt_mean_30d_daily_minor (pos 0)
      then mark_not_evaluated "amt_velocity_24h" "COLD_START"
          (mark_not_evaluated "amt_velocity_1h" "COLD_START" fv1)
      else set_feature "amt_velocity_24h"
          (f.over (f.of_int p.amt_sum_24h_minor) (f.of_int p.amt_mean_30d_daily_minor))
          (set_feature "amt_velocity_1h"
            (f.over (f.of_int p.amt_sum_1h_minor) (f.of_int p.amt_mean_30d_daily_minor)) fv1)

  unfoldable pub dormancy_feature : PayerBundle F → (now_ms : ℤ) → FeatureVector F → FeatureVector F
  dormancy_feature p now_ms fv =
      if eqb_ℤ p.last_ts_ms (pos 0)
      then mark_not_applicable "dormancy_days" "NO_PRIOR_TXN" fv
      else set_feature "dormancy_days"
          (f.over (f.of_int (sub64 now_ms p.last_ts_ms)) (f.of_int (pos 86_400_000))) fv

  unfoldable pub staleness_feature :
      PayerBundle F → (now_ms : ℤ) → FeatureVector F → FeatureVector F
  staleness_feature p now_ms fv =
      if eqb_ℤ p.baseline_updated_at_ms (pos 0)
      then mark_not_evaluated "baseline_staleness_h" "COLD_START" fv
      else set_feature "baseline_staleness_h"
          (f.over (f.of_int (sub64 now_ms p.baseline_updated_at_ms)) (f.of_int (pos 3_600_000))) fv

  unfoldable pub compute_payer_features :
      Event → ProfileBundle F → (now_ms : ℤ) → FeatureVector F → Run (FeatureVector F)
  compute_payer_features ev pb now_ms fv =
      let p = pb.payer in
      if not p.present || p.degraded
      then ok (mark_all payer_ids "PROFILE_DEGRADED" fv)
      else elim (hour_share p.hour_hist (hour_of_day now_ms)) [
        | none ↦ panic
        | some prob ↦ ok (
            staleness_feature p now_ms (
              dormancy_feature p now_ms (
                set_feature "account_age_days" p.account_age_days (
                  velocity_features p (
                    set_feature "hour_surprisal" (surprisal prob)
                      (over_p95_feature p ev (robust_z_feature p ev fv)))))))
      ]
