-- ===== src/Features/Complete.antt =====
-- go/internal/features/compute.go: Compute returns an honest vector for every profile and event.
use payment_infrastructure.Base.{
  ℕ, zero, suc, ◌<◌, ◌≡◌, refl, List, [], ◌∷◌, some, get_elem?, length, not, ◌||◌, ok, Bool-cases,
  Option-cases, arith, inl, inr, lookup,
}
use payment_infrastructure.Base.Int.{ℤ, pos, leb_ℤ, ltb_ℤ}
use payment_infrastructure.Base.Float.{Float64}
use payment_infrastructure.Contract.Event.{Event}
use payment_infrastructure.Contract.Feature.{FeatureVector, new_feature_vector, set_feature}
use payment_infrastructure.Contract.Profile.{
  ProfileBundle, PayerBundle, PayeeBundle, PairBundle, DeviceBundle, AsnBundle,
}
use payment_infrastructure.Features.{compute, cold_starts}
use payment_infrastructure.Features.Numbers.{Math}
use payment_infrastructure.Features.Clock.{hour_of_day_lem}
use payment_infrastructure.Features.Payer.{
  mark_all, payer_ids, surprisal, robust_z, robust_z_feature, over_p95_feature, dormancy_feature,
  staleness_feature, hour_share, velocity_features, compute_payer_features,
}
use payment_infrastructure.Features.Counterparty.{
  fanin_features, pair_features, compute_counterparty_features,
}
use payment_infrastructure.Features.Channel.{
  parse_geo_cell, device_features, asn_features, geo_feature, compute_channel_features,
}
use payment_infrastructure.Features.Honest.{
  IsHonest, nothing, set-IsHonest, ne-IsHonest, na-IsHonest, if-IsHonest, mark_all-IsHonest,
  concentration-IsHonest, forward-IsHonest,
}

item_below :
    {A : Type 0} (xs : List A) (i : ℕ) → i < length xs → (x : A) × (get_elem? xs i ≡ some x)
item_below [] i h = absurd (omega (arith, h))
item_below (x ∷ xs) zero h = (x, refl)
item_below (x ∷ xs) (suc i) h = item_below xs i (omega (arith, h))

module _ {F : Type 0} ⦃f : Float64 F⦄ where
  new-IsHonest : IsHonest {F = F} new_feature_vector
  unfolding lookup
  new-IsHonest = record { says = λ id. nothing refl refl }

  fanin-IsHonest :
      (payer : PayerBundle F) (payee : PayeeBundle F) (ev : Event) (now_ms : ℤ)
      {fv : FeatureVector F}
      → IsHonest fv
      → IsHonest (fanin_features payer payee ev now_ms fv)
  unfolding fanin_features
  fanin-IsHonest payer payee ev now_ms h =
      let h1 = set-IsHonest _ _ h in
      let h2 = if-IsHonest _ (ne-IsHonest _ _ refl h1) (set-IsHonest _ _ h1) in
      let h3 = set-IsHonest _ _ (set-IsHonest _ _ h2) in
      if-IsHonest _ (na-IsHonest _ _ refl h3) (set-IsHonest _ _ h3)

  pair-IsHonest :
      (pair : PairBundle) (ev : Event) {fv : FeatureVector F}
      → IsHonest fv
      → IsHonest (pair_features pair ev fv)
  unfolding pair_features
  pair-IsHonest pair ev h =
      let h1 = set-IsHonest "pair_txn_count_90d" (f.of_int pair.txn_count_90d) h in
      if-IsHonest (not pair.present)
        (na-IsHonest "pair_amt_ratio_p95" "NO_RELATIONSHIP" refl
          (na-IsHonest "pair_txn_count_90d" "NO_RELATIONSHIP" refl h))
        (if-IsHonest (leb_ℤ pair.amt_p95_minor (pos 0) || ltb_ℤ pair.txn_count_90d (pos 3))
          (na-IsHonest "pair_amt_ratio_p95" "INSUFFICIENT_PAIR_HISTORY" refl h1)
          (set-IsHonest "pair_amt_ratio_p95" _ h1))

  counterparty-IsHonest :
      (ev : Event) (pb : ProfileBundle F) (now_ms : ℤ) {fv : FeatureVector F}
      → IsHonest fv
      → IsHonest (compute_counterparty_features ev pb now_ms fv)
  unfolding compute_counterparty_features
  counterparty-IsHonest ev pb now_ms h = pair-IsHonest pb.pair ev (
      if-IsHonest _ (mark_all-IsHonest _ _ refl h) (
        set-IsHonest _ _
          (concentration-IsHonest _ (forward-IsHonest _ _ (fanin-IsHonest _ _ _ _ h)))))

module _ {F : Type 0} ⦃f : Float64 F⦄ ⦃m : Math F⦄ where
  device-IsHonest :
      (payer : PayerBundle F) (device : DeviceBundle) (ev : Event) (now_ms : ℤ)
      {fv : FeatureVector F}
      → IsHonest fv
      → IsHonest (device_features payer device ev now_ms fv)
  unfolding device_features
  device-IsHonest payer device ev now_ms h =
      let h1 = set-IsHonest _ _ h in
      if-IsHonest _ (na-IsHonest _ _ refl (na-IsHonest _ _ refl (na-IsHonest _ _ refl h))) (
        if-IsHonest _ (ne-IsHonest _ _ refl (ne-IsHonest _ _ refl (ne-IsHonest _ _ refl h)))
          (set-IsHonest _ _ (if-IsHonest _ (ne-IsHonest _ _ refl h1) (set-IsHonest _ _ h1))))

  asn-IsHonest :
      (payer : PayerBundle F) (asn : AsnBundle) (ev : Event) {fv : FeatureVector F}
      → IsHonest fv
      → IsHonest (asn_features payer asn ev fv)
  unfolding asn_features
  asn-IsHonest payer asn ev h = if-IsHonest _ (na-IsHonest _ _ refl (na-IsHonest _ _ refl h)) (
      if-IsHonest _ (ne-IsHonest _ _ refl (ne-IsHonest _ _ refl h))
        (set-IsHonest _ _ (set-IsHonest _ _ h)))

  geo-IsHonest :
      (payer : PayerBundle F) (ev : Event) (now_ms : ℤ) {fv : FeatureVector F}
      → IsHonest fv
      → IsHonest (geo_feature payer ev now_ms fv)
  unfolding geo_feature
  geo-IsHonest payer ev now_ms h =
      elim (Option-cases (parse_geo_cell ⦃m = m⦄ payer.last_geo_cell)) [
        | inl e ↦ rw (geo_feature, e) (na-IsHonest _ _ refl h)
        | inr (_, e) ↦ elim (Option-cases (parse_geo_cell ⦃m = m⦄ ev.geo_cell)) [
          | inl e' ↦ rw (geo_feature, e) (rw e' (na-IsHonest _ _ refl h))
          | inr (_, e') ↦
              rw (geo_feature, e)
                (rw e' (if-IsHonest _ (na-IsHonest _ _ refl h) (set-IsHonest _ _ h)))
        ]
      ]

  robust-IsHonest :
      (p : PayerBundle F) (ev : Event) {fv : FeatureVector F}
      → IsHonest fv
      → IsHonest (robust_z_feature p ev fv)
  unfolding robust_z_feature
  robust-IsHonest p ev h =
      let z = robust_z p (f.of_int ev.instructed_amount_minor) in
      if-IsHonest (ltb_ℤ p.txn_count_lifetime (pos 10))
        (ne-IsHonest "amt_robust_z" "COLD_START" refl h)
        (if-IsHonest (f.is_inf z || f.is_nan z || f.lt (f.of_int (pos 25)) (m.abs z))
          (ne-IsHonest "amt_robust_z" "OFF_SCALE" refl h) (set-IsHonest "amt_robust_z" z h))

  amount-IsHonest :
      (p : PayerBundle F) (ev : Event) {fv : FeatureVector F}
      → IsHonest fv
      → IsHonest (over_p95_feature p ev (robust_z_feature p ev fv))
  unfolding over_p95_feature
  amount-IsHonest p ev h =
      if-IsHonest _ (ne-IsHonest _ _ refl (robust-IsHonest p ev h))
        (set-IsHonest _ _ (robust-IsHonest p ev h))

  velocity-IsHonest :
      (p : PayerBundle F) {fv : FeatureVector F} → IsHonest fv → IsHonest (velocity_features p fv)
  unfolding velocity_features
  velocity-IsHonest p h =
      let h1 = set-IsHonest _ _ (set-IsHonest _ _ (set-IsHonest _ _ (set-IsHonest _ _ h))) in
      if-IsHonest _ (ne-IsHonest _ _ refl (ne-IsHonest _ _ refl h1))
        (set-IsHonest _ _ (set-IsHonest _ _ h1))

  dormancy-IsHonest :
      (p : PayerBundle F) (now_ms : ℤ) {fv : FeatureVector F}
      → IsHonest fv
      → IsHonest (dormancy_feature p now_ms fv)
  unfolding dormancy_feature
  dormancy-IsHonest p now_ms h = if-IsHonest _ (na-IsHonest _ _ refl h) (set-IsHonest _ _ h)

  staleness-IsHonest :
      (p : PayerBundle F) (now_ms : ℤ) {fv : FeatureVector F}
      → IsHonest fv
      → IsHonest (staleness_feature p now_ms fv)
  unfolding staleness_feature
  staleness-IsHonest p now_ms h = if-IsHonest _ (ne-IsHonest _ _ refl h) (set-IsHonest _ _ h)

  payer-IsHonest :
      (ev : Event) (pb : ProfileBundle F) (now_ms : ℤ) (fv : FeatureVector F)
      → length pb.payer.hour_hist ≡ 24
      → IsHonest fv
      → (out : FeatureVector F) × (compute_payer_features ev pb now_ms fv ≡ ok out) × IsHonest out
  unfolding compute_payer_features hour_share
  payer-IsHonest ev pb now_ms fv full h =
      elim (Bool-cases (not pb.payer.present || pb.payer.degraded)) [
        | inl e ↦ (
          mark_all payer_ids "PROFILE_DEGRADED" fv,
          rw (compute_payer_features, e) refl,
          mark_all-IsHonest payer_ids "PROFILE_DEGRADED" refl h,
        )
        | inr e ↦
            let p = pb.payer in
            let (hour, at, below) = hour_of_day_lem now_ms in
            let (prob, found) = item_below p.hour_hist hour (omega (arith, full, below)) in
            let shared =
              set_feature "hour_surprisal" (surprisal prob)
                (over_p95_feature p ev (robust_z_feature p ev fv)) in
            let aged =
              set_feature "account_age_days" p.account_age_days (velocity_features p shared) in
            (
              staleness_feature p now_ms (dormancy_feature p now_ms aged),
              rw (compute_payer_features, e, at) (rw (hour_share, found) refl),
              staleness-IsHonest p now_ms (
                  dormancy-IsHonest p now_ms (
                    set-IsHonest "account_age_days" p.account_age_days (
                      velocity-IsHonest p (
                        set-IsHonest "hour_surprisal" (surprisal prob) (amount-IsHonest p ev h))))),
            )
      ]

  channel-IsHonest :
      (ev : Event) (pb : ProfileBundle F) (now_ms : ℤ) {fv : FeatureVector F}
      → IsHonest fv
      → IsHonest (compute_channel_features ev pb now_ms fv)
  unfolding compute_channel_features
  channel-IsHonest ev pb now_ms h =
      geo-IsHonest pb.payer ev now_ms
        (asn-IsHonest pb.payer pb.asn ev (device-IsHonest pb.payer pb.device ev now_ms h))

  -- Compute returns for every event and every profile with an hour histogram of 24 entries, at any
  -- time, and its vector is honest: of each feature it says nothing, or CLEAR with a value, or
  -- NOT_EVALUATED or NOT_APPLICABLE with NaN for the value and a reason that is not empty.
  pub compute-IsHonest :
      (ev : Event) (pb : ProfileBundle F) (now_ms : ℤ)
      → length pb.payer.hour_hist ≡ 24
      → (fv : FeatureVector F) × (compute ev pb now_ms ≡ ok fv) × IsHonest fv
  unfolding compute
  compute-IsHonest ev pb now_ms full =
      let (payer, run, h) = payer-IsHonest ev pb now_ms new_feature_vector full new-IsHonest in
      let fv =
        compute_channel_features ev pb now_ms (compute_counterparty_features ev pb now_ms payer) in
      let count = f.of_int (pos (cold_starts fv.statuses)) in
      (
        set_feature "cold_start_features_n" count fv,
        rw (compute, run) refl,
        set-IsHonest "cold_start_features_n" count
            (channel-IsHonest ev pb now_ms (counterparty-IsHonest ev pb now_ms h)),
      )
