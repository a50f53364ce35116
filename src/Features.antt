-- ===== src/Features.antt =====
-- go/internal/features/compute.go: the feature vector as a function of the loaded profile and the event.
pub mod Numbers
pub mod Clock
pub mod Payer
pub mod Counterparty
pub mod Channel
pub mod Honest
pub mod Complete
use payment_infrastructure.Base.{
  ℕ, suc, ◌+◌, ◌||◌, String, List, [], ◌∷◌, Map, Run, ok, ◌>>=◌, if◌then◌else◌,
}
use payment_infrastructure.Base.Int.{ℤ, pos}
use payment_infrastructure.Base.Float.{Float64}
use payment_infrastructure.Contract.Event.{Event}
use payment_infrastructure.Contract.Finding.{Status, not_evaluated, not_applicable, status_eq}
use payment_infrastructure.Contract.Feature.{FeatureVector, new_feature_vector, set_feature}
use payment_infrastructure.Contract.Profile.{ProfileBundle}
use Numbers.{Math}
use Payer.{compute_payer_features}
use Counterparty.{compute_counterparty_features}
use Channel.{compute_channel_features}

-- The loop that counts what was not evaluated or does not apply.
unfoldable pub cold_starts : Map Status → ℕ
cold_starts [] = 0
cold_starts ((_, st) ∷ rest) =
    let n = cold_starts rest in
    if status_eq st not_evaluated || status_eq st not_applicable then suc n else n

module _ {F : Type 0} ⦃f : Float64 F⦄ ⦃m : Math F⦄ where
  unfoldable pub compute : Event → ProfileBundle F → (now_ms : ℤ) → Run (FeatureVector F)
  unfolding cold_starts
  compute ev pb now_ms = do
    payer ← compute_payer_features ev pb now_ms new_feature_vector
    let fv =
        compute_channel_features ev pb now_ms (compute_counterparty_features ev pb now_ms payer)
    ok (set_feature "cold_start_features_n" (f.of_int (pos (cold_starts fv.statuses))) fv)
