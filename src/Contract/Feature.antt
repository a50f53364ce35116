-- ===== src/Contract/Feature.antt =====
-- go/internal/contract/feature.go: the feature vector.
use payment_infrastructure.Base.{String, [], Map, insert}
use payment_infrastructure.Base.Float.{Float64}
use payment_infrastructure.Contract.Finding.{Status, clear, not_applicable, not_evaluated}

pub record FeatureVector (F : Type 0) : Type 0 where
  pub values : Map F
  pub statuses : Map Status
  pub reasons : Map String
  pub staleness : Map F

module _ {F : Type 0} where
  abbrev pub new_feature_vector : FeatureVector F
  new_feature_vector = record { values = []; statuses = []; reasons = []; staleness = [] }

  -- `Set`
  unfoldable pub set_feature : String → F → FeatureVector F → FeatureVector F
  set_feature id value fv = record fv {
    values = insert id value fv.values;
    statuses = insert id clear fv.statuses;
  }

  unfoldable pub set_staleness : String → F → FeatureVector F → FeatureVector F
  set_staleness id seconds fv = record fv { staleness = insert id seconds fv.staleness }

module _ {F : Type 0} ⦃f : Float64 F⦄ where
  -- `NotEvaluated`
  unfoldable pub mark_not_evaluated : String → String → FeatureVector F → FeatureVector F
  mark_not_evaluated id reason fv = record fv {
    values = insert id f.nan fv.values;
    statuses = insert id not_evaluated fv.statuses;
    reasons = insert id reason fv.reasons;
  }

  -- `NotApplicable`
  unfoldable pub mark_not_applicable : String → String → FeatureVector F → FeatureVector F
  mark_not_applicable id reason fv = record fv {
    values = insert id f.nan fv.values;
    statuses = insert id not_applicable fv.statuses;
    reasons = insert id reason fv.reasons;
  }
