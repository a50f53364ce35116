-- ===== src/Tests/Features.antt =====
-- The theorems on go/internal/features/compute.go at a sample profile.
use payment_infrastructure.Base.{◌≡◌, refl, none, ok, replicate}
use payment_infrastructure.Base.Int.{ℤ, pos}
use payment_infrastructure.Contract.Feature.{FeatureVector}
use payment_infrastructure.Contract.Profile.{ProfileBundle}
use payment_infrastructure.Features.{compute}
use payment_infrastructure.Features.Complete.{compute-IsHonest}
use payment_infrastructure.Features.Honest.{IsHonest}
use payment_infrastructure.Features.Numbers.{Math}
use payment_infrastructure.Tests.Sample.{millionths, event, profile}

-- Stand-ins, where the value does not matter.
instance unfoldable pub rough : Math ℤ
rough = record {
  max = λ x y. x;
  min = λ x y. x;
  abs = λ x. x;
  neg = λ x. x;
  log2 = λ x. x;
  sin = λ x. x;
  cos = λ x. x;
  atan2 = λ x y. x;
  sqrt = λ x. x;
  pi = pos 3_141_592;
  parse_float = λ s. none;
}

abbrev pub daily : ProfileBundle ℤ
daily = record profile { payer = record profile.payer { hour_hist = replicate 24 (pos 41_666) } }

compute-IsHonest_example :
    (fv : FeatureVector ℤ) × (compute (event "shop" (pos 50_000)) daily (pos 1_700_000_000_000)
      ≡ ok fv)
    × IsHonest fv
compute-IsHonest_example =
    compute-IsHonest (event "shop" (pos 50_000)) daily (pos 1_700_000_000_000) refl
