-- ===== src/Novelty/Rank.antt =====
-- go/internal/novelty/engine.go: the p-value is a rank among the calibration points.
use payment_infrastructure.Base.{◌+◌, true, length}
use payment_infrastructure.Base.Int.{pos}
use payment_infrastructure.Base.Float.{Float64}
use payment_infrastructure.Base.Sort.{count_from}
use payment_infrastructure.Features.Numbers.{Math}
use payment_infrastructure.Novelty.Reservoir.{own_distances}
use payment_infrastructure.Novelty.{NoveltyEngine, NoveltyResult}

module _ {F : Type 0} ⦃f : Float64 F⦄ ⦃m : Math F⦄ where
  -- The share of the reference points whose distance to their own neighbours is at least `alpha`, with
  -- one added above and below.
  unfoldable pub share : F → NoveltyEngine F → F
  share alpha e =
      f.over (f.of_int (pos (count_from alpha (own_distances e) + 1)))
        (f.of_int (pos (length e.ref + 1)))

  abbrev result_of : F → F → NoveltyResult F
  result_of p alpha = record { evaluated = true; p_value = p; knn_distance = alpha; reason = "" }
