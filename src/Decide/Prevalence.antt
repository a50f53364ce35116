-- ===== src/Decide/Prevalence.antt =====
-- go/internal/decide/prevalence.go: prior correction.
use payment_infrastructure.Base.{String, ◌||◌, if◌then◌else◌}
use payment_infrastructure.Base.Int.{pos}
use payment_infrastructure.Base.Float.{Float64}

pub record PrevalenceCorrector (F : Type 0) : Type 0 where
  pub version : String
  pub train_prevalence : F
  pub natural_prevalence : F

module _ {F : Type 0} ⦃f : Float64 F⦄ where
  unfoldable pub adjust : PrevalenceCorrector F → F → F
  adjust c p =
      let nought = f.of_int (pos 0) in
      let one = f.of_int (pos 1) in
      if f.le c.train_prevalence nought
        || f.le one c.train_prevalence
        || f.le c.natural_prevalence nought
        || f.le one c.natural_prevalence
      then p
      else let ratio = f.over c.natural_prevalence c.train_prevalence in
        let inverse_ratio =
          f.over (f.minus one c.natural_prevalence) (f.minus one c.train_prevalence) in
        let num = f.times p ratio in
        let den = f.plus num (f.times (f.minus one p) inverse_ratio) in
        if f.le den nought then p else f.over num den
