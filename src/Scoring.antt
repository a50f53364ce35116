-- ===== src/Scoring.antt =====
-- go/internal/scoring: the hand-weighted scorer, the scorer over a tree ensemble with its attribution by
-- ablation, and the beta calibrator. math.Exp and math.Log are parameters, and so is the prediction of
-- the third-party ensemble. The loading of models from files is left out.
pub mod Clear
use payment_infrastructure.Base.{
  ℕ, zero, suc, ◌+◌, String, Bool, true, false, List, [], ◌∷◌, Option, none, some, Map, lookup,
  lookup_or, insert, get_elem?, set, if◌then◌else◌,
}
use payment_infrastructure.Base.Int.{ℤ, pos, negsuc}
use payment_infrastructure.Base.Float.{Float64}
use payment_infrastructure.Contract.Feature.{FeatureVector}
use payment_infrastructure.Contract.Finding.{Status, clear, status_eq}

pub record Exponential (F : Type 0) : Type 0 where
  pub exp : F → F
  pub log : F → F

-- `fv.Status[id] == contract.StatusClear`
unfoldable pub is_clear : {F : Type 0} → FeatureVector F → String → Bool
unfolding lookup
is_clear fv id = elim (lookup id fv.statuses) [ none ↦ false | some s ↦ status_eq s clear ]

module _ {F : Type 0} ⦃f : Float64 F⦄ where
  -- `fv.Values[id]`
  abbrev pub value_of : FeatureVector F → String → F
  value_of fv id = lookup_or (f.of_int (pos 0)) id fv.values

pub record HeuristicScorer (F : Type 0) : Type 0 where
  pub weights : Map F
  pub bias : F

module _ {F : Type 0} ⦃f : Float64 F⦄ where
  -- `-x`
  abbrev pub negated : F → F
  negated x = f.minus (f.of_int (pos 0)) x

  abbrev pub new_heuristic_scorer : HeuristicScorer F
  new_heuristic_scorer = record {
    bias = f.of_int (negsuc 2);
    weights =
        ("payee_is_new_to_payer", f.decimal 18 1)
        ∷ ("amt_over_p95", f.decimal 6 1)
        ∷ ("payee_fanin_1h", f.decimal 35 2)
        ∷ ("payee_fanin_burstiness", f.decimal 25 2)
        ∷ ("device_is_new_to_payer", f.decimal 11 1)
        ∷ ("geo_jump_kmh", f.decimal 4 3)
        ∷ ("amt_robust_z", f.decimal 15 2)
        ∷ ("payee_first_seen_by_us_days", negated (f.decimal 5 2))
        ∷ ("pair_txn_count_90d", negated (f.decimal 4 1))
        ∷ [];
  }

  -- The loop over the weights, in the order in which this call ranges over them: the contributions and
  -- the logit.
  unfoldable pub add_weights : FeatureVector F → Map F → Map F × F → Map F × F
  unfolding is_clear
  add_weights fv [] acc = acc
  add_weights fv (entry ∷ rest) (contribs, logit) =
      let c = f.times entry.1 (value_of fv entry.0) in
      let skipped = add_weights fv rest (contribs, logit) in
      let added = add_weights fv rest (insert entry.0 c contribs, f.plus logit c) in
      if is_clear fv entry.0 then added else skipped

  -- `1 / (1 + exp(-logit))`
  unfoldable pub logistic : Exponential F → F → F
  logistic x logit = f.over (f.of_int (pos 1)) (f.plus (f.of_int (pos 1)) (x.exp (negated logit)))

  -- `HeuristicScorer.Score`: the probability and the contributions. Go ranges over a map in an order
  -- that differs from call to call: `range` puts the entries into this call's order.
  unfoldable pub heuristic_score :
      Exponential F → (range : Map F → Map F) → HeuristicScorer F → FeatureVector F → F × Map F
  unfolding add_weights logistic
  heuristic_score x range s fv =
      let (contribs, logit) = add_weights fv (range s.weights) ([], s.bias) in
      (logistic x logit, contribs)

pub record LeavesScorer (F : Type 0) : Type 0 where
  -- `ensemble.PredictSingle(vals, 0)`
  pub predict : List F → F
  pub feature_order : List String

module _ {F : Type 0} ⦃f : Float64 F⦄ where
  unfoldable pub to_vector : FeatureVector F → List String → List F
  unfolding is_clear
  to_vector fv [] = []
  to_vector fv (id ∷ ids) = (if is_clear fv id then value_of fv id else f.nan) ∷ to_vector fv ids

  -- One turn of the ablation: the column is set to 0, predicted and put back.
  unfoldable pub ablate :
      (List F → F) → (raw : F) → (id : String) → (i : ℕ) → List F × Map F → List F × Map F
  ablate predict raw id i (vals, contribs) = elim (get_elem? vals i) [
    | none ↦ (vals, contribs)
    | some original ↦
        let zeroed = set vals i (f.of_int (pos 0)) in
        let ablated = predict zeroed in
        (set zeroed i original, insert id (f.minus raw ablated) contribs)
  ]

  -- The loop over the feature order, from column `i` on.
  unfoldable pub ablate_all :
      (List F → F)
      → (raw : F) → FeatureVector F
      → List String
      → (i : ℕ) → List F × Map F
      → List F × Map F
  unfolding ablate is_clear
  ablate_all predict raw fv [] i acc = acc
  ablate_all predict raw fv (id ∷ ids) i acc =
      let skipped = ablate_all predict raw fv ids (suc i) acc in
      let added = ablate_all predict raw fv ids (suc i) (ablate predict raw id i acc) in
      if is_clear fv id then added else skipped

  -- `LeavesScorer.Score`
  unfoldable pub leaves_score : LeavesScorer F → FeatureVector F → F × Map F
  unfolding to_vector ablate_all
  leaves_score s fv =
      let vals = to_vector fv s.feature_order in
      let raw = s.predict vals in
      (raw, (ablate_all s.predict raw fv s.feature_order 0 (vals, [])).1)

  unfoldable pub clamp : (v lo hi : F) → F
  clamp v lo hi = if f.lt v lo then lo else if f.lt hi v then hi else v

pub record BetaCalibrator (F : Type 0) : Type 0 where
  pub a : F
  pub b : F
  pub c : F
  pub version : String

module _ {F : Type 0} ⦃f : Float64 F⦄ where
  abbrev pub new_identity_beta_calibrator : BetaCalibrator F
  new_identity_beta_calibrator = record {
    a = f.of_int (pos 1);
    b = f.of_int (pos 1);
    c = f.of_int (pos 0);
    version = "identity-v0";
  }

  -- `BetaCalibrator.Calibrate`
  unfoldable pub calibrate_beta : Exponential F → BetaCalibrator F → F → F
  unfolding clamp logistic
  calibrate_beta x cal raw =
      let s = clamp raw (f.decimal 1 6) (f.minus (f.of_int (pos 1)) (f.decimal 1 6)) in
      logistic x (
        f.plus
          (f.minus (f.times cal.a (x.log s)) (f.times cal.b (x.log (f.minus (f.of_int (pos 1)) s))))
          cal.c)
