-- ===== src/Tests/Scoring.antt =====
-- The theorems on go/internal/scoring with a small model.
use payment_infrastructure.Base.{
  ◌≡◌, refl, subst, inl, inr, Bool-cases, str_eq, List, [], ◌∷◌, Map, String, arith, lookup,
  lookup_or, eq_iff,
}
use payment_infrastructure.Base.Int.{ℤ, pos, negsuc, ◌+ℤ◌}
use payment_infrastructure.Contract.Feature.{FeatureVector}
use payment_infrastructure.Contract.Finding.{clear, not_evaluated}
use payment_infrastructure.Scoring.{
  Exponential, HeuristicScorer, LeavesScorer, is_clear, heuristic_score, to_vector, leaves_score,
}
use payment_infrastructure.Scoring.Clear.{
  IsRange, contribution, IsSameWhereClear, attributions, scores_read_clear,
}
use payment_infrastructure.Tests.Sample.{millionths}

-- One feature is CLEAR, and another one is not evaluated.
abbrev vector : ℤ → FeatureVector ℤ
vector stale = record {
  values = ("amt_over_p95", pos 2_000_000) ∷ ("geo_jump_kmh", stale) ∷ [];
  statuses = ("amt_over_p95", clear) ∷ ("geo_jump_kmh", not_evaluated) ∷ [];
  reasons = [];
  staleness = [];
}

abbrev summed : List ℤ → ℤ
summed [] = pos 0
summed (x ∷ xs) = x +ℤ summed xs

abbrev linear : LeavesScorer ℤ
linear = record {
  predict = summed;
  feature_order = "amt_over_p95" ∷ "geo_jump_kmh" ∷ "payee_fanin_1h" ∷ [];
}

abbrev flat : Exponential ℤ
flat = record { exp = λ x. pos 1_000_000; log = λ x. pos 0 }

abbrev hand : HeuristicScorer ℤ
hand = record {
  weights = ("amt_over_p95", pos 600_000) ∷ ("geo_jump_kmh", pos 4_000) ∷ [];
  bias = negsuc 2_999_999;
}

-- A call that meets the first two entries in the other order.
abbrev turned : Map ℤ → Map ℤ
turned (a ∷ b ∷ rest) = b ∷ a ∷ rest
turned m = m

turned-IsRange : IsRange turned (hand.weights)
unfolding lookup
turned-IsRange = record {
  same_entries = λ id. elim (Bool-cases (str_eq "amt_over_p95" id)) [
    | inl same ↦
        let at : "amt_over_p95" ≡ id = ground (arith, eq_iff "amt_over_p95" id) in
        subst (λ k. lookup k (turned hand.weights) ≡ lookup k hand.weights) at refl
    | inr apart ↦ rw apart refl
  ];
  once = (refl, (refl, tt));
}

vectors-IsSame : IsSameWhereClear (vector (pos 1)) (vector (pos 9))
unfolding is_clear lookup lookup_or
vectors-IsSame = record {
  same_clear = λ id. refl;
  same_value = λ id h. ground (arith, h, eq_iff "amt_over_p95" id, eq_iff "geo_jump_kmh" id);
}

scores_read_clear_example :
    ((heuristic_score flat turned hand (vector (pos 1))).0
      ≡ (heuristic_score flat turned hand (vector (pos 9))).0)
    × ((id : String)
        → lookup id (heuristic_score flat turned hand (vector (pos 1))).1
          ≡ contribution hand (vector (pos 1)) id)
    × ((id : String)
        → lookup id (heuristic_score flat turned hand (vector (pos 9))).1
          ≡ contribution hand (vector (pos 1)) id)
    × (leaves_score linear (vector (pos 1)) ≡ leaves_score linear (vector (pos 9)))
    × (leaves_score linear (vector (pos 1)) ≡ (
        let vals = to_vector (vector (pos 1)) linear.feature_order in
        (summed vals, attributions summed vals (vector (pos 1)) linear.feature_order 0 [])))
scores_read_clear_example = scores_read_clear vectors-IsSame flat turned hand linear turned-IsRange
