-- ===== src/Server/Tuning/Counts.antt =====
-- go/cmd/nazar/handlers_policy.go: what the replay of a candidate policy reports.
use payment_infrastructure.Base.{
  ℕ, ◌+◌, ◌≤◌, ◌≡◌, refl, sym, ap, subst, ◌∙◌, Bool, true, false, not, List, [], ◌∷◌, ◌++◌, Option,
  none, some, eq_refl, length, length-append, append_assoc, append_nil, take, take-whole, take-few,
  length-filter_by, filter_by, Bool-cases, inl, inr, arith, ltb, if◌then◌else◌,
}
use payment_infrastructure.Base.Int.{ℤ, pos, ltb_ℤ, add64, sub64}
use payment_infrastructure.Base.Float.{Float64}
use payment_infrastructure.Contract.Action.{
  Action, other, action_eq, ladder_index, ladder_index_same,
}
use payment_infrastructure.Decide.Engine.{Engine, snapshot}
use payment_infrastructure.Server.Tuning.{
  ReplayRow, FlipRow, Tally, new_tally, max_flips, flip_of, add_flip, count_flip, count_stricter,
  count_looser, count_row, count_rows, replayed, TuneRequest, TuneReply, PolicyStudio, live_policy,
  candidate_policy, under, limit_of, policy_tune, tuned, evaluate_cost,
}
use payment_infrastructure.Decide.Policy.{load}

ltb_ℤ_self : (i : ℤ) → ltb_ℤ i i ≡ false
ltb_ℤ_self i = ground arith

module _ {F : Type 0} ⦃f : Float64 F⦄ (current proposed : Engine F) where
  abbrev pub is_raised : ReplayRow F → Bool
  is_raised row =
      ltb_ℤ (ladder_index (replayed current row).0) (ladder_index (replayed proposed row).0)

  abbrev pub is_changed : ReplayRow F → Bool
  is_changed row = not (action_eq (replayed current row).0 (replayed proposed row).0)

  -- The flip of a row.
  abbrev pub flip : ReplayRow F → FlipRow F
  flip row =
      flip_of row (replayed current row).0 (replayed proposed row).0
        (if is_raised row then "stricter" else "looser")

  -- The rows whose action the candidate changes.
  unfoldable pub flips_of : List (ReplayRow F) → List (FlipRow F)
  flips_of [] = []
  flips_of (row ∷ rows) =
      let rest = flips_of rows in if is_changed row then flip row ∷ rest else rest

  -- What one row adds.
  RowCounted : ReplayRow F → Tally F → Tally F → Type 0
  RowCounted row t t' =
      (t'.stricter ≡ t.stricter + (if is_raised row then 1 else 0))
      × (t'.stricter + t'.looser ≡ t.stricter + t.looser + (if is_changed row then 1 else 0))
      × (t'.flips ≡ (if is_changed row then add_flip (flip row) t.flips else t.flips))

  row-counted :
      (row : ReplayRow F) (t : Tally F) → RowCounted row t (count_row current proposed row t)
  unfolding RowCounted count_row count_flip count_stricter count_looser
  row-counted row t =
      elim (Bool-cases (action_eq (replayed current row).0 (replayed proposed row).0)) [
        | inl same ↦
            let at_rest : is_raised row ≡ false =
              ap (λ i. ltb_ℤ i (ladder_index (replayed proposed row).0))
                (ladder_index_same _ _ same)
              ∙ ltb_ℤ_self (ladder_index (replayed proposed row).0) in
            rw (same, at_rest) (omega arith, omega arith, refl)
        | inr differ ↦ elim (Bool-cases (is_raised row)) [
          | inl up ↦ rw (differ, up) (omega arith, omega arith, refl)
          | inr down ↦ rw (differ, down) (omega arith, omega arith, refl)
        ]
      ]

  -- A flip is kept as far as there is room, before what follows.
  add_flip-take :
      (x : FlipRow F) (flips rest : List (FlipRow F))
      → length flips ≤ max_flips
      → (take max_flips (add_flip x flips ++ rest) ≡ take max_flips (flips ++ x ∷ rest))
        × (length (add_flip x flips) ≤ max_flips)
  add_flip-take x flips rest few = elim (Bool-cases (ltb (length flips) max_flips)) [
    | inl room ↦
        let longer = length-append flips (x ∷ []) in
        rw room (ap (take max_flips) (append_assoc flips (x ∷ []) rest), ground arith)
    | inr full ↦
        let size : length flips ≡ max_flips = ground arith in
        let whole : (ys : List (FlipRow F)) → take max_flips (flips ++ ys) ≡ flips =
          λ ys. ap (λ n. take n (flips ++ ys)) (sym size) ∙ take-whole flips ys in
        rw full (whole rest ∙ sym (whole (x ∷ rest)), few)
  ]

  -- What the rows add.
  Counted : List (ReplayRow F) → Tally F → Tally F → Type 0
  Counted rows t t' =
      (t'.stricter ≡ t.stricter + length (filter_by is_raised rows))
      × (t'.stricter + t'.looser ≡ t.stricter + t.looser + length (flips_of rows))
      × (t'.flips ≡ take max_flips (t.flips ++ flips_of rows))

  counted :
      (rows : List (ReplayRow F)) (t : Tally F)
      → length t.flips ≤ max_flips
      → Counted rows t (count_rows current proposed rows t)
  unfolding Counted count_rows flips_of RowCounted
  counted [] t few = (
    omega arith,
    omega arith,
    sym (ap (take max_flips) (append_nil t.flips) ∙ take-few max_flips t.flips few),
  )
  counted (row ∷ rows) t few =
      let (up, both, kept) = row-counted row t in
      let raised = length-filter_by is_raised row rows in
      let t1 = count_row current proposed row t in
      elim (Bool-cases (is_changed row)) [
        | inl changed ↦
            let step : t1.stricter + t1.looser ≡ t.stricter + t.looser + 1 =
              both ∙ rw changed refl in
            let flips1 : t1.flips ≡ add_flip (flip row) t.flips = kept ∙ rw changed refl in
            let (kept2, room) = add_flip-take (flip row) t.flips (flips_of rows) few in
            let (a, b, c) = counted rows t1 (subst (λ l. length l ≤ max_flips) (sym flips1) room) in
            rw changed (
              a ∙ omega (arith, up, raised),
              b ∙ omega (arith, step),
              c ∙ ap (λ l. take max_flips (l ++ flips_of rows)) flips1 ∙ kept2,
            )
        | inr same ↦
            let step : t1.stricter + t1.looser ≡ t.stricter + t.looser + 0 = both ∙ rw same refl in
            let flips1 : t1.flips ≡ t.flips = kept ∙ rw same refl in
            let (a, b, c) = counted rows t1 (subst (λ l. length l ≤ max_flips) (sym flips1) few) in
            rw same (
              a ∙ omega (arith, up, raised),
              b ∙ omega (arith, step),
              c ∙ ap (λ l. take max_flips (l ++ flips_of rows)) flips1,
            )
      ]

action_eq_self : (a : Action) → action_eq a a ≡ true
action_eq_self (other s) = eq_refl s
action_eq_self _ = refl

no_difference : (c : ℤ) → add64 (pos 0) (sub64 c c) ≡ pos 0
unfolding add64 sub64
no_difference c = ground arith

zero_plus : (n : ℕ) → 0 + n ≡ n
zero_plus n = omega arith

-- A request that sets nothing.
abbrev pub no_change : {F : Type 0} → Bool → ℤ → TuneRequest F
no_change apply limit = record {
  hold_friction_minor = none;
  step_up_friction_minor = none;
  interstitial_friction_minor = none;
  false_block_cost_minor = none;
  margin_minor = none;
  hold_stop_prob = none;
  hold_abandon_prob = none;
  degradation_cap_minor = none;
  loss_given_fraud_upi = none;
  apply = apply;
  replay_limit = limit;
}

module _ {F : Type 0} ⦃f : Float64 F⦄ where
  same_turn :
      (row : ReplayRow F) (x y : Action × ℤ)
      → x ≡ y
      → count_flip row x.0 y.0 (record new_tally { friction_delta = add64 (pos 0) (sub64 y.1 x.1) })
        ≡ new_tally
  unfolding count_flip
  same_turn row x y same =
      subst
        (λ z.
          count_flip row x.0 z.0
            (record new_tally { friction_delta = add64 (pos 0) (sub64 z.1 x.1) })
          ≡ new_tally)
        same
        (rw (action_eq_self x.0)
          (ap (λ c. record new_tally { friction_delta = c }) (no_difference x.1)))

  same_rows :
      (current proposed : Engine F) (rows : List (ReplayRow F))
      → ((row : ReplayRow F) → replayed current row ≡ replayed proposed row)
      → count_rows current proposed rows new_tally ≡ new_tally
  unfolding count_rows count_row count_flip
  same_rows current proposed [] same = refl
  same_rows current proposed (row ∷ rows) same =
      ap (count_rows current proposed rows)
        (same_turn row (replayed current row) (replayed proposed row) (same row))
      ∙ same_rows current proposed rows same

  -- The replay of a request that sets nothing.
  replay_no_change :
      (fresh : ℕ) (apply : Bool) (limit : ℤ) (e : Engine F) (rows : List (ReplayRow F))
      → count_rows
          (under (live_policy e) e)
          (under (candidate_policy fresh (no_change apply limit) e) e)
          rows
          new_tally
        ≡ new_tally
  unfolding under snapshot load candidate_policy tuned replayed evaluate_cost
  replay_no_change fresh apply limit e rows =
      same_rows (under (live_policy e) e)
        (under (candidate_policy fresh (no_change apply limit) e) e) rows (λ row. refl)

  reply :
      (fresh : ℕ) (req : TuneRequest F) (query : ℤ → Option (List (ReplayRow F)))
      (s : PolicyStudio F) (rows : List (ReplayRow F))
      → query (limit_of req.replay_limit) ≡ some rows
      → (r : TuneReply F) × ((policy_tune fresh req query s).1 ≡ some r)
        × (r.evaluated_against ≡ length rows)
        × (r.tally
            ≡ count_rows
                (under (live_policy s.engine) s.engine)
                (under (candidate_policy fresh req s.engine) s.engine)
                rows
                new_tally)
  unfolding policy_tune
  reply fresh req query s rows h = elim (Bool-cases req.apply) [
    | inl goes ↦ rw (policy_tune, h, goes) (_, refl, refl, refl)
    | inr stays ↦ rw (policy_tune, h, stays) (_, refl, refl, refl)
  ]

  -- When the database answers, the reply counts as stricter the rows whose action the candidate raises
  -- on the ladder, and stricter and looser together the rows whose action it changes; it lists the first
  -- 100 of those in their order; and a request that sets nothing reports no flips and no cost.
  pub policy_tune_lem :
      (fresh : ℕ) (req : TuneRequest F) (query : ℤ → Option (List (ReplayRow F)))
      (s : PolicyStudio F) (rows : List (ReplayRow F))
      → query (limit_of req.replay_limit) ≡ some rows
      → let current = under (live_policy s.engine) s.engine in
        let proposed = under (candidate_policy fresh req s.engine) s.engine in
        (r : TuneReply F) × ((policy_tune fresh req query s).1 ≡ some r)
        × (r.evaluated_against ≡ length rows)
        × (r.tally.stricter ≡ length (filter_by (is_raised current proposed) rows))
        × (r.tally.stricter + r.tally.looser ≡ length (flips_of current proposed rows))
        × (r.tally.flips ≡ take max_flips (flips_of current proposed rows))
        × ((apply : Bool) (limit : ℤ) → req ≡ no_change apply limit → r.tally ≡ new_tally)
  unfolding Counted
  policy_tune_lem fresh req query s rows h =
      let current = under (live_policy s.engine) s.engine in
      let proposed = under (candidate_policy fresh req s.engine) s.engine in
      let (r, answered, size, tallied) = reply fresh req query s rows h in
      let (up, both, flips) = counted current proposed rows new_tally (omega arith) in
      (
        r,
        answered,
        size,
        ap (λ t. t.stricter) tallied
            ∙ up
            ∙ zero_plus (length (filter_by (is_raised current proposed) rows)),
        ap (λ t. t.stricter + t.looser) tallied
            ∙ both
            ∙ zero_plus (length (flips_of current proposed rows)),
        ap (λ t. t.flips) tallied ∙ flips,
        λ apply limit eq.
            tallied
            ∙ ap
                (λ q.
                  count_rows current (under (candidate_policy fresh q s.engine) s.engine) rows
                    new_tally)
                eq
            ∙ replay_no_change fresh apply limit s.engine rows,
      )
