-- ===== src/Decide/Sequence/Guards.antt =====
-- go/internal/decide/engine.go: when Decide blocks, caps, holds and fast-paths.
use payment_infrastructure.Base.{
  String, ◌≡◌, refl, sym, ap, subst, ◌≢◌, ◌↔◌, ◌⊎◌, inl, inr, Bool, true, false, List, [], ◌∷◌,
  Option, none, some, arith, All, Option-cases, ◌∙◌, ok,
}
use payment_infrastructure.Base.Int.{pos, pos_part, neg_part, ◌≤ℤ◌}
use payment_infrastructure.Base.Float.{Float64}
use payment_infrastructure.Contract.Action.{
  Action, allow, block, value_cap, hold, step_up_interstitial, ladder_index,
}
use payment_infrastructure.Contract.Event.{Event}
use payment_infrastructure.Contract.Finding.{Finding}
use payment_infrastructure.Contract.Profile.{ProfileBundle}
use payment_infrastructure.Contract.Decision.{Decision}
use payment_infrastructure.Rules.{Result}
use payment_infrastructure.Decide.Policy.{Policy, Pointer, advisory_max_rung_action}
use payment_infrastructure.Decide.Cost.Rungs.{OnLadder, allow-OnLadder}
use payment_infrastructure.Decide.Ladder.{apply_policy_rails, rung_of}
use payment_infrastructure.Decide.Ladder.Laws.{Asks, AnyAsks, here, there, apply_policy_rails_lub}
use payment_infrastructure.Decide.Ladder.Advisories.{IsExplained}
use payment_infrastructure.Decide.Engine.{Engine, Input, snapshot, first_cap, is_cap, trusted_pair}
use payment_infrastructure.Decide.Sequence.{decide}
use payment_infrastructure.Decide.Sequence.Parts.{IsDefExplained, with_rule_features}
use payment_infrastructure.Decide.Sequence.Actions.{IsScored, IsOverCap, OnLadder-ne, own_action}
use payment_infrastructure.Decide.Sequence.Verdict.{
  Verdict, is_blocked, is_capped, is_controlled, is_trusted, is_scored, results_of, hit_of,
  control_of, decide_lem,
}

first_cap-none : (rs : List Result) → All (λ r. is_cap r ≡ false) rs → first_cap rs ≡ none
unfolding first_cap
first_cap-none [] h = refl
first_cap-none (r ∷ rs) (h, hs) = rw h (first_cap-none rs hs)

first_cap-All : (rs : List Result) → first_cap rs ≡ none → All (λ r. is_cap r ≡ false) rs
unfolding first_cap
first_cap-All [] h = tt
first_cap-All (r ∷ rs) h = (ground arith, first_cap-All rs (ground arith))

Asks-ne-hold : (rung : Action) (r : Result) → Asks r rung → rung ≢ hold
unfolding rung_of
Asks-ne-hold rung r asks held = ground (arith, asks.rung)

AnyAsks-ne-hold : (rung : Action) (rs : List Result) → AnyAsks rung rs → rung ≢ hold
AnyAsks-ne-hold rung [] asks = elim asks [ ]
AnyAsks-ne-hold rung (r ∷ rs) (here _ _ asks) = Asks-ne-hold rung r asks
AnyAsks-ne-hold rung (r ∷ rs) (there _ _ more) = AnyAsks-ne-hold rung rs more

rails-ne-hold :
    (rs : List Result) (codes : List String) → (apply_policy_rails rs (allow, codes)).0 ≢ hold
rails-ne-hold rs codes held = elim (apply_policy_rails_lub rs allow codes).2 [
  | inl e ↦ cc
  | inr asks ↦ AnyAsks-ne-hold _ rs asks held
]

hold-above :
    (max_rung : Action)
    → ladder_index hold ≤ℤ ladder_index max_rung
    → ladder_index max_rung ≤ℤ ladder_index step_up_interstitial
    → ⊥
hold-above max_rung h k =
    let top : ladder_index hold ≡ pos 4 = unfold ladder_index in refl in
    let low : ladder_index step_up_interstitial ≡ pos 3 = unfold ladder_index in refl in
    absurd (omega (arith, ap pos_part top, ap pos_part low, ap neg_part top, ap neg_part low))

module _ {F : Type 0} ⦃f : Float64 F⦄ where
  trusted-down :
      (p : Policy F) (pb : ProfileBundle F) (ev : Event) (ring : Bool) (down : List String)
      → trusted_pair p pb ev ring down ≡ true
      → down ≡ []
  unfolding trusted_pair
  trusted-down p pb ev ring [] h = refl
  trusted-down p pb ev ring (d ∷ ds) h = cc

  trusted-OnLadder :
      (e : Engine F) (in' : Input F) (a : Action) (codes : List String)
      → a ≡ (apply_policy_rails (results_of e in') (allow, codes)).0
      → OnLadder a
  trusted-OnLadder e in' a codes h = rw h (
      let rails = (apply_policy_rails_lub (results_of e in') allow codes).0 in
      let base = allow-OnLadder in omega arith)

  module _ (e : Engine F) (swapped : Option (Pointer (Policy F))) (in' : Input F)
      {d : Decision F} where
    -- Without a hit the action is CAP, or a rung of the ladder if no cap rule fired.
    off_list :
        Verdict e swapped in' d
        → hit_of e in' ≡ none
        → ((first_cap (results_of e in') ≢ none) × (d.action ≡ value_cap))
          ⊎ ((first_cap (results_of e in') ≡ none) × OnLadder d.action)
    off_list (is_blocked entry h _ _) free = absurd (cc)
    off_list (is_capped r _ h a _ _) free = inl (λ none_fired. cc, a)
    off_list (is_controlled _ h _ a _ _) free = inr (h, rw a allow-OnLadder)
    off_list (is_trusted _ h _ _ a _) free = inr (h, trusted-OnLadder e in' d.action _ a)
    off_list (is_scored _ h _ _ s) free = inr (h, s.rung)

    on_list : Verdict e swapped in' d → hit_of e in' ≢ none → d.action ≡ block
    on_list (is_blocked _ _ a _) hits = a
    on_list (is_capped _ free _ _ _ _) hits = absurd (hits free)
    on_list (is_controlled free _ _ _ _ _) hits = absurd (hits free)
    on_list (is_trusted free _ _ _ _ _) hits = absurd (hits free)
    on_list (is_scored free _ _ _ _) hits = absurd (hits free)

    degraded_guard_of :
        Verdict e swapped in' d
        → hit_of e in' ≡ none
        → first_cap (results_of e in') ≡ none
        → (control_of e in').0 ≡ false
        → in'.degraded ≢ []
        → IsOverCap e.policy.target in'.event
        → ladder_index step_up_interstitial ≤ℤ ladder_index d.action
    degraded_guard_of (is_blocked _ h _ _) free uncapped live down over = absurd (cc)
    degraded_guard_of (is_capped _ _ h _ _ _) free uncapped live down over = absurd (cc)
    degraded_guard_of (is_controlled _ _ h _ _ _) free uncapped live down over = absurd (cc)
    degraded_guard_of (is_trusted _ _ _ h _ _) free uncapped live down over =
        absurd (down (trusted-down e.policy.target in'.profile in'.event _ in'.degraded h))
    degraded_guard_of (is_scored _ _ _ _ s) free uncapped live down over = s.guarded down over

    -- A decision with a probability went through stages 3 to 6.
    IsScored-of :
        {p : F}
        → Verdict e swapped in' d
        → d.p_prevalence_adj ≡ some p
        → IsScored e swapped in'
            (results_of e in')
            (with_rule_features (results_of e in') in'.features)
            d
    IsScored-of (is_blocked _ _ _ n) h = absurd (cc)
    IsScored-of (is_capped _ _ _ _ _ n) h = absurd (cc)
    IsScored-of (is_controlled _ _ _ _ _ n) h = absurd (cc)
    IsScored-of (is_trusted _ _ _ _ _ n) h = absurd (cc)
    IsScored-of (is_scored _ _ _ _ s) h = s

    hold_is_own_of :
        Verdict e swapped in' d
        → ladder_index (advisory_max_rung_action e.policy.target)
          ≤ℤ ladder_index step_up_interstitial
        → d.action ≡ hold
        → (own_action e swapped in' (results_of e in') d.p_prevalence_adj).0 ≡ hold
    hold_is_own_of (is_blocked _ _ a _) low held = absurd (cc)
    hold_is_own_of (is_capped _ _ _ a _ _) low held = absurd (cc)
    hold_is_own_of (is_controlled _ _ _ a _ _) low held = absurd (cc)
    hold_is_own_of (is_trusted _ _ _ _ a _) low held =
        absurd (rails-ne-hold (results_of e in') _ (sym a ∙ held))
    hold_is_own_of (is_scored _ _ _ _ s) low held =
        let top = advisory_max_rung_action e.policy.target in
        elim s.advised [
          | inl own ↦ sym own ∙ held
          | inr capped ↦
              absurd
                (hold-above top (subst (λ x. ladder_index x ≤ℤ ladder_index top) held capped) low)
        ]

  -- An engine and an input for which Decide is proved to return.
  pub record IsRunnable (e0 : Engine F) (in' : Input F) : Type 0 where
    pub ruled : All IsDefExplained e0.rules.rules
    pub explained : All IsExplained in'.advisories

  module _ (e0 : Engine F) (swapped : Option (Pointer (Policy F))) (in' : Input F) {d : Decision F}
      {fs : List (Finding F)} (runnable : IsRunnable e0 in')
      (run : decide e0 swapped in' ≡ ok (d, fs)) where
    pub decide-Verdict : Verdict (snapshot e0) swapped in' d
    decide-Verdict =
        let (d', run', verdict) = decide_lem e0 swapped in' runnable.ruled runnable.explained in
        let same : d' ≡ d = cc in subst (Verdict (snapshot e0) swapped in') same verdict

    -- With explanations for all rules and advisories, a decision of Decide is BLOCK exactly when the
    -- creditor account is on the local blocklist. Nothing else leads to it: no rule, not even a fired
    -- regulatory one whose action is BLOCK, and no score, ring, degradation or advisory.
    pub block_iff : (d.action ≡ block) ↔ (hit_of (snapshot e0) in' ≢ none)
    block_iff = (
      λ blocked free. elim (off_list (snapshot e0) swapped in' decide-Verdict free) [
        | inl (_, a) ↦ cc
        | inr (_, rung) ↦ (OnLadder-ne d.action rung).0 blocked
      ],
      λ hits. on_list (snapshot e0) swapped in' decide-Verdict hits,
    )

    -- With explanations for all rules and advisories, a decision of Decide is CAP exactly when the
    -- creditor account is not on the blocklist and some regulatory rule with the action CAP fired.
    pub cap_iff : (d.action ≡ value_cap) ↔ (
        (hit_of (snapshot e0) in' ≡ none)
        × ¬ All (λ r. is_cap r ≡ false) (results_of (snapshot e0) in'))
    cap_iff = (
      λ capped.
          let free = unlisted capped in
          (
            free,
            λ none_fired. elim (off_list (snapshot e0) swapped in' decide-Verdict free) [
              | inl (fired, _) ↦ fired (first_cap-none _ none_fired)
              | inr (_, rung) ↦ (OnLadder-ne d.action rung).1 capped
            ],
          ),
      λ (free, some_fired). elim (off_list (snapshot e0) swapped in' decide-Verdict free) [
        | inl (_, a) ↦ a
        | inr (none_fired, _) ↦ absurd (some_fired (first_cap-All _ none_fired))
      ],
    )
      where
        unlisted : d.action ≡ value_cap → hit_of (snapshot e0) in' ≡ none
        unlisted capped = elim (Option-cases (hit_of (snapshot e0) in')) [
          | inl free ↦ free
          | inr (entry, hits) ↦
              absurd (cc (on_list (snapshot e0) swapped in' decide-Verdict (λ free. cc)))
        ]

    -- With explanations for all rules and advisories: under degradation and above the value cap, a payment that is neither blocked, nor capped, nor in
    -- the control group gets at least STEP_UP_INTERSTITIAL: no fast path, score or policy lowers it.
    pub degraded_guard :
        hit_of (snapshot e0) in' ≡ none
        → first_cap (results_of (snapshot e0) in') ≡ none
        → (control_of (snapshot e0) in').0 ≡ false
        → in'.degraded ≢ []
        → IsOverCap (snapshot e0).policy.target in'.event
        → ladder_index step_up_interstitial ≤ℤ ladder_index d.action
    degraded_guard free uncapped live down over =
        degraded_guard_of (snapshot e0) swapped in' decide-Verdict free uncapped live down over

    -- With explanations for all rules and advisories: if the policy's highest rung for advisories is at most STEP_UP_INTERSTITIAL, a decision to HOLD
    -- is the engine's own: the action before any advisory was HOLD already.
    pub hold_is_own :
        ladder_index (advisory_max_rung_action (snapshot e0).policy.target)
          ≤ℤ ladder_index step_up_interstitial
        → d.action ≡ hold
        → (own_action (snapshot e0) swapped in' (results_of (snapshot e0) in') d.p_prevalence_adj).0
          ≡ hold
    hold_is_own low held = hold_is_own_of (snapshot e0) swapped in' decide-Verdict low held

    pub decide-IsScored :
        {p : F}
        → d.p_prevalence_adj ≡ some p
        → IsScored
            (snapshot e0)
            swapped
            in'
            (results_of (snapshot e0) in')
            (with_rule_features (results_of (snapshot e0) in') in'.features)
            d
    decide-IsScored h = IsScored-of (snapshot e0) swapped in' decide-Verdict h
