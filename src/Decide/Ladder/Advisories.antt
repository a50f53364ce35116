-- ===== src/Decide/Ladder/Advisories.antt =====
-- go/internal/decide/engine.go: what attachAdvisories returns.
use mathlib.Core.List.{append-nil, append_assoc, map}
use payment_infrastructure.Base.{
  String, ◌≡◌, refl, ◌∙◌, ◌⊎◌, inl, inr, false, ◌||◌, List, [], ◌∷◌, ◌++◌, arith, All, ok,
  Returns-value, ◌≢◌, Bool-cases, is_empty, if◌then◌else◌, concat,
}
use payment_infrastructure.Base.Int.{pos, ◌≤ℤ◌, ◌<ℤ◌}
use payment_infrastructure.Base.Float.{Float64}
use payment_infrastructure.Contract.Action.{Action, block, value_cap, action_eq, ladder_index}
use payment_infrastructure.Contract.Finding.{Finding, new_finding-ok, finding_of}
use payment_infrastructure.Decide.Policy.{Policy, advisory_max_rung_action}
use payment_infrastructure.Decide.Ladder.{
  Advisory, Attached, is_admissible, judge, attach_admissible, attach_advisories, escalate,
  escalated_index, most_steps, status_of,
}
use payment_infrastructure.Decide.Ladder.Laws.{IsEscalation, escalate-Returns, escalated_index-le}

-- An advisory's explanation is not empty, so that its finding can be made.
abbrev pub IsExplained : {F : Type 0} → Advisory F → Type 0
IsExplained a = is_empty a.explanation ≡ false

module _ {F : Type 0} ⦃f : Float64 F⦄ where
  -- The admissible ones of a list, in their order.
  unfoldable pub admissible_of : Policy F → List (Advisory F) → List (Advisory F)
  admissible_of p [] = []
  admissible_of p (a ∷ rest) =
      if is_admissible p a then a ∷ admissible_of p rest else admissible_of p rest

  -- The finding that an advisory leaves.
  pub advisory_finding : Policy F → Advisory F → Finding F
  advisory_finding p a =
      finding_of (concat "consortium:" a.signal_id) (status_of (is_admissible p a)) a.explanation

  judge_lem :
      (p : Policy F) (advisories good : List (Advisory F)) (findings : List (Finding F))
      → All IsExplained advisories
      → judge p advisories (good, findings)
        ≡ ok (good ++ admissible_of p advisories, findings ++ map (advisory_finding p) advisories)
  unfolding judge admissible_of advisory_finding
  judge_lem p [] good findings h = simp append-nil
  judge_lem p (a ∷ rest) good findings (h, hs) =
      rw
        (new_finding-ok (concat "consortium:" a.signal_id) (status_of (is_admissible p a))
          a.explanation h)
        (elim (Bool-cases (is_admissible p a)) [
          | inl yes_it_is ↦
              rw yes_it_is (judge_lem p rest (good ++ a ∷ []) _ hs ∙ simp append_assoc)
          | inr it_is_not ↦ rw it_is_not (judge_lem p rest good _ hs ∙ simp append_assoc)
        ])

  -- What is left of the action, the reason codes and the findings.
  pub record IsAttached (p : Policy F) (action : Action) (advisories : List (Advisory F))
      (codes : List String) (findings : List (Finding F)) (out : Attached F) : Type 0 where
    pub raises : ladder_index action ≤ℤ ladder_index out.action
    pub capped :
        ((out.action ≡ action) × (out.codes ≡ codes))
        ⊎ ((ladder_index action <ℤ ladder_index out.action)
            × (ladder_index out.action ≤ℤ ladder_index (advisory_max_rung_action p))
            × (out.codes ≡ codes ++ "ADVISORY_ESCALATED" ∷ []))
    pub judged : out.findings ≡ findings ++ map (advisory_finding p) advisories
    pub untouched : admissible_of p advisories ≡ [] → (out.action ≡ action) × (out.codes ≡ codes)

  attach_admissible_lem :
      (p : Policy F) (action : Action) (good : List (Advisory F)) (codes : List String)
      (findings : List (Finding F))
      → (final : Action) × (codes' : List String) × (attach_admissible p action good codes findings
          ≡ ok (record { action = final; codes = codes'; findings = findings }))
        × IsEscalation action (advisory_max_rung_action p) codes (final, codes')
        × (good ≡ [] → (final ≡ action) × (codes' ≡ codes))
  unfolding attach_admissible
  attach_admissible_lem p action [] codes findings = (
    action,
    codes,
    refl,
    record { raises = omega arith; capped = inl (refl, refl) },
    λ _. (refl, refl),
  )
  attach_admissible_lem p action (a ∷ rest) codes findings =
      let max_rung = advisory_max_rung_action p in
      let idx =
        escalated_index action (most_steps (a ∷ rest) (pos 0)) p.ladder.advisory_max_steps
          max_rung in
      let (out, e, far) =
        Returns-value (IsEscalation action max_rung codes) (escalate action idx codes) (
          escalate-Returns action idx max_rung codes (
            escalated_index-le action (most_steps (a ∷ rest) (pos 0)) p.ladder.advisory_max_steps
              max_rung)) in
      (out.0, out.1, rw e, far, λ h. cc)

  -- With explained advisories, and an action other than BLOCK and CAP, attachAdvisories returns: the
  -- action does not fall, and it is unchanged, with the reason codes, or it rises to at most the
  -- policy's highest rung for advisories and the reason codes say so. If no advisory is admissible,
  -- action and reason codes are unchanged. Each advisory leaves a finding, in order.
  pub attach_advisories_lem :
      (p : Policy F) (action : Action) (advisories : List (Advisory F)) (codes : List String)
      (findings : List (Finding F))
      → All IsExplained advisories
      → action ≢ block
      → action ≢ value_cap
      → (out : Attached F) × (attach_advisories p action advisories codes findings ≡ ok out)
        × IsAttached p action advisories codes findings out
  unfolding attach_advisories
  attach_advisories_lem p action advisories codes findings explained not_block not_cap =
      let (final, codes', e, far, untouched) =
        attach_admissible_lem p action (admissible_of p advisories) codes
          (findings ++ map (advisory_finding p) advisories) in
      let judged = judge_lem p advisories [] findings explained in
      (
        record {
          action = final;
          codes = codes';
          findings = findings ++ map (advisory_finding p) advisories;
        },
        rw (on_ladder action not_block not_cap, judged) e,
        record { raises = far.raises; capped = far.capped; judged = refl; untouched = untouched },
      )
    where
      on_ladder :
          (a : Action)
          → a ≢ block
          → a ≢ value_cap
          → (action_eq a block || action_eq a value_cap) ≡ false
      on_ladder block h k = absurd (h refl)
      on_ladder value_cap h k = absurd (k refl)
      on_ladder _ h k = refl

  -- BLOCK and CAP are off the ladder: they pass unchanged, and no advisory is even judged.
  attach_off_ladder :
      (p : Policy F) (action : Action) (advisories : List (Advisory F)) (codes : List String)
      (findings : List (Finding F))
      → (action ≡ block) ⊎ (action ≡ value_cap)
      → attach_advisories p action advisories codes findings
        ≡ ok (record { action = action; codes = codes; findings = findings })
  unfolding attach_advisories
  attach_off_ladder p action advisories codes findings (inl e) = rw e
  attach_off_ladder p action advisories codes findings (inr e) = rw e
