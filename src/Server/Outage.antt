-- ===== src/Server/Outage.antt =====
-- go/cmd/nazar/handlers.go with go/internal/profile/store.go: payments while Redis does not answer.
use payment_infrastructure.Base.{
  ◌≡◌, ◌≢◌, sym, ap, subst, ◌∙◌, false, [], none, some, some-eq, ok, ok-eq, All, length,
}
use payment_infrastructure.Base.Int.{ℤ, ◌≤ℤ◌}
use payment_infrastructure.Base.Float.{Float64}
use payment_infrastructure.Contract.Action.{step_up_interstitial, ladder_index}
use payment_infrastructure.Contract.Event.{Event}
use payment_infrastructure.Contract.Decision.{Decision}
use payment_infrastructure.Contract.Feature.{FeatureVector}
use payment_infrastructure.Features.{compute}
use payment_infrastructure.Features.Numbers.{Math}
use payment_infrastructure.Decide.Engine.{snapshot, first_cap}
use payment_infrastructure.Decide.Sequence.Parts.{IsDefExplained}
use payment_infrastructure.Decide.Sequence.Actions.{IsOverCap}
use payment_infrastructure.Decide.Sequence.Verdict.{hit_of, results_of, control_of}
use payment_infrastructure.Decide.Sequence.Guards.{degraded_guard}
use payment_infrastructure.Profile.Helpers.{Texts}
use payment_infrastructure.Profile.Loads.{Redis, load_bundle}
use payment_infrastructure.Profile.Loads.Degraded.{failing, degraded_list-load_bundle}
use payment_infrastructure.Server.{
  Server, Surroundings, input_of, decided, load_profile_with_deadline,
}
use payment_infrastructure.Decide.Sequence.{decide}
use payment_infrastructure.Server.Events.{degraded_list}
use payment_infrastructure.Server.Advisories.{consortium_advisories-IsExplained}
use payment_infrastructure.Server.Totality.{HasHours, decided-Verdict}

module _ {F : Type 0} ⦃f : Float64 F⦄ ⦃m : Math F⦄ (r : Redis) (t : Texts) (loaded_at_ms : ℤ) where
  -- What Load returns has an hour histogram of 24 entries.
  pub load_bundle-HasHours :
      (env : Surroundings F) (ev : Event)
      → env.profile ≡ some (load_bundle r t loaded_at_ms ev)
      → HasHours env
  load_bundle-HasHours env ev loaded pb h =
      ap (λ b. length b.payer.hour_hist) (some-eq (sym h ∙ loaded))
      ∙ (degraded_list-load_bundle F r t loaded_at_ms ev).1

  -- On a server whose rules have explanations: when the profile is what Load returned while at least one
  -- of its jobs failed, a payment above the value cap that is neither on the blocklist, nor capped, nor in
  -- the control group gets at least STEP_UP_INTERSTITIAL.
  pub outage_guard :
      (env : Surroundings F) (ev : Event) (s : Server F) (fv : FeatureVector F) (d : Decision F)
      → env.profile ≡ some (load_bundle r t loaded_at_ms ev)
      → failing r ev ≢ []
      → All IsDefExplained s.engine.rules.rules
      → let pb = load_profile_with_deadline env.profile in
        let in' = input_of env ev pb fv s in
        let e = snapshot s.engine in
        compute ev pb ev.accepted_at_ms ≡ ok fv
        → decided env ev s ≡ ok d
        → hit_of e in' ≡ none
        → first_cap (results_of e in') ≡ none
        → (control_of e in').0 ≡ false
        → IsOverCap e.policy.target ev
        → ladder_index step_up_interstitial ≤ℤ ladder_index d.action
  unfolding input_of load_profile_with_deadline
  outage_guard env ev s fv d loaded down ruled computed made free uncapped live over =
      let pb = load_profile_with_deadline env.profile in
      let (fv', d', x, computed', _, run, _, made', _) =
        decided-Verdict env ev s ruled (load_bundle-HasHours env ev loaded) in
      let in' = input_of env ev pb fv s in
      let same : fv ≡ fv' = ok-eq (sym computed ∙ computed') in
      let here : decide s.engine env.swapped in' ≡ ok (d', d'.findings) =
        subst (λ v. decide s.engine env.swapped (input_of env ev pb v s) ≡ ok (d', d'.findings))
          (sym same) run in
      let explained =
        consortium_advisories-IsExplained s.consortium env.query
          s.policy.ladder.min_reporter_reputation env.hours_since ev.creditor_account in
      let degraded : degraded_list pb ≢ [] = λ empty. down (
        sym (degraded_list-load_bundle F r t loaded_at_ms ev).0
        ∙ ap (λ o. degraded_list (load_profile_with_deadline o)) (sym loaded)
        ∙ empty) in
      let raised =
        degraded_guard s.engine env.swapped in' (record { ruled = ruled; explained = explained })
          here free uncapped live degraded over in
      subst (λ a. ladder_index step_up_interstitial ≤ℤ ladder_index a)
        (ap (λ o. o.action) (ok-eq (sym made' ∙ made))) raised
