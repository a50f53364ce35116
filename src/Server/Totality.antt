-- ===== src/Server/Totality.antt =====
-- go/cmd/nazar/handlers.go: no request panics, and each is answered with what Decide decided.
use payment_infrastructure.Base.{
  ℕ, String, ◌≡◌, refl, sym, ap, subst, ◌⊎◌, concat, ◌∙◌, inl, inr, Bool, true, false, List, [],
  ◌∷◌, ◌++◌, Option, none, some, Map, ok, All, length, is_empty, is_empty-concat, Option-cases,
  Bool-cases, if◌then◌else◌,
}
use payment_infrastructure.Base.Float.{Float64}
use payment_infrastructure.Contract.Event.{Event}
use payment_infrastructure.Contract.Finding.{
  Finding, fired, clear, not_evaluated, finding_of, new_finding-ok, new_finding->>=,
}
use payment_infrastructure.Contract.Decision.{Decision}
use payment_infrastructure.Contract.Feature.{FeatureVector}
use payment_infrastructure.Contract.Profile.{ProfileBundle}
use payment_infrastructure.Features.{compute}
use payment_infrastructure.Features.Numbers.{Math}
use payment_infrastructure.Features.Honest.{IsHonest}
use payment_infrastructure.Features.Complete.{compute-IsHonest}
use payment_infrastructure.Decide.Policy.{Policy, Pointer}
use payment_infrastructure.Decide.Engine.{Engine, snapshot, swap}
use payment_infrastructure.Decide.Sequence.{decide}
use payment_infrastructure.Decide.Sequence.Parts.{IsDefExplained}
use payment_infrastructure.Decide.Sequence.Verdict.{Verdict, decide_lem}
use payment_infrastructure.Novelty
use payment_infrastructure.Novelty.{
  NoveltyEngine, NoveltyResult, cold_start, not_evaluated_yet, ranked, is_cold,
}
use payment_infrastructure.Obs.Latency.{Sample}
use payment_infrastructure.Obs.Latency.Window.{IsWindow, record_sample-IsWindow}
use payment_infrastructure.Server.Events.{stamp_event, novelty_finding, novelty_text}
use payment_infrastructure.Server.Advisories.{consortium_advisories-IsExplained}
use payment_infrastructure.Server.{
  Server, Encoders, Surroundings, load_profile_with_deadline, input_of, decided, persist, logged,
  settled, latency_sample, fresh_decision, decide_and_persist, run_async, take_job,
}
use payment_infrastructure.Server.Replays.{
  Happening, request, async_job, expires, happen, happen_all, path_cases, fresh-eq-ok,
}
use payment_infrastructure.Profile.Empty.{empty_bundle, empty_payer}
use payment_infrastructure.Profile.Idempotency.{load_decision, not_found}

module _ {F : Type 0} ⦃f : Float64 F⦄ ⦃m : Math F⦄ where
  evaluate_cases :
      (values : Map F) (e : NoveltyEngine F)
      → (Novelty.evaluate values e ≡ not_evaluated_yet)
        ⊎ ((dims : List String) × (alphas : List F) × (Novelty.evaluate values e
              ≡ ranked values dims e.scale alphas e.ref))
  unfolding Novelty.evaluate
  evaluate_cases values e = elim (Option-cases e.dims) [
    | inl d ↦ inl (rw (Novelty.evaluate, d) refl)
    | inr (dims, d) ↦ elim (Option-cases e.alphas) [
      | inl a ↦ inl (rw (Novelty.evaluate, d, a) refl)
      | inr (alphas, a) ↦ elim (Bool-cases (is_cold e alphas)) [
        | inl cold ↦ inl (rw (Novelty.evaluate, d, a, cold) refl)
        | inr warm ↦ inr (dims, alphas, rw (Novelty.evaluate, d, a, warm) refl)
      ]
    ]
  ]

  -- A finding of the novelty engine has an explanation.
  novelty_finding-ok :
      (values : Map F) (e : NoveltyEngine F)
      → (x : Finding F) × (novelty_finding (Novelty.evaluate values e) ≡ ok x)
        × (x.signal_id ≡ "novelty")
  unfolding novelty_finding ranked not_evaluated_yet finding_of
  novelty_finding-ok values e = elim (evaluate_cases values e) [
    | inl cold ↦
        let x = finding_of "novelty" not_evaluated cold_start in
        (x, rw cold (new_finding-ok "novelty" not_evaluated cold_start refl), refl)
    | inr (dims, alphas, warm) ↦
        let nr = ranked values dims e.scale alphas e.ref in
        let unusual = f.lt nr.p_value (f.decimal 5 2) in
        let status = if unusual then fired else clear in
        let text =
          if unusual then concat "unusual pattern: " (novelty_text nr) else novelty_text nr in
        let shown : is_empty text ≡ false = elim (Bool-cases unusual) [
          | inl u ↦ rw u (is_empty-concat "unusual pattern: " (novelty_text nr) refl)
          | inr u ↦ rw u (is_empty-concat "conformal p-value " _ refl)
        ] in
        (
          record (finding_of "novelty" status text) { score = nr.p_value },
          rw warm (
              new_finding->>= "novelty" status text (λ x. ok (record x { score = nr.p_value }))
                shown),
          refl,
        )
  ]

  -- The rules have explanations, and the latency buffer has been used as it is meant to.
  pub record IsReady (s : Server F) : Type 0 where
    pub ruled : All IsDefExplained s.engine.rules.rules
    pub seen : List (Sample F)
    pub window : IsWindow seen s.latency

  -- A profile that was loaded has an hour histogram of 24 entries.
  abbrev pub HasHours : Surroundings F → Type 0
  HasHours env = (pb : ProfileBundle F) → env.profile ≡ some pb → length pb.payer.hour_hist ≡ 24

  loaded-HasHours :
      (o : Option (ProfileBundle F))
      → ((pb : ProfileBundle F) → o ≡ some pb → length pb.payer.hour_hist ≡ 24)
      → length (load_profile_with_deadline o).payer.hour_hist ≡ 24
  unfolding load_profile_with_deadline empty_bundle empty_payer
  loaded-HasHours none h = refl
  loaded-HasHours (some pb) h = h pb refl

  -- The decision that the server returns, from the one that Decide makes.
  abbrev pub with_novelty : Surroundings F → Decision F → Finding F → Decision F
  with_novelty env d finding = record d {
    findings = d.findings ++ finding ∷ [];
    decided_at_ms = env.decided_ms;
    queue_delay_ms = env.queue_delay_ms;
    service_ms = env.service_ms;
  }

  -- For every request on a server whose rules have explanations, with an hour histogram of 24 entries
  -- in the profile if one was loaded, Compute returns an honest vector,
  -- Decide returns a decision on it that came about in one of its five ways, and the server's decision
  -- is that one with one finding more, of the novelty engine, and its times: whatever the novelty engine
  -- says, the action is that of Decide.
  pub decided-Verdict :
      (env : Surroundings F) (ev : Event) (s : Server F)
      → All IsDefExplained s.engine.rules.rules
      → HasHours env
      → let pb = load_profile_with_deadline env.profile in
        (fv : FeatureVector F) × (d : Decision F) × (x : Finding F) × (compute ev pb
            ev.accepted_at_ms
          ≡ ok fv)
        × IsHonest fv
        × (decide s.engine env.swapped (input_of env ev pb fv s) ≡ ok (d, d.findings))
        × Verdict (snapshot s.engine) env.swapped (input_of env ev pb fv s) d
        × (decided env ev s ≡ ok (with_novelty env d x))
        × (x.signal_id ≡ "novelty")
  unfolding decided input_of
  decided-Verdict env ev s ruled hours =
      let pb = load_profile_with_deadline env.profile in
      let (fv, computed, honest) =
        compute-IsHonest ev pb ev.accepted_at_ms (loaded-HasHours env.profile hours) in
      let (d, made, verdict) = decide_lem s.engine env.swapped (input_of env ev pb fv s) ruled (
        consortium_advisories-IsExplained s.consortium env.query
          s.policy.ladder.min_reporter_reputation env.hours_since ev.creditor_account) in
      let (x, found, named) = novelty_finding-ok d.features.values s.novelty in
      (fv, d, x, computed, honest, made, verdict, rw (decided, computed, made, found) refl, named)

  module _ (enc : Encoders F) where
    rules-swap : (o : Option (Pointer (Policy F))) (e : Engine F) → (swap o e).rules ≡ e.rules
    unfolding swap
    rules-swap none e = refl
    rules-swap (some p) e = refl

    fresh_decision-IsReady :
        (env : Surroundings F) (ev : Event) (s : Server F)
        → IsReady s
        → HasHours env
        → (out : Server F × Decision F × Bool) × (fresh_decision enc env ev s ≡ ok out)
          × IsReady out.0
    unfolding fresh_decision persist settled
    fresh_decision-IsReady env ev s ready hours =
        let (fv, d, x, _, _, _, _, made, _) = decided-Verdict env ev s ready.ruled hours in
        let (wal, final) = logged enc env (with_novelty env d x) s in
        let (latency, recorded, _, window) =
          record_sample-IsWindow (latency_sample final) ready.seen s.latency ready.window in
        (
          (settled enc env ev wal final latency s, final, false),
          rw (fresh_decision, made, persist, recorded) refl,
          record {
            ruled =
                subst (λ rules. All IsDefExplained rules.rules)
                  (sym (rules-swap env.swapped s.engine)) ready.ruled;
            seen = ready.seen ++ latency_sample final ∷ [];
            window = window;
          },
        )

    -- A request whose id has no stored decision is decided.
    pub first_answer :
        (env : Surroundings F) (ev : Event) (s : Server F)
        → IsReady s
        → HasHours env
        → load_decision enc.codec env.load_fails ev.end_to_end_id s.stored ≡ not_found
        → (s1 : Server F) × (d : Decision F) × (decide_and_persist enc env ev s ≡ ok (s1, d, false))
    unfolding decide_and_persist stamp_event
    first_answer env ev s ready hours new =
        let (out, run, _) = fresh_decision-IsReady env (stamp_event env.t0_ms ev) s ready hours in
        let (_, _, _, _, made) = fresh-eq-ok enc env ev s out run in
        (
          out.0,
          out.1,
          rw (decide_and_persist, new) (run ∙ ap ok (ap (λ x. (out.0, out.1, x.2)) made)),
        )

    -- Every request is answered, and leaves the server ready for the next one.
    decide_and_persist-IsReady :
        (env : Surroundings F) (ev : Event) (s : Server F)
        → IsReady s
        → HasHours env
        → (out : Server F × Decision F × Bool) × (decide_and_persist enc env ev s ≡ ok out)
          × IsReady out.0
    decide_and_persist-IsReady env ev s ready hours = elim (path_cases enc env ev s) [
      | inl (old, e) ↦ ((s, old, true), e, ready)
      | inr e ↦
          let (out, run, later) =
            fresh_decision-IsReady env (stamp_event env.t0_ms ev) s ready hours in
          (out, e ∙ run, later)
    ]

    abbrev pub GivesHours : Happening F → Type 0
    GivesHours (request env ev) = HasHours env
    GivesHours (async_job i) = Unit
    GivesHours (expires key) = Unit

    run_async-IsReady : (i : ℕ) (s : Server F) → IsReady s → IsReady (run_async enc i s)
    unfolding run_async
    run_async-IsReady i s ready = elim (Option-cases (take_job s.jobs i)) [
      | inl e ↦ rw (run_async, e) ready
      | inr ((job, rest), e) ↦
          rw (run_async, e)
            (record { ruled = ready.ruled; seen = ready.seen; window = ready.window })
    ]

    happen-IsReady :
        (h : Happening F) (s : Server F)
        → IsReady s
        → GivesHours h
        → (s' : Server F) × (happen enc h s ≡ ok s') × IsReady s'
    unfolding happen
    happen-IsReady (request env ev) s ready hours =
        let (out, run, later) = decide_and_persist-IsReady env ev s ready hours in
        (out.0, rw (happen, run) refl, later)
    happen-IsReady (async_job i) s ready hours =
        (run_async enc i s, refl, run_async-IsReady i s ready)
    happen-IsReady (expires key) s ready hours =
        (_, refl, record { ruled = ready.ruled; seen = ready.seen; window = ready.window })

    -- A server whose rules have explanations, and whose latency buffer has been used as it is meant to,
    -- never panics: whatever requests come, whatever fails, and in whatever order the goroutines of the
    -- asynchronous lane run, the run ends, and every further request is answered.
    pub always_answers :
        (hs : List (Happening F)) (s : Server F) (env : Surroundings F) (ev : Event)
        → IsReady s
        → All GivesHours hs
        → HasHours env
        → (s' : Server F) × (happen_all enc hs s ≡ ok s')
          × ((out : Server F × Decision F × Bool) × (decide_and_persist enc env ev s' ≡ ok out))
    unfolding happen_all
    always_answers [] s env ev ready given hours =
        let (out, run, _) = decide_and_persist-IsReady env ev s ready hours in (s, refl, (out, run))
    always_answers (h ∷ hs) s env ev ready (give, given) hours =
        let (s1, first, later) = happen-IsReady h s ready give in
        let (s', rest, last) = always_answers hs s1 env ev later given hours in
        (s', rw (happen_all, first) rest, last)
