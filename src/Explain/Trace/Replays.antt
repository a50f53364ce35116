-- ===== src/Explain/Trace/Replays.antt =====
-- go/internal/explain/trace.go with go/internal/decide/engine.go: the replay of a decision of Decide.
use payment_infrastructure.Base.{
  String, ◌≡◌, refl, sym, ap, ◌∙◌, ◌⊎◌, inl, inr, Bool, true, false, List, [], ◌∷◌, ◌++◌, Option,
  none, some, Map, All, All-append, Bool-cases, lookup, ok, some-eq, subst, arith, if◌then◌else◌,
}
use payment_infrastructure.Base.Int.{ℤ, pos, eqb_ℤ}
use payment_infrastructure.Base.Float.{Float64}
use payment_infrastructure.Audit.{Hashing}
use payment_infrastructure.Contract.Decision.{Decision}
use payment_infrastructure.Contract.Event.{Event}
use payment_infrastructure.Contract.Finding.{Finding}
use payment_infrastructure.Features.Numbers.{Math}
use payment_infrastructure.Decide.Policy.{PolicyRef}
use payment_infrastructure.Decide.Prevalence.{adjust}
use payment_infrastructure.Decide.Cost.{minimise_cost}
use payment_infrastructure.Decide.Engine.{Engine, Input, scored, snapshot, swap}
use payment_infrastructure.Decide.Sequence.{decide, cost_stage}
use payment_infrastructure.Decide.Sequence.Parts.{p_model_of, p_adjusted_of, contributions_of}
use payment_infrastructure.Decide.Sequence.Guards.{IsRunnable, decide-IsScored}
use payment_infrastructure.Decide.Sequence.Swap.{snapshot_idem, snapshot-scores}
use payment_infrastructure.Server.Tuning.{evaluate_cost}
use payment_infrastructure.Explain.Trace.{
  ReproCheck, chain_check, float_match, worst_of, contribution_check, rescore, reprice, reproduce,
}

-- The check matches, or it is one of the two that do not repeat a number of stages 3 and 4.
abbrev pub Agrees : ReproCheck → Type 0
Agrees c =
    (c.matches ≡ true) ⊎ (c.name ≡ "Action before advisories") ⊎ (c.name ≡ "Audit chain link")

All-if : {A : Type 0} (P : A → Type 0) (b : Bool) (x : A) → P x → All P (if b then x ∷ [] else [])
All-if P true x h = (h, tt)
All-if P false x h = tt

eqb_ℤ_refl : (x : ℤ) → eqb_ℤ x x ≡ true
eqb_ℤ_refl x = ground arith

module _ {F : Type 0} ⦃f : Float64 F⦄ ⦃m : Math F⦄ where
  -- A number's difference to itself counts as none: so for every finite one.
  abbrev pub IsClose : F → Type 0
  IsClose x = f.lt (m.abs (f.minus x x)) (f.decimal 1 9) ≡ true

  -- An entry is what its key is found with.
  abbrev pub IsEntry : Map F → String × F → Type 0
  IsEntry all entry = (lookup entry.0 all ≡ some entry.1) × IsClose entry.1

  worst_of_self :
      (all part : Map F) (worst : F)
      → All (IsEntry all) part
      → f.lt worst (f.decimal 1 9) ≡ true
      → f.lt (worst_of part all worst) (f.decimal 1 9) ≡ true
  unfolding worst_of
  worst_of_self all [] worst h small = small
  worst_of_self all (entry ∷ rest) worst ((at, close), h) small =
      let diff = m.abs (f.minus entry.1 entry.1) in
      rw (worst_of, at)
        (worst_of_self all rest (if f.lt worst diff then diff else worst) h
          (elim (Bool-cases (f.lt worst diff)) [
            | inl larger ↦ rw larger close
            | inr smaller ↦ rw smaller small
          ]))

  contribution_check_self :
      (all : Map F)
      → All (IsEntry all) all
      → f.lt (f.of_int (pos 0)) (f.decimal 1 9) ≡ true
      → (contribution_check all all).matches ≡ true
  unfolding contribution_check
  contribution_check_self [] h zero_small = refl
  contribution_check_self (entry ∷ rest) h zero_small =
      worst_of_self (entry ∷ rest) (entry ∷ rest) (f.of_int (pos 0)) h zero_small

module _ {F : Type 0} ⦃f : Float64 F⦄ ⦃m : Math F⦄ (h : Hashing) (e : Engine F) (d : Decision F)
    (ev : Event) where
  abbrev scores : F → Map F → List ReproCheck
  scores raw contribs = (rescore e d (scored raw contribs)).0

  scores-Agrees :
      (raw : F) (contribs : Map F)
      → (float_match d.p_model (e.calibrate raw) ≡ true)
      → (float_match d.p_prevalence_adj (adjust e.prevalence (e.calibrate raw)) ≡ true)
      → ((contribution_check d.contributions contribs).matches ≡ true)
      → All Agrees (scores raw contribs)
  unfolding rescore
  scores-Agrees raw contribs model adjusted attributed =
      (inl model, (inl adjusted, (inl attributed, tt)))

  prices-Agrees :
      (p : F)
      → d.expected_loss_minor ≡ some (evaluate_cost e p ev.rail ev.instructed_amount_minor).1
      → d.expected_cost_minor ≡ some (evaluate_cost e p ev.rail ev.instructed_amount_minor).2
      → All Agrees (reprice e d (some p) (some ev)).0
  unfolding reprice
  prices-Agrees p loss cost =
      let (action, l, c) = evaluate_cost e p ev.rail ev.instructed_amount_minor in
      (
        inl (rw loss (eqb_ℤ_refl l)),
        (inl (rw cost (eqb_ℤ_refl c)), All-if Agrees _ _ (inr (inl refl))),
      )

  float_match_self :
      (stored : Option F) (x : F) → stored ≡ some x → IsClose x → float_match stored x ≡ true
  unfolding float_match
  float_match_self stored x at close = rw at close

  checks-Agree :
      (raw : F) (contribs : Map F)
      → e.score d.features ≡ scored raw contribs
      → All Agrees (scores raw contribs)
      → All Agrees (reprice e d (some (adjust e.prevalence (e.calibrate raw))) (some ev)).0
      → All Agrees (reproduce h e d (some ev)).checks
  unfolding reproduce rescore chain_check
  checks-Agree raw contribs scoring first second =
      let priced = (reprice e d (some (adjust e.prevalence (e.calibrate raw))) (some ev)).0 in
      rw scoring (
        All-append Agrees (scores raw contribs) (priced ++ chain_check h d ∷ []) first
          (All-append Agrees priced (chain_check h d ∷ []) second (inr (inr refl), tt)))

module _ {F : Type 0} ⦃f : Float64 F⦄ ⦃m : Math F⦄ (h : Hashing) where
  -- What stage 3 leaves in a scored decision.
  kept :
      (e : Engine F) (in' : Input F) (d : Decision F) (fs : List (Finding F)) (p raw : F)
      (contribs : Map F)
      → IsRunnable e in'
      → decide e none in' ≡ ok (d, fs)
      → d.p_prevalence_adj ≡ some p
      → e.score d.features ≡ scored raw contribs
      → (d.p_model ≡ some (e.calibrate raw))
        × (d.contributions ≡ contribs)
        × (d.p_prevalence_adj ≡ some (adjust e.prevalence (e.calibrate raw)))
  unfolding p_model_of p_adjusted_of contributions_of
  kept e in' d fs p raw contribs runnable run probable scoring =
      let is = decide-IsScored e none in' runnable run probable in
      let (score, calibrate, prevalence) = snapshot-scores e in
      let s = snapshot e in
      let found : s.score d.features ≡ scored raw contribs =
        ap (λ g. g d.features) score ∙ scoring in
      let model =
        is.model
        ∙ ap (λ v. p_model_of s (s.score v)) (sym is.read)
        ∙ ap (p_model_of s) found
        ∙ ap (λ g. some (g raw)) calibrate in
      let attributed =
        is.contributed
        ∙ ap (λ v. contributions_of (s.score v)) (sym is.read)
        ∙ ap contributions_of found in
      let adj =
        is.adjusted
        ∙ ap (λ v. p_adjusted_of s (s.score v)) (sym is.read)
        ∙ ap (p_adjusted_of s) found
        ∙ ap (λ g. some (adjust s.prevalence (g raw))) calibrate
        ∙ ap (λ q. some (adjust q (e.calibrate raw))) prevalence in
      (model, attributed, adj)

  -- With explanations for all rules and advisories: when Reproduce replays a decision with a
  -- probability that Decide made without a swap, against the payment, on the engine with any slot
  -- whose policy is the one that the decision was pinned to, every check matches but, it may be,
  -- that of the action before advisories and that of the audit link. For the calibrated and the
  -- adjusted probability and every contribution, the difference to itself is below a billionth, and
  -- so is 0, as holds of finite floats; and the contributions have one value for each key.
  pub reproduce-decide :
      (e : Engine F) (in' : Input F) (slot : Option (PolicyRef F)) (d : Decision F)
      (fs : List (Finding F)) (p raw : F) (contribs : Map F)
      → IsRunnable e in'
      → decide e none in' ≡ ok (d, fs)
      → d.p_prevalence_adj ≡ some p
      → (snapshot (record e { live_ref = slot })).policy ≡ (snapshot e).policy
      → e.score d.features ≡ scored raw contribs
      → IsClose (e.calibrate raw)
      → IsClose p
      → f.lt (f.of_int (pos 0)) (f.decimal 1 9) ≡ true
      → All (IsEntry contribs) contribs
      → All Agrees (reproduce h (record e { live_ref = slot }) d (some in'.event)).checks
  unfolding cost_stage evaluate_cost swap
  reproduce-decide e in' slot d fs p raw contribs runnable run probable same scoring close_model
        close zero_small entries =
      let is = decide-IsScored e none in' runnable run probable in
      let (model, attributed, adj) = kept e in' d fs p raw contribs runnable run probable scoring in
      let s = snapshot e in
      let ev = in'.event in
      let a = adjust e.prevalence (e.calibrate raw) in
      let policy = ap (λ x. x.policy) (snapshot_idem e) ∙ sym same in
      let e' : Engine F = record e { live_ref = slot } in
      let loss : d.expected_loss_minor
          ≡ some (evaluate_cost e' a ev.rail ev.instructed_amount_minor).1 =
        is.losses
        ∙ ap (λ q. (cost_stage s none ev q).1) adj
        ∙ ap (λ q. some (minimise_cost q.target a ev.rail ev.instructed_amount_minor).1) policy in
      let cost : d.expected_cost_minor
          ≡ some (evaluate_cost e' a ev.rail ev.instructed_amount_minor).2 =
        is.costs
        ∙ ap (λ q. (cost_stage s none ev q).2) adj
        ∙ ap (λ q. some (minimise_cost q.target a ev.rail ev.instructed_amount_minor).2) policy in
      checks-Agree h e' d ev raw contribs scoring
        (scores-Agrees h e' d ev raw contribs
          (float_match_self h e' d ev d.p_model (e.calibrate raw) model close_model)
          (float_match_self h e' d ev d.p_prevalence_adj a adj
            (subst IsClose (some-eq (sym probable ∙ adj)) close))
          (ap (λ own. (contribution_check own contribs).matches) attributed
            ∙ contribution_check_self contribs entries zero_small))
        (prices-Agrees h e' d ev a loss cost)
