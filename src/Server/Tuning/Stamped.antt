-- ===== src/Server/Tuning/Stamped.antt =====
-- go/cmd/nazar/handlers_policy.go: which policy decisions are made under after a tune and after a reset.
use payment_infrastructure.Base.{
  ℕ, String, ◌≡◌, refl, ◌≢◌, ap, sym, subst, ◌∙◌, true, false, List, Option, none, some, ok, concat,
  ◌==◌, none-ne-some, is_empty, is_empty-concat, int_text,
}
use text.Mathlib.TextLemmas.{append_cancel_left, append-nil}
use payment_infrastructure.Base.Int.{ℤ, pos, add64}
use payment_infrastructure.Base.Float.{Float64}
use payment_infrastructure.Contract.Decision.{Decision}
use payment_infrastructure.Contract.Finding.{Finding}
use payment_infrastructure.Decide.Policy.{Policy, PolicyRef, Pointer, load, store}
use payment_infrastructure.Decide.Engine.{Engine, Input, snapshot}
use payment_infrastructure.Decide.Sequence.{decide}
use payment_infrastructure.Decide.Sequence.Guards.{IsRunnable}
use payment_infrastructure.Decide.Sequence.Swap.{==-self, priced_by, cost_unswapped}
use payment_infrastructure.Server.Tuning.{
  TuneRequest, PolicyStudio, ReplayRow, policy_tune, policy_reset, tuned_version, limit_of,
  live_policy, candidate_policy, tuned, go_live,
}

-- A tuned version is longer than the base's.
tuned_version-ne : (base : String) (n : ℤ) → tuned_version base n ≢ base
unfolding tuned_version
tuned_version-ne base n h =
    let clash : concat "+tuned." (int_text n) ≡ "" =
      append_cancel_left base (concat "+tuned." (int_text n)) "" (h ∙ sym (append-nil base)) in
    absurd (
      let shown = is_empty-concat "+tuned." (int_text n) refl in
      let hidden = ap is_empty clash in cc)

module _ {F : Type 0} where
  -- main.go: the slot is there, and the engine's own bundle is the base one, with its version.
  pub record IsWired (s : PolicyStudio F) : Type 0 where
    pub slot : PolicyRef F
    pub wired : s.engine.live_ref ≡ some slot
    pub same_bundle : s.engine.policy ≡ s.base_policy
    pub same_version : s.engine.policy_version ≡ s.base_policy.target.version

  stored_snapshot :
      (e : Engine F) (q : Pointer (Policy F)) (slot : PolicyRef F) (r : Option (PolicyRef F))
      → r ≡ some slot
      → (q.address == e.policy.address) ≡ false
      → (snapshot (record e { live_ref = store q r })).policy_version ≡ q.target.version
        × (snapshot (record e { live_ref = store q r })).policy ≡ q
  unfolding snapshot load store
  stored_snapshot e q slot none w new = absurd (none-ne-some w)
  stored_snapshot e q slot (some r) w new = rw new (refl, refl)

  -- The engine's own bundle in the slot leaves the engine as it is.
  own_snapshot :
      (e : Engine F) (q : Pointer (Policy F)) (slot : PolicyRef F) (r : Option (PolicyRef F))
      → r ≡ some slot
      → e.policy ≡ q
      → (snapshot (record e { live_ref = store q r })).policy_version ≡ e.policy_version
        × (snapshot (record e { live_ref = store q r })).policy ≡ e.policy
  unfolding snapshot load store
  own_snapshot e q slot none w own = absurd (none-ne-some w)
  own_snapshot e q slot (some r) w own =
      let same : (q.address == e.policy.address) ≡ true =
        ap (λ x. x.address == e.policy.address) (sym own) ∙ ==-self e.policy.address in
      rw same (refl, refl)

  -- The state after an applied tune.
  abbrev named : (fresh : ℕ) → TuneRequest F → PolicyStudio F → Pointer (Policy F)
  named fresh req s = record {
    address = fresh;
    target = record (tuned req (live_policy s.engine).target) {
      version = tuned_version s.base_policy.target.version (add64 s.tune_counter (pos 1));
    };
  }

  abbrev after_tune : (fresh : ℕ) → TuneRequest F → PolicyStudio F → PolicyStudio F
  after_tune fresh req s = record s {
    engine = record s.engine { live_ref = store (named fresh req s) s.engine.live_ref };
    tune_counter = add64 s.tune_counter (pos 1);
  }

module _ {F : Type 0} ⦃f : Float64 F⦄ where
  applied :
      (fresh : ℕ) (req : TuneRequest F) (query : ℤ → Option (List (ReplayRow F)))
      (s : PolicyStudio F) (rows : List (ReplayRow F))
      → query (limit_of req.replay_limit) ≡ some rows
      → req.apply ≡ true
      → (policy_tune fresh req query s).0 ≡ after_tune fresh req s
  unfolding policy_tune go_live candidate_policy
  applied fresh req query s rows h goes = rw (policy_tune, h, goes) refl

  tuned_decision :
      (fresh : ℕ) (req : TuneRequest F) (s : PolicyStudio F) {in' : Input F} {d : Decision F}
      {fs : List (Finding F)} {p : F}
      → IsWired s
      → (fresh == s.base_policy.address) ≡ false
      → let e = (after_tune fresh req s).engine in
        IsRunnable e in'
        → decide e none in' ≡ ok (d, fs)
        → d.p_prevalence_adj ≡ some p
        → (d.policy_version ≡ (named fresh req s).target.version)
          × (d.expected_cost_minor ≡ priced_by (named fresh req s).target p in'.event)
  tuned_decision fresh req s {in'} {p = p} w new runnable run scored =
      let e = (after_tune fresh req s).engine in
      let (version, price) = cost_unswapped e in' runnable run scored in
      let new' : (fresh == s.engine.policy.address) ≡ false =
        ap (λ x. fresh == x.address) w.same_bundle ∙ new in
      let (stamped, bundle) =
        stored_snapshot s.engine (named fresh req s) w.slot s.engine.live_ref w.wired new' in
      (version ∙ stamped, price ∙ ap (λ b. priced_by b.target p in'.event) bundle)

  reset_decision :
      (s : PolicyStudio F) {in' : Input F} {d : Decision F} {fs : List (Finding F)} {p : F}
      → IsWired s
      → let e = (policy_reset s).engine in
        IsRunnable e in'
        → decide e none in' ≡ ok (d, fs)
        → d.p_prevalence_adj ≡ some p
        → (d.policy_version ≡ s.base_policy.target.version)
          × (d.expected_cost_minor ≡ priced_by s.base_policy.target p in'.event)
  unfolding policy_reset
  reset_decision s {in'} {p = p} w runnable run scored =
      let e = (policy_reset s).engine in
      let (version, price) = cost_unswapped e in' runnable run scored in
      let (stamped, bundle) =
        own_snapshot s.engine s.base_policy w.slot s.engine.live_ref w.wired w.same_bundle in
      (
        version ∙ stamped ∙ w.same_version,
        price ∙ ap (λ b. priced_by b.target p in'.event) (bundle ∙ w.same_bundle),
      )

  after_tune-IsWired :
      (fresh : ℕ) (req : TuneRequest F) (s : PolicyStudio F)
      → IsWired s
      → IsWired (after_tune fresh req s)
  unfolding store
  after_tune-IsWired fresh req s w = record {
    slot = record { slot = some (named fresh req s) };
    wired = ap (store (named fresh req s)) w.wired;
    same_bundle = w.same_bundle;
    same_version = w.same_version;
  }

  -- In a studio wired as main.go does it: after an applied tune, every decision with a probability, made
  -- without a swap in between, with explanations for all rules and advisories, is stamped with the tuned
  -- version, which is not the base's, and priced under the candidate; and after a reset that follows,
  -- every such decision is stamped with the base's version and priced under the base bundle.
  pub policy_tune-stamps :
      (fresh : ℕ) (req : TuneRequest F) (query : ℤ → Option (List (ReplayRow F)))
      (s : PolicyStudio F) (rows : List (ReplayRow F)) (in1 in2 : Input F) (d1 d2 : Decision F)
      (fs1 fs2 : List (Finding F)) (p1 p2 : F)
      → IsWired s
      → query (limit_of req.replay_limit) ≡ some rows
      → req.apply ≡ true
      → (fresh == s.base_policy.address) ≡ false
      → let live = (policy_tune fresh req query s).0 in
        let back = policy_reset live in
        IsRunnable live.engine in1
        → IsRunnable back.engine in2
        → decide live.engine none in1 ≡ ok (d1, fs1)
        → decide back.engine none in2 ≡ ok (d2, fs2)
        → d1.p_prevalence_adj ≡ some p1
        → d2.p_prevalence_adj ≡ some p2
        → let base = s.base_policy.target in
          let version = tuned_version base.version (add64 s.tune_counter (pos 1)) in
          (d1.policy_version ≡ version)
          × (d1.policy_version ≢ base.version)
          × (d1.expected_cost_minor
              ≡ priced_by
                  (record (tuned req (live_policy s.engine).target) { version = version })
                  p1
                  in1.event)
          × (d2.policy_version ≡ base.version)
          × (d2.expected_cost_minor ≡ priced_by base p2 in2.event)
  policy_tune-stamps fresh req query s rows in1 in2 d1 d2 fs1 fs2 p1 p2 w h goes new ready1 ready2
        run1 run2 scored1 scored2 =
      let live : (policy_tune fresh req query s).0 ≡ after_tune fresh req s =
        applied fresh req query s rows h goes in
      let (version, price) =
        tuned_decision fresh req s w new (subst (λ x. IsRunnable x.engine in1) live ready1)
          (ap (λ x. decide x.engine none in1) (sym live) ∙ run1) scored1 in
      let (version2, price2) =
        reset_decision (after_tune fresh req s) (after_tune-IsWired fresh req s w)
          (subst (λ x. IsRunnable (policy_reset x).engine in2) live ready2)
          (ap (λ x. decide (policy_reset x).engine none in2) (sym live) ∙ run2) scored2 in
      (
        version,
        λ same.
            tuned_version-ne s.base_policy.target.version (add64 s.tune_counter (pos 1))
              (sym version ∙ same),
        price,
        version2,
        price2,
      )
