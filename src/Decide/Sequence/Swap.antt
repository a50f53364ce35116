-- ===== src/Decide/Sequence/Swap.antt =====
-- go/internal/decide/engine.go and live_policy.go: which policy a decision is made under, when the
-- hot-swap slot is read twice.
use payment_infrastructure.Base.{
  ℕ, ◌≡◌, refl, ◌≢◌, ap, ◌∙◌, ◌⊎◌, inl, inr, true, false, List, Option, none, some, arith, ok, ◌==◌,
  Bool-cases, Option-cases,
}
use payment_infrastructure.Base.Float.{Float64}
use payment_infrastructure.Contract.Decision.{Decision}
use payment_infrastructure.Decide.Policy.{Policy, PolicyRef, Pointer, load, store}
use payment_infrastructure.Decide.Cost.{minimise_cost}
use payment_infrastructure.Decide.Engine.{Engine, Input, snapshot, swap}
use payment_infrastructure.Decide.Sequence.{decide, cost_stage}
use payment_infrastructure.Decide.Sequence.Guards.{IsRunnable, decide-IsScored}
use payment_infrastructure.Contract.Finding.{Finding}
use payment_infrastructure.Contract.Event.{Event}
use payment_infrastructure.Base.Int.{ℤ}

pub ==-self : (n : ℕ) → (n == n) ≡ true
==-self n = ground arith

module _ {F : Type 0} ⦃f : Float64 F⦄ where
  abbrev pub priced_by : Policy F → F → Event → Option ℤ
  priced_by policy p ev = some (minimise_cost policy p ev.rail ev.instructed_amount_minor).2

module _ {F : Type 0} where
  -- The two ways that a snapshot can go.
  snapshot-cases :
      (e : Engine F)
      → ((load e.live_ref ≡ none) × (snapshot e ≡ e))
        ⊎ ((p : Pointer (Policy F)) × (load e.live_ref ≡ some p)
            × (((p.address == e.policy.address) ≡ true) × (snapshot e ≡ e)
                ⊎ ((p.address == e.policy.address) ≡ false)
                  × (snapshot e ≡ record e { policy = p; policy_version = p.target.version })))
  unfolding snapshot
  snapshot-cases e = elim (Option-cases (load e.live_ref)) [
    | inl nil ↦ inl (nil, rw (nil, snapshot))
    | inr (p, held) ↦ elim (Bool-cases (p.address == e.policy.address)) [
      | inl same ↦ inr (p, held, inl (same, rw (held, snapshot) (rw same)))
      | inr other ↦ inr (p, held, inr (other, rw (held, snapshot) (rw other)))
    ]
  ]

  -- A snapshot of a snapshot changes nothing.
  pub snapshot_idem : (e : Engine F) → snapshot (snapshot e) ≡ snapshot e
  unfolding snapshot
  snapshot_idem e = elim (snapshot-cases e) [
    | inl (nil, same) ↦ ap snapshot same
    | inr (p, held, inl (_, same)) ↦ ap snapshot same
    | inr (p, held, inr (_, new)) ↦ rw new (rw (held, snapshot) (rw (==-self p.address)))
  ]

  -- A snapshot changes at most the policy.
  pub snapshot-scores :
      (e : Engine F)
      → ((snapshot e).score ≡ e.score)
        × ((snapshot e).calibrate ≡ e.calibrate)
        × ((snapshot e).prevalence ≡ e.prevalence)
  snapshot-scores e = elim (snapshot-cases e) [
    | inl (_, same) ↦
        (ap (λ x. x.score) same, ap (λ x. x.calibrate) same, ap (λ x. x.prevalence) same)
    | inr (p, _, inl (_, same)) ↦
        (ap (λ x. x.score) same, ap (λ x. x.calibrate) same, ap (λ x. x.prevalence) same)
    | inr (p, _, inr (_, new)) ↦
        (ap (λ x. x.score) new, ap (λ x. x.calibrate) new, ap (λ x. x.prevalence) new)
  ]

  swapped_snapshot :
      (e : Engine F) (q : Pointer (Policy F))
      → load e.live_ref ≢ none
      → (q.address == e.policy.address) ≡ false
      → (snapshot (swap (some q) e)).policy ≡ q
  unfolding snapshot swap load store
  swapped_snapshot e q live other = swapped_in e.live_ref live
    where
      swapped_in :
          (r : Option (PolicyRef F))
          → load r ≢ none
          → (snapshot (record e { live_ref = store q r })).policy ≡ q
      swapped_in none live = absurd (live refl)
      swapped_in (some r) live = rw other refl

module _ {F : Type 0} ⦃f : Float64 F⦄ (e0 : Engine F) (in' : Input F) {d : Decision F}
    {fs : List (Finding F)} {p : F} (runnable : IsRunnable e0 in') where
  -- With explanations for all rules and advisories: if nothing is swapped in while a decision is made
  -- that has a probability, its expected cost is the one under the policy that it was pinned to, whose
  -- version it is stamped with.
  pub cost_unswapped :
      decide e0 none in' ≡ ok (d, fs)
      → d.p_prevalence_adj ≡ some p
      → (d.policy_version ≡ (snapshot e0).policy_version)
        × (d.expected_cost_minor ≡ priced_by (snapshot e0).policy.target p in'.event)
  unfolding cost_stage swap
  cost_unswapped run h =
      let is = decide-IsScored e0 none in' runnable run h in
      (is.stamped, is.costs ∙ rw (h, snapshot_idem e0) refl)

  -- With explanations for all rules and advisories: if another goroutine stores a bundle of another
  -- address between the two snapshots, in a slot that is in use, a decision that has a probability is
  -- stamped with the version of the policy that it was pinned to, and its expected cost is the one under
  -- the other.
  pub cost_swapped :
      (q : Pointer (Policy F))
      → decide e0 (some q) in' ≡ ok (d, fs)
      → d.p_prevalence_adj ≡ some p
      → load (snapshot e0).live_ref ≢ none
      → (q.address == (snapshot e0).policy.address) ≡ false
      → (d.policy_version ≡ (snapshot e0).policy_version)
        × (d.expected_cost_minor ≡ priced_by q.target p in'.event)
  unfolding cost_stage
  cost_swapped q run h live other =
      let is = decide-IsScored e0 (some q) in' runnable run h in
      (is.stamped, is.costs ∙ rw (h, swapped_snapshot (snapshot e0) q live other) refl)
