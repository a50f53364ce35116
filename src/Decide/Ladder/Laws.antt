-- ===== src/Decide/Ladder/Laws.antt =====
-- go/internal/decide/engine.go: what applyPolicyRails and attachAdvisories do to an action.
use payment_infrastructure.Base.{
  ℕ, zero, suc, ◌≤◌, String, ◌≡◌, refl, sym, subst, ◌∙◌, ◌⊎◌, inl, inr, true, List, [], ◌∷◌, ◌++◌,
  some, arith, ok, Returns, get_elem?, Bool-cases,
}
use payment_infrastructure.Base.Int.{ℤ, pos, negsuc, ◌≤ℤ◌, ◌<ℤ◌, leb_ℤ}
use payment_infrastructure.Contract.Action.{Action, ladder, ladder_index, ladder_index_bounds}
use payment_infrastructure.Rules.{Result, policy}
use payment_infrastructure.Decide.Ladder.{
  rung_of, apply_rail, apply_policy_rails, escalated_index, rung_at, escalate,
}

-- A fired policy rule that asks for this rung.
pub record Asks (r : Result) (asked : Action) : Type 0 where
  pub class : r.class ≡ policy
  pub fired : r.fired ≡ true
  pub rung : rung_of r.action ≡ some asked

-- One of the rules asks for the rung.
pub data AnyAsks (rung : Action) : List Result → Type 0 where
  here : (r : Result) (rs : List Result) → Asks r rung → AnyAsks rung (r ∷ rs)
  there : (r : Result) (rs : List Result) → AnyAsks rung rs → AnyAsks rung (r ∷ rs)

apply_rail-ge :
    (r : Result) (a : Action) (codes : List String)
    → ladder_index a ≤ℤ ladder_index (apply_rail r (a, codes)).0
unfolding apply_rail
apply_rail-ge r a codes = ground arith

apply_rail-Asks :
    (r : Result) (a : Action) (codes : List String) (rung : Action)
    → Asks r rung
    → ladder_index rung ≤ℤ ladder_index (apply_rail r (a, codes)).0
unfolding apply_rail
apply_rail-Asks r a codes rung asks = ground arith

apply_rail-cases :
    (r : Result) (a : Action) (codes : List String)
    → ((apply_rail r (a, codes)).0 ≡ a) ⊎ Asks r (apply_rail r (a, codes)).0
unfolding apply_rail
apply_rail-cases r a codes = ground arith

apply_policy_rails-ge :
    (rs : List Result) (a : Action) (codes : List String)
    → ladder_index a ≤ℤ ladder_index (apply_policy_rails rs (a, codes)).0
unfolding apply_policy_rails
apply_policy_rails-ge [] a codes = omega arith
apply_policy_rails-ge (r ∷ rs) a codes =
    let next = apply_rail r (a, codes) in
    omega (arith, apply_rail-ge r a codes, apply_policy_rails-ge rs next.0 next.1)

apply_policy_rails-AnyAsks :
    (rung : Action) (rs : List Result) (a : Action) (codes : List String)
    → AnyAsks rung rs
    → ladder_index rung ≤ℤ ladder_index (apply_policy_rails rs (a, codes)).0
unfolding apply_policy_rails
apply_policy_rails-AnyAsks rung [] a codes asks = elim asks [ ]
apply_policy_rails-AnyAsks rung (r ∷ rs) a codes (here _ _ asks) =
    let next = apply_rail r (a, codes) in
    omega (arith, apply_rail-Asks r a codes rung asks, apply_policy_rails-ge rs next.0 next.1)
apply_policy_rails-AnyAsks rung (r ∷ rs) a codes (there _ _ more) =
    let next = apply_rail r (a, codes) in apply_policy_rails-AnyAsks rung rs next.0 next.1 more

apply_policy_rails-from :
    (rs : List Result) (a : Action) (codes : List String)
    → ((apply_policy_rails rs (a, codes)).0 ≡ a) ⊎ AnyAsks (apply_policy_rails rs (a, codes)).0 rs
unfolding apply_policy_rails
apply_policy_rails-from [] a codes = inl refl
apply_policy_rails-from (r ∷ rs) a codes =
    let next = apply_rail r (a, codes) in
    elim (apply_policy_rails-from rs next.0 next.1) [
      | inr asks ↦ inr (there r rs asks)
      | inl e ↦ elim (apply_rail-cases r a codes) [
        | inl kept ↦ inl (e ∙ kept)
        | inr asks ↦ inr (here r rs (subst (Asks r) (sym e) asks))
      ]
    ]

-- The action after the policy rails is the least one that is neither below the base action nor below
-- a rung that a fired policy rule asks for: it is on or above all of these, and it is one of them.
pub apply_policy_rails_lub :
    (rs : List Result) (base : Action) (codes : List String)
    → let out = (apply_policy_rails rs (base, codes)).0 in
      (ladder_index base ≤ℤ ladder_index out)
      × ((rung : Action) → AnyAsks rung rs → ladder_index rung ≤ℤ ladder_index out)
      × ((out ≡ base) ⊎ AnyAsks out rs)
apply_policy_rails_lub rs base codes = (
  apply_policy_rails-ge rs base codes,
  λ rung. apply_policy_rails-AnyAsks rung rs base codes,
  apply_policy_rails-from rs base codes,
)

ladder_at :
    (i : ℕ) → i ≤ 4 → (a : Action) × (get_elem? ladder i ≡ some a) × (ladder_index a ≡ pos i)
unfolding ladder_index
ladder_at zero h = (_, refl, refl)
ladder_at (suc zero) h = (_, refl, refl)
ladder_at (suc (suc zero)) h = (_, refl, refl)
ladder_at (suc (suc (suc zero))) h = (_, refl, refl)
ladder_at (suc (suc (suc (suc zero)))) h = (_, refl, refl)
ladder_at (suc (suc (suc (suc (suc i))))) h = absurd (omega arith)

-- How far an escalation went.
pub record IsEscalation (action max_rung : Action) (codes : List String)
    (result : Action × List String) : Type 0 where
  pub raises : ladder_index action ≤ℤ ladder_index result.0
  pub capped :
      ((result.0 ≡ action) × (result.1 ≡ codes))
      ⊎ ((ladder_index action <ℤ ladder_index result.0)
          × (ladder_index result.0 ≤ℤ ladder_index max_rung)
          × (result.1 ≡ codes ++ "ADVISORY_ESCALATED" ∷ []))

rung_at-lem :
    (idx : ℤ) (low : ℤ)
    → negsuc 0 ≤ℤ low
    → low <ℤ idx
    → idx ≤ℤ pos 4
    → (a : Action) × (rung_at idx ≡ ok a) × (ladder_index a ≡ idx)
unfolding rung_at
rung_at-lem (negsuc n) low h l u = absurd (omega arith)
rung_at-lem (pos i) low h l u = let (a, e, at_i) = ladder_at i (omega arith) in (a, rw e, at_i)

pub escalate-Returns :
    (action : Action) (idx : ℤ) (max_rung : Action) (codes : List String)
    → idx ≤ℤ ladder_index max_rung
    → Returns (IsEscalation action max_rung codes) (escalate action idx codes)
unfolding escalate
escalate-Returns action idx max_rung codes h = elim (Bool-cases (leb_ℤ idx (ladder_index action))) [
  | inl low ↦ rw low (record { raises = omega arith; capped = inl (refl, refl) })
  | inr high ↦
      let above : ladder_index action <ℤ idx = ground arith in
      let (a, e, at_idx) =
        rung_at-lem idx (ladder_index action) (ladder_index_bounds action).0 above
          (omega (arith, (ladder_index_bounds max_rung).1)) in
      rw (high, e)
        (record {
          raises = rw at_idx (omega arith);
          capped = inr (rw at_idx above, rw at_idx h, refl);
        })
]

pub escalated_index-le :
    (action : Action) (wanted limit : ℤ) (max_rung : Action)
    → escalated_index action wanted limit max_rung ≤ℤ ladder_index max_rung
unfolding escalated_index
escalated_index-le action wanted limit max_rung = ground arith
