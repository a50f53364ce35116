-- ===== src/Explain/Trace.antt =====
-- go/internal/explain/trace.go: the replay of a persisted decision. A check is its name and whether it
-- matches, a step of the trace its stage and its outcome; the texts that go with them are left out. The
-- engine has a scorer, and the record its feature vector. `railFloor` is the `rail_floor_of` of a replay row:
-- both look for the findings of the same two rules.
pub mod Tamper
pub mod Replays
use payment_infrastructure.Base.{
  ℕ, String, Bool, true, false, not, ◌&&◌, ◌||◌, List, [], ◌∷◌, ◌++◌, Option, none, some, Map,
  lookup, concat, str_eq, if◌then◌else◌,
}
use payment_infrastructure.Base.Int.{ℤ, pos, eqb_ℤ}
use payment_infrastructure.Base.Float.{Float64}
use payment_infrastructure.Audit.{Bytes, Hashing, bytes_equal}
use payment_infrastructure.Contract.Action.{Action, other, action_eq}
use payment_infrastructure.Contract.Decision.{Decision}
use payment_infrastructure.Contract.Event.{Event}
use payment_infrastructure.Features.Numbers.{Math}
use payment_infrastructure.Decide.Engine.{Engine, Scored, scored, failed}
use payment_infrastructure.Decide.Ladder.{raise_to}
use payment_infrastructure.Decide.Prevalence.{adjust}
use payment_infrastructure.Server.Tuning.{evaluate_cost, rail_floor_of}
use payment_infrastructure.Wal.{canonical}
use text.Mathlib.Text.{starts_with}

pub record ReproCheck : Type 0 where
  pub name : String
  pub matches : Bool

pub record TraceStep : Type 0 where
  pub stage : ℕ
  pub outcome : String

pub record Determinism : Type 0 where
  pub reproduced : Bool
  pub chain_intact : Bool
  pub checks : List ReproCheck
  pub trace : List TraceStep

unfoldable pub has_reason : List String → String → Bool
has_reason [] want = false
has_reason (c ∷ cs) want = let rest = has_reason cs want in if str_eq c want then true else rest

-- The inner loop of `outcomeFromReasons`.
unfoldable pub has_prefixed : List String → (prefix : String) → Bool
has_prefixed [] prefix = false
has_prefixed (c ∷ cs) prefix =
    let rest = has_prefixed cs prefix in if starts_with c prefix then true else rest

unfoldable pub outcome_from_reasons : List String → List String → String
unfolding has_prefixed
outcome_from_reasons codes [] = "executed"
outcome_from_reasons codes (sc ∷ scs) =
    let rest = outcome_from_reasons codes scs in
    if has_prefixed codes sc then "short_circuit" else rest

-- `strings.Join(codes, ",")`
unfoldable pub joined : List String → String
joined [] = ""
joined (c ∷ []) = c
joined (c ∷ c' ∷ cs) = concat c (concat "," (joined (c' ∷ cs)))

abbrev int_match : Option ℤ → ℤ → Bool
int_match none got = false
int_match (some stored) got = eqb_ℤ stored got

module _ {F : Type 0} ⦃f : Float64 F⦄ ⦃m : Math F⦄ where
  unfoldable pub float_match : Option F → F → Bool
  float_match none got = false
  float_match (some stored) got = f.lt (m.abs (f.minus stored got)) (f.decimal 1 9)

  -- The loop of `contributionCheck`: the worst difference.
  unfoldable pub worst_of : (stored got : Map F) → (worst : F) → F
  worst_of [] got worst = worst
  worst_of (entry ∷ rest) got worst = elim (lookup entry.0 got) [
    | none ↦ worst_of rest got worst
    | some gv ↦
        let diff = m.abs (f.minus entry.1 gv) in
        worst_of rest got (if f.lt worst diff then diff else worst)
  ]

  unfoldable pub contribution_check : (stored got : Map F) → ReproCheck
  unfolding worst_of
  contribution_check [] got = record { name = "Feature attributions"; matches = true }
  contribution_check (entry ∷ rest) got = record {
    name = "Feature attributions";
    matches = f.lt (worst_of (entry ∷ rest) got (f.of_int (pos 0))) (f.decimal 1 9);
  }

module _ {F : Type 0} ⦃f : Float64 F⦄ where
  -- `chainCheck`: two hex texts are equal exactly if the bytes are.
  unfoldable pub chain_check : Hashing → Decision F → ReproCheck
  chain_check h d = record {
    name = "Audit chain link";
    matches = elim (h.marshal (canonical d)) [
      | none ↦ false
      | some payload ↦ bytes_equal (h.sha256 (d.prev_hash ++ payload)) d.hash
    ];
  }

-- What the last loop leaves in `ChainIntact`.
unfoldable pub chain_intact_of : List ReproCheck → Bool → Bool
chain_intact_of [] intact = intact
chain_intact_of (c ∷ cs) intact =
    chain_intact_of cs (if str_eq c.name "Audit chain link" then c.matches else intact)

unfoldable pub all_match : List ReproCheck → Bool
all_match [] = true
all_match (c ∷ cs) = let rest = all_match cs in if c.matches then rest else false

abbrev trace_step : ℕ → String → TraceStep
trace_step stage outcome = record { stage = stage; outcome = outcome }

module _ {F : Type 0} ⦃f : Float64 F⦄ ⦃m : Math F⦄ where
  -- Stage 3: the checks, the steps and `recomputedAdj`.
  unfoldable pub rescore :
      Engine F → Decision F → Scored F → List ReproCheck × List TraceStep × Option F
  unfolding float_match contribution_check
  rescore e d (failed message) = (record { name = "Model score"; matches = false } ∷ [], [], none)
  rescore e d (scored raw contribs) =
      let cal = e.calibrate raw in
      let adj = adjust e.prevalence cal in
      (
        record {
          name = "Calibrated fraud probability (p_model)";
          matches = float_match d.p_model cal;
        }
            ∷ record {
              name = "Prevalence-corrected probability";
              matches = float_match d.p_prevalence_adj adj;
            }
            ∷ contribution_check d.contributions contribs
            ∷ [],
        trace_step 3 "executed" ∷ [],
        some adj,
      )

  -- The decision went through stages 3 to 6, by its reason codes.
  unfoldable pub took_full_path : Decision F → Bool
  unfolding has_reason joined
  took_full_path d =
      not (has_reason d.reason_codes "TRUSTED_PAIR_FAST_PATH")
      && not (has_reason d.reason_codes "LOCAL_BLOCKLIST_HIT")
      && not (has_reason d.reason_codes "CONTROL_GROUP")
      && not (starts_with (joined d.reason_codes) "REGULATORY_CAP")

  -- Stages 4 to 6.
  unfoldable pub reprice :
      Engine F → Decision F → Option F → Option Event → List ReproCheck × List TraceStep
  unfolding took_full_path
  reprice e d none ev = ([], [])
  reprice e d (some adj) none = ([], [])
  reprice e d (some adj) (some ev) =
      let (action, loss, cost) = evaluate_cost e adj ev.rail ev.instructed_amount_minor in
      let floor = rail_floor_of d.findings (other "") in
      (
        record { name = "Expected loss"; matches = int_match d.expected_loss_minor loss }
            ∷ record {
              name = "Expected total cost";
              matches = int_match d.expected_cost_minor cost;
            }
            ∷ (if took_full_path d
                then record {
                  name = "Action before advisories";
                  matches = action_eq d.pre_advisory_action (raise_to action floor);
                }
                  ∷ []
                else []),
        trace_step 4 "executed"
            ∷ trace_step 5 (if action_eq floor (other "") then "skipped" else "executed")
            ∷ trace_step 6
                (if action_eq d.pre_advisory_action d.action then "skipped" else "executed")
            ∷ [],
      )

  -- `Reproduce`
  unfoldable pub reproduce : Hashing → Engine F → Decision F → Option Event → Determinism
  unfolding rescore reprice chain_check all_match chain_intact_of has_reason outcome_from_reasons
  reproduce h e d ev =
      let (checks3, trace3, adj) = rescore e d (e.score d.features) in
      let (checks4, trace4) = reprice e d adj ev in
      let checks = checks3 ++ (checks4 ++ chain_check h d ∷ []) in
      let fast = has_reason d.reason_codes "TRUSTED_PAIR_FAST_PATH" in
      record {
        reproduced = all_match checks;
        chain_intact = chain_intact_of checks false;
        checks = checks;
        trace =
            trace_step 1
              (outcome_from_reasons d.reason_codes ("LOCAL_BLOCKLIST_HIT" ∷ "REGULATORY_CAP" ∷ []))
            ∷ trace_step 2 (if fast then "short_circuit" else "executed")
            ∷ (trace3 ++ trace4);
      }
