-- ===== src/Server/Tuning.antt =====
-- go/cmd/nazar/handlers_policy.go, with EvaluateCost and LivePolicy of go/internal/decide/engine.go, Clone
-- of live_policy.go and the rows of go/internal/persist/replay.go: a candidate policy, its replay against
-- recent decisions, and its way into the hot-swap slot. The maps of a bundle are not nil. A clone is a
-- bundle at an address that is new.
pub mod Counts
pub mod Stamped
use payment_infrastructure.Base.{
  ℕ, suc, String, Bool, true, false, not, ◌&&◌, ◌||◌, List, [], ◌∷◌, ◌++◌, Option, none, some, Map,
  insert, length, concat, int_text, str_eq, ltb, if◌then◌else◌,
}
use payment_infrastructure.Base.Int.{ℤ, pos, negsuc, ltb_ℤ, leb_ℤ, add64, sub64}
use payment_infrastructure.Base.Float.{Float64}
use payment_infrastructure.Contract.Action.{
  Action, allow, allow_monitor, step_up_interstitial, action_eq, ladder_index,
}
use payment_infrastructure.Contract.Event.{Rail}
use payment_infrastructure.Contract.Finding.{Finding, fired, status_eq}
use payment_infrastructure.Decide.Policy.{Policy, Pointer, load, store}
use payment_infrastructure.Decide.Cost.{minimise_cost}
use payment_infrastructure.Decide.Ladder.{raise_to}
use payment_infrastructure.Decide.Engine.{Engine, snapshot}

pub record TuneRequest (F : Type 0) : Type 0 where
  pub hold_friction_minor : Option ℤ
  pub step_up_friction_minor : Option ℤ
  pub interstitial_friction_minor : Option ℤ
  pub false_block_cost_minor : Option ℤ
  pub margin_minor : Option ℤ
  pub hold_stop_prob : Option F
  pub hold_abandon_prob : Option F
  pub degradation_cap_minor : Option ℤ
  pub loss_given_fraud_upi : Option F
  pub apply : Bool
  pub replay_limit : ℤ

abbrev pub set_if : {V : Type 0} → String → Option V → Map V → Map V
set_if k none m = m
set_if k (some v) m = insert k v m

abbrev pub or_current : {V : Type 0} → Option V → V → V
or_current none v = v
or_current (some w) v = w

module _ {F : Type 0} where
  -- `LivePolicy`
  unfoldable pub live_policy : Engine F → Pointer (Policy F)
  live_policy e = elim (load e.live_ref) [ none ↦ e.policy | some p ↦ p ]

  -- The changes of `candidatePolicy` to the clone.
  unfoldable pub tuned : TuneRequest F → Policy F → Policy F
  tuned req p = record p {
    economics = record p.economics {
      friction_cost_minor = set_if "false_block" req.false_block_cost_minor (
          set_if "step_up_interstitial" req.interstitial_friction_minor (
            set_if "step_up" req.step_up_friction_minor
              (set_if "hold" req.hold_friction_minor p.economics.friction_cost_minor)));
      margin_minor = or_current req.margin_minor p.economics.margin_minor;
      stop_prob = set_if "hold" req.hold_stop_prob p.economics.stop_prob;
      abandon_prob = set_if "hold" req.hold_abandon_prob p.economics.abandon_prob;
      loss_given_fraud = set_if "UPI" req.loss_given_fraud_upi p.economics.loss_given_fraud;
    };
    degradation = record {
      value_cap_minor = or_current req.degradation_cap_minor p.degradation.value_cap_minor;
    };
  }

  unfoldable pub candidate_policy : (fresh : ℕ) → TuneRequest F → Engine F → Pointer (Policy F)
  unfolding tuned live_policy
  candidate_policy fresh req e = record {
    address = fresh;
    target = tuned req (live_policy e).target;
  }

  -- `current` and `proposed`: the engine without its slot, under one policy.
  unfoldable pub under : Pointer (Policy F) → Engine F → Engine F
  under p e = record e { live_ref = none; policy = p }

-- One row of the replay.
pub record ReplayRow (F : Type 0) : Type 0 where
  pub end_to_end_id : String
  pub decided_at_ms : ℤ
  pub action : Action
  pub p_adjusted : F
  pub amount_minor : ℤ
  pub rail : Rail
  pub rail_floor : Action
  pub debtor : String
  pub creditor : String

module _ {F : Type 0} where
  -- One turn of the loop over a row's persisted findings.
  unfoldable pub raise_floor : Finding F → Action → Action
  raise_floor x floor =
      if not (status_eq x.status fired)
      then floor
      else if str_eq x.signal_id "rule:RAIL-101" || str_eq x.signal_id "rule:RAIL-102"
      then (if ltb_ℤ (ladder_index floor) (ladder_index step_up_interstitial)
          then step_up_interstitial
          else floor)
      else floor

  -- `r.RailFloor`, from the empty action on.
  unfoldable pub rail_floor_of : List (Finding F) → Action → Action
  unfolding raise_floor
  rail_floor_of [] floor = floor
  rail_floor_of (x ∷ xs) floor = rail_floor_of xs (raise_floor x floor)

pub record FlipRow (F : Type 0) : Type 0 where
  pub end_to_end_id : String
  pub amount_minor : ℤ
  pub rail : Rail
  pub p_adjusted : F
  pub from : Action
  pub to : Action
  pub direction : String
  pub debtor : String
  pub creditor : String

-- What the replay's loop adds up.
pub record Tally (F : Type 0) : Type 0 where
  pub flips : List (FlipRow F)
  pub stricter : ℕ
  pub looser : ℕ
  pub value_newly_challenged : ℤ
  pub value_newly_released : ℤ
  pub friction_delta : ℤ

abbrev pub new_tally : {F : Type 0} → Tally F
new_tally = record {
  flips = [];
  stricter = 0;
  looser = 0;
  value_newly_challenged = pos 0;
  value_newly_released = pos 0;
  friction_delta = pos 0;
}

unfoldable pub is_challenge : Action → Bool
is_challenge a = not (action_eq a allow) && not (action_eq a allow_monitor)

abbrev pub max_flips : ℕ
max_flips = 100

abbrev pub limit_of : ℤ → ℤ
limit_of n = if leb_ℤ n (pos 0) || ltb_ℤ (pos 1_000) n then pos 300 else n

module _ {F : Type 0} where
  abbrev pub flip_of : ReplayRow F → (before after : Action) → (direction : String) → FlipRow F
  flip_of row before after direction = record {
    end_to_end_id = row.end_to_end_id;
    amount_minor = row.amount_minor;
    rail = row.rail;
    p_adjusted = row.p_adjusted;
    from = before;
    to = after;
    direction = direction;
    debtor = row.debtor;
    creditor = row.creditor;
  }

  -- `flips = append(...)`, as far as there is room.
  abbrev pub add_flip : FlipRow F → List (FlipRow F) → List (FlipRow F)
  add_flip row flips = if ltb (length flips) max_flips then flips ++ row ∷ [] else flips

  unfoldable pub count_stricter : ReplayRow F → (before after : Action) → Tally F → Tally F
  count_stricter row before after t = record t {
    stricter = suc t.stricter;
    value_newly_challenged =
        if is_challenge after && not (is_challenge before)
        then add64 t.value_newly_challenged row.amount_minor
        else t.value_newly_challenged;
    flips = add_flip (flip_of row before after "stricter") t.flips;
  }

  unfoldable pub count_looser : ReplayRow F → (before after : Action) → Tally F → Tally F
  count_looser row before after t = record t {
    looser = suc t.looser;
    value_newly_released =
        if is_challenge before && not (is_challenge after)
        then add64 t.value_newly_released row.amount_minor
        else t.value_newly_released;
    flips = add_flip (flip_of row before after "looser") t.flips;
  }

  -- The rest of a turn, after the difference of the costs.
  unfoldable pub count_flip : ReplayRow F → (before after : Action) → Tally F → Tally F
  unfolding count_stricter count_looser
  count_flip row before after t =
      if action_eq before after
      then t
      else if ltb_ℤ (ladder_index before) (ladder_index after)
      then count_stricter row before after t
      else count_looser row before after t

module _ {F : Type 0} ⦃f : Float64 F⦄ where
  unfoldable pub evaluate_cost : Engine F → F → Rail → ℤ → Action × ℤ × ℤ
  evaluate_cost e p_fraud rail amount_minor =
      minimise_cost (snapshot e).policy.target p_fraud rail amount_minor

  -- A row's action under an engine, on its rails' floor, and its cost.
  unfoldable pub replayed : Engine F → ReplayRow F → Action × ℤ
  unfolding evaluate_cost
  replayed e row =
      let (action, _, cost) = evaluate_cost e row.p_adjusted row.rail row.amount_minor in
      (raise_to action row.rail_floor, cost)

  -- One turn of the loop over the rows.
  unfoldable pub count_row : (current proposed : Engine F) → ReplayRow F → Tally F → Tally F
  unfolding replayed count_flip
  count_row current proposed row t =
      let (before, cost_before) = replayed current row in
      let (after, cost_after) = replayed proposed row in
      count_flip row before after
        (record t { friction_delta = add64 t.friction_delta (sub64 cost_after cost_before) })

  unfoldable pub count_rows : (current proposed : Engine F) → List (ReplayRow F) → Tally F → Tally F
  unfolding count_row
  count_rows current proposed [] t = t
  count_rows current proposed (row ∷ rows) t =
      count_rows current proposed rows (count_row current proposed row t)

-- The state that the handlers of the Policy Studio share.
pub record PolicyStudio (F : Type 0) : Type 0 where
  pub engine : Engine F
  pub base_policy : Pointer (Policy F)
  pub tune_counter : ℤ

pub record TuneReply (F : Type 0) : Type 0 where
  pub evaluated_against : ℕ
  pub tally : Tally F
  pub applied : Bool
  pub policy_version : String
  pub candidate : Policy F

unfoldable pub tuned_version : String → ℤ → String
tuned_version base n = concat base (concat "+tuned." (int_text n))

module _ {F : Type 0} where
  -- `req.Apply`: the candidate goes live under a version of its own.
  unfoldable pub go_live : Pointer (Policy F) → PolicyStudio F → PolicyStudio F × Pointer (Policy F)
  unfolding tuned_version
  go_live candidate s =
      let n = add64 s.tune_counter (pos 1) in
      let named = record candidate {
        target = record candidate.target { version = tuned_version s.base_policy.target.version n };
      } in
      (
        record s {
          engine = record s.engine { live_ref = store named s.engine.live_ref };
          tune_counter = n;
        },
        named,
      )

  -- `handlePolicyReset`
  unfoldable pub policy_reset : PolicyStudio F → PolicyStudio F
  policy_reset s = record s {
    engine = record s.engine { live_ref = store s.base_policy s.engine.live_ref };
  }

  -- `is_tuned` of `handlePolicyLive`
  unfoldable pub is_tuned : PolicyStudio F → Bool
  unfolding live_policy
  is_tuned s = not (str_eq (live_policy s.engine).target.version s.base_policy.target.version)

module _ {F : Type 0} ⦃f : Float64 F⦄ where
  -- `handlePolicyTune` after the body is read: the rows that the query returns for the limit, or an
  -- error of the database, which ends it.
  unfoldable pub policy_tune :
      (fresh : ℕ)
      → TuneRequest F
      → (query : ℤ → Option (List (ReplayRow F))) → PolicyStudio F
      → PolicyStudio F × Option (TuneReply F)
  unfolding candidate_policy under count_rows go_live
  policy_tune fresh req query s = elim (query (limit_of req.replay_limit)) [
    | none ↦ (s, none)
    | some rows ↦
        let candidate = candidate_policy fresh req s.engine in
        let tally =
          count_rows (under (live_policy s.engine) s.engine) (under candidate s.engine) rows
            new_tally in
        let (live, named) = go_live candidate s in
        if req.apply
        then (
          live,
          some (record {
            evaluated_against = length rows;
            tally = tally;
            applied = true;
            policy_version = named.target.version;
            candidate = named.target;
          }),
        )
        else (
          s,
          some (record {
            evaluated_against = length rows;
            tally = tally;
            applied = false;
            policy_version = "";
            candidate = candidate.target;
          }),
        )
  ]
