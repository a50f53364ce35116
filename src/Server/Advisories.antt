-- ===== src/Server/Advisories.antt =====
-- go/cmd/nazar/handlers_consortium.go: the advisories that the consortium has on a payee.
use payment_infrastructure.Base.{
  String, refl, Bool, true, false, List, [], ◌∷◌, Option, none, some, concat, All, is_empty-concat,
  if◌then◌else◌,
}
use payment_infrastructure.Base.Int.{ℤ, pos}
use payment_infrastructure.Base.Float.{Float64}
use payment_infrastructure.Consortium.{
  Hmac, Tokeniser, QueryReply, RegistryEntry, LookupResult, lookup_account,
}
use payment_infrastructure.Decide.Ladder.{Advisory}
use payment_infrastructure.Decide.Ladder.Advisories.{IsExplained}

module _ {F : Type 0} ⦃f : Float64 F⦄ where
  unfoldable pub static_reputation : String → F
  static_reputation reporter = f.decimal 6 1

  unfoldable pub advisory_of : (hours_since : ℤ → F) → (steps : ℤ) → RegistryEntry F → Advisory F
  unfolding static_reputation
  advisory_of hours_since steps e = record {
    signal_id = e.entry_id;
    signature_valid = true;
    reporter_reputation = static_reputation e.reporter;
    age_hours = hours_since e.created_at;
    confidence = e.confidence;
    steps = steps;
    explanation =
        concat "reported by "
          (concat e.reporter (concat " (" (concat e.legal_entity (concat ") as " e.threat_class))));
  }

  unfoldable pub advisories_of :
      (hours_since : ℤ → F) → (steps : ℤ) → List (RegistryEntry F) → List (Advisory F)
  unfolding advisory_of
  advisories_of hours_since steps [] = []
  advisories_of hours_since steps (e ∷ es) =
      advisory_of hours_since steps e ∷ advisories_of hours_since steps es

  -- From the result of the lookup, none on an error; a second step where the rail fires.
  unfoldable pub from_lookup :
      (hours_since : ℤ → F) → Option (LookupResult F) × Bool → List (Advisory F)
  unfolding advisories_of
  from_lookup hours_since (none, failed) = []
  from_lookup hours_since (some res, true) = []
  from_lookup hours_since (some res, false) =
      advisories_of hours_since (if res.rail_fires then pos 2 else pos 1) res.entries

  unfoldable pub consortium_advisories :
      Option (Hmac × Tokeniser)
      → (query : String → QueryReply F) → (min_reputation : F) → (hours_since : ℤ → F) → String
      → List (Advisory F)
  unfolding from_lookup
  consortium_advisories none query min_reputation hours_since account = []
  consortium_advisories (some (m, t)) query min_reputation hours_since account =
      from_lookup hours_since
        (lookup_account m t query account min_reputation (some static_reputation))

  advisories_of-IsExplained :
      (hours_since : ℤ → F) (steps : ℤ) (es : List (RegistryEntry F))
      → All IsExplained (advisories_of hours_since steps es)
  unfolding advisories_of advisory_of
  advisories_of-IsExplained hours_since steps [] = tt
  advisories_of-IsExplained hours_since steps (e ∷ es) =
      (is_empty-concat "reported by " _ refl, advisories_of-IsExplained hours_since steps es)

  from_lookup-IsExplained :
      (hours_since : ℤ → F) (r : Option (LookupResult F) × Bool)
      → All IsExplained (from_lookup hours_since r)
  unfolding from_lookup
  from_lookup-IsExplained hours_since (none, failed) = tt
  from_lookup-IsExplained hours_since (some res, true) = tt
  from_lookup-IsExplained hours_since (some res, false) =
      advisories_of-IsExplained hours_since _ res.entries

  -- Every advisory that the server passes on has an explanation.
  pub consortium_advisories-IsExplained :
      (consortium : Option (Hmac × Tokeniser)) (query : String → QueryReply F) (min_reputation : F)
      (hours_since : ℤ → F) (account : String)
      → All IsExplained (consortium_advisories consortium query min_reputation hours_since account)
  unfolding consortium_advisories
  consortium_advisories-IsExplained none query min_reputation hours_since account = tt
  consortium_advisories-IsExplained (some (m, t)) query min_reputation hours_since account =
      from_lookup-IsExplained hours_since _
