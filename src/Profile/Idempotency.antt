-- ===== src/Profile/Idempotency.antt =====
-- go/internal/profile/store.go: StoreDecision and LoadDecision, over the keys and texts that Redis holds.
-- Whether a command fails is an argument; a key may expire.
use payment_infrastructure.Base.{
  ◌≡◌, lookup-insert, eq_iff, eq_refl, arith, refl, ◌∙◌, Option-cases, Bool-cases, inl, inr, String,
  Bool, true, false, [], ◌∷◌, none, some, Map, lookup, insert, concat, str_eq, if◌then◌else◌,
}
use text.Mathlib.TextLemmas.{append_cancel_left, append_cancel_right}
use payment_infrastructure.Audit.{Bytes}
use payment_infrastructure.Contract.Decision.{Decision}
use payment_infrastructure.Wal.{Codec}

unfoldable pub idempotency_key : String → String
idempotency_key e2e = concat "i:{e:" (concat e2e "}")

-- The result of LoadDecision: no entry, an error, or the decision.
pub data Loaded (F : Type 0) : Type 0 where
  not_found : Loaded F
  load_error : Loaded F
  found : Decision F → Loaded F

module _ {F : Type 0} (c : Codec F) where
  unfoldable pub load_decision : (fails : Bool) → String → Map Bytes → Loaded F
  load_decision true e2e stored = load_error
  load_decision false e2e stored = elim (lookup (idempotency_key e2e) stored) [
    | none ↦ not_found
    | some b ↦ elim (c.unmarshal_decision b) [ none ↦ load_error | some d ↦ found d ]
  ]

  -- What Redis holds afterwards, and whether an error is returned.
  unfoldable pub store_decision :
      (fails : Bool) → String → Decision F → Map Bytes → Map Bytes × Bool
  store_decision fails e2e d stored = elim (c.marshal_decision d) [
    | none ↦ (stored, true)
    | some b ↦ if fails then (stored, true) else (insert (idempotency_key e2e) b stored, false)
  ]

-- The time to live of a key has passed.
unfoldable pub expire : String → Map Bytes → Map Bytes
expire key [] = []
expire key (entry ∷ rest) = if str_eq entry.0 key then expire key rest else entry ∷ expire key rest

idempotency_key-inj : (a b : String) → idempotency_key a ≡ idempotency_key b → a ≡ b
unfolding idempotency_key
idempotency_key-inj a b h =
    append_cancel_right a b "}" (append_cancel_left "i:{e:" (concat a "}") (concat b "}") h)

pub idempotency_key-ne :
    (a b : String) → str_eq a b ≡ false → str_eq (idempotency_key a) (idempotency_key b) ≡ false
idempotency_key-ne a b h =
    ground
      (arith, idempotency_key-inj a b, eq_iff a b, eq_iff (idempotency_key a) (idempotency_key b))

pub lookup-expire :
    (key other : String) (stored : Map Bytes)
    → str_eq key other ≡ false
    → lookup other (expire key stored) ≡ lookup other stored
unfolding lookup expire
lookup-expire key other [] h = refl
lookup-expire key other (entry ∷ rest) h = ground (
  arith,
  lookup-expire key other rest h,
  eq_iff entry.0 key,
  eq_iff entry.0 other,
  eq_iff key other,
)

module _ {F : Type 0} (c : Codec F) where
  -- A store of one id leaves what is stored for another.
  pub lookup-store_decision :
      (fails : Bool) (e2e other : String) (d : Decision F) (stored : Map Bytes)
      → str_eq e2e other ≡ false
      → lookup (idempotency_key other) (store_decision c fails e2e d stored).0
        ≡ lookup (idempotency_key other) stored
  unfolding store_decision
  lookup-store_decision fails e2e other d stored h = elim (Option-cases (c.marshal_decision d)) [
    | inl e ↦ rw (store_decision, e) refl
    | inr (b, e) ↦ elim (Bool-cases fails) [
      | inl bad ↦ rw (store_decision, e, bad) refl
      | inr fine ↦
          rw (store_decision, e, fine)
            (lookup-insert (idempotency_key e2e) (idempotency_key other) b stored
              ∙ rw (idempotency_key-ne e2e other h) refl)
    ]
  ]

  pub lookup-store_decision_self :
      (e2e : String) (d : Decision F) (b : Bytes) (stored : Map Bytes)
      → c.marshal_decision d ≡ some b
      → lookup (idempotency_key e2e) (store_decision c false e2e d stored).0 ≡ some b
  unfolding store_decision
  lookup-store_decision_self e2e d b stored h =
      rw (store_decision, h)
        (lookup-insert (idempotency_key e2e) (idempotency_key e2e) b stored
          ∙ rw (eq_refl (idempotency_key e2e)) refl)
