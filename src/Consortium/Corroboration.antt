-- ===== src/Consortium/Corroboration.antt =====
-- go/internal/consortium/registry.go: who corroborates a report, and what a retraction takes away.
use payment_infrastructure.Base.{
  ℕ, String, ◌≡◌, ◌≢◌, ◌↔◌, inl, inr, refl, sym, ap, ◌∙◌, Bool, true, false, not, ◌&&◌, List, [],
  ◌∷◌, ◌++◌, Option, some, Map, lookup_or, insert, lookup-insert, str_eq, eq_iff, length, map, leb,
  filter_by, get_elem?, zero, suc, if◌then◌else◌, arith, Bool-cases,
}
use payment_infrastructure.Base.Int.{ℤ}
use payment_infrastructure.Base.Float.{Float64}
use payment_infrastructure.Consortium.{
  Hmac, Tokeniser, token_current_epoch, TableRow, LookupResult, fetched, is_selected, select_active,
  scanned, legal_entity_of, below_floor, collect, lookup_account,
}

unfoldable pub among : String → List String → Bool
among x [] = false
among x (y ∷ ys) = if str_eq y x then true else among x ys

among-snoc :
    (x y : String) (ys : List String)
    → among x (ys ++ y ∷ []) ≡ (if among x ys then true else str_eq y x)
unfolding among
among-snoc x y [] = ground arith
among-snoc x y (z ∷ zs) = ground (arith, among-snoc x y zs)

-- The first two differ, if there are two.
TwoDiffer : List String → Type 0
TwoDiffer (x ∷ y ∷ ys) = str_eq x y ≡ false
TwoDiffer _ = Unit

TwoDiffer-snoc :
    (y : String) (ys : List String) → among y ys ≡ false → TwoDiffer ys → TwoDiffer (ys ++ y ∷ [])
unfolding among TwoDiffer
TwoDiffer-snoc y [] h d = tt
TwoDiffer-snoc y (x ∷ []) h d = ground arith
TwoDiffer-snoc y (x ∷ z ∷ zs) h d = d

two_of :
    (ys : List String)
    → TwoDiffer ys
    → leb 2 (length ys) ≡ true
    → (x : String) × (y : String) × (x ≢ y) × (among x ys ≡ true) × (among y ys ≡ true)
unfolding among TwoDiffer
two_of [] d h = absurd (ground arith)
two_of (x ∷ []) d h = absurd (ground arith)
two_of (x ∷ y ∷ ys) d h = (
  x,
  y,
  (λ e. absurd (ground (arith, eq_iff x y))),
  ground (arith, eq_iff x x),
  ground (arith, eq_iff y y),
)

length-two :
    (ys : List String) (x y : String)
    → x ≢ y
    → among x ys ≡ true
    → among y ys ≡ true
    → leb 2 (length ys) ≡ true
unfolding among
length-two [] x y n a b = absurd (ground arith)
length-two (z ∷ []) x y n a b = absurd (n ground (arith, eq_iff z x, eq_iff z y))
length-two (z ∷ w ∷ ws) x y n a b = ground arith

abbrev Same : Map Bool → List String → Type 0
Same seen entities = (x : String) → lookup_or false x seen ≡ among x entities

Same-insert :
    (entity : String) (seen : Map Bool) (entities : List String)
    → Same seen entities
    → Same (insert entity true seen) (entities ++ entity ∷ [])
unfolding lookup_or
Same-insert entity seen entities same x =
    let before = same x in
    ground (arith, same x, lookup-insert entity x true seen, among-snoc x entity entities)

among-known :
    (known x : String) (ys : List String) (b : Bool)
    → among known ys ≡ true
    → (if among x ys then true else b)
      ≡ (if among x ys then true else if str_eq known x then true else b)
among-known known x ys b h = elim (Bool-cases (str_eq known x)) [
  | inl e ↦
      let there : among x ys ≡ true = ap (λ k. among k ys) (sym ((eq_iff known x).0 e)) ∙ h in
      rw there refl
  | inr e ↦ rw e refl
]

module _ {F : Type 0} ⦃f : Float64 F⦄ where
  -- A row of the table names the entity, and counts for the lookup.
  unfoldable pub reports : String → ℤ → F → Option (String → F) → String → TableRow F → Bool
  reports token now floor reputation_of entity r =
      is_selected token now r
      && not (below_floor floor reputation_of r.reporter_bank)
      && str_eq (legal_entity_of r.reporter_bank) entity

  unfoldable pub some_row : (TableRow F → Bool) → List (TableRow F) → Bool
  some_row p [] = false
  some_row p (r ∷ rs) = if p r then true else some_row p rs

  some_row→row :
      (p : TableRow F → Bool) (rs : List (TableRow F))
      → some_row p rs ≡ true
      → (i : ℕ) × (r : TableRow F) × (get_elem? rs i ≡ some r) × (p r ≡ true)
  unfolding some_row
  some_row→row p [] h = absurd (ground arith)
  some_row→row p (r ∷ rs) h = elim (Bool-cases (p r)) [
    | inl e ↦ (0, r, refl, e)
    | inr e ↦ let (i, r', at, holds) = some_row→row p rs (ground arith) in (suc i, r', at, holds)
  ]

  row→some_row :
      (p : TableRow F → Bool) (rs : List (TableRow F)) (i : ℕ) (r : TableRow F)
      → get_elem? rs i ≡ some r
      → p r ≡ true
      → some_row p rs ≡ true
  unfolding some_row
  row→some_row p [] i r at h = absurd (cc)
  row→some_row p (q ∷ rs) zero r at h = let same : q ≡ r = cc in rw (same, h) refl
  row→some_row p (q ∷ rs) (suc i) r at h = elim (Bool-cases (p q)) [
    | inl e ↦ rw e refl
    | inr e ↦ rw e (row→some_row p rs i r at h)
  ]

  -- What the loop has done after the selected rows of `table`.
  Collected :
      String
      → ℤ
      → F
      → Option (String → F)
      → List (TableRow F)
      → LookupResult F
      → Option (LookupResult F)
      → Type 0
  Collected token now floor reputation_of table res end' =
      (res' : LookupResult F) × (end' ≡ some res')
      × TwoDiffer res'.legal_entities
      × ((x : String)
          → among x res'.legal_entities ≡ (
              if among x res.legal_entities
              then true
              else some_row (reports token now floor reputation_of x) table))

  collect-Collected :
      (token : String) (now : ℤ) (floor : F) (reputation_of : Option (String → F))
      (table : List (TableRow F)) (seen : Map Bool) (res : LookupResult F)
      → Same seen res.legal_entities
      → TwoDiffer res.legal_entities
      → Collected token now floor reputation_of table res (
          collect floor reputation_of
            (map fetched (filter_by (is_selected token now) table))
            seen
            res)
  unfolding Collected collect some_row reports scanned
  collect-Collected token now floor reputation_of [] seen res same differ =
      (res, refl, differ, λ x. ground arith)
  collect-Collected token now floor reputation_of (r ∷ table) seen res same differ =
      let entity = legal_entity_of r.reporter_bank in
      elim (Bool-cases (is_selected token now r)) [
        | inr out ↦
            rw out (collect-Collected token now floor reputation_of table seen res same differ)
        | inl chosen ↦
            rw chosen (elim (Bool-cases (below_floor floor reputation_of r.reporter_bank)) [
              | inl low ↦
                  rw low
                    (collect-Collected token now floor reputation_of table seen res same differ)
              | inr fine ↦ rw fine (elim (Bool-cases (among entity res.legal_entities)) [
                | inl old ↦
                    rw (same entity, old)
                      (let res2 : LookupResult F = record res {
                        entries = res.entries ++ scanned r ∷ [];
                      } in
                        let (res', run, d, mem) =
                          collect-Collected token now floor reputation_of table seen res2 same
                            differ in
                        (res', run, d, λ x. mem x ∙ among-known entity x res.legal_entities _ old))
                | inr new ↦
                    rw (same entity, new)
                      (let res2 : LookupResult F = record res {
                        entries = res.entries ++ scanned r ∷ [];
                        legal_entities = res.legal_entities ++ entity ∷ [];
                      } in
                        let (res', run, d, mem) =
                          collect-Collected token now floor reputation_of table
                            (insert entity true seen) res2
                            (Same-insert entity seen res.legal_entities same)
                            (TwoDiffer-snoc entity res.legal_entities new differ) in
                        (
                          res',
                          run,
                          d,
                          λ x. ground (arith, mem x, among-snoc x entity res.legal_entities),
                        ))
              ])
            ])
      ]

  -- A row of the table counts for the lookup of a token, and its reporter belongs to the entity.
  abbrev pub IsReported : String → ℤ → F → Option (String → F) → List (TableRow F) → String → Type 0
  IsReported token now floor reputation_of table entity =
      (i : ℕ) × (r : TableRow F) × (get_elem? table i ≡ some r)
      × (reports token now floor reputation_of entity r ≡ true)

  -- When the account has a token and the database answers, the lookup returns a result, and its rail
  -- fires exactly if two different legal entities each have an active, unexpired report of that token
  -- by a reporter that is not below the reputation floor. No signature of a report is looked at.
  pub rail_iff :
      (m : Hmac) (t : Tokeniser) (now : ℤ) (table : List (TableRow F)) (account token : String)
      (floor : F) (reputation_of : Option (String → F))
      → token_current_epoch m t "creditor_account" account ≡ some token
      → (res : LookupResult F) × (lookup_account m t
            (λ k. select_active k now table)
            account
            floor
            reputation_of
          ≡ (some res, false))
        × ((res.rail_fires ≡ true) ↔ (
            (x : String) × (y : String) × (x ≢ y)
            × IsReported token now floor reputation_of table x
            × IsReported token now floor reputation_of table y))
  unfolding lookup_account select_active Collected lookup_or among TwoDiffer
  rail_iff m t now table account token floor reputation_of known =
      let empty : LookupResult F = record {
        token = token;
        rail_fires = false;
        legal_entities = [];
        entries = [];
      } in
      let (res, run, differ, mem) =
        collect-Collected token now floor reputation_of table [] empty (λ x. refl) tt in
      let found = λ (x : String). reports token now floor reputation_of x in
      (
        record res { rail_fires = leb 2 (length res.legal_entities) },
        rw (lookup_account, known, run) refl,
        (
          λ fires.
              let (x, y, distinct, has_x, has_y) = two_of res.legal_entities differ fires in
              (
                x,
                y,
                distinct,
                some_row→row (found x) table (sym (mem x) ∙ has_x),
                some_row→row (found y) table (sym (mem y) ∙ has_y),
              ),
          λ two.
              let (x, y, distinct, (i, r, at_i, has_x), (j, s, at_j, has_y)) = two in
              length-two res.legal_entities x y distinct
                (mem x ∙ row→some_row (found x) table i r at_i has_x)
                (mem y ∙ row→some_row (found y) table j s at_j has_y),
        ),
      )
