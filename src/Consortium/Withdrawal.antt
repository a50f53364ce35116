-- ===== src/Consortium/Withdrawal.antt =====
-- go/internal/consortium/registry.go: what a retraction and a dispute take away.
use payment_infrastructure.Base.{
  String, ◌≡◌, refl, ap, fun_ext, false, not, List, [], ◌∷◌, Option, str_eq, filter_by,
  if◌then◌else◌, arith, Bool-cases, inl, inr, map,
}
use payment_infrastructure.Base.Int.{ℤ}
use payment_infrastructure.Base.Float.{Float64}
use payment_infrastructure.Consortium.{
  Hmac, Tokeniser, TableRow, fetched, reply, status_active, status_retracted, status_disputed,
  update_status, retract, dispute, is_selected, select_active, lookup_account,
}

module _ {F : Type 0} where
  -- The table without the rows of an entry.
  abbrev pub without : String → List (TableRow F) → List (TableRow F)
  without entry_id table = filter_by (λ r. not (str_eq r.entry_id entry_id)) table

  is_selected-withdrawn :
      (status token : String) (now : ℤ) (r : TableRow F)
      → str_eq status status_active ≡ false
      → is_selected token now (record r { status = status }) ≡ false
  unfolding is_selected
  is_selected-withdrawn status token now r h = ground arith

  selected-update_status :
      (status entry_id token : String) (now : ℤ) (table : List (TableRow F))
      → str_eq status status_active ≡ false
      → filter_by (is_selected token now) (update_status status entry_id table)
        ≡ filter_by (is_selected token now) (without entry_id table)
  unfolding update_status
  selected-update_status status entry_id token now [] h = refl
  selected-update_status status entry_id token now (r ∷ rs) h =
      let ih = selected-update_status status entry_id token now rs h in
      elim (Bool-cases (str_eq r.entry_id entry_id)) [
        | inl e ↦ rw (e, is_selected-withdrawn status token now r h) ih
        | inr e ↦ rw e (ap (λ ts. if is_selected token now r then r ∷ ts else ts) ih)
      ]

module _ {F : Type 0} ⦃f : Float64 F⦄ where
  -- After a retraction or a dispute that the database carries out, every lookup returns what it would
  -- return without the rows of that entry: it is neither counted by the rail nor listed, so that an entry
  -- in dispute is no advisory either.
  pub lookup_account-withdrawn :
      (m : Hmac) (t : Tokeniser) (now : ℤ) (table : List (TableRow F)) (entry_id account : String)
      (floor : F) (reputation_of : Option (String → F))
      → let look = λ (rows : List (TableRow F)).
        lookup_account m t (λ k. select_active k now rows) account floor reputation_of in
        (look (retract entry_id false table).0 ≡ look (without entry_id table))
        × (look (dispute entry_id false table).0 ≡ look (without entry_id table))
  unfolding retract dispute select_active
  lookup_account-withdrawn m t now table entry_id account floor reputation_of =
      let by = λ (status : String) (h : str_eq status status_active ≡ false).
        ap
          (λ (chosen : String → List (TableRow F)).
            lookup_account m t (λ k. reply (map fetched (chosen k)) false) account floor
              reputation_of)
          (fun_ext (λ k. selected-update_status status entry_id k now table h)) in
      (by status_retracted refl, by status_disputed refl)
