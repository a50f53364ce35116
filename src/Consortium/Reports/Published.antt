-- ===== src/Consortium/Reports/Published.antt =====
-- go/internal/consortium/registry.go: what a report leaves.
use payment_infrastructure.Base.{
  none-ne-some, some-eq, ℕ, String, ◌≡◌, ◌≢◌, ◌⊎◌, refl, sym, ap, subst, ◌∙◌, Bool, true, false,
  List, [], ◌∷◌, ◌++◌, Option, none, some, lookup, insert, lookup-insert, str_eq, eq_iff, eq_refl,
  get_elem?, length, Bool-cases, Option-cases, inl, inr,
}
use payment_infrastructure.Base.Int.{ℤ, ltb_ℤ}
use payment_infrastructure.Base.Float.{Float64}
use payment_infrastructure.Audit.{Chain, Link, next}
use payment_infrastructure.Consortium.{
  token_of, RegistryEntry, TableRow, legal_entity_of, is_selected, below_floor, status_active,
}
use payment_infrastructure.Consortium.Corroboration.{reports, IsReported}
use payment_infrastructure.Consortium.Reports.{
  Services, Registry, op_report, chain_for, wire, canonical_record, has_id, insert_row, row_of,
  store, new_entry, report,
}

module _ {F : Type 0} where
  abbrev linked : Link → RegistryEntry F → RegistryEntry F
  linked link entry = record entry {
    chain_seq = link.seq;
    prev_hash = link.prev_hash;
    hash = link.hash;
  }

  -- What is stored when no error is returned, and nothing is when one is.
  store_cases :
      (s : Services) (failed : Bool) (link : Option Link) (entry : RegistryEntry F)
      (table : List (TableRow F))
      → (store s failed link entry table ≡ (table, none))
        ⊎ ((l : Link) × (wire_json : List ℕ) × (store s failed link entry table
              ≡ (insert_row (row_of (linked l entry) wire_json) table, some (linked l entry))))
  unfolding store
  store_cases s failed none entry table = inl refl
  store_cases s failed (some l) entry table =
      elim (Option-cases (s.marshal_wire (wire s (linked l entry) op_report))) [
        | inl e ↦ inl (rw (store, e) refl)
        | inr found ↦ elim (Bool-cases failed) [
          | inl bad ↦ inl (rw (store, found.1, bad) refl)
          | inr fine ↦ inr (l, found.0, rw (store, found.1, fine) refl)
        ]
      ]

  get_elem?-last :
      (rs : List (TableRow F)) (r : TableRow F) → get_elem? (rs ++ r ∷ []) (length rs) ≡ some r
  get_elem?-last [] r = refl
  get_elem?-last (q ∷ rs) r = get_elem?-last rs r

module _ {F : Type 0} ⦃f : Float64 F⦄ where
  inserted-IsReported :
      (e : RegistryEntry F) (wire_json : List ℕ) (table : List (TableRow F)) (later : ℤ) (floor : F)
      (reputation_of : Option (String → F))
      → e.status ≡ status_active
      → has_id e.entry_id table ≡ false
      → ltb_ℤ later e.expires_at ≡ true
      → below_floor floor reputation_of e.reporter ≡ false
      → IsReported e.token later floor reputation_of
          (insert_row (row_of e wire_json) table)
          (legal_entity_of e.reporter)
  unfolding insert_row row_of reports is_selected
  inserted-IsReported e wire_json table later floor reputation_of active new alive fine = (
    length table,
    row_of e wire_json,
    rw (insert_row, new) (get_elem?-last table (row_of e wire_json)),
    rw (eq_refl e.token, active, alive, fine, eq_refl (legal_entity_of e.reporter)) refl,
  )

module _ {F : Type 0} (s : Services) (failed : Bool) (now : ℤ)
    (reporter account threat_class case_id : String) (confidence : F) (ttl : ℤ)
    (reg : Registry F) where
  abbrev reported : Registry F × Option (RegistryEntry F)
  reported = report s failed now reporter account threat_class case_id confidence ttl reg

  abbrev issued : Option String
  issued = token_of s.mac reg.tokeniser reg.tokeniser.current_epoch "creditor_account" account

  abbrev fresh : String → RegistryEntry F
  fresh token =
      new_entry s reg.tokeniser.current_epoch token now reporter threat_class case_id confidence ttl

  -- No token; an error after the chain moved on; or the entry is stored.
  report_cases :
      (reported ≡ (reg, none))
      ⊎ (((chain : Chain) × (reported
              ≡ (record reg { chains = insert reporter chain reg.chains }, none)))
          ⊎ ((token : String) × (chain : Chain) × (l : Link) × (wire_json : List ℕ) × (issued
                ≡ some token)
              × (reported ≡ (
                record reg {
                  chains = insert reporter chain reg.chains;
                  table = insert_row (row_of (linked l (fresh token)) wire_json) reg.table;
                },
                some (linked l (fresh token)),
              ))))
  unfolding report
  report_cases = elim (Option-cases issued) [
    | inl e ↦ inl (rw (report, e) refl)
    | inr (token, e) ↦
        let moved =
          next s.hashing (canonical_record s (fresh token) op_report)
            (chain_for reporter reg.chains) in
        elim (store_cases s failed moved.1 (fresh token) reg.table) [
          | inl none_stored ↦ inr (inl (moved.0, rw (report, e, none_stored) refl))
          | inr (l, wire_json, stored) ↦
              inr (inr (token, moved.0, l, wire_json, e, rw (report, e, stored) refl))
        ]
  ]

  lookup-insert_other :
      (chain : Chain) (other : String)
      → other ≢ reporter
      → lookup other (insert reporter chain reg.chains) ≡ lookup other reg.chains
  lookup-insert_other chain other ne = elim (Bool-cases (str_eq reporter other)) [
    | inl e ↦ absurd (ne (sym ((eq_iff reporter other).0 e)))
    | inr e ↦ lookup-insert reporter other chain reg.chains ∙ rw e refl
  ]

  -- Whatever a report ends with, it touches no other reporter's chain; and if it ends with an error,
  -- the table is as before.
  pub report_lem :
      ((other : String)
        → other ≢ reporter
        → lookup other reported.0.chains ≡ lookup other reg.chains)
      × (reported.1 ≡ none → reported.0.table ≡ reg.table)
  report_lem = elim report_cases [
    | inl e ↦ rw e (λ other ne. refl, λ h. refl)
    | inr (inl (chain, e)) ↦ rw e (lookup-insert_other chain, λ h. refl)
    | inr (inr (token, chain, l, wire_json, known, e)) ↦
        rw e (lookup-insert_other chain, λ h. absurd (cc))
  ]

  module _ ⦃f : Float64 F⦄ where
    -- When a report returns an entry whose id is not yet in the table, the account's current token is
    -- the entry's, and from then on the reporter's legal entity counts for its lookup, until the entry
    -- expires and as long as the reporter is not below the reputation floor.
    pub report-IsReported :
        (e : RegistryEntry F) (later : ℤ) (floor : F) (reputation_of : Option (String → F))
        → reported.1 ≡ some e
        → has_id e.entry_id reg.table ≡ false
        → ltb_ℤ later e.expires_at ≡ true
        → below_floor floor reputation_of reporter ≡ false
        → (issued ≡ some e.token)
          × IsReported e.token later floor reputation_of reported.0.table (legal_entity_of reporter)
    unfolding new_entry
    report-IsReported e later floor reputation_of answered new alive fine = elim report_cases [
      | inl none_issued ↦ absurd (none-ne-some (sym (ap (λ r. r.1) none_issued) ∙ answered))
      | inr (inl (chain, failed_later)) ↦
          absurd (none-ne-some (sym (ap (λ r. r.1) failed_later) ∙ answered))
      | inr (inr (token, chain, l, wire_json, known, stored)) ↦
          let same : linked l (fresh token) ≡ e = some-eq (sym (ap (λ r. r.1) stored) ∙ answered) in
          let by : e.reporter ≡ reporter = sym (ap (λ x. x.reporter) same) in
          let after : reported.0.table ≡ insert_row (row_of e wire_json) reg.table =
            ap (λ r. r.0.table) stored ∙ ap (λ x. insert_row (row_of x wire_json) reg.table) same in
          (
            known ∙ ap (λ x. some x.token) same,
            subst
                (λ rows.
                  IsReported e.token later floor reputation_of rows (legal_entity_of reporter))
                (sym after)
                (subst
                  (λ who.
                    IsReported e.token later floor reputation_of
                      (insert_row (row_of e wire_json) reg.table) (legal_entity_of who))
                  by
                  (inserted-IsReported e wire_json reg.table later floor reputation_of
                    (sym (ap (λ x. x.status) same)) new alive
                    (ap (λ who. below_floor floor reputation_of who) by ∙ fine))),
          )
    ]
