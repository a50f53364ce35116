-- ===== src/Decide/Blocklist.antt =====
-- go/internal/decide/blocklist.go: the exact map, and its refresh from the database's rows.
pub mod Refresh
use payment_infrastructure.Base.{
  ℕ, String, ◌≡◌, refl, Bool, true, false, List, [], ◌∷◌, ◌++◌, Option, none, some, Map, lookup,
  insert, arith, lookup-insert, str_eq, eq_iff, if◌then◌else◌,
}
use payment_infrastructure.Base.Int.{ℤ}

pub record Entry : Type 0 where
  pub account : String
  pub list : String
  pub reason : String
  pub reporter_count : ℤ

pub record Blocklist : Type 0 where
  pub entries : Map Entry

abbrev pub new_blocklist : Blocklist
new_blocklist = record { entries = [] }

unfoldable pub hit : Blocklist → String → Option Entry
hit b account = lookup account b.entries

-- What the database gives for the query: an error, or the rows that could be read, each with its
-- scan's success, and whether the iteration ended in an error.
pub data Row : Type 0 where
  row : Entry → Row
  scan_error : Row

pub data Answer : Type 0 where
  query_error : Answer
  rows : List Row → Bool → Answer

-- The loop over the rows: `none` is a failed scan.
load_rows : List Row → Map Entry → Option (Map Entry)
load_rows [] next = some next
load_rows (scan_error ∷ rest) next = none
load_rows (row e ∷ rest) next = load_rows rest (insert e.account e next)

-- The new state, and whether an error is returned.
unfoldable pub refresh : Answer → Blocklist → Blocklist × Bool
unfolding load_rows
refresh query_error b = (b, true)
refresh (rows rs failed) b = elim (load_rows rs []) [
  | none ↦ (b, true)
  | some next ↦ (record { entries = next }, failed)
]
