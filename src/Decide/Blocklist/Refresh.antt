-- ===== src/Decide/Blocklist/Refresh.antt =====
-- go/internal/decide/blocklist.go: what a refresh leaves.
use payment_infrastructure.Base.{
  String, ◌≡◌, refl, ◌∙◌, Bool, true, List, [], ◌∷◌, ◌++◌, Option, none, some, Map, lookup, insert,
  map, arith, lookup-insert, str_eq, if◌then◌else◌,
}
use payment_infrastructure.Decide.Blocklist.{
  Entry, Blocklist, hit, Row, row, scan_error, rows, load_rows, refresh,
}

-- The last of the rows for an account.
unfoldable pub latest : String → List Entry → Option Entry
latest account [] = none
latest account (e ∷ es) = elim (latest account es) [
  | some later ↦ some later
  | none ↦ if str_eq e.account account then some e else none
]

or_else : Option Entry → Option Entry → Option Entry
or_else (some e) o = some e
or_else none o = o

latest-insert :
    (account : String) (e : Entry) (es : List Entry) (m : Map Entry)
    → or_else (latest account es) (lookup account (insert e.account e m))
      ≡ or_else (latest account (e ∷ es)) (lookup account m)
unfolding latest or_else
latest-insert account e es m = ground (arith, lookup-insert e.account account e m)

or_else-none : (account : String) (o : Option Entry) → or_else o (lookup account []) ≡ o
unfolding lookup or_else
or_else-none account none = refl
or_else-none account (some e) = refl

load_rows-latest :
    (account : String) (es : List Entry) (m : Map Entry)
    → (m' : Map Entry) × (load_rows (map row es) m ≡ some m')
      × (lookup account m' ≡ or_else (latest account es) (lookup account m))
unfolding load_rows latest or_else
load_rows-latest account [] m = (m, refl, refl)
load_rows-latest account (e ∷ es) m =
    let (m', run, found) = load_rows-latest account es (insert e.account e m) in
    (m', run, found ∙ latest-insert account e es m)

load_rows-scan_error :
    (es : List Entry) (rest : List Row) (m : Map Entry)
    → load_rows (map row es ++ scan_error ∷ rest) m ≡ none
unfolding load_rows
load_rows-scan_error [] rest m = refl
load_rows-scan_error (e ∷ es) rest m = load_rows-scan_error es rest (insert e.account e m)

-- When all rows that were read could be scanned, an account hits exactly with its last row, and the
-- error returned is that of the iteration. The list is replaced even if there is such an error: the
-- rows that were not read are then off the list.
pub hit-refresh :
    (es : List Entry) (failed : Bool) (b : Blocklist) (account : String)
    → ((refresh (rows (map row es) failed) b).1 ≡ failed)
      × (hit (refresh (rows (map row es) failed) b).0 account ≡ latest account es)
unfolding refresh hit or_else
hit-refresh es failed b account =
    let (m', run, found) = load_rows-latest account es [] in
    (rw (refresh, run) refl, rw (refresh, run) (found ∙ or_else-none account (latest account es)))

-- A row that cannot be scanned leaves the old list in force, whatever rows stand around it, and the
-- error is returned.
pub refresh-scan_error :
    (es : List Entry) (rest : List Row) (failed : Bool) (b : Blocklist)
    → refresh (rows (map row es ++ scan_error ∷ rest) failed) b ≡ (b, true)
unfolding refresh
refresh-scan_error es rest failed b = rw (refresh, load_rows-scan_error es rest []) refl
