-- ===== src/Tests/Consortium.antt =====
-- The theorems on go/internal/consortium at a table of four reports of one account.
use payment_infrastructure.Base.{
  ◌%◌, String, ◌≡◌, refl, ◌≢◌, ◌↔◌, Bool, true, false, List, [], ◌∷◌, Option, some, concat, digit,
}
use payment_infrastructure.Base.Int.{ℤ, pos}
use payment_infrastructure.Audit.{Bytes}
use payment_infrastructure.Consortium.{
  Hmac, Tokeniser, new_tokeniser, token_current_epoch, TableRow, LookupResult, select_active,
  lookup_account, retract, dispute, status_active, status_disputed,
}
use payment_infrastructure.Consortium.Corroboration.{IsReported, rail_iff}
use payment_infrastructure.Consortium.Withdrawal.{without, lookup_account-withdrawn}
use payment_infrastructure.Tests.Sample.{millionths}

abbrev digits_of : Bytes → String
digits_of [] = ""
digits_of (b ∷ bs) = concat (digit (b % 16)) (digits_of bs)

abbrev pub keyed : Hmac
keyed = record { hmac_sha256 = λ key message. key; hex = digits_of }

abbrev pub tokeniser : Tokeniser
tokeniser = new_tokeniser (7 ∷ 2 ∷ [])

token_known : token_current_epoch keyed tokeniser "creditor_account" "mule-1" ≡ some "72"
unfolding token_current_epoch new_tokeniser
token_known = refl

abbrev report_by : String → String → String → TableRow ℤ
report_by entry_id reporter status = record {
  entry_id = entry_id;
  token = "72";
  epoch = pos 1;
  reporter_bank = reporter;
  kind = "creditor_account";
  threat_class = "MULE";
  status = status;
  confidence = pos 900_000;
  case_id = "case";
  created_at = pos 10;
  expires_at = pos 1_000;
  wire_json = [];
}

abbrev pub table : List (TableRow ℤ)
table =
    report_by "e1" "BANK_A" status_active
    ∷ report_by "e2" "BANK_A_CARDS" status_active
    ∷ report_by "e3" "BANK_B" status_disputed
    ∷ report_by "e4" "BANK_C" status_active
    ∷ []

abbrev pub reputation : Option (String → ℤ)
reputation = some (λ reporter. pos 800_000)

rail_iff_example :
    (res : LookupResult ℤ) × (lookup_account keyed tokeniser
        (λ k. select_active k (pos 50) table)
        "mule-1"
        (pos 500_000)
        reputation
      ≡ (some res, false))
    × ((res.rail_fires ≡ true) ↔ (
        (x : String) × (y : String) × (x ≢ y)
        × IsReported "72" (pos 50) (pos 500_000) reputation table x
        × IsReported "72" (pos 50) (pos 500_000) reputation table y))
rail_iff_example =
    rail_iff keyed tokeniser (pos 50) table "mule-1" "72" (pos 500_000) reputation token_known

abbrev look : List (TableRow ℤ) → Option (LookupResult ℤ) × Bool
look rows =
    lookup_account keyed tokeniser (λ k. select_active k (pos 50) rows) "mule-1" (pos 500_000)
      reputation

lookup_account-withdrawn_example :
    (look (retract "e4" false table).0 ≡ look (without "e4" table))
    × (look (dispute "e4" false table).0 ≡ look (without "e4" table))
lookup_account-withdrawn_example =
    lookup_account-withdrawn keyed tokeniser (pos 50) table "e4" "mule-1" (pos 500_000) reputation
