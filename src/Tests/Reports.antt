-- ===== src/Tests/Reports.antt =====
-- The theorems on the reports of go/internal/consortium at a first report.
use payment_infrastructure.Base.{◌≡◌, refl, false, [], ◌∷◌, Option, some, take, bytes, lookup}
use payment_infrastructure.Base.Int.{ℤ, pos, add64}
use payment_infrastructure.Audit.{next, new_chain}
use payment_infrastructure.Consortium.{
  RegistryEntry, status_active, below_floor, legal_entity_of, token_of, new_tokeniser,
}
use payment_infrastructure.Consortium.Corroboration.{IsReported}
use payment_infrastructure.Consortium.Reports.{
  Services, Registry, report, has_id, new_entry, chain_for, entry_id_of, ttl_or_default,
}
use payment_infrastructure.Consortium.Reports.Published.{report-IsReported}
use payment_infrastructure.Tests.Consortium.{keyed, tokeniser, table, reputation}
use payment_infrastructure.Tests.Sample.{millionths}

abbrev services : Services
services = record {
  hashing = record { sha256 = λ bs. take 2 bs; marshal = λ r. some (1 ∷ []) };
  mac = keyed;
  clock = record { unix_milli = λ t. t; format = λ t. "2026"; now_text = "now" };
  marshal_wire = λ w. some (bytes w.sig);
}

abbrev registry : Registry ℤ
registry = record { tokeniser = tokeniser; chains = []; table = table }

abbrev first_report : Registry ℤ × Option (RegistryEntry ℤ)
first_report =
    report services false (pos 10) "BANK_A" "mule-1" "MULE" "case" (pos 900_000) (pos 0) registry

abbrev first_entry : RegistryEntry ℤ
first_entry = record {
  entry_id = "21";
  token = "72";
  epoch = pos 1;
  kind = "creditor_account";
  threat_class = "MULE";
  reporter = "BANK_A";
  legal_entity = "LEI-BANK-A";
  status = status_active;
  confidence = pos 900_000;
  case_id = "case";
  created_at = pos 10;
  expires_at = pos 15_552_000_000_000_010;
  chain_seq = pos 1;
  prev_hash = [];
  hash = 1 ∷ [];
}

first_report-entry : first_report.1 ≡ some first_entry
unfolding report token_of new_tokeniser next new_entry add64 chain_for entry_id_of legal_entity_of
    ttl_or_default lookup new_chain
first_report-entry = refl

first_report-id : has_id "21" table ≡ false
unfolding has_id
first_report-id = refl

first_report-floor : below_floor (pos 500_000) reputation "BANK_A" ≡ false
unfolding below_floor millionths
first_report-floor = refl

report-IsReported_example :
    (token_of keyed tokeniser tokeniser.current_epoch "creditor_account" "mule-1" ≡ some "72")
    × IsReported "72"
        (pos 50)
        (pos 500_000)
        reputation
        first_report.0.table
        (legal_entity_of "BANK_A")
report-IsReported_example =
    report-IsReported services false (pos 10) "BANK_A" "mule-1" "MULE" "case" (pos 900_000) (pos 0)
      registry first_entry (pos 50) (pos 500_000) reputation first_report-entry first_report-id refl
      first_report-floor
