-- ===== src/Contract/Event.antt =====
-- go/internal/contract/event.go: the canonical event. A rail is the text that names it.
use payment_infrastructure.Base.{ℕ, String}
use payment_infrastructure.Base.Int.{ℤ}

abbrev pub Rail : Type 0
Rail = String

pub record ClaimedFacts : Type 0 where
  pub creditor_account_opened_ms : ℤ
  pub device_first_seen_ms : ℤ

pub record Event : Type 0 where
  pub end_to_end_id : String
  pub event_ts_ms : ℤ
  pub accepted_at_ms : ℤ
  pub rail : Rail
  pub channel : String
  pub bank_instance : String
  pub debtor_account : String
  pub debtor_vpa : String
  pub creditor_account : String
  pub creditor_vpa : String
  pub creditor_ifsc : String
  pub instructed_amount_minor : ℤ
  pub currency : String
  pub device_id : String
  pub ip : String
  pub asn : ℤ
  pub geo_cell : String
  pub session_id : String
  pub app_version : String
  pub initiation : String
  pub remittance_info : String
  pub claimed : ClaimedFacts
  pub schema_version : ℕ
