-- ===== src/Profile/Keys.antt =====
-- go/internal/profile/keys.go: the names of what the store keeps in Redis.
use payment_infrastructure.Base.{String, concat, int_text}
use payment_infrastructure.Base.Int.{ℤ}

abbrev around : String → String → String → String
around before name after = concat before (concat name after)

unfoldable pub payer_txn_window : String → String
payer_txn_window acct = around "w:{p:" acct "}:txn"

unfoldable pub payer_amt_minute : String → String
payer_amt_minute acct = around "c:{p:" acct "}:amt:m"

unfoldable pub payer_amt_hour : String → String
payer_amt_hour acct = around "c:{p:" acct "}:amt:h"

unfoldable pub payer_baseline : String → String
payer_baseline acct = around "b:{p:" acct "}"

unfoldable pub payer_payee_set : String → String
payer_payee_set acct = around "s:{p:" acct "}:payees"

unfoldable pub payer_device_set : String → String
payer_device_set acct = around "s:{p:" acct "}:devices"

unfoldable pub payer_asn_set : String → String
payer_asn_set acct = around "s:{p:" acct "}:asns"

unfoldable pub payer_last : String → String
payer_last acct = around "l:{p:" acct "}"

unfoldable pub payer_amt_sample : String → String
payer_amt_sample acct = around "smp:{p:" acct "}:amt"

unfoldable pub payer_amt_day : String → String
payer_amt_day acct = around "c:{p:" acct "}:amt:d"

unfoldable pub payer_first_seen : String → String
payer_first_seen acct = around "f:{p:" acct "}:first_seen"

unfoldable pub hour_hist_key : String → String
hour_hist_key acct = around "h:{p:" acct "}:hourhist"

unfoldable pub payee_payers_window : String → String
payee_payers_window acct = around "w:{b:" acct "}:payers"

unfoldable pub payee_txn_window : String → String
payee_txn_window acct = around "w:{b:" acct "}:txn"

unfoldable pub payee_in_minute : String → String
payee_in_minute acct = around "c:{b:" acct "}:in:m"

unfoldable pub payee_out_minute : String → String
payee_out_minute acct = around "c:{b:" acct "}:out:m"

unfoldable pub payee_fwd : String → String
payee_fwd acct = around "fwd:{b:" acct "}"

unfoldable pub payee_first_seen : String → String
payee_first_seen acct = around "f:{b:" acct "}:first_seen"

unfoldable pub payee_inflow_share : String → String
payee_inflow_share acct = around "hh:{b:" acct "}:in24h"

unfoldable pub device_accts : String → String
device_accts id = around "w:{d:" id "}:accts"

unfoldable pub device_first_seen : String → String
device_first_seen id = around "f:{d:" id "}:first_seen"

unfoldable pub pair_hash : String → String → String
pair_hash payer payee = concat "pr:{r:" (around payer ":" (concat payee "}"))

unfoldable pub asn_accts : ℤ → String
asn_accts asn = around "w:asn:" (int_text asn) ":accts"
