-- ===== src/Consortium/Reports.antt =====
-- go/internal/consortium/registry.go and wire.go: a report, its link in the reporter's chain and its
-- wire format. SHA-256, JSON and the forms of a time are parameters.
pub mod Published
use payment_infrastructure.Base.{
  String, Bool, true, false, List, [], ◌∷◌, ◌++◌, Option, none, some, Map, lookup, insert, str_eq,
  concat, bytes, take, if◌then◌else◌,
}
use payment_infrastructure.Base.Int.{ℤ, pos, ◌+ℤ◌, leb_ℤ}
use payment_infrastructure.Audit.{Bytes, CanonicalRecord, Hashing, Chain, Link, new_chain, next}
use payment_infrastructure.Consortium.{
  Hmac, Tokeniser, token_of, RegistryEntry, TableRow, status_active, legal_entity_of,
}

-- What the standard library makes of a time, and the text of the time at which the id is made.
pub record Clock : Type 0 where
  pub unix_milli : ℤ → ℤ
  pub format : ℤ → String
  pub now_text : String

pub record WireEntry : Type 0 where
  pub v : ℤ
  pub op : String
  pub epoch : ℤ
  pub token : String
  pub kind : String
  pub threat_class : String
  pub reporter : String
  pub legal_entity : String
  pub reported_at : String
  pub expires_at : String
  pub chain_seq : ℤ
  pub prev_hash : String
  pub hash : String
  pub sig : String

-- What the code calls, and the encoder of the wire format.
pub record Services : Type 0 where
  pub hashing : Hashing
  pub mac : Hmac
  pub clock : Clock
  pub marshal_wire : WireEntry → Option Bytes

pub record Registry (F : Type 0) : Type 0 where
  pub tokeniser : Tokeniser
  pub chains : Map Chain
  pub table : List (TableRow F)

abbrev pub op_report : String
op_report = "report"

abbrev pub signing_keys : Map Bytes
signing_keys =
    ("BANK_A", bytes "demo-signing-key-bank-a-not-for-production")
    ∷ ("BANK_B", bytes "demo-signing-key-bank-b-not-for-production")
    ∷ []

unfoldable pub sign : Hmac → String → Bytes → String
sign m reporter payload =
    let key : Bytes = elim (lookup reporter signing_keys) [
      | some key ↦ key
      | none ↦ bytes "demo-default-key"
    ] in
    m.hex (m.hmac_sha256 key payload)

unfoldable pub hex_or_empty : Hmac → Bytes → String
hex_or_empty m [] = ""
hex_or_empty m (b ∷ bs) = m.hex (b ∷ bs)

unfoldable pub entry_id_of : Services → String → String → String → String
entry_id_of s reporter token case_id =
    let text =
      concat reporter
        (concat "|" (concat token (concat "|" (concat case_id (concat "|" s.clock.now_text))))) in
    s.mac.hex (take 16 (s.hashing.sha256 (bytes text)))

-- The default of 180 days.
unfoldable pub ttl_or_default : ℤ → ℤ
ttl_or_default ttl = if leb_ℤ ttl (pos 0) then pos 15_552_000_000_000_000 else ttl

-- `chainFor`; the caller stores the chain.
unfoldable pub chain_for : String → Map Chain → Chain
chain_for reporter chains = elim (lookup reporter chains) [ some c ↦ c | none ↦ new_chain (pos 0) ]

module _ {F : Type 0} where
  unfoldable pub wire : Services → RegistryEntry F → String → WireEntry
  unfolding sign hex_or_empty
  wire s e op =
      let reported_at = s.clock.format e.created_at in
      let hash = hex_or_empty s.mac e.hash in
      record {
        v = pos 2;
        op = op;
        epoch = e.epoch;
        token = e.token;
        kind = e.kind;
        threat_class = e.threat_class;
        reporter = e.reporter;
        legal_entity = e.legal_entity;
        reported_at = reported_at;
        expires_at = s.clock.format e.expires_at;
        chain_seq = e.chain_seq;
        prev_hash = hex_or_empty s.mac e.prev_hash;
        hash = hash;
        sig =
            sign s.mac e.reporter
              (bytes (concat e.token (concat e.threat_class (concat reported_at hash))));
      }

  unfoldable pub canonical_record : Services → RegistryEntry F → String → CanonicalRecord
  canonical_record s e op = record {
    end_to_end_id = concat op (concat ":" e.token);
    decision_seq = pos 0;
    accepted_at_ms = s.clock.unix_milli e.created_at;
    decided_at_ms = s.clock.unix_milli e.created_at;
    action = e.threat_class;
    p_model = e.reporter;
    policy_version = e.legal_entity;
    model_bundle_version = e.case_id;
    rules_version = e.status;
  }

  unfoldable pub has_id : String → List (TableRow F) → Bool
  has_id entry_id [] = false
  has_id entry_id (r ∷ rs) = if str_eq r.entry_id entry_id then true else has_id entry_id rs

  -- `INSERT ... ON CONFLICT (entry_id) DO NOTHING`
  unfoldable pub insert_row : TableRow F → List (TableRow F) → List (TableRow F)
  insert_row r table = if has_id r.entry_id table then table else table ++ r ∷ []

  unfoldable pub row_of : RegistryEntry F → Bytes → TableRow F
  row_of e wire_json = record {
    entry_id = e.entry_id;
    token = e.token;
    epoch = e.epoch;
    reporter_bank = e.reporter;
    kind = e.kind;
    threat_class = e.threat_class;
    status = e.status;
    confidence = e.confidence;
    case_id = e.case_id;
    created_at = e.created_at;
    expires_at = e.expires_at;
    wire_json = wire_json;
  }

  -- The part of `Report` after the chain's answer: the table, and the entry or an error.
  unfoldable pub store :
      Services
      → Bool
      → Option Link
      → RegistryEntry F
      → List (TableRow F)
      → List (TableRow F) × Option (RegistryEntry F)
  store s failed none entry table = (table, none)
  store s failed (some link) entry table =
      let linked = record entry {
        chain_seq = link.seq;
        prev_hash = link.prev_hash;
        hash = link.hash;
      } in
      elim (s.marshal_wire (wire s linked op_report)) [
        | none ↦ (table, none)
        | some wire_json ↦
            if failed
            then (table, none)
            else (insert_row (row_of linked wire_json) table, some linked)
      ]

  -- The entry that `Report` makes before it is chained.
  unfoldable pub new_entry :
      Services → ℤ → String → ℤ → String → String → String → F → ℤ → RegistryEntry F
  new_entry s epoch token now reporter threat_class case_id confidence ttl = record {
    entry_id = entry_id_of s reporter token case_id;
    token = token;
    epoch = epoch;
    kind = "creditor_account";
    threat_class = threat_class;
    reporter = reporter;
    legal_entity = legal_entity_of reporter;
    status = status_active;
    confidence = confidence;
    case_id = case_id;
    created_at = now;
    expires_at = now +ℤ ttl_or_default ttl;
    chain_seq = pos 0;
    prev_hash = [];
    hash = [];
  }

  -- `Report`; `failed` says that the INSERT fails.
  unfoldable pub report :
      Services
      → Bool
      → ℤ
      → String
      → String
      → String
      → String
      → F
      → ℤ
      → Registry F
      → Registry F × Option (RegistryEntry F)
  unfolding store
  report s failed now reporter account threat_class case_id confidence ttl reg =
      let epoch = reg.tokeniser.current_epoch in
      elim (token_of s.mac reg.tokeniser epoch "creditor_account" account) [
        | none ↦ (reg, none)
        | some token ↦
            let entry = new_entry s epoch token now reporter threat_class case_id confidence ttl in
            let (chain, link) =
              next s.hashing (canonical_record s entry op_report) (chain_for reporter reg.chains) in
            let (table, answer) = store s failed link entry reg.table in
            (record reg { chains = insert reporter chain reg.chains; table = table }, answer)
      ]
