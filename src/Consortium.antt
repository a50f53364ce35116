-- ===== src/Consortium.antt =====
-- go/internal/consortium/token.go and registry.go: tokens of an account, and the registry's table of
-- reports with the lookup in it. HMAC, the hex encoding and what the database driver answers are
-- parameters. A time is its count of nanoseconds.
pub mod Corroboration
pub mod Withdrawal
pub mod Reports
use payment_infrastructure.Base.{
  ℕ, String, Bool, true, false, not, ◌&&◌, List, [], ◌∷◌, ◌++◌, Option, none, some, Map, lookup,
  lookup_or, insert, str_eq, concat, bytes, length, map, leb, filter_by, if◌then◌else◌,
}
use payment_infrastructure.Base.Int.{ℤ, pos, add64, eqb_ℤ, ltb_ℤ}
use payment_infrastructure.Base.Float.{Float64}
use payment_infrastructure.Audit.{Bytes}

-- `hmac.New(sha256.New, key)` with one write and `Sum(nil)`, and `hex.EncodeToString`.
pub record Hmac : Type 0 where
  pub hmac_sha256 : Bytes → Bytes → Bytes
  pub hex : Bytes → String

pub record Tokeniser : Type 0 where
  pub pepper_by_epoch : ℤ → Option Bytes
  pub current_epoch : ℤ

unfoldable pub new_tokeniser : Bytes → Tokeniser
new_tokeniser initial_pepper = record {
  pepper_by_epoch = λ epoch. if eqb_ℤ epoch (pos 1) then some initial_pepper else none;
  current_epoch = pos 1;
}

unfoldable pub rotate_epoch : Bytes → Tokeniser → Tokeniser
rotate_epoch new_pepper t =
    let next = add64 t.current_epoch (pos 1) in
    record {
      pepper_by_epoch =
          λ epoch. if eqb_ℤ epoch next then some new_pepper else t.pepper_by_epoch epoch;
      current_epoch = next;
    }

unfoldable pub token_of : Hmac → Tokeniser → ℤ → String → String → Option String
token_of m t epoch kind identifier = elim (t.pepper_by_epoch epoch) [
  | none ↦ none
  | some pepper ↦ some (m.hex (m.hmac_sha256 pepper (bytes (concat (concat kind ":") identifier))))
]

unfoldable pub token_current_epoch : Hmac → Tokeniser → String → String → Option String
unfolding token_of
token_current_epoch m t kind identifier = token_of m t t.current_epoch kind identifier

abbrev pub status_active : String
status_active = "ACTIVE"

abbrev pub status_retracted : String
status_retracted = "RETRACTED"

abbrev pub status_disputed : String
status_disputed = "DISPUTED"

-- An entry, and a row of the table.
pub record RegistryEntry (F : Type 0) : Type 0 where
  pub entry_id : String
  pub token : String
  pub epoch : ℤ
  pub kind : String
  pub threat_class : String
  pub reporter : String
  pub legal_entity : String
  pub status : String
  pub confidence : F
  pub case_id : String
  pub created_at : ℤ
  pub expires_at : ℤ
  pub chain_seq : ℤ
  pub prev_hash : Bytes
  pub hash : Bytes

pub record TableRow (F : Type 0) : Type 0 where
  pub entry_id : String
  pub token : String
  pub epoch : ℤ
  pub reporter_bank : String
  pub kind : String
  pub threat_class : String
  pub status : String
  pub confidence : F
  pub case_id : String
  pub created_at : ℤ
  pub expires_at : ℤ
  pub wire_json : Bytes

abbrev pub legal_entity_aliases : Map String
legal_entity_aliases =
    ("BANK_A", "LEI-BANK-A") ∷ ("BANK_A_CARDS", "LEI-BANK-A") ∷ ("BANK_B", "LEI-BANK-B") ∷ []

unfoldable pub legal_entity_of : String → String
unfolding lookup
legal_entity_of participant = elim (lookup participant legal_entity_aliases) [
  | some le ↦ le
  | none ↦ concat "LEI-" participant
]

pub record LookupResult (F : Type 0) : Type 0 where
  pub token : String
  pub rail_fires : Bool
  pub legal_entities : List String
  pub entries : List (RegistryEntry F)

-- What the driver answers to the query: an error, or the rows that could be read, each with the
-- success of its scan, and whether the iteration ended in an error.
pub data Fetched (F : Type 0) : Type 0 where
  fetched : TableRow F → Fetched F
  scan_failed : Fetched F

pub data QueryReply (F : Type 0) : Type 0 where
  query_failed : QueryReply F
  reply : List (Fetched F) → Bool → QueryReply F

module _ {F : Type 0} where
  -- The command `UPDATE consortium_entries SET status = $1 WHERE entry_id = $2`.
  unfoldable pub update_status : String → String → List (TableRow F) → List (TableRow F)
  update_status status entry_id [] = []
  update_status status entry_id (r ∷ rs) =
      (if str_eq r.entry_id entry_id then record r { status = status } else r)
      ∷ update_status status entry_id rs

  -- The table afterwards, and whether the command failed.
  unfoldable pub retract : String → Bool → List (TableRow F) → List (TableRow F) × Bool
  unfolding update_status
  retract entry_id failed table =
      if failed then (table, true) else (update_status status_retracted entry_id table, false)

  unfoldable pub dispute : String → Bool → List (TableRow F) → List (TableRow F) × Bool
  unfolding update_status
  dispute entry_id failed table =
      if failed then (table, true) else (update_status status_disputed entry_id table, false)

  -- The WHERE clause of the lookup.
  unfoldable pub is_selected : String → ℤ → TableRow F → Bool
  is_selected token now r =
      str_eq r.token token && str_eq r.status status_active && ltb_ℤ now r.expires_at

  -- What a driver without failures answers.
  unfoldable pub select_active : String → ℤ → List (TableRow F) → QueryReply F
  unfolding is_selected
  select_active token now table =
      reply (map fetched (filter_by (is_selected token now) table)) false

  unfoldable pub scanned : TableRow F → RegistryEntry F
  scanned r = record {
    entry_id = r.entry_id;
    token = r.token;
    epoch = r.epoch;
    kind = r.kind;
    threat_class = r.threat_class;
    reporter = r.reporter_bank;
    legal_entity = legal_entity_of r.reporter_bank;
    status = r.status;
    confidence = r.confidence;
    case_id = r.case_id;
    created_at = r.created_at;
    expires_at = r.expires_at;
    chain_seq = pos 0;
    prev_hash = [];
    hash = [];
  }

module _ {F : Type 0} ⦃f : Float64 F⦄ where
  -- The guard on the reporter's reputation; `none` is a nil function.
  unfoldable pub below_floor : F → Option (String → F) → String → Bool
  below_floor min_reputation none reporter = false
  below_floor min_reputation (some reputation_of) reporter =
      f.lt (reputation_of reporter) min_reputation

  -- The loop over the rows, with the entities seen and the result so far: `none` is a failed scan.
  unfoldable pub collect :
      F
      → Option (String → F)
      → List (Fetched F)
      → Map Bool
      → LookupResult F
      → Option (LookupResult F)
  unfolding scanned
  collect floor reputation_of [] seen res = some res
  collect floor reputation_of (scan_failed ∷ rest) seen res = none
  collect floor reputation_of (fetched r ∷ rest) seen res =
      let e = scanned r in
      if below_floor floor reputation_of e.reporter
      then collect floor reputation_of rest seen res
      else (if not (lookup_or false e.legal_entity seen)
          then collect floor reputation_of rest (insert e.legal_entity true seen) (record res {
            entries = res.entries ++ e ∷ [];
            legal_entities = res.legal_entities ++ e.legal_entity ∷ [];
          })
          else collect floor reputation_of rest seen
              (record res { entries = res.entries ++ e ∷ [] }))

  -- `Lookup` up to the driver's answer `query token`: the result or nil, and whether an error is
  -- returned.
  unfoldable pub lookup_account :
      Hmac
      → Tokeniser
      → (String → QueryReply F)
      → String
      → F
      → Option (String → F)
      → Option (LookupResult F) × Bool
  unfolding token_current_epoch collect
  lookup_account m t query account min_reputation reputation_of =
      elim (token_current_epoch m t "creditor_account" account) [
        | none ↦ (none, true)
        | some token ↦ elim (query token) [
          | query_failed ↦ (none, true)
          | reply rows failed ↦
              let empty : LookupResult F = record {
                token = token;
                rail_fires = false;
                legal_entities = [];
                entries = [];
              } in
              elim (collect min_reputation reputation_of rows [] empty) [
                | none ↦ (none, true)
                | some res ↦
                    (some (record res { rail_fires = leb 2 (length res.legal_entities) }), failed)
              ]
        ]
      ]
