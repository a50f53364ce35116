-- ===== src/Wal.antt =====
-- go/internal/wal/wal.go: the append-only log file and its replay. The file is its bytes. What a call
-- of the operating system answers is an argument, and the JSON codec is a parameter.
pub mod Scan
pub mod Recovery
use payment_infrastructure.Base.{
  ℕ, zero, suc, ◌+◌, ◌*◌, ◌/◌, ◌%◌, String, Bool, true, false, List, [], ◌∷◌, ◌++◌, Option, none,
  some, take, length, ◌==◌, not, ◌&&◌, ltb, concat, digit, if◌then◌else◌,
}
use payment_infrastructure.Base.Int.{ℤ, pos}
use payment_infrastructure.Base.Float.{Float64}
use payment_infrastructure.Contract.Action.{action_text}
use payment_infrastructure.Contract.Decision.{Decision}
use payment_infrastructure.Audit
use payment_infrastructure.Audit.{Bytes, CanonicalRecord, Hashing, Chain, Link, new_chain}

-- One line of the log.
pub record Record : Type 0 where
  pub seq : ℤ
  pub end_to_end_id : String
  pub decision_seq : ℤ
  pub action : String
  pub decided_at_ms : ℤ
  pub prev_hash_hex : String
  pub hash_hex : String
  pub decision_json : Bytes

-- `json.Marshal` and `json.Unmarshal` on the types that the log uses.
pub record Codec (F : Type 0) : Type 0 where
  pub marshal_decision : Decision F → Option Bytes
  pub marshal_record : Record → Option Bytes
  pub unmarshal_record : Bytes → Option Record
  pub unmarshal_decision : Bytes → Option (Decision F)

pub record Wal : Type 0 where
  pub file : Bytes
  pub chain : Chain

-- How `File.Write` ends: all bytes are written, or only some first ones and an error is returned.
pub data Write : Type 0 where
  all_written : Write
  short : ℕ → Write

-- What the operating system answers to one call of `Append` or `Truncate`.
pub record Answers : Type 0 where
  pub write : Write
  pub sync : Bool
  pub truncate : Bool
  pub seek : Bool

hex_digit : ℕ → String
hex_digit n =
    if ltb n 10
    then digit n
    else if n == 10
    then "a"
    else if n == 11
    then "b"
    else if n == 12
    then "c"
    else if n == 13
    then "d"
    else if n == 14
    then "e"
    else "f"

pub hex_or_empty : Bytes → String
unfolding hex_digit
hex_or_empty [] = ""
hex_or_empty (b ∷ bs) = concat (concat (hex_digit (b / 16)) (hex_digit (b % 16))) (hex_or_empty bs)

-- What `Write` leaves in the file.
unfoldable pub write_to : Bytes → Bytes → Write → Bytes
write_to file bs all_written = file ++ bs
write_to file bs (short n) = file ++ take n bs

abbrev pub is_all : Write → Bool
is_all all_written = true
is_all (short n) = false

module _ {F : Type 0} ⦃f : Float64 F⦄ where
  unfoldable pub canonical : Decision F → CanonicalRecord
  canonical d = record {
    end_to_end_id = d.end_to_end_id;
    decision_seq = d.decision_seq;
    accepted_at_ms = d.accepted_at_ms;
    decided_at_ms = d.decided_at_ms;
    action = action_text d.action;
    p_model = elim d.p_model [ none ↦ "nil" | some p ↦ f.fixed 6 p ];
    policy_version = d.policy_version;
    model_bundle_version = d.model_bundle_version;
    rules_version = d.rules_version;
  }

module _ {F : Type 0} where
  -- The chain fields of a decision.
  unfoldable pub stamp : (shard : ℤ) → Link → Decision F → Decision F
  stamp shard l d = record d {
    decision_shard = shard;
    chain_seq = l.seq;
    prev_hash = l.prev_hash;
    hash = l.hash;
  }

  unfoldable pub record_of : Link → Decision F → (dj : Bytes) → Record
  unfolding hex_or_empty
  record_of l d dj = record {
    seq = l.seq;
    end_to_end_id = d.end_to_end_id;
    decision_seq = d.decision_seq;
    action = action_text d.action;
    decided_at_ms = d.decided_at_ms;
    prev_hash_hex = hex_or_empty l.prev_hash;
    hash_hex = hex_or_empty l.hash;
    decision_json = dj;
  }

  -- The line of a stamped decision, without the newline, if both marshal.
  unfoldable pub line_of : Codec F → Link → Decision F → Option Bytes
  unfolding record_of
  line_of c l d = elim (c.marshal_decision d) [
    | none ↦ none
    | some dj ↦ c.marshal_record (record_of l d dj)
  ]

module _ {F : Type 0} ⦃f : Float64 F⦄ (h : Hashing) (c : Codec F) where
  -- `Append`: the log and the decision afterwards, and whether it returned without an error.
  unfoldable pub append : Answers → Decision F → Wal → Wal × Decision F × Bool
  unfolding canonical stamp line_of write_to
  append os d w =
      let (chain, link) = Audit.next h (canonical d) w.chain in
      elim link [
        | none ↦ (record w { chain = chain }, d, false)
        | some l ↦
            let d' = stamp w.chain.shard l d in
            elim (line_of c l d') [
              | none ↦ (record w { chain = chain }, d', false)
              | some lb ↦ (
                record { file = write_to w.file (lb ++ 10 ∷ []) os.write; chain = chain },
                d',
                is_all os.write && os.sync,
              )
            ]
      ]

unfoldable pub resume_chain : ℤ → Bytes → Wal → Wal
unfolding Audit.resume
resume_chain seq last_hash w = record w { chain = Audit.resume seq last_hash w.chain }

-- `Truncate`: the log afterwards, and whether it returned without an error.
unfoldable pub truncate : Answers → Wal → Wal × Bool
unfolding new_chain
truncate os w =
    if not os.truncate
    then (w, false)
    else if not os.seek
    then (record w { file = [] }, false)
    else (record { file = []; chain = new_chain (pos 0) }, true)

-- What `os.Open` answers, and the reads after it: all bytes, or some first ones and then an error.
pub data Opened : Type 0 where
  not_exist : Opened
  open_failed : Opened
  opened : Bytes → Opened
  read_fails : (before : Bytes) → Opened

-- The largest token of the scanner.
abbrev pub max_token : ℕ
max_token = 4 * 1024 * 1024

-- The bytes up to the first newline, and those between and after the newlines that follow.
unfoldable pub split_lines : Bytes → Bytes × List Bytes
split_lines [] = ([], [])
split_lines (b ∷ bs) =
    let (line, rest) = split_lines bs in if b == 10 then ([], line ∷ rest) else (b ∷ line, rest)

-- `bufio.ScanLines` drops a carriage return at the end of a line.
unfoldable pub drop_cr : Bytes → Bytes
drop_cr [] = []
drop_cr (b ∷ []) = if b == 13 then [] else b ∷ []
drop_cr (b ∷ b' ∷ bs) = b ∷ drop_cr (b' ∷ bs)

-- The scanner's tokens, and whether a line that does not fit in the buffer ends the scan and sets
-- `sc.Err()`. Nothing after the last newline is no token.
unfoldable pub tokens : Bytes → List Bytes → List Bytes × Bool
unfolding drop_cr
tokens [] [] = ([], false)
tokens (b ∷ bs) [] =
    if ltb (length (b ∷ bs)) max_token then (drop_cr (b ∷ bs) ∷ [], false) else ([], true)
tokens line (next ∷ more) =
    let (rest, err) = tokens next more in
    if ltb (length line) max_token then (drop_cr line ∷ rest, err) else ([], true)

module _ {F : Type 0} (c : Codec F) where
  -- A token's decision: a line that does not decode is skipped.
  unfoldable pub decode_line : Bytes → List (Decision F)
  decode_line token = elim (c.unmarshal_record token) [
    | none ↦ []
    | some line ↦ elim (c.unmarshal_decision line.decision_json) [ none ↦ [] | some d ↦ d ∷ [] ]
  ]

  unfoldable pub decode_lines : List Bytes → List (Decision F)
  unfolding decode_line
  decode_lines [] = []
  decode_lines (t ∷ ts) = decode_line t ++ decode_lines ts

  -- `Replay`: the decisions in the order of the file, and whether an error is returned.
  unfoldable pub replay : Opened → List (Decision F) × Bool
  unfolding decode_lines split_lines tokens
  replay not_exist = ([], false)
  replay open_failed = ([], true)
  replay (opened file) =
      let (line, rest) = split_lines file in
      let (ts, err) = tokens line rest in (decode_lines ts, err)
  replay (read_fails before) =
      let (line, rest) = split_lines before in
      let (ts, err) = tokens line rest in (decode_lines ts, true)
