-- ===== src/Tests/Wal.antt =====
-- The theorems on go/internal/wal/wal.go with a toy codec, whose only JSON text is one byte.
use payment_infrastructure.Base.{
  ◌≡◌, refl, ap, inl, inr, true, false, [], ◌∷◌, ◌++◌, Option, none, some, ◌==◌, Bool-cases, map,
  if◌then◌else◌, arith,
}
use payment_infrastructure.Base.Int.{ℤ, pos, add64}
use payment_infrastructure.Audit.{Bytes, Hashing, next, new_chain}
use payment_infrastructure.Contract.Action.{allow}
use payment_infrastructure.Contract.Decision.{Decision}
use payment_infrastructure.Decide.Engine.{build_decision}
use payment_infrastructure.Wal.{
  Answers, Codec, Record, Wal, all_written, short, append, replay, opened, read_fails, drop_cr,
  decode_line, decode_lines, line_of, record_of, stamp,
}
use payment_infrastructure.Wal.Scan.{lines_of, replay_torn}
use payment_infrastructure.Wal.Recovery.{
  IsSound, IsWhole, Reaches, decoded, replay-append, short_write_lost,
}
use payment_infrastructure.Tests.Sample.{millionths, engine, payment}

abbrev pub hashing : Hashing
hashing = record { sha256 = λ xs. 5 ∷ []; marshal = λ r. some [] }

-- An entry of the log with a JSON text.
abbrev pub entry : Bytes → Record
entry json = record {
  seq = pos 1;
  end_to_end_id = "";
  decision_seq = pos 0;
  action = "ALLOW";
  decided_at_ms = pos 0;
  prev_hash_hex = "";
  hash_hex = "05";
  decision_json = json;
}

abbrev pub only_65 : Bytes → Option Bytes
only_65 [] = none
only_65 (b ∷ []) = if b == 65 then some (65 ∷ []) else none
only_65 (b ∷ b' ∷ bs) = none

abbrev pub read_65 : Bytes → Option Record
read_65 [] = none
read_65 (b ∷ []) = some (entry (65 ∷ []))
read_65 (b ∷ b' ∷ bs) = none

abbrev pub sample_decision : Decision ℤ
sample_decision =
    build_decision engine (payment "shop" (pos 50_000) []).event (payment "" (pos 0) []).features
      allow allow "" [] none none [] false (pos 0) []

abbrev pub codec : Codec ℤ
codec = record {
  marshal_decision = λ d. some (65 ∷ []);
  marshal_record = λ r. only_65 r.decision_json;
  unmarshal_record = read_65;
  unmarshal_decision = λ json. some sample_decision;
}

only_65-eq :
    (json : Bytes) {lb : Bytes} → only_65 json ≡ some lb → (json ≡ 65 ∷ []) × (lb ≡ 65 ∷ [])
only_65-eq [] h = absurd (cc)
only_65-eq (b ∷ []) h = elim (Bool-cases (b == 65)) [
  | inl e ↦ let same : b ≡ 65 = ground arith in (ap (λ x. x ∷ []) same, ground arith)
  | inr e ↦ absurd (ground arith)
]
only_65-eq (b ∷ b' ∷ bs) h = absurd (cc)

codec-IsSound : IsSound codec
unfolding drop_cr
codec-IsSound = record {
  one_line = λ {r} {lb} h. rw (only_65-eq r.decision_json h).1 (refl, tt);
  no_cr = λ {r} {lb} h. rw (only_65-eq r.decision_json h).1 refl;
  reads = λ {d} {r} {lb} own h.
      rw ((only_65-eq r.decision_json h).1, (only_65-eq r.decision_json h).0)
        (entry (65 ∷ []), refl, refl);
}

abbrev empty_wal : Wal
empty_wal = record { file = []; chain = new_chain (pos 0) }

abbrev pub healthy : Answers
healthy = record { write = all_written; sync = true; truncate = true; seek = true }

abbrev torn : Answers
torn = record { write = short 1; sync = true; truncate = true; seek = true }

empty-IsWhole : IsWhole []
empty-IsWhole = record { lines = []; short_enough = tt; is = refl }

unfoldable reaches : (w : Wal) → Reaches hashing codec sample_decision w
unfolding next line_of record_of stamp
reaches w = record {
  link = record { seq = add64 w.chain.seq (pos 1); prev_hash = w.chain.prev_hash; hash = 5 ∷ [] };
  json = 65 ∷ [];
  line = 65 ∷ [];
  linked = refl;
  marshalled = refl;
  lined = refl;
}

done : (w : Wal) → (append hashing codec healthy sample_decision w).2 ≡ true
unfolding append next line_of record_of stamp
done w = refl

replay_torn_example :
    let file = lines_of ((65 ∷ []) ∷ []) ++ 66 ∷ [] in
    let ds =
      decode_lines codec (map drop_cr ((65 ∷ []) ∷ [])) ++ decode_line codec (drop_cr (66 ∷ [])) in
    (replay codec (opened file) ≡ (ds, false)) × (replay codec (read_fails file) ≡ (ds, true))
replay_torn_example =
    replay_torn codec ((65 ∷ []) ∷ []) 66 [] (((refl, tt), refl), tt) ((refl, tt), refl)

replay-append_example :
    IsWhole (append hashing codec healthy sample_decision empty_wal).0.file
    × (replay codec (opened (append hashing codec healthy sample_decision empty_wal).0.file)
        ≡ ((replay codec (opened [])).0 ++ decoded codec (65 ∷ []), false))
unfolding reaches
replay-append_example =
    replay-append hashing codec codec-IsSound healthy sample_decision empty_wal (reaches empty_wal)
      empty-IsWhole refl (done empty_wal)

abbrev after_short : Wal
after_short = (append hashing codec torn sample_decision empty_wal).0

short_write_lost_example :
    replay codec (opened (append hashing codec healthy sample_decision after_short).0.file)
    ≡ replay codec (opened [])
unfolding reaches drop_cr decode_line
short_write_lost_example =
    short_write_lost hashing codec codec-IsSound 1 true healthy sample_decision sample_decision
      empty_wal (reaches empty_wal) (reaches after_short) empty-IsWhole (refl, tt) refl refl
      (done after_short)
