-- ===== src/Wal/Recovery.antt =====
-- go/internal/wal/wal.go: what Replay gets back of what Append wrote.
use payment_infrastructure.Base.{
  ℕ, ◌≡◌, refl, sym, ap, subst, ◌∙◌, Bool, true, false, ◌&&◌, List, [], ◌∷◌, ◌++◌, none, some,
  length, take, map, All, All-append, append_assoc, append_nil, ltb, ◌==◌,
}
use payment_infrastructure.Base.Float.{Float64}
use payment_infrastructure.Audit
use payment_infrastructure.Audit.{Bytes, Hashing, Link}
use payment_infrastructure.Contract.Decision.{Decision}
use payment_infrastructure.Wal.{
  Answers, Codec, Record, Wal, Write, all_written, short, max_token, canonical, stamp, line_of,
  record_of, append, write_to, is_all, drop_cr, decode_line, decode_lines, replay, opened,
}
use payment_infrastructure.Wal.Scan.{NoNewline, IsLine, lines_of, replay_lines}

-- JSON on one line: what json.Marshal promises of a `record`, and Unmarshal of what it made. A raw
-- message that Marshal made itself is compact and escaped already, so it comes back as it was; of other
-- raw messages nothing is said.
pub record IsSound {F : Type 0} (c : Codec F) : Type 0 where
  pub one_line : {r : Record} {lb : Bytes} → c.marshal_record r ≡ some lb → NoNewline lb
  pub no_cr : {r : Record} {lb : Bytes} → c.marshal_record r ≡ some lb → drop_cr lb ≡ lb
  pub reads :
      {d : Decision F} {r : Record} {lb : Bytes}
      → c.marshal_decision d ≡ some r.decision_json
      → c.marshal_record r ≡ some lb
      → (q : Record) × (c.unmarshal_record lb ≡ some q) × (q.decision_json ≡ r.decision_json)

-- The file is whole lines, each short enough for the scanner.
pub record IsWhole (file : Bytes) : Type 0 where
  pub lines : List Bytes
  pub short_enough : All IsLine lines
  pub is : file ≡ lines_of lines

lines_of-append : (xs ys : List Bytes) → lines_of (xs ++ ys) ≡ lines_of xs ++ lines_of ys
lines_of-append [] ys = refl
lines_of-append (x ∷ xs) ys =
    rw (lines_of-append xs ys) (sym (append_assoc x (10 ∷ lines_of xs) (lines_of ys)))

unfoldable IsWhole-line :
    {file : Bytes} (lb : Bytes) → IsWhole file → IsLine lb → IsWhole (file ++ (lb ++ 10 ∷ []))
IsWhole-line lb w one = record {
  lines = w.lines ++ lb ∷ [];
  short_enough = All-append IsLine w.lines (lb ∷ []) w.short_enough (one, tt);
  is = rw (w.is, lines_of-append w.lines (lb ∷ [])) refl;
}

module _ {F : Type 0} (c : Codec F) where
  replay-IsWhole :
      {file : Bytes} (w : IsWhole file)
      → replay c (opened file) ≡ (decode_lines c (map drop_cr w.lines), false)
  replay-IsWhole w = ap (λ x. replay c (opened x)) w.is ∙ replay_lines c w.lines w.short_enough

  decode_lines-last :
      (lines : List Bytes) (lb : Bytes)
      → decode_lines c (map drop_cr (lines ++ lb ∷ []))
        ≡ decode_lines c (map drop_cr lines) ++ decode_line c (drop_cr lb)
  unfolding decode_lines
  decode_lines-last [] lb = append_nil (decode_line c (drop_cr lb))
  decode_lines-last (x ∷ lines) lb = rw (decode_lines-last lines lb) (
      sym (
        append_assoc (decode_line c (drop_cr x)) (decode_lines c (map drop_cr lines))
          (decode_line c (drop_cr lb))))

  -- What Replay gets from the JSON form of a decision.
  abbrev pub decoded : Bytes → List (Decision F)
  decoded json = elim (c.unmarshal_decision json) [ none ↦ [] | some d ↦ d ∷ [] ]

  decode_line-made :
      (sound : IsSound c) {d : Decision F} {r : Record} {lb : Bytes}
      → c.marshal_decision d ≡ some r.decision_json
      → c.marshal_record r ≡ some lb
      → decode_line c lb ≡ decoded r.decision_json
  unfolding decode_line
  decode_line-made sound own made =
      let (q, read, same) = sound.reads own made in rw (decode_line, read) (ap decoded same)

module _ {F : Type 0} ⦃f : Float64 F⦄ (h : Hashing) (c : Codec F) where
  -- The decision reaches the write: the chain links it, and both JSON forms are there.
  pub record Reaches (d : Decision F) (w : Wal) : Type 0 where
    pub link : Link
    pub json : Bytes
    pub line : Bytes
    pub linked : (Audit.next h (canonical d) w.chain).1 ≡ some link
    pub marshalled : c.marshal_decision (stamp w.chain.shard link d) ≡ some json
    pub lined : line_of c link (stamp w.chain.shard link d) ≡ some line

  all-written : (w : Write) (sync : Bool) → (is_all w && sync) ≡ true → w ≡ all_written
  all-written all_written sync h = refl
  all-written (short n) sync h = absurd (cc)

  append-Reaches :
      (os : Answers) (d : Decision F) (w : Wal) (r : Reaches d w)
      → append h c os d w ≡ (
        record {
          file = write_to w.file (r.line ++ 10 ∷ []) os.write;
          chain = (Audit.next h (canonical d) w.chain).0;
        },
        stamp w.chain.shard r.link d,
        is_all os.write && os.sync,
      )
  unfolding append
  append-Reaches os d w r = rw (append, r.linked, r.lined) refl

  lined-json :
      (l : Link) (d : Decision F) {json line : Bytes}
      → c.marshal_decision d ≡ some json
      → line_of c l d ≡ some line
      → c.marshal_record (record_of l d json) ≡ some line
  unfolding line_of
  lined-json l d m e = sym (rw (line_of, m) refl) ∙ e

  -- For a sound codec: if Append returns without an error on a file of whole lines, the file is still one, and Replay
  -- gets from it what it got before, and then what the JSON form of the stamped decision decodes to.
  -- The decision must reach the write, and its line be shorter than the scanner's buffer.
  pub replay-append :
      (sound : IsSound c) (os : Answers) (d : Decision F) (w : Wal) (r : Reaches d w)
      → IsWhole w.file
      → ltb (length r.line) max_token ≡ true
      → (append h c os d w).2 ≡ true
      → IsWhole (append h c os d w).0.file
        × (replay c (opened (append h c os d w).0.file)
            ≡ ((replay c (opened w.file)).0 ++ decoded c r.json, false))
  unfolding write_to IsWhole-line record_of
  replay-append sound os d w r whole fits done =
      let made = lined-json r.link (stamp w.chain.shard r.link d) r.marshalled r.lined in
      let appended = append-Reaches os d w r in
      let full = all-written os.write os.sync (sym (ap (λ x. x.2) appended) ∙ done) in
      let file : (append h c os d w).0.file ≡ w.file ++ (r.line ++ 10 ∷ []) =
        rw (appended, full) refl in
      let one : IsLine r.line = (sound.one_line made, fits) in
      (
        subst IsWhole (sym file) (IsWhole-line r.line whole one),
        ap (λ x. replay c (opened x)) file
            ∙ replay-IsWhole c (IsWhole-line r.line whole one)
            ∙ ap (λ ds. (ds, false)) (decode_lines-last c whole.lines r.line)
            ∙ ap (λ ds. (ds, false))
                (rw
                  (
                    sound.no_cr made,
                    decode_line-made c sound r.marshalled made,
                    replay-IsWhole c whole,
                  )
                  refl),
      )

  -- For a sound codec, on a file of whole lines: if one Append writes only a first part of its line,
  -- without a newline, and returns an error, and the next one returns
  -- without an error, the two are one line of the file. If that line does not decode, Replay does not
  -- get the second decision: it gets what it got before both.
  pub short_write_lost :
      (sound : IsSound c) (n : ℕ) (synced : Bool) (os : Answers) (d d' : Decision F) (w : Wal)
      (r : Reaches d w)
      → let os0 : Answers = record {
        write = short n;
        sync = synced;
        truncate = true;
        seek = true;
      } in
        (r' : Reaches d' (append h c os0 d w).0)
        → IsWhole w.file
        → NoNewline (take n (r.line ++ 10 ∷ []))
        → ltb (length (take n (r.line ++ 10 ∷ []) ++ r'.line)) max_token ≡ true
        → decode_line c (drop_cr (take n (r.line ++ 10 ∷ []) ++ r'.line)) ≡ []
        → (append h c os d' (append h c os0 d w).0).2 ≡ true
        → replay c (opened (append h c os d' (append h c os0 d w).0).0.file)
          ≡ replay c (opened w.file)
  unfolding write_to IsWhole-line record_of
  short_write_lost sound n synced os d d' w r r' whole torn fits lost done =
      let os0 : Answers = record { write = short n; sync = synced; truncate = true; seek = true } in
      let w' = (append h c os0 d w).0 in
      let part = take n (r.line ++ 10 ∷ []) in
      let made = lined-json r'.link (stamp w'.chain.shard r'.link d') r'.marshalled r'.lined in
      let first = append-Reaches os0 d w r in
      let second = append-Reaches os d' w' r' in
      let full = all-written os.write os.sync (sym (ap (λ x. x.2) second) ∙ done) in
      let file0 : w'.file ≡ w.file ++ part = ap (λ x. x.0.file) first in
      let file : (append h c os d' w').0.file ≡ w'.file ++ (r'.line ++ 10 ∷ []) =
        rw (second, full) refl in
      let glued : (w.file ++ part) ++ (r'.line ++ 10 ∷ [])
          ≡ w.file ++ ((part ++ r'.line) ++ 10 ∷ []) =
        append_assoc w.file part _
        ∙ ap (λ t. w.file ++ t) (sym (append_assoc part r'.line (10 ∷ []))) in
      let one : IsLine (part ++ r'.line) =
        (All-append (λ b. (b == 10) ≡ false) part r'.line torn (sound.one_line made), fits) in
      ap (λ x. replay c (opened x)) (file ∙ ap (λ t. t ++ (r'.line ++ 10 ∷ [])) file0 ∙ glued)
      ∙ replay-IsWhole c (IsWhole-line (part ++ r'.line) whole one)
      ∙ ap (λ ds. (ds, false))
          (decode_lines-last c whole.lines (part ++ r'.line)
            ∙ ap (λ t. decode_lines c (map drop_cr whole.lines) ++ t) lost
            ∙ append_nil _)
      ∙ sym (replay-IsWhole c whole)
