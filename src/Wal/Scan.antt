-- ===== src/Wal/Scan.antt =====
-- go/internal/wal/wal.go: the tokens of a file that holds whole lines and perhaps a torn one.
use payment_infrastructure.Base.{
  ℕ, ◌≡◌, refl, sym, ap, ◌∙◌, Bool, true, false, List, [], ◌∷◌, ◌++◌, length, map, All,
  append_assoc, append_nil, ltb, ◌==◌,
}
use payment_infrastructure.Audit.{Bytes}
use payment_infrastructure.Wal.{
  Codec, max_token, split_lines, drop_cr, tokens, decode_line, decode_lines, replay, opened,
  read_fails,
}

abbrev pub NoNewline : Bytes → Type 0
NoNewline line = All (λ b. (b == 10) ≡ false) line

-- Bytes that the scanner takes as one line.
abbrev pub IsLine : Bytes → Type 0
IsLine line = NoNewline line × (ltb (length line) max_token ≡ true)

abbrev pub lines_of : List Bytes → Bytes
lines_of [] = []
lines_of (line ∷ lines) = line ++ 10 ∷ lines_of lines

split-line :
    (line rest : Bytes)
    → NoNewline line
    → split_lines (line ++ 10 ∷ rest) ≡ (line, (split_lines rest).0 ∷ (split_lines rest).1)
unfolding split_lines
split-line [] rest h = refl
split-line (b ∷ line) rest (h, hs) = rw (split_lines, split-line line rest hs) (rw h refl)

split-torn : (torn : Bytes) → NoNewline torn → split_lines torn ≡ (torn, [])
unfolding split_lines
split-torn [] h = refl
split-torn (b ∷ torn) (h, hs) = rw (split_lines, split-torn torn hs) (rw h refl)

abbrev pub scan : Bytes → List Bytes × Bool
scan file = tokens (split_lines file).0 (split_lines file).1

scan-torn : (torn : Bytes) → IsLine torn → scan torn ≡ ((tokens torn []).0, false)
unfolding tokens split_lines
scan-torn [] (h, _) = refl
scan-torn (b ∷ torn) (h, fits) = rw (split-torn (b ∷ torn) h) (rw (tokens, fits) refl)

pub scan-lines :
    (lines : List Bytes) (torn : Bytes)
    → All IsLine lines
    → IsLine torn
    → scan (lines_of lines ++ torn) ≡ (map drop_cr lines ++ (tokens torn []).0, false)
unfolding tokens
scan-lines [] torn _ t = scan-torn torn t
scan-lines (line ∷ lines) torn ((h, fits), hs) t =
    let ih = scan-lines lines torn hs t in
    rw (append_assoc line (10 ∷ lines_of lines) torn, split-line line (lines_of lines ++ torn) h)
      (rw (tokens, fits) (rw ih refl))

module _ {F : Type 0} (c : Codec F) where
  pub decode_lines-append :
      (ts us : List Bytes) → decode_lines c (ts ++ us) ≡ decode_lines c ts ++ decode_lines c us
  unfolding decode_lines
  decode_lines-append [] us = refl
  decode_lines-append (t ∷ ts) us =
      rw (decode_lines-append ts us)
        (sym (append_assoc (decode_line c t) (decode_lines c ts) (decode_lines c us)))

  -- Replay of whole lines and a last one that has bytes but no newline, all shorter than the scanner's
  -- buffer, gives the decisions of the whole lines in order, and after them what the last line decodes
  -- to as if it were whole: one decision or none. It ends without an error; and if it is the reads that
  -- end there with an error, it gives the same decisions and an error.
  pub replay_torn :
      (lines : List Bytes) (b : ℕ) (torn : Bytes)
      → All IsLine lines
      → IsLine (b ∷ torn)
      → let file = lines_of lines ++ b ∷ torn in
        let ds = decode_lines c (map drop_cr lines) ++ decode_line c (drop_cr (b ∷ torn)) in
        (replay c (opened file) ≡ (ds, false)) × (replay c (read_fails file) ≡ (ds, true))
  unfolding replay tokens decode_lines
  replay_torn lines b torn hs (h, fits) =
      let same : decode_lines c (map drop_cr lines ++ drop_cr (b ∷ torn) ∷ [])
          ≡ decode_lines c (map drop_cr lines) ++ decode_line c (drop_cr (b ∷ torn)) =
        decode_lines-append (map drop_cr lines) (drop_cr (b ∷ torn) ∷ [])
        ∙ ap (λ ds. decode_lines c (map drop_cr lines) ++ ds)
            (append_nil (decode_line c (drop_cr (b ∷ torn)))) in
      let last : (tokens (b ∷ torn) []).0 ≡ drop_cr (b ∷ torn) ∷ [] = rw (tokens, fits) refl in
      let all =
        scan-lines lines (b ∷ torn) hs (h, fits)
        ∙ ap (λ ts. (map drop_cr lines ++ ts, false)) last in
      (
        ap (λ s. (decode_lines c s.0, s.1)) all ∙ ap (λ ds. (ds, false)) same,
        ap (λ s. (decode_lines c s.0, true)) all ∙ ap (λ ds. (ds, true)) same,
      )

  pub replay_lines :
      (lines : List Bytes)
      → All IsLine lines
      → replay c (opened (lines_of lines)) ≡ (decode_lines c (map drop_cr lines), false)
  unfolding replay tokens
  replay_lines lines hs =
      let all =
        ap scan (sym (append_nil (lines_of lines)))
        ∙ scan-lines lines [] hs (tt, refl)
        ∙ ap (λ ts. (ts, false)) (append_nil (map drop_cr lines)) in
      ap (λ s. (decode_lines c s.0, s.1)) all
