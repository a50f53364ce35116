-- ===== src/Profile/Helpers/Histogram.antt =====
-- go/internal/profile/helpers.go: the hour histogram, from the counts to the shares and back.
use payment_infrastructure.Base.{
  ℕ, zero, suc, ◌*◌, ◌^◌, ◌<◌, ◌≡◌, refl, ap, ◌∙◌, String, true, List, [], ◌∷◌, ◌++◌, some, Map,
  lookup_or, length, map, ◌==◌, decimal, Option-cases, Bool-cases, inl, inr, arith,
}
use payment_infrastructure.Base.Int.{ℤ, pos, negsuc}
use payment_infrastructure.Base.Float.{Float64}
use payment_infrastructure.Audit.{Bytes}
use payment_infrastructure.Profile.Helpers.{
  Texts, parse_int64, uint32, put_uint32, words, hour_bytes, encode_hour_hist, shares_of,
  decode_hour_hist,
}

length-map : {A B : Type 0} (g : A → B) (xs : List A) → length (map g xs) ≡ length xs
length-map g [] = refl
length-map g (x ∷ xs) = ap suc (length-map g xs)

length-words : (n : ℕ) (bs : Bytes) → length bs ≡ n * 4 → length (words bs) ≡ n
unfolding words
length-words zero [] h = refl
length-words zero (a ∷ bs) h = absurd (omega (arith, h))
length-words (suc n) [] h = absurd (omega (arith, h))
length-words (suc n) (a ∷ []) h = absurd (omega (arith, h))
length-words (suc n) (a ∷ b ∷ []) h = absurd (omega (arith, h))
length-words (suc n) (a ∷ b ∷ c ∷ []) h = absurd (omega (arith, h))
length-words (suc n) (a ∷ b ∷ c ∷ d ∷ rest) h = ap suc (length-words n rest (omega (arith, h)))

module _ (F : Type 0) ⦃f : Float64 F⦄ where
  -- Whatever the text, there are 24 shares.
  pub length-decode_hour_hist :
      (t : Texts) (b64 : String) → length (decode_hour_hist {F = F} t b64) ≡ 24
  unfolding decode_hour_hist shares_of
  length-decode_hour_hist t b64 = elim (Option-cases (t.base64_decode b64)) [
    | inl e ↦ rw (decode_hour_hist, e) refl
    | inr (buf, e) ↦ elim (Bool-cases (length buf == 96)) [
      | inl whole ↦
          rw (decode_hour_hist, e, whole)
            (length-map _ _ ∙ length-map _ _ ∙ length-words 24 buf (ground arith))
      | inr part ↦ rw (decode_hour_hist, e, part) refl
    ]
  ]

uint32-lt : (v : ℤ) → uint32 v < 2 ^ 32
unfolding uint32
uint32-lt (pos n) = omega arith
uint32-lt (negsuc n) = omega arith

words-put_uint32 :
    (v : ℕ) (rest : Bytes) → v < 2 ^ 32 → words (put_uint32 v ++ rest) ≡ v ∷ words rest
unfolding words put_uint32
words-put_uint32 v rest h = ap (λ w. w ∷ words rest) (omega (arith, h))

module _ (t : Texts) where
  -- The counts of the hours from `h` on, as uint32.
  unfoldable pub counts_from : Map String → (h n : ℕ) → List ℕ
  counts_from counts h zero = []
  counts_from counts h (suc n) =
      uint32 (parse_int64 t (lookup_or "" (decimal h) counts)) ∷ counts_from counts (suc h) n

  words-hour_bytes :
      (counts : Map String) (h n : ℕ) → words (hour_bytes t counts h n) ≡ counts_from counts h n
  unfolding hour_bytes counts_from words
  words-hour_bytes counts h zero = refl
  words-hour_bytes counts h (suc n) =
      let v = uint32 (parse_int64 t (lookup_or "" (decimal h) counts)) in
      words-put_uint32 v (hour_bytes t counts (suc h) n) (uint32-lt _)
      ∙ ap (λ ws. v ∷ ws) (words-hour_bytes counts (suc h) n)

  length-hour_bytes : (counts : Map String) (h n : ℕ) → length (hour_bytes t counts h n) ≡ n * 4
  unfolding hour_bytes put_uint32
  length-hour_bytes counts h zero = omega arith
  length-hour_bytes counts h (suc n) = let rest = length-hour_bytes counts (suc h) n in omega arith

full_size : (n : ℕ) → n ≡ 24 * 4 → (n == 96) ≡ true
full_size n h = ground arith

module _ (F : Type 0) ⦃f : Float64 F⦄ where
  decode_whole :
      (t : Texts) (b64 : String) (buf : Bytes)
      → t.base64_decode b64 ≡ some buf
      → (length buf == 96) ≡ true
      → decode_hour_hist {F = F} t b64 ≡ shares_of (words buf)
  unfolding decode_hour_hist
  decode_whole t b64 buf e whole = rw (decode_hour_hist, e, whole) refl

  -- For a base64 that decodes what it encodes, the histogram read from the text that encodes the counts
  -- is the smoothed shares of the 24 counts, each as a uint32.
  pub decode-encode_hour_hist :
      (t : Texts) (counts : Map String)
      → ((bs : Bytes) → t.base64_decode (t.base64_encode bs) ≡ some bs)
      → decode_hour_hist {F = F} t (encode_hour_hist t counts)
        ≡ shares_of (counts_from t counts 0 24)
  unfolding encode_hour_hist
  decode-encode_hour_hist t counts sound =
      decode_whole t (encode_hour_hist t counts) (hour_bytes t counts 0 24)
        (sound (hour_bytes t counts 0 24)) (full_size _ (length-hour_bytes t counts 0 24))
      ∙ ap shares_of (words-hour_bytes t counts 0 24)
