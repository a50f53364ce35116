-- ===== src/Profile/Helpers.antt =====
-- go/internal/profile/helpers.go: bucket names, the parsing of what Redis holds, percentiles, and the
-- hour histogram. strconv, strings.TrimSpace and base64 are a parameter.

pub mod Histogram
use payment_infrastructure.Base.{
  ℕ, zero, suc, ◌+◌, ◌-◌, ◌*◌, ◌/◌, ◌%◌, ◌^◌, String, Bool, true, false, not, ◌&&◌, List, [], ◌∷◌,
  ◌++◌, Option, none, some, Map, lookup_or, insert, length, get_elem?, replicate, map, ltb, ◌==◌,
  str_eq, int_text, decimal, if◌then◌else◌,
}
use payment_infrastructure.Base.Int.{ℤ, pos, negsuc, add64, sub64, ltb_ℤ, leb_ℤ, sub_ℕ}
use payment_infrastructure.Base.Float.{Float64}
use payment_infrastructure.Audit.{Bytes}
use payment_infrastructure.Features.Clock.{quot}
use payment_infrastructure.Features.Numbers.{Math}
use payment_infrastructure.Graph.{before_dash}

pub record Texts : Type 0 where
  pub trim_space : String → String
  -- `strconv.ParseInt(s, 10, 64)` and `strconv.Atoi`, `none` for their error
  pub parse_int : String → Option ℤ
  pub atoi : String → Option ℤ
  -- `int64(f)` of what `strconv.ParseFloat(s, 64)` reads, `none` for its error
  pub parse_float_int : String → Option ℤ
  pub base64_encode : Bytes → String
  pub base64_decode : String → Option Bytes

abbrev pub minute_ms : ℕ
minute_ms = 60_000

abbrev pub hour_ms : ℕ
hour_ms = 3_600_000

abbrev pub day_ms : ℕ
day_ms = 86_400_000

-- `minuteEpochStr`, `hourEpochStr` and `dayEpochStr` for their span.
unfoldable pub epoch_str : (span : ℕ) → ℤ → String
unfolding quot
epoch_str span ms = int_text (quot ms span)

-- The loop of the bucket keys: the names of `cur - i` and of those before it.
unfoldable pub keys_back : (cur : ℤ) → (i n : ℕ) → List String
keys_back cur i zero = []
keys_back cur i (suc n) = int_text (sub64 cur (pos i)) ∷ keys_back cur (suc i) n

-- `minuteBucketKeys`, `hourBucketKeys` and `dayBucketKeys` for their span.
unfoldable pub bucket_keys : (span : ℕ) → ℤ → (n : ℕ) → List String
unfolding quot keys_back
bucket_keys span now_ms n = keys_back (quot now_ms span) 0 n

-- The hour of a time in UTC, which rounds down.
unfoldable pub hour_of_day_utc : ℤ → String
hour_of_day_utc (pos n) = decimal (n / 1000 % 86_400 / 3600)
hour_of_day_utc (negsuc n) = decimal ((86_399 - n / 1000 % 86_400) / 3600)

-- The int32 of an int.
unfoldable pub to_int32 : ℤ → ℤ
to_int32 (pos n) = let m = n % 2 ^ 32 in if ltb m (2 ^ 31) then pos m else negsuc (2 ^ 32 - 1 - m)
to_int32 (negsuc n) =
    let m = n % 2 ^ 32 in if ltb m (2 ^ 31) then negsuc m else pos (2 ^ 32 - 1 - m)

module _ (t : Texts) where
  unfoldable pub parse_int64 : String → ℤ
  parse_int64 s = if str_eq s "" then pos 0 else elim (t.parse_int (t.trim_space s)) [
    | some v ↦ v
    | none ↦ elim (t.parse_float_int s) [ some v ↦ v | none ↦ pos 0 ]
  ]

  -- The loop of `sumHMGet`: a field that is not there adds nothing.
  unfoldable pub sum_fields : List (Option String) → ℤ → ℤ
  unfolding parse_int64
  sum_fields [] sum = sum
  sum_fields (none ∷ vs) sum = sum_fields vs sum
  sum_fields (some s ∷ vs) sum = sum_fields vs (add64 sum (parse_int64 s))

  unfoldable pub sum_hmget : Option (List (Option String)) → ℤ
  unfolding sum_fields
  sum_hmget none = pos 0
  sum_hmget (some vs) = sum_fields vs (pos 0)

module _ {F : Type 0} ⦃f : Float64 F⦄ ⦃m : Math F⦄ (t : Texts) where
  unfoldable pub parse_float : String → F
  parse_float s =
      if str_eq s ""
      then f.of_int (pos 0)
      else elim (m.parse_float (t.trim_space s)) [ some v ↦ v | none ↦ f.of_int (pos 0) ]

-- An index within the bounds, from one that a float gave.
unfoldable pub clamp_index : ℤ → (n : ℕ) → ℕ
clamp_index (negsuc i) n = 0
clamp_index (pos i) n = if ltb i n then i else n - 1

module _ {F : Type 0} ⦃f : Float64 F⦄ where
  unfoldable pub percentile : List F → F → F
  unfolding clamp_index
  percentile sorted_vals p =
      if length sorted_vals == 0
      then f.of_int (pos 0)
      else elim (get_elem? sorted_vals (
          clamp_index (f.to_int (f.times p (f.of_int (pos (length sorted_vals - 1)))))
            (length sorted_vals))) [ none ↦ f.of_int (pos 0) | some v ↦ v ]

-- The loop of `membersOf`.
unfoldable pub add_members : List String → Map Bool → Map Bool
add_members [] out = out
add_members (k ∷ ks) out = add_members ks (insert k true out)

unfoldable pub members_of : Option (List String) → Map Bool
unfolding add_members
members_of none = []
members_of (some members) = add_members members []

-- A write to a map whose keys are numbers.
unfoldable pub insert_number : ℤ → List (ℤ × Bool) → List (ℤ × Bool)
insert_number k [] = (k, true) ∷ []
insert_number k (entry ∷ rest) =
    if leb_ℤ entry.0 k && leb_ℤ k entry.0 then (k, true) ∷ rest else entry ∷ insert_number k rest

module _ (t : Texts) where
  -- The loop of `asnMembersOf`: a member that is not a number is left out.
  unfoldable pub add_asns : List String → List (ℤ × Bool) → List (ℤ × Bool)
  unfolding insert_number to_int32
  add_asns [] out = out
  add_asns (s ∷ ss) out = elim (t.atoi s) [
    | none ↦ add_asns ss out
    | some v ↦ add_asns ss (insert_number (to_int32 v) out)
  ]

  unfoldable pub asn_members_of : Option (List String) → List (ℤ × Bool)
  unfolding add_asns
  asn_members_of none = []
  asn_members_of (some members) = add_asns members []

unfoldable pub bank_of_account : String → String
unfolding before_dash
bank_of_account acct = elim (before_dash acct) [
  | none ↦ "UNKNOWN"
  | some bank ↦ if str_eq bank "" then "UNKNOWN" else bank
]

-- `binary.BigEndian.PutUint32` of `uint32(v)`.
unfoldable pub uint32 : ℤ → ℕ
uint32 (pos n) = n % 2 ^ 32
uint32 (negsuc n) = 2 ^ 32 - 1 - n % 2 ^ 32

unfoldable pub put_uint32 : ℕ → Bytes
put_uint32 v = v / 2 ^ 24 ∷ v / 2 ^ 16 % 256 ∷ v / 2 ^ 8 % 256 ∷ v % 256 ∷ []

-- The numbers that `binary.BigEndian.Uint32` reads from a buffer of whole words.
unfoldable pub words : Bytes → List ℕ
words (a ∷ b ∷ c ∷ d ∷ rest) = (a * 2 ^ 24 + b * 2 ^ 16 + c * 2 ^ 8 + d) ∷ words rest
words _ = []

module _ (t : Texts) where
  -- The loop of `encodeHourHist` from hour `h` on, over `n` hours.
  unfoldable pub hour_bytes : Map String → (h n : ℕ) → Bytes
  unfolding put_uint32 uint32 parse_int64
  hour_bytes counts h zero = []
  hour_bytes counts h (suc n) =
      put_uint32 (uint32 (parse_int64 t (lookup_or "" (decimal h) counts)))
      ++ hour_bytes counts (suc h) n

  unfoldable pub encode_hour_hist : Map String → String
  unfolding hour_bytes
  encode_hour_hist counts = t.base64_encode (hour_bytes counts 0 24)

module _ {F : Type 0} ⦃f : Float64 F⦄ where
  -- A count with its Laplace smoothing.
  abbrev pub smoothed : ℕ → F
  smoothed v = f.plus (f.of_int (pos v)) (f.of_int (pos 1))

  unfoldable pub total_of : List F → F → F
  total_of [] total = total
  total_of (c ∷ cs) total = total_of cs (f.plus total c)

  unfoldable pub shares_of : List ℕ → List F
  unfolding total_of
  shares_of ws =
      let counts = map smoothed ws in
      let total = total_of counts (f.of_int (pos 0)) in map (λ c. f.over c total) counts

  abbrev pub uniform_hist : List F
  uniform_hist = replicate 24 (f.over (f.of_int (pos 1)) (f.of_int (pos 24)))

  unfoldable pub decode_hour_hist : Texts → String → List F
  unfolding words shares_of
  decode_hour_hist t b64 = elim (t.base64_decode b64) [
    | none ↦ uniform_hist
    | some buf ↦ if not (length buf == 24 * 4) then uniform_hist else shares_of (words buf)
  ]
