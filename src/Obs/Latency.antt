-- ===== src/Obs/Latency.antt =====
-- go/internal/obs/latency.go: the ring buffer of recent samples. The capacity is not negative.
pub mod Window
use payment_infrastructure.Base.{
  ℕ, zero, suc, ◌+◌, ◌-◌, ◌%◌, Bool, true, false, ◌||◌, List, [], ◌∷◌, Option, none, some, Run, ok,
  panic, ◌>>=◌, map, length, get_elem?, set, take, replicate, ltb, ◌==◌, if◌then◌else◌,
}
use payment_infrastructure.Base.Int.{ℤ, pos, negsuc}
use payment_infrastructure.Base.Float.{Float64}
use payment_infrastructure.Base.Sort.{sort_floats}

pub record Sample (F : Type 0) : Type 0 where
  pub total_ms : F
  pub queue_delay_ms : F
  pub service_ms : F

pub record LatencyTracker (F : Type 0) : Type 0 where
  pub samples : List (Sample F)
  pub cap : ℕ
  pub next : ℕ
  pub filled : Bool

pub record Percentiles (F : Type 0) : Type 0 where
  pub n : ℕ
  pub p50 : F
  pub p90 : F
  pub p99 : F
  pub p999 : F
  pub max : F

module _ {F : Type 0} where
  -- `t.samples[t.next] = s` and `% t.cap`, both of which may panic.
  unfoldable pub record_sample : Sample F → LatencyTracker F → Run (LatencyTracker F)
  record_sample s t =
      if ltb t.next (length t.samples)
      then (if t.cap == 0
          then panic
          else ok (record t {
            samples = set t.samples t.next s;
            next = (t.next + 1) % t.cap;
            filled = (t.next + 1) % t.cap == 0 || t.filled;
          }))
      else panic

  -- How many samples `Snapshot` reads.
  unfoldable pub count : LatencyTracker F → ℕ
  count t = if t.filled then t.cap else t.next

module _ {F : Type 0} ⦃f : Float64 F⦄ where
  unfoldable pub zero_sample : Sample F
  zero_sample = record {
    total_ms = f.of_int (pos 0);
    queue_delay_ms = f.of_int (pos 0);
    service_ms = f.of_int (pos 0);
  }

  unfoldable pub new_latency_tracker : ℕ → LatencyTracker F
  unfolding zero_sample
  new_latency_tracker capacity = record {
    samples = replicate capacity zero_sample;
    cap = capacity;
    next = 0;
    filled = false;
  }

  unfoldable pub reset : LatencyTracker F → LatencyTracker F
  unfolding zero_sample
  reset t = record t { samples = replicate t.cap zero_sample; next = 0; filled = false }

  -- `pct`: a negative index, or one past the end, panics.
  unfoldable pub pct : List F → F → Run F
  pct [] p = ok (f.of_int (pos 0))
  pct (x ∷ xs) p = elim (f.to_int (f.times p (f.of_int (pos (length xs))))) [
    | negsuc k ↦ panic
    | pos i ↦ elim (get_elem? (x ∷ xs) i) [ none ↦ panic | some v ↦ ok v ]
  ]

  last_or : F → List F → F
  last_or d [] = d
  last_or d (x ∷ xs) = last_or x xs

  -- `make([]float64, n)` and the loop, which panics past the end of the samples.
  unfoldable pub read_totals : ℕ → List (Sample F) → Run (List F)
  read_totals zero xs = ok []
  read_totals (suc n) [] = panic
  read_totals (suc n) (s ∷ xs) = do vals ← read_totals n xs; ok (s.total_ms ∷ vals)

  -- `Snapshot`
  unfoldable pub percentiles : List F → Run (Percentiles F)
  unfolding pct last_or
  percentiles [] =
      let z = f.of_int (pos 0) in
      ok (record { n = 0; p50 = z; p90 = z; p99 = z; p999 = z; max = z })
  percentiles (x ∷ xs) = do
    p50 ← pct (x ∷ xs) (f.decimal 50 2)
    p90 ← pct (x ∷ xs) (f.decimal 90 2)
    p99 ← pct (x ∷ xs) (f.decimal 99 2)
    p999 ← pct (x ∷ xs) (f.decimal 999 3)
    ok (record {
      n = length (x ∷ xs);
      p50 = p50;
      p90 = p90;
      p99 = p99;
      p999 = p999;
      max = last_or x xs;
    })

  unfoldable pub snapshot : LatencyTracker F → Run (Percentiles F)
  unfolding read_totals percentiles count
  snapshot t = do vals ← read_totals (count t) t.samples; percentiles (sort_floats vals)
