-- ===== src/Obs/Latency/Window.antt =====
-- go/internal/obs/latency.go: the ring buffer holds the last samples.
use payment_infrastructure.Base.{
  ℕ, zero, suc, ◌+◌, ◌%◌, ◌<◌, ◌≤◌, map, ◌≡◌, refl, sym, ap, subst, ◌∙◌, ◌⊎◌, inl, inr, true, false,
  List, [], ◌∷◌, ◌++◌, Run, ok, ◌>>=◌, arith, length, ltb→lt, append_assoc, append_nil,
  length-append, length-replicate, set, take, replicate, ltb, ◌==◌, Bool-cases, if◌then◌else◌,
}
use payment_infrastructure.Obs.Latency.{
  Sample, LatencyTracker, record_sample, new_latency_tracker, zero_sample, count, read_totals,
  percentiles, snapshot,
}
use payment_infrastructure.Base.Sort.{sort_floats}
use native.Mathlib.Nat.{mod-eq_of_lt, mod_self}
use payment_infrastructure.Base.Float.{Float64}

module _ {F : Type 0} where
  -- The buffer after the samples `seen`: the first `next` places hold the latest ones in order. If it
  -- has been filled, the other places hold the ones before them, and all older ones are gone.
  pub record IsWindow (seen : List (Sample F)) (t : LatencyTracker F) : Type 0 where
    pub recent : List (Sample F)
    pub older : List (Sample F)
    pub gone : List (Sample F)
    pub holds : t.samples ≡ recent ++ older
    pub at : length recent ≡ t.next
    pub sized : length recent + length older ≡ t.cap
    pub below : t.next < t.cap
    pub full : t.filled ≡ true → seen ≡ gone ++ (older ++ recent)
    pub partial : t.filled ≡ false → seen ≡ recent

  set-here :
      (xs ys : List (Sample F)) (o x : Sample F) (i : ℕ)
      → length xs ≡ i
      → set (xs ++ o ∷ ys) i x ≡ (xs ++ x ∷ []) ++ ys
  set-here [] ys o x zero e = refl
  set-here [] ys o x (suc i) e = absurd (omega (arith, e))
  set-here (y ∷ xs) ys o x zero e = absurd (omega (arith, e))
  set-here (y ∷ xs) ys o x (suc i) e = ap (λ t. y ∷ t) (set-here xs ys o x i (omega (arith, e)))

  empty : (xs : List (Sample F)) → length xs ≡ 0 → xs ≡ []
  empty [] e = refl
  empty (x ∷ xs) e = absurd (omega (arith, e))

  take-front : (xs ys : List (Sample F)) (n : ℕ) → length xs ≡ n → take n (xs ++ ys) ≡ xs
  take-front [] ys zero e = refl
  take-front [] ys (suc n) e = absurd (omega (arith, e))
  take-front (x ∷ xs) ys zero e = absurd (omega (arith, e))
  take-front (x ∷ xs) ys (suc n) e = ap (λ t. x ∷ t) (take-front xs ys n (omega (arith, e)))

  take_all : (xs : List (Sample F)) (n : ℕ) → length xs ≡ n → take n xs ≡ xs
  take_all xs n e = ap (take n) (sym (append_nil xs)) ∙ take-front xs [] n e

  abbrev pub Recorded : (seen : List (Sample F)) → Sample F → LatencyTracker F → Type 0
  Recorded seen x t =
      (t' : LatencyTracker F) × (record_sample x t ≡ ok t')
      × (t'.cap ≡ t.cap)
      × IsWindow (seen ++ x ∷ []) t'

  record_on :
      (x : Sample F) (seen : List (Sample F)) (t : LatencyTracker F)
      (recent older gone : List (Sample F))
      → t.samples ≡ recent ++ older
      → length recent ≡ t.next
      → length recent + length older ≡ t.cap
      → t.next < t.cap
      → (t.filled ≡ true → seen ≡ gone ++ (older ++ recent))
      → (t.filled ≡ false → seen ≡ recent)
      → Recorded seen x t
  unfolding record_sample
  record_on x seen t recent [] gone holds at sized below full partial = absurd (omega arith)
  record_on x seen t recent (o ∷ os) gone holds at sized below full partial =
      let room : ltb t.next (length t.samples) ≡ true =
        ground (arith, ap length holds, length-append recent (o ∷ os)) in
      let some_cap : (t.cap == 0) ≡ false = ground arith in
      let written : set t.samples t.next x ≡ (recent ++ x ∷ []) ++ os =
        ap (λ xs. set xs t.next x) holds ∙ set-here recent os o x t.next at in
      let shifted : (recent' : List (Sample F))
          → (gone ++ (o ∷ os ++ recent')) ++ x ∷ []
            ≡ (gone ++ o ∷ []) ++ (os ++ (recent' ++ x ∷ [])) =
        λ recent'.
          append_assoc gone (o ∷ os ++ recent') (x ∷ [])
          ∙ ap (λ ys. gone ++ (o ∷ ys)) (append_assoc os recent' (x ∷ []))
          ∙ sym (append_assoc gone (o ∷ []) (os ++ (recent' ++ x ∷ []))) in
      elim (Bool-cases (ltb (t.next + 1) t.cap)) [
        | inl more ↦
            let positive : (t.next + 1 == 0) ≡ false = ground arith in
            let next' : (t.next + 1) % t.cap ≡ t.next + 1 = mod-eq_of_lt (ltb→lt _ _ more) in
            (
              record t { samples = set t.samples t.next x; next = t.next + 1; filled = t.filled },
              rw (room, some_cap, next') (rw positive refl),
              refl,
              record {
                recent = recent ++ x ∷ [];
                older = os;
                gone = gone ++ o ∷ [];
                holds = written;
                at = omega (arith, length-append recent (x ∷ []));
                sized = omega (arith, length-append recent (x ∷ []));
                below = ltb→lt _ _ more;
                full = λ h. ap (λ ys. ys ++ x ∷ []) (full h) ∙ shifted recent;
                partial = λ h. ap (λ ys. ys ++ x ∷ []) (partial h);
              },
            )
        | inr last ↦
            let end' : t.next + 1 ≡ t.cap = ground arith in
            let next' : (t.next + 1) % t.cap ≡ 0 = ap (λ n. n % t.cap) end' ∙ mod_self t.cap in
            let none_left : os ≡ [] = empty os (omega arith) in
            (
              record t { samples = set t.samples t.next x; next = 0; filled = true },
              rw (room, some_cap, next') refl,
              refl,
              record {
                recent = [];
                older = recent ++ x ∷ [];
                gone = if t.filled then gone ++ o ∷ [] else [];
                holds = written ∙ rw none_left (append_nil (recent ++ x ∷ []));
                at = refl;
                sized = omega (arith, length-append recent (x ∷ []));
                below = omega arith;
                full = λ _. elim (Bool-cases t.filled) [
                  | inl e ↦ rw e (
                      ap (λ ys. ys ++ x ∷ []) (full e)
                      ∙ shifted recent
                      ∙ ap (λ ys. (gone ++ o ∷ []) ++ ys) (rw none_left (sym (append_nil _))))
                  | inr e ↦ rw e (ap (λ ys. ys ++ x ∷ []) (partial e) ∙ sym (append_nil _))
                ];
                partial = λ h. absurd (cc);
              },
            )
      ]

  pub record_sample-IsWindow :
      (x : Sample F) (seen : List (Sample F)) (t : LatencyTracker F)
      → IsWindow seen t
      → Recorded seen x t
  record_sample-IsWindow x seen t w =
      record_on x seen t w.recent w.older w.gone w.holds w.at w.sized w.below w.full w.partial

  -- `Record` for each sample in turn.
  unfoldable pub record_all : List (Sample F) → LatencyTracker F → Run (LatencyTracker F)
  record_all [] t = ok t
  record_all (x ∷ xs) t = record_sample x t >>= record_all xs

  record_all-IsWindow :
      (xs seen : List (Sample F)) (t : LatencyTracker F)
      → IsWindow seen t
      → (t' : LatencyTracker F) × (record_all xs t ≡ ok t')
        × (t'.cap ≡ t.cap)
        × IsWindow (seen ++ xs) t'
  unfolding record_all
  record_all-IsWindow [] seen t w =
      (t, refl, refl, subst (λ ys. IsWindow ys t) (sym (append_nil seen)) w)
  record_all-IsWindow (x ∷ xs) seen t w =
      let (t1, run1, cap1, w1) = record_sample-IsWindow x seen t w in
      let (t2, run2, cap2, w2) = record_all-IsWindow xs (seen ++ x ∷ []) t1 w1 in
      (
        t2,
        rw (record_all, run1) run2,
        cap2 ∙ cap1,
        subst (λ ys. IsWindow ys t2) (append_assoc seen (x ∷ []) xs) w2,
      )

module _ {F : Type 0} ⦃f : Float64 F⦄ where
  pub new-IsWindow :
      (capacity : ℕ) → 0 < capacity → IsWindow {F = F} [] (new_latency_tracker capacity)
  unfolding new_latency_tracker
  new-IsWindow capacity h = record {
    recent = [];
    older = replicate capacity zero_sample;
    gone = [];
    holds = refl;
    at = refl;
    sized = omega (arith, length-replicate capacity zero_sample);
    below = h;
    full = λ e. absurd (cc);
    partial = λ _. refl;
  }

  -- The loop of Snapshot reads the first samples.
  read_totals-take :
      (n : ℕ) (xs : List (Sample F))
      → n ≤ length xs
      → read_totals n xs ≡ ok (map (λ s. s.total_ms) (take n xs))
  unfolding read_totals
  read_totals-take zero xs h = refl
  read_totals-take (suc n) [] h = absurd (omega (arith, h))
  read_totals-take (suc n) (x ∷ xs) h = rw (read_totals-take n xs (omega (arith, h))) refl

  snapshot-take :
      (t : LatencyTracker F) (latest : List (Sample F))
      → count t ≤ length t.samples
      → take (count t) t.samples ≡ latest
      → snapshot t ≡ percentiles (sort_floats (map (λ s. s.total_ms) latest))
  unfolding snapshot
  snapshot-take t latest h e =
      rw (read_totals-take (count t) t.samples h)
        (ap (λ xs. percentiles (sort_floats (map (λ s. s.total_ms) xs))) e)

  -- A tracker of positive capacity records any samples without a panic, and then Snapshot gives the
  -- percentiles of the sorted total times of the latest ones: of all samples, which are fewer than the
  -- capacity, or of as many of the last samples as the capacity.
  pub record_all-keeps_latest :
      (capacity : ℕ) (xs : List (Sample F))
      → 0 < capacity
      → (t : LatencyTracker F) × (record_all xs (new_latency_tracker capacity) ≡ ok t)
        × (latest : List (Sample F)) × (snapshot t
            ≡ percentiles (sort_floats (map (λ s. s.total_ms) latest)))
        × (((latest ≡ xs) × (length xs < capacity))
            ⊎ ((gone : List (Sample F)) × (older : List (Sample F)) × (recent : List (Sample F))
                × (xs ≡ gone ++ (older ++ recent))
                × (latest ≡ recent ++ older)
                × (length latest ≡ capacity)))
  unfolding count new_latency_tracker
  record_all-keeps_latest capacity xs h =
      let (t, run, cap, w) =
        record_all-IsWindow xs [] (new_latency_tracker capacity) (new-IsWindow capacity h) in
      let size : length t.samples ≡ t.cap =
        ap length w.holds ∙ length-append w.recent w.older ∙ w.sized in
      elim (Bool-cases t.filled) [
        | inl e ↦
            let all : take (count t) t.samples ≡ w.recent ++ w.older =
              rw (count, e)
                (rw w.holds (
                  take_all (w.recent ++ w.older) t.cap
                    (length-append w.recent w.older ∙ w.sized))) in
            let fits : count t ≡ t.cap = rw (count, e) refl in
            (
              t,
              run,
              w.recent ++ w.older,
              snapshot-take t _ (omega (arith, size, fits)) all,
              inr (
                w.gone,
                w.older,
                w.recent,
                w.full e,
                refl,
                omega (arith, length-append w.recent w.older, w.sized, cap),
              ),
            )
        | inr e ↦
            let first : take (count t) t.samples ≡ w.recent =
              rw (count, e) (rw w.holds (take-front w.recent w.older t.next w.at)) in
            let fits : count t ≡ t.next = rw (count, e) refl in
            let same = w.partial e in
            (
              t,
              run,
              w.recent,
              snapshot-take t _ (omega (arith, size, fits, w.below)) first,
              inl (sym same, omega (arith, ap length same, w.at, w.below, cap)),
            )
      ]
