-- ===== src/Profile/Updates/Sums.antt =====
-- go/internal/profile/store.go and helpers.go: what Load sums of what Apply adds. Redis is a parameter: of a
-- hash it is said what each field holds.
use payment_infrastructure.Base.{
  ℕ, zero, suc, ◌+◌, ◌-◌, ◌*◌, ◌/◌, ◌^◌, ◌≤◌, ◌<◌, ◌≡◌, ◌≢◌, refl, sym, ap, ap2, ◌∙◌, String, Bool,
  true, false, List, [], ◌∷◌, Option, none, some, map, get_elem?, int_text, arith, ltb, ◌==◌,
  Bool-cases, inl, inr, if◌then◌else◌,
}
use payment_infrastructure.Base.Int.{
  ℤ, pos, add64, sub64, add64_assoc, add64_swap, add64_zero, sub64_small,
}
use payment_infrastructure.Base.Digits.{decimal_injective}
use payment_infrastructure.Base.Float.{Float64}
use payment_infrastructure.Features.Clock.{quot}
use payment_infrastructure.Features.Numbers.{Math}
use payment_infrastructure.Contract.Event.{Event}
use payment_infrastructure.Contract.Profile.{PayerBundle}
use payment_infrastructure.Profile.Helpers.{
  Texts, bucket_keys, keys_back, epoch_str, minute_ms, hour_ms, day_ms, parse_int64, sum_fields,
  sum_hmget,
}
use payment_infrastructure.Profile.Keys.{payer_amt_minute, payer_amt_hour, payer_amt_day}
use payment_infrastructure.Profile.Loads.{Redis, load_payer}
use payment_infrastructure.Profile.Updates.{hincr_by, apply_commands, payer_commands}

module _ (t : Texts) where
  -- The number that a field holds, 0 if it is not there.
  abbrev pub number_in : Option String → ℤ
  number_in none = pos 0
  number_in (some text) = parse_int64 t text

  sum_fields-add64 :
      (vs : List (Option String)) (s a : ℤ)
      → sum_fields t vs (add64 s a) ≡ add64 (sum_fields t vs s) a
  unfolding sum_fields
  sum_fields-add64 [] s a = refl
  sum_fields-add64 (none ∷ vs) s a = sum_fields-add64 vs s a
  sum_fields-add64 (some x ∷ vs) s a =
      ap (sum_fields t vs) (add64_swap s a (parse_int64 t x)) ∙ sum_fields-add64 vs _ a

  abbrev added : Option String → ℤ → ℤ
  added none s = s
  added (some x) s = add64 s (parse_int64 t x)

  sum_fields-cons :
      (o : Option String) (vs : List (Option String)) (s : ℤ)
      → sum_fields t (o ∷ vs) s ≡ sum_fields t vs (added o s)
  unfolding sum_fields
  sum_fields-cons none vs s = refl
  sum_fields-cons (some x) vs s = refl

  sum_fields-raised :
      (o : Option String) (vs : List (Option String)) (s a : ℤ)
      → sum_fields t vs (add64 s (add64 (number_in o) a)) ≡ add64 (sum_fields t (o ∷ vs) s) a
  unfolding sum_fields
  sum_fields-raised none vs s a = ap (sum_fields t vs) (add64_zero s a) ∙ sum_fields-add64 vs s a
  sum_fields-raised (some x) vs s a =
      ap (sum_fields t vs) (add64_assoc s (parse_int64 t x) a) ∙ sum_fields-add64 vs _ a

  -- What redis documents of HINCRBY: the field then holds a text of the sum, and the others are as before.
  pub record IsIncremented (field : String) (amount : ℤ) (before after : String → Option String)
      : Type 0 where
    pub elsewhere : (k : String) → k ≢ field → after k ≡ before k
    pub text : String
    pub holds : after field ≡ some text
    pub counted : parse_int64 t text ≡ add64 (number_in (before field)) amount

  module _ {field : String} {amount : ℤ} {before after : String → Option String}
      (is : IsIncremented field amount before after) where
    sum_fields-field :
        (vs : List (Option String)) (s : ℤ)
        → sum_fields t (after field ∷ vs) s ≡ add64 (sum_fields t (before field ∷ vs) s) amount
    unfolding sum_fields
    sum_fields-field vs s = rw is.holds (
        ap (λ p. sum_fields t vs (add64 s p)) is.counted
        ∙ sum_fields-raised (before field) vs s amount)

    -- Buckets that are older than the field's hold what they held.
    keys_back-older :
        (cur i n b : ℕ)
        → field ≡ int_text (pos b)
        → cur < 2 ^ 63
        → i + n ≤ suc cur
        → suc cur ≤ b + i
        → map after (keys_back (pos cur) i n) ≡ map before (keys_back (pos cur) i n)
    unfolding keys_back
    keys_back-older cur i zero b at small room older = refl
    keys_back-older cur i (suc n) b at small room older =
        let name = sub64_small cur i (omega arith) small in
        let apart : int_text (sub64 (pos cur) (pos i)) ≢ field = λ e.
          absurd (omega (arith, decimal_injective (cur - i) b (ap int_text (sym name) ∙ e ∙ at))) in
        let rest = keys_back-older cur (suc i) n b at small (omega arith) (omega arith) in
        rw (is.elsewhere _ apart, rest) refl

    -- The sum over the buckets rises by the amount if the field's is among them, and else it stays.
    sum_fields-keys_back :
        (cur i n b : ℕ) (s : ℤ)
        → field ≡ int_text (pos b)
        → cur < 2 ^ 63
        → i + n ≤ suc cur
        → b + i ≤ cur
        → sum_fields t (map after (keys_back (pos cur) i n)) s ≡ (
            let sum = sum_fields t (map before (keys_back (pos cur) i n)) s in
            if ltb (cur - b) (i + n) then add64 sum amount else sum)
    unfolding keys_back sum_fields
    sum_fields-keys_back cur i zero b s at small room newer =
        let none_left : ltb (cur - b) (i + 0) ≡ false = ground arith in rw none_left refl
    sum_fields-keys_back cur i (suc n) b s at small room newer =
        let name = sub64_small cur i (omega arith) small in
        elim (Bool-cases (cur - i == b)) [
          | inl here ↦
              let same : cur - i ≡ b = ground arith in
              let key : int_text (sub64 (pos cur) (pos i)) ≡ field =
                ap int_text (name ∙ ap pos same) ∙ sym at in
              let inside : ltb (cur - b) (i + suc n) ≡ true = ground arith in
              let older = keys_back-older cur (suc i) n b at small (omega arith) (omega arith) in
              rw (inside, key, older)
                (sum_fields-field (map before (keys_back (pos cur) (suc i) n)) s)
          | inr apart ↦
              let key = int_text (sub64 (pos cur) (pos i)) in
              let other : key ≢ field = λ e.
                absurd (
                  ground
                    (arith, decimal_injective (cur - i) b (ap int_text (sym name) ∙ e ∙ at))) in
              let older = keys_back (pos cur) (suc i) n in
              let ih =
                sum_fields-keys_back cur (suc i) n b (added (before key) s) at small (omega arith)
                  (ground arith) in
              let order : ltb (cur - b) (suc i + n) ≡ ltb (cur - b) (i + suc n) =
                ap (ltb (cur - b)) (omega arith) in
              sum_fields-cons (after key) (map after older) s
              ∙ ap (λ o. sum_fields t (map after older) (added o s)) (is.elsewhere key other)
              ∙ ih
              ∙ ap2 (λ (more : Bool) (sum : ℤ). if more then add64 sum amount else sum) order
                  (sym (sum_fields-cons (before key) (map before older) s))
        ]

    -- The buckets of a span that Load asks for.
    sum_fields-bucket_keys :
        (span now later n : ℕ)
        → field ≡ epoch_str span (pos now)
        → now / span ≤ later / span
        → later / span < 2 ^ 63
        → n ≤ suc (later / span)
        → sum_fields t (map after (bucket_keys span (pos later) n)) (pos 0) ≡ (
            let sum = sum_fields t (map before (bucket_keys span (pos later) n)) (pos 0) in
            if ltb (later / span - now / span) n then add64 sum amount else sum)
    unfolding bucket_keys epoch_str quot
    sum_fields-bucket_keys span now later n at order small room =
        sum_fields-keys_back (later / span) 0 n (now / span) (pos 0) at small (omega arith)
          (omega arith)
        ∙ ap
            (λ k.
              let sum = sum_fields t (map before (keys_back (pos (later / span)) 0 n)) (pos 0) in
              if ltb (later / span - now / span) k then add64 sum amount else sum)
            (omega arith)

  -- A hash before and after HINCRBY has added the amount to the field, as HMGET reads it.
  pub record Grows (r r' : Redis) (key field : String) (amount : ℤ) : Type 0 where
    pub before : String → Option String
    pub after : String → Option String
    pub reads_before : (fields : List String) → r.hmget key fields ≡ some (map before fields)
    pub reads_after : (fields : List String) → r'.hmget key fields ≡ some (map after fields)
    pub is : IsIncremented field amount before after

  -- The sum after a payment, from the sum before: the payment counts if its bucket is one of the last `n`.
  abbrev pub with_payment : (now later : ℕ) → (amount : ℤ) → (span n : ℕ) → (sum : ℤ) → ℤ
  with_payment now later amount span n sum =
      if ltb (later / span - now / span) n then add64 sum amount else sum

  sum_hmget-Grows :
      (r r' : Redis) (key : String) (amount : ℤ) (span now later n : ℕ)
      → Grows r r' key (epoch_str span (pos now)) amount
      → now / span ≤ later / span
      → later / span < 2 ^ 63
      → n ≤ suc (later / span)
      → sum_hmget t (r'.hmget key (bucket_keys span (pos later) n))
        ≡ with_payment now later amount span n
            (sum_hmget t (r.hmget key (bucket_keys span (pos later) n)))
  unfolding sum_hmget
  sum_hmget-Grows r r' key amount span now later n g order small room =
      let names = bucket_keys span (pos later) n in
      ap (sum_hmget t) (g.reads_after names)
      ∙ sum_fields-bucket_keys g.is span now later n refl order small room
      ∙ ap (λ o. with_payment now later amount span n (sum_hmget t o)) (sym (g.reads_before names))

module _ (F : Type 0) ⦃f : Float64 F⦄ ⦃m : Math F⦄ (t : Texts) where
  -- The commands of Apply add the payment's amount to the payer's minute, hour and day. When Redis has
  -- carried these out, and later, from a month after 1970 on, no read of the payer fails, Load's sum of
  -- the last hour has risen by exactly the amount if the payment's minute is one of the last 60 minutes
  -- of the clock, the current one among them, and else it is what it would be without the payment; the
  -- same goes for the last 24 hours of the clock, and for the last 30 days, whose sum Load divides by 30.
  pub load_payer-apply_commands :
      (r r' : Redis) (ev : Event) (now later : ℕ)
      → ev.accepted_at_ms ≡ pos now
      → now ≤ later
      → 30 * day_ms ≤ later
      → later < 2 ^ 63
      → r.payer_fails ≡ false
      → r'.payer_fails ≡ false
      → let acct = ev.debtor_account in
        let amount = ev.instructed_amount_minor in
        let minute = epoch_str minute_ms (pos now) in
        let hour = epoch_str hour_ms (pos now) in
        let day = epoch_str day_ms (pos now) in
        Grows t r r' (payer_amt_minute acct) minute amount
        → Grows t r r' (payer_amt_hour acct) hour amount
        → Grows t r r' (payer_amt_day acct) day amount
        → let p : PayerBundle F = load_payer r t acct (pos later) in
          let p' : PayerBundle F = load_payer r' t acct (pos later) in
          let raised = with_payment t now later amount in
          (get_elem? (apply_commands ev) 3 ≡ some (hincr_by (payer_amt_minute acct) minute amount))
          × (get_elem? (apply_commands ev) 4 ≡ some (hincr_by (payer_amt_hour acct) hour amount))
          × (get_elem? (apply_commands ev) 5 ≡ some (hincr_by (payer_amt_day acct) day amount))
          × (p'.amt_sum_1h_minor ≡ raised minute_ms 60 p.amt_sum_1h_minor)
          × (p'.amt_sum_24h_minor ≡ raised hour_ms 24 p.amt_sum_24h_minor)
          × (sum : ℤ) × (p.amt_mean_30d_daily_minor ≡ quot sum 30)
          × (p'.amt_mean_30d_daily_minor ≡ quot (raised day_ms 30 sum) 30)
  unfolding load_payer apply_commands payer_commands
  load_payer-apply_commands r r' ev now later at order month small up up' minute hour day =
      let acct = ev.debtor_account in
      let amount = ev.instructed_amount_minor in
      let field : (key : String) (span : ℕ)
          → some (hincr_by key (epoch_str span ev.accepted_at_ms) amount)
            ≡ some (hincr_by key (epoch_str span (pos now)) amount) =
        λ key span. ap (λ z. some (hincr_by key (epoch_str span z) amount)) at in
      (
        field (payer_amt_minute acct) minute_ms,
        field (payer_amt_hour acct) hour_ms,
        field (payer_amt_day acct) day_ms,
        rw (up, up')
            (sum_hmget-Grows t r r' _ amount minute_ms now later 60 minute (omega arith)
              (omega arith) (omega arith)),
        rw (up, up')
            (sum_hmget-Grows t r r' _ amount hour_ms now later 24 hour (omega arith) (omega arith)
              (omega arith)),
        sum_hmget t (r.hmget (payer_amt_day acct) (bucket_keys day_ms (pos later) 30)),
        rw up refl,
        rw up' (
            ap (λ z. quot z 30)
              (sum_hmget-Grows t r r' _ amount day_ms now later 30 day (omega arith) (omega arith)
                (omega arith))),
      )
