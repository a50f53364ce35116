-- ===== src/Profile/Loads/Degraded.antt =====
-- go/internal/profile/store.go: what a bundle looks like when jobs of Load fail.
use payment_infrastructure.Base.{
  ◌≡◌, ap2, refl, ap, String, not, ◌&&◌, List, ◌++◌, length, str_eq, Bool-cases, inl, inr,
  lookup_or, if◌then◌else◌,
}
use payment_infrastructure.Base.Int.{ℤ, pos, eqb_ℤ, ltb_ℤ}
use payment_infrastructure.Base.Float.{Float64}
use payment_infrastructure.Contract.Event.{Event}
use payment_infrastructure.Features.Numbers.{Math}
use payment_infrastructure.Profile.Empty.{
  empty_payer, empty_payee, empty_device, empty_pair, empty_asn,
}
use payment_infrastructure.Profile.Helpers.{Texts, parse_int64}
use payment_infrastructure.Profile.Keys.{pair_hash}
use payment_infrastructure.Server.Events.{degraded_list, named_if}
use payment_infrastructure.Profile.Helpers.Histogram.{length-decode_hour_hist}
use payment_infrastructure.Profile.Loads.{
  Redis, load_payer, load_payee, load_device, load_pair, load_asn, load_bundle, fields_of,
}

-- The jobs that run and fail.
unfoldable pub failing : Redis → Event → List String
failing r ev =
    named_if r.payer_fails "profile:payer"
    ++ (named_if r.payee_fails "profile:payee"
        ++ (named_if (not (str_eq ev.device_id "") && r.device_fails) "profile:device"
            ++ (named_if r.pair_fails "profile:pair"
                ++ named_if (not (eqb_ℤ ev.asn (pos 0)) && r.asn_fails) "profile:asn")))

device-degraded :
    (r : Redis) (t : Texts) (id : String) (now : ℤ)
    → (load_device r t id now).degraded ≡ r.device_fails
unfolding load_device empty_device
device-degraded r t id now = elim (Bool-cases r.device_fails) [
  | inl e ↦ rw (load_device, e) refl
  | inr e ↦ rw (load_device, e) refl
]

device_of-degraded :
    (r : Redis) (t : Texts) (id : String) (now : ℤ)
    → (if str_eq id "" then empty_device else load_device r t id now).degraded
      ≡ (not (str_eq id "") && r.device_fails)
unfolding empty_device
device_of-degraded r t id now = elim (Bool-cases (str_eq id "")) [
  | inl e ↦ rw e refl
  | inr e ↦ rw e (device-degraded r t id now)
]

pair-degraded :
    (r : Redis) (t : Texts) (payer payee : String)
    → (load_pair r t payer payee).degraded ≡ r.pair_fails
unfolding load_pair empty_pair
pair-degraded r t payer payee = elim (Bool-cases r.pair_fails) [
  | inl e ↦ rw (load_pair, e) refl
  | inr e ↦
      let count =
        parse_int64 t
          (lookup_or "" "txn_count_90d" (fields_of (r.hgetall (pair_hash payer payee)))) in
      elim (Bool-cases (ltb_ℤ count (pos 2))) [
        | inl few ↦ rw (load_pair, e, few) refl
        | inr many ↦ rw (load_pair, e, many) refl
      ]
]

asn-degraded : (r : Redis) (asn now : ℤ) → (load_asn r asn now).degraded ≡ r.asn_fails
unfolding load_asn empty_asn
asn-degraded r asn now = elim (Bool-cases r.asn_fails) [
  | inl e ↦ rw (load_asn, e) refl
  | inr e ↦ rw (load_asn, e) refl
]

asn_of-degraded :
    (r : Redis) (asn now : ℤ)
    → (if eqb_ℤ asn (pos 0) then empty_asn else load_asn r asn now).degraded
      ≡ (not (eqb_ℤ asn (pos 0)) && r.asn_fails)
unfolding empty_asn
asn_of-degraded r asn now = elim (Bool-cases (eqb_ℤ asn (pos 0))) [
  | inl e ↦ rw e refl
  | inr e ↦ rw e (asn-degraded r asn now)
]

module _ (F : Type 0) ⦃f : Float64 F⦄ ⦃m : Math F⦄ (r : Redis) (t : Texts) where
  payer-degraded :
      (acct : String) (now : ℤ)
      → ((load_payer {F = F} r t acct now).degraded ≡ r.payer_fails)
        × (length (load_payer {F = F} r t acct now).hour_hist ≡ 24)
  unfolding load_payer empty_payer
  payer-degraded acct now = elim (Bool-cases r.payer_fails) [
    | inl e ↦ rw (load_payer, e) (refl, refl)
    | inr e ↦ rw (load_payer, e) (refl, length-decode_hour_hist F t _)
  ]

  payee-degraded :
      (acct : String) (now : ℤ) → (load_payee {F = F} r t acct now).degraded ≡ r.payee_fails
  unfolding load_payee empty_payee
  payee-degraded acct now = elim (Bool-cases r.payee_fails) [
    | inl e ↦ rw (load_payee, e) refl
    | inr e ↦ rw (load_payee, e) refl
  ]

  -- The degraded list of a bundle names the jobs that ran and failed, and there are 24 hours.
  pub degraded_list-load_bundle :
      (loaded_at_ms : ℤ) (ev : Event)
      → (degraded_list (load_bundle {F = F} r t loaded_at_ms ev) ≡ failing r ev)
        × (length (load_bundle {F = F} r t loaded_at_ms ev).payer.hour_hist ≡ 24)
  unfolding degraded_list load_bundle failing
  degraded_list-load_bundle loaded_at_ms ev =
      let now = ev.accepted_at_ms in
      let (payer, hours) = payer-degraded ev.debtor_account now in
      (
        ap2 (λ b rest. named_if b "profile:payer" ++ rest) payer
            (ap2 (λ b rest. named_if b "profile:payee" ++ rest)
              (payee-degraded ev.creditor_account now)
              (ap2 (λ b rest. named_if b "profile:device" ++ rest)
                (device_of-degraded r t ev.device_id now)
                (ap2 (λ b rest. named_if b "profile:pair" ++ rest)
                  (pair-degraded r t ev.debtor_account ev.creditor_account)
                  (ap (λ b. named_if b "profile:asn") (asn_of-degraded r ev.asn now))))),
        hours,
      )
