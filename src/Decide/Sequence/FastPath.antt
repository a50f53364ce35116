-- ===== src/Decide/Sequence/FastPath.antt =====
-- go/internal/decide/engine.go: the trusted-pair fast path.
use payment_infrastructure.Base.{
  String, ◌≡◌, refl, ◌≢◌, ◌↔◌, ◌⊎◌, Bool, true, false, List, [], ◌∷◌, arith, eq_iff, lookup_or,
}
use payment_infrastructure.Base.Int.{pos, ◌≤ℤ◌, ◌<ℤ◌}
use payment_infrastructure.Base.Float.{Float64}
use payment_infrastructure.Contract.Event.{Event}
use payment_infrastructure.Contract.Profile.{ProfileBundle}
use payment_infrastructure.Decide.Policy.{Policy}
use payment_infrastructure.Decide.Engine.{trusted_pair}

module _ {F : Type 0} ⦃f : Float64 F⦄ where
  -- What the fast path asks of a payer and a payee.
  pub record IsTrusted (policy : Policy F) (pb : ProfileBundle F) (ev : Event) (ring_flagged : Bool)
      (degraded : List String) : Type 0 where
    pub healthy : degraded ≡ []
    pub known : pb.pair.present ≡ true
    pub history : policy.trusted_pair.min_txn_count_90d ≤ℤ pb.pair.txn_count_90d
    pub clean : pb.pair.last_disposition ≢ "FRAUD"
    pub scaled : pos 0 <ℤ pb.pair.amt_p95_minor
    pub usual :
        f.lt
          (f.times (f.of_int pb.pair.amt_p95_minor) policy.trusted_pair.amount_headroom_ratio)
          (f.of_int ev.instructed_amount_minor)
        ≡ false
    pub device :
        (pb.device.present ≡ false)
        ⊎ (ev.device_id ≡ "")
        ⊎ (lookup_or false ev.device_id pb.payer.known_devices ≡ true)
    pub no_ring : ring_flagged ≡ false
    pub same_account :
        (pb.pair.last_creditor_account ≡ "") ⊎ (pb.pair.last_creditor_account ≡ ev.creditor_account)

  module _ (policy : Policy F) (pb : ProfileBundle F) (ev : Event) (ring_flagged : Bool) where
    trusted_pair-IsTrusted :
        trusted_pair policy pb ev ring_flagged [] ≡ true → IsTrusted policy pb ev ring_flagged []
    unfolding trusted_pair
    trusted_pair-IsTrusted h = record {
      healthy = refl;
      known = ground arith;
      history = ground arith;
      clean = ground (arith, eq_iff pb.pair.last_disposition "FRAUD");
      scaled = ground arith;
      usual = ground arith;
      device = ground (arith, eq_iff ev.device_id "");
      no_ring = ground arith;
      same_account = ground (
        arith,
        eq_iff pb.pair.last_creditor_account "",
        eq_iff pb.pair.last_creditor_account ev.creditor_account,
      );
    }

    IsTrusted-trusted_pair :
        IsTrusted policy pb ev ring_flagged [] → trusted_pair policy pb ev ring_flagged [] ≡ true
    unfolding trusted_pair
    IsTrusted-trusted_pair t = ground (
      arith,
      eq_iff pb.pair.last_disposition "FRAUD",
      eq_iff ev.device_id "",
      eq_iff pb.pair.last_creditor_account "",
      eq_iff pb.pair.last_creditor_account ev.creditor_account,
    )

  -- A payment takes the fast path exactly when nothing is degraded, the pair has its history, is not
  -- marked as fraud and has a usual amount that this one does not exceed by more than the headroom, the
  -- device is unknown to the store, absent or one of the payer's, no ring is flagged, and the payee's
  -- account is not a new one.
  pub trusted_pair_iff :
      (policy : Policy F) (pb : ProfileBundle F) (ev : Event) (ring_flagged : Bool)
      (degraded : List String)
      → (trusted_pair policy pb ev ring_flagged degraded ≡ true)
        ↔ IsTrusted policy pb ev ring_flagged degraded
  trusted_pair_iff policy pb ev ring_flagged [] = (
    trusted_pair-IsTrusted policy pb ev ring_flagged,
    IsTrusted-trusted_pair policy pb ev ring_flagged,
  )
  trusted_pair_iff policy pb ev ring_flagged (d ∷ ds) =
      (λ h. absurd (not_degraded h), λ t. absurd (cc t.healthy))
    where
      not_degraded : trusted_pair policy pb ev ring_flagged (d ∷ ds) ≡ true → ⊥
      not_degraded h = unfold trusted_pair in cc
