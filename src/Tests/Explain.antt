-- ===== src/Tests/Explain.antt =====
-- The theorems on go/internal/explain/trace.go at a logged decision.
use payment_infrastructure.Base.{
  ◌≡◌, false, refl, ◌⊎◌, true, [], some, none, bytes, ℕ, ◌∷◌, All, arith, lookup,
}
use payment_infrastructure.Base.Int.{ℤ, pos, ltb_ℤ, ◌-ℤ◌, ◌+ℤ◌}
use payment_infrastructure.Audit.{Hashing, new_chain}
use payment_infrastructure.Audit.Tamper.{Collision}
use payment_infrastructure.Contract.Action.{block}
use payment_infrastructure.Contract.Decision.{Decision}
use payment_infrastructure.Wal.{Wal, append, canonical}
use payment_infrastructure.Explain.Trace.{reproduce}
use payment_infrastructure.Explain.Trace.Tamper.{reproduce-append}
use payment_infrastructure.Tests.Features.{rough}
use payment_infrastructure.Tests.Sample.{millionths, scale, engine}
use payment_infrastructure.Explain.Trace.Replays.{Agrees, IsClose, reproduce-decide}
use payment_infrastructure.Decide.Engine.{scored, snapshot}
use payment_infrastructure.Decide.Policy.{load}
use payment_infrastructure.Tests.Decide.{quiet, quiet_runnable, quiet_decided, quiet_p, swap_in}
use payment_infrastructure.Tests.Wal.{codec, healthy, sample_decision}

-- A hash that keeps what it reads, and a JSON form that is the action.
abbrev plain : Hashing
plain = record { sha256 = λ xs. xs; marshal = λ r. some (bytes r.action) }

abbrev log : Wal
log = record { file = []; chain = new_chain (pos 0) }

abbrev logged : Decision ℤ
logged = (append plain codec healthy sample_decision log).1

-- The record after an edit of its action.
abbrev edited : Decision ℤ
edited = record logged { action = block }

made : plain.marshal (canonical sample_decision) ≡ some (bytes "ALLOW")
unfolding canonical payment_infrastructure.Decide.Engine.build_decision
made = refl

close : (n : ℕ) → IsClose (pos n)
unfolding millionths rough ◌-ℤ◌ ◌+ℤ◌
close n = ground arith

positive : ltb_ℤ (millionths.of_int (pos 0)) (millionths.decimal 1 9) ≡ true
unfolding millionths scale
positive = refl

reproduce-append_example :
    ((reproduce plain engine logged none).chain_intact ≡ true)
    × (((reproduce plain engine
            (record edited { prev_hash = logged.prev_hash; hash = logged.hash })
            none).chain_intact
          ≡ false)
        ⊎ (plain.marshal (canonical edited) ≡ plain.marshal (canonical sample_decision))
        ⊎ Collision plain)
reproduce-append_example =
    reproduce-append plain codec healthy sample_decision edited log (bytes "ALLOW") engine none made

quiet_features :
    engine.score (swap_in none quiet).features ≡ scored (pos 400_000) (("F01", pos 120_000) ∷ [])
quiet_features = refl

reproduce-decide_example :
    All Agrees
      (reproduce plain
        (record engine { live_ref = none })
        (swap_in none quiet)
        (some quiet.event)).checks
unfolding snapshot load millionths lookup
reproduce-decide_example =
    reproduce-decide plain engine quiet none (swap_in none quiet) (swap_in none quiet).findings
      (pos 400_000) (pos 400_000) (("F01", pos 120_000) ∷ []) quiet_runnable (quiet_decided none)
      (quiet_p none) refl quiet_features (close 400_000) (close 400_000) positive
      ((refl, close 120_000), tt)
