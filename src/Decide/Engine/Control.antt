-- ===== src/Decide/Engine/Control.antt =====
-- go/internal/decide/engine.go: the control group, by the FNV-1a hash of the id.
use Prim.Native.Nat.{bit_xor}
use payment_infrastructure.Base.{
  ℕ, ◌*◌, ◌%◌, ◌^◌, String, Bool, true, false, List, [], ◌∷◌, bytes, if◌then◌else◌,
}
use payment_infrastructure.Base.Int.{pos}
use payment_infrastructure.Base.Float.{Float64}
use payment_infrastructure.Decide.Policy.{Policy}

-- `fnv.New32a` of the standard library, on bytes.
unfoldable pub fnv32a : List ℕ → ℕ → ℕ
fnv32a [] h = h
fnv32a (b ∷ bs) h = fnv32a bs (bit_xor h b * 16_777_619 % 2 ^ 32)

module _ {F : Type 0} ⦃f : Float64 F⦄ where
  bucket : String → F
  unfolding fnv32a
  bucket e2e_id =
      f.over (f.of_int (pos (fnv32a (bytes e2e_id) 2_166_136_261 % 10_000))) (f.decimal 10_000 0)

  unfoldable pub control_assignment : Policy F → String → Bool × F
  unfolding bucket
  control_assignment p e2e_id =
      if f.lt (bucket e2e_id) p.control_group.fraction
      then (true, p.control_group.fraction)
      else (false, f.minus (f.decimal 1 0) p.control_group.fraction)
