-- ===== src/Tests/Novelty.antt =====
-- The theorem on go/internal/novelty/engine.go at a reservoir of 250 payments.
use payment_infrastructure.Base.{String, List, [], ◌∷◌, Map, replicate}
use payment_infrastructure.Base.Int.{ℤ, pos}
use payment_infrastructure.Tests.Features.{rough}

abbrev observed : List (Map ℤ × List String)
observed = replicate 250 (("amt_robust_z", pos 2_000_000) ∷ [], "amt_robust_z" ∷ [])

abbrev unusual : Map ℤ
unusual = ("amt_robust_z", pos 9_000_000) ∷ []
