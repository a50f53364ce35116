-- ===== src/Base/Maps.antt =====
-- Go's maps with text keys, as association lists. An iteration goes through the entries in the
-- order of the list, which stands for whatever order the run happens to take.
use Prim.Native.String.{String}
use mathlib.Core.Path.{◌≡◌, refl}
use mathlib.Core.Option.{Option, none, some}
use mathlib.Core.List.{List, [], ◌∷◌}
use native.Mathlib.Omega.{arith}
use text.Mathlib.Text.{◌==◌ as str_eq}
use text.Mathlib.TextEquality.{eq_iff}
use payment_infrastructure.Base.Tests.{if◌then◌else◌}

abbrev pub Map {ℓ} : Type ℓ → Type ℓ
Map V = List (String × V)

module _ {ℓ} {V : Type ℓ} where
  -- The value at a key, as `v, ok := m[key]` reads it.
  unfoldable pub lookup : String → Map V → Option V
  lookup key [] = none
  lookup key (entry ∷ rest) = if str_eq entry.0 key then some entry.1 else lookup key rest

  -- A read of a missing key gives the zero value.
  unfoldable pub lookup_or : V → String → Map V → V
  unfolding lookup
  lookup_or d key m = elim (lookup key m) [ none ↦ d | some v ↦ v ]

  -- `m[key] = new`: in place of the old entry, or at the end.
  unfoldable pub insert : (key : String) (new : V) → Map V → Map V
  insert key new [] = (key, new) ∷ []
  insert key new (entry ∷ rest) =
      if str_eq entry.0 key then (key, new) ∷ rest else entry ∷ insert key new rest

  -- Every key stands once, as in a Go map.
  abbrev pub NodupKeys : Map V → Type ℓ
  NodupKeys [] = Unit
  NodupKeys (entry ∷ rest) = (lookup entry.0 rest ≡ none) × NodupKeys rest

  pub lookup-insert :
      (key other : String) (new : V) (m : Map V)
      → lookup other (insert key new m) ≡ (if str_eq key other then some new else lookup other m)
  unfolding lookup insert
  lookup-insert key other new [] = refl
  lookup-insert key other new (entry ∷ rest) =
      let ih = lookup-insert key other new rest in
      ground (arith, ih, eq_iff entry.0 key, eq_iff entry.0 other, eq_iff key other)
