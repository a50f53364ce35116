-- ===== src/Features/Numbers.antt =====
-- What go/internal/features uses of Go's math and strconv on a float64: a parameter.
use payment_infrastructure.Base.{String, Option}

pub record Math (F : Type 0) : Type 0 where
  pub max : F → F → F
  pub min : F → F → F
  pub abs : F → F
  pub neg : F → F
  pub log2 : F → F
  pub sin : F → F
  pub cos : F → F
  pub atan2 : F → F → F
  pub sqrt : F → F
  pub pi : F
  -- `strconv.ParseFloat`, `none` for its error
  pub parse_float : String → Option F
