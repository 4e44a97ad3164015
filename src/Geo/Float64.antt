-- ===== src/Geo/Float64.antt =====
-- The float64 arithmetic and the text functions of Go's library that internal/geo calls: a parameter.
use gpb.Common.{ℕ, Bool, Option, List}

pub record Float64 : Type 1 where
  pub F : Type 0
  pub of_nat : ℕ → F
  pub add : F → F → F
  pub subtract : F → F → F
  pub multiply : F → F → F
  pub divide : F → F → F
  pub negate : F → F
  pub less : F → F → Bool
  pub equal : F → F → Bool
  pub truncate : F → ℕ
  pub parse_float : List ℕ → Option F
  pub trim_space : List ℕ → List ℕ
