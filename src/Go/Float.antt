-- ===== src/Go/Float.antt =====
-- float64. The type and its operations are an interface: there are no floating-point numbers here.
use namespace_cost_governor.Base.{ℕ, String, Bool}
use namespace_cost_governor.Base.Int.{ℤ}

pub record Float64 : Type 1 where
  pub Carrier : Type 0
  -- `+`, `-`, `*`, `/`
  pub add : Carrier → Carrier → Carrier
  pub sub : Carrier → Carrier → Carrier
  pub mul : Carrier → Carrier → Carrier
  pub div : Carrier → Carrier → Carrier
  -- `<` and `<=`; `a > b` is `ltb b a`, `a >= b` is `leb b a`
  pub ltb : Carrier → Carrier → Bool
  pub leb : Carrier → Carrier → Bool
  -- `math.Max`
  pub max : Carrier → Carrier → Carrier
  -- `float64(n)`, and integer constants
  pub of_int : ℤ → Carrier
  -- `int(x)` and `int64(x)`
  pub to_int : Carrier → ℤ
  -- `strconv.ParseFloat(s, 64)`: the value, and whether the error is nil
  pub parse : String → Carrier × Bool
  -- `fmt.Sprintf("%.nf", x)`
  pub format : ℕ → Carrier → String
