-- ===== src/Outside/Ranging.antt =====
-- What the code relies on in `for k, v := range m`: every entry comes once, in some order.
use namespace_cost_governor.Base.{String, ◌≡◌}
use namespace_cost_governor.Base.Dict
use namespace_cost_governor.Base.Dict.{Dict, Distinct}
use namespace_cost_governor.Go.Float.{Float64}
use namespace_cost_governor.Outside.{Outside}

pub record Ranges {F : Float64} (O : Outside F) : Type 1 where
  pub range-Distinct : (V : Type 0) (m : Dict V) → Distinct m → Distinct (O.range V m)
  pub lookup-range :
      (V : Type 0) (m : Dict V) (k : String)
      → Distinct m
      → Dict.lookup k (O.range V m) ≡ Dict.lookup k m
