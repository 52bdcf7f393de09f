-- ===== src/Metrics.antt =====
-- internal/metrics: samples and the JSON that Prometheus answers with. The client is in
-- Metrics/Prometheus, the sums and averages in Metrics/Usage.
use namespace_cost_governor.Base.{String, Option, List}
pub mod Usage
pub mod Prometheus
use namespace_cost_governor.Base.Dict.{Dict}
use namespace_cost_governor.Go.Float.{Float64}
use namespace_cost_governor.Go.Time.{Time}

pub record Sample (F : Float64) : Type 0 where
  pub pod : String
  pub time_stamp : Time
  pub value : F.Carrier

-- A decoded JSON value of type `any`, as far as the program tells such values apart.
pub data Any (F : Float64) : Type 0 where
  number : F.Carrier → Any F
  text : String → Any F
  other : Any F

pub record Series (F : Float64) : Type 0 where
  pub metric : Dict String
  pub values : List (List (Any F))
  pub value : List (Any F)

-- `promResp`; `payload` is its `Data`, `none` where the pointer is nil.
pub record PromResponse (F : Float64) : Type 0 where
  pub status : String
  pub payload : Option (List (Series F))
  pub error : String
