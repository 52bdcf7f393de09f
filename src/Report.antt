-- ===== src/Report.antt =====
-- internal/report/generator.go: the monthly cost report.
pub mod Usage
pub mod Consumers
pub mod Events
pub mod Generate
use namespace_cost_governor.Base.{String}
use namespace_cost_governor.Go.Float.{Float64}
use namespace_cost_governor.Metrics.Prometheus.{Client}

-- `Generator`, without the Kubernetes client, which is the argument `O` of the functions.
pub record Generator (F : Float64) : Type 0 where
  pub metrics_client : Client
  pub cpu_price_per_core_hour : F.Carrier
  pub mem_price_per_gib_hour : F.Carrier

pub record WorkloadUsage (F : Float64) : Type 0 where
  pub name : String
  pub core_hours : F.Carrier
  pub gib_hours : F.Carrier
  pub cpu_percent : F.Carrier
  pub mem_percent : F.Carrier

unfoldable pub estimate_usd : {F : Float64} → Generator F → F.Carrier → F.Carrier → F.Carrier
estimate_usd {F} g core_hours gib_hours =
    F.add (F.mul core_hours g.cpu_price_per_core_hour) (F.mul gib_hours g.mem_price_per_gib_hour)
