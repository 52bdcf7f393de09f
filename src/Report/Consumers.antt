-- ===== src/Report/Consumers.antt =====
-- `buildTopConsumers` of internal/report/generator.go.
pub mod Top
use namespace_cost_governor.Base.{◌<>◌, Bool, List, map, take, if◌then◌else◌}
use namespace_cost_governor.Base.Int.{pos}
use namespace_cost_governor.Go.Float.{Float64}
use namespace_cost_governor.Api.{TopConsumer}
use namespace_cost_governor.Outside.{Outside}
use namespace_cost_governor.Report.{Generator, WorkloadUsage, estimate_usd}

module _ {F : Float64} (g : Generator F) (total_core_hours total_gib_hours : F.Carrier) where
  -- `(part / total) * 100`, or 0 where the total is not positive.
  percent_of : F.Carrier → F.Carrier → F.Carrier
  percent_of part total =
      if F.ltb (F.of_int (pos 0)) total
      then F.mul (F.div part total) (F.of_int (pos 100))
      else F.of_int (pos 0)

  unfoldable pub consumer_of : WorkloadUsage F → TopConsumer
  unfolding percent_of
  consumer_of w = record {
    workload = w.name;
    cpu_percent = F.to_int (percent_of w.core_hours total_core_hours);
    memory_percent = F.to_int (percent_of w.gib_hours total_gib_hours);
    estimated_usd = "$" <> F.format 2 (estimate_usd g w.core_hours w.gib_hours);
  }

-- `workloads[i].CoreHours > workloads[j].CoreHours`
abbrev pub uses_more : {F : Float64} → WorkloadUsage F → WorkloadUsage F → Bool
uses_more {F} v w = F.ltb w.core_hours v.core_hours

module _ {F : Float64} (O : Outside F) where
  unfoldable pub build_top_consumers :
      Generator F → List (WorkloadUsage F) → F.Carrier → F.Carrier → List TopConsumer
  build_top_consumers g workloads total_core_hours total_gib_hours =
      let sorted = O.sort_slice (WorkloadUsage F) uses_more workloads in
      map (consumer_of g total_core_hours total_gib_hours) (take 5 sorted)
