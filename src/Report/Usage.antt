-- ===== src/Report/Usage.antt =====
-- `queryWorkloadUsage` and `aggregateByDeployment` of internal/report/generator.go.
pub mod Means
use namespace_cost_governor.Base.{String, ◌<>◌, List, [], ◌∷◌, Exec, pure, wrapping, ◌>>=◌}
use namespace_cost_governor.Base.Dict
use namespace_cost_governor.Base.Dict.{Dict}
use namespace_cost_governor.Base.Int.{pos, ◌-ℤ◌}
use namespace_cost_governor.Go.Float.{Float64}
use namespace_cost_governor.Go.Time.{Time, hours}
use namespace_cost_governor.Metrics.{Sample}
use namespace_cost_governor.Metrics.Prometheus.{query_range}
use namespace_cost_governor.Outside.{Outside}
use namespace_cost_governor.Idle.Names.{pod_to_deployment}
use namespace_cost_governor.Idle.Detector.{Tally, no_tally, count_value, means_into, or_else}
use namespace_cost_governor.Report.{Generator, WorkloadUsage}

module _ {F : Float64} where
  unfoldable pub tally_samples : List (Sample F) → Tally F → Tally F
  tally_samples [] t = t
  tally_samples (s ∷ samples) t =
      tally_samples samples (count_value (pod_to_deployment s.pod) s.value t)

  -- The loop over `cpuByDeployment`; a Deployment with no memory samples reads 0.
  unfoldable pub workloads_of : Dict F.Carrier → F.Carrier → Dict F.Carrier → List (WorkloadUsage F)
  unfolding or_else
  workloads_of mem_by_deployment elapsed_hours [] = []
  workloads_of mem_by_deployment elapsed_hours ((name, avg_cpu) ∷ cpu) =
      let mem_bytes = or_else (F.of_int (pos 0)) (Dict.lookup name mem_by_deployment) in
      let avg_mem = F.div mem_bytes (F.of_int (pos 1073741824)) in
      record {
        name = name;
        core_hours = F.mul avg_cpu elapsed_hours;
        gib_hours = F.mul avg_mem elapsed_hours;
        cpu_percent = F.of_int (pos 0);
        mem_percent = F.of_int (pos 0);
      }
      ∷ workloads_of mem_by_deployment elapsed_hours cpu

module _ {F : Float64} (O : Outside F) where
  unfoldable pub aggregate_by_deployment : List (Sample F) → Dict F.Carrier
  aggregate_by_deployment samples =
      let t = tally_samples samples no_tally in means_into t (O.range F.Carrier t.sums) []

  unfoldable pub query_workload_usage :
      Generator F → String → Time → Time → Exec O.World (List (WorkloadUsage F))
  query_workload_usage g namespace start end = do
    let cpu_query =
        "avg_over_time(rate(container_cpu_usage_seconds_total{namespace=\""
        <> (namespace <> "\",container!=\"\"}[5m])[1h:5m])")
    cpu_samples ←
        wrapping "querying cpu usage: "
          (query_range O g.metrics_client cpu_query start end (pos 3600))
    let mem_query =
        "avg_over_time(container_memory_working_set_bytes{namespace=\""
        <> (namespace <> "\",container!=\"\"}[1h])")
    mem_samples ←
        wrapping "querying memory usage: "
          (query_range O g.metrics_client mem_query start end (pos 3600))
    let cpu_by_deployment = aggregate_by_deployment cpu_samples
    let mem_by_deployment = aggregate_by_deployment mem_samples
    pure (
        workloads_of {F = F} mem_by_deployment (hours F (end -ℤ start))
          (O.range F.Carrier cpu_by_deployment))
