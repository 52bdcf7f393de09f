-- ===== src/Idle/Detector.antt =====
-- `DetectIdle` and `averageByPod` of internal/idle/detector.go.
pub mod Frame
pub mod Tallies
pub mod Decided
use namespace_cost_governor.Base.{
  ℕ, suc, String, ◌<>◌, Option, none, some, List, [], ◌∷◌, ◌+◌, Bool, if◌then◌else◌, Result, ok,
  err, Exec, pure, wrapping, attempt, ◌>>=◌,
}
use namespace_cost_governor.Base.Dict
use namespace_cost_governor.Base.Dict.{Dict}
use namespace_cost_governor.Base.Int.{pos, ◌-ℤ◌}
use namespace_cost_governor.Go.Float.{Float64}
use namespace_cost_governor.Go.Time.{Time, Duration}
use namespace_cost_governor.Api.Kube.{Deployment}
use namespace_cost_governor.Metrics.{Sample}
use namespace_cost_governor.Metrics.Prometheus.{Client, query_range}
use namespace_cost_governor.Outside.{Outside, clock}
use namespace_cost_governor.Idle.{IdleWorkload}
use namespace_cost_governor.Idle.Names.{pod_to_deployment, prom_duration}

-- The maps `sums` and `counts` of one aggregation.
pub record Tally (F : Float64) : Type 0 where
  pub sums : Dict F.Carrier
  pub counts : Dict ℕ

unfoldable pub or_else : {A : Type 0} → A → Option A → A
or_else a none = a
or_else a (some b) = b

module _ {F : Float64} where
  abbrev pub no_tally : Tally F
  no_tally = record { sums = []; counts = [] }

  -- `sums[key] += value; counts[key]++`
  unfoldable pub count_value : String → F.Carrier → Tally F → Tally F
  unfolding or_else
  count_value key value t = record {
    sums =
        Dict.insert key (F.add (or_else (F.of_int (pos 0)) (Dict.lookup key t.sums)) value) t.sums;
    counts = Dict.insert key (or_else 0 (Dict.lookup key t.counts) + 1) t.counts;
  }

  -- `sum / float64(counts[key])`
  unfoldable pub mean_at : Tally F → String → F.Carrier → F.Carrier
  unfolding or_else
  mean_at t key sum = F.div sum (F.of_int (pos (or_else 0 (Dict.lookup key t.counts))))

  -- `for key, sum := range sums { result[key] = sum / float64(counts[key]) }`
  unfoldable pub means_into : Tally F → Dict F.Carrier → Dict F.Carrier → Dict F.Carrier
  unfolding mean_at
  means_into t [] result = result
  means_into t ((key, sum) ∷ sums) result =
      means_into t sums (Dict.insert key (mean_at t key sum) result)

  unfoldable pub tally_by_pod : List (Sample F) → Tally F → Tally F
  tally_by_pod [] t = t
  tally_by_pod (s ∷ samples) t = tally_by_pod samples (count_value s.pod s.value t)

  -- `depSums[dep] += avgCPU; depCounts[dep]++` over the averages of the pods
  unfoldable pub tally_by_deployment : Dict F.Carrier → Tally F → Tally F
  tally_by_deployment [] t = t
  tally_by_deployment ((pod, avg_cpu) ∷ pods) t =
      tally_by_deployment pods (count_value (pod_to_deployment pod) avg_cpu t)

  unfoldable pub idle_of : String → Time → F.Carrier → Tally F → Dict F.Carrier → List IdleWorkload
  idle_of namespace start threshold t [] = []
  idle_of namespace start threshold t ((dep, sum) ∷ sums) =
      let rest = idle_of namespace start threshold t sums in
      if F.ltb (mean_at t dep sum) threshold
      then record { name = dep; namespace = namespace; idle_since = start } ∷ rest
      else rest

module _ {F : Float64} (O : Outside F) where
  unfoldable pub average_by_pod : List (Sample F) → Dict F.Carrier
  average_by_pod samples =
      let t = tally_by_pod samples no_tally in means_into t (O.range F.Carrier t.sums) []

  -- Keeps the workloads whose Deployment can be fetched.
  unfoldable pub verify : List IdleWorkload → Exec O.World (List IdleWorkload)
  verify [] = pure []
  verify (w ∷ idle_list) = do
    found ← attempt (O.get_deployment w.namespace w.name)
    verified ← verify idle_list
    pure (elim found [ ok d ↦ w ∷ verified | err e ↦ verified ])

  -- The decision for each Deployment, from the samples.
  unfoldable pub idle_list : String → Time → F.Carrier → List (Sample F) → List IdleWorkload
  unfolding idle_of
  idle_list namespace start threshold samples =
      let pod_avg = average_by_pod samples in
      let t = tally_by_deployment {F = F} (O.range F.Carrier pod_avg) no_tally in
      idle_of namespace start threshold t (O.range F.Carrier t.sums)

  unfoldable pub detect_idle :
      Client → String → F.Carrier → Duration → Exec O.World (List IdleWorkload)
  detect_idle c namespace threshold window = do
    end ← clock O
    let start = end -ℤ window
    let query =
        "avg_over_time(\n            rate(container_cpu_usage_seconds_total{namespace=\""
        <> (namespace
            <> ("\", container!=\"\"}[5m])\n        [" <> (prom_duration F window <> ":1m])")))
    samples ← wrapping "querying idle metrics: " (query_range O c query start end (pos 60))
    verify (idle_list namespace start threshold samples)
