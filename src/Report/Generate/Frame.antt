-- ===== src/Report/Generate/Frame.antt =====
-- Writing a report changes no Deployment.
use namespace_cost_governor.Base.{String, Option, Result, ok, err}
use namespace_cost_governor.Base.Keeps.{
  Keeps, Keeps-bind, Keeps-if, Keeps-pure, Keeps-throw, Keeps-wrapping, Keeps-attempt,
}
use namespace_cost_governor.Base.Int.{pos}
use namespace_cost_governor.Go.Float.{Float64}
use namespace_cost_governor.Go.Time.{Time}
use namespace_cost_governor.Api.{NamespaceBudget, CostReport}
use namespace_cost_governor.Api.Kube.{Deployment}
use namespace_cost_governor.Outside.{Outside, is_not_found}
use namespace_cost_governor.Outside.Frame.{
  Holds, Keeps-Reads, clock-Holds, list_deployments-Holds, get_report-Holds, create_report-Holds,
  update_report_status-Holds,
}
use namespace_cost_governor.Outside.Laws.{IsLawful}
use namespace_cost_governor.Metrics.Prometheus.Frame.{query_range-Reads}
use namespace_cost_governor.Report.{Generator}
use namespace_cost_governor.Report.Usage.{query_workload_usage}
use namespace_cost_governor.Report.Events.{collect_suspension_events}
use namespace_cost_governor.Report.Generate.{write_report, generate, generate_after}

module _ {F : Float64} (O : Outside F) (L : IsLawful O) (g : Generator F) (ns n : String)
    (o : Option Deployment) where
  query_workload_usage-Holds :
      (namespace : String) (start end : Time)
      → Keeps (Holds O ns n o) (query_workload_usage O g namespace start end)
  unfolding query_workload_usage
  query_workload_usage-Holds namespace start end =
      Keeps-bind _ _
        (Keeps-wrapping _ _
          (Keeps-Reads O ns n o _ (query_range-Reads O L g.metrics_client _ start end (pos 3600))))
        (λ cpu.
          Keeps-bind _ _
            (Keeps-wrapping _ _ (
              Keeps-Reads O ns n o _
                (query_range-Reads O L g.metrics_client _ start end (pos 3600))))
            (λ mem. Keeps-pure _))

  collect-Holds :
      (namespace : String) → Keeps (Holds O ns n o) (collect_suspension_events O namespace)
  unfolding collect_suspension_events
  collect-Holds namespace =
      Keeps-bind _ _ (Keeps-wrapping _ _ (list_deployments-Holds O ns n o L namespace))
        (λ ds. Keeps-pure _)

  write_report-Holds :
      (b : NamespaceBudget) (first : Time) (ref : String)
      → Keeps (Holds O ns n o) (write_report O g b first ref)
  unfolding write_report
  write_report-Holds b first ref =
      Keeps-bind _ _ (Keeps-wrapping _ _ (query_workload_usage-Holds b.namespace first _)) (λ ws.
        Keeps-bind _ _ (Keeps-attempt _ (collect-Holds b.namespace)) (λ events.
          Keeps-bind _ _ (Keeps-wrapping _ _ (create_report-Holds O ns n o L _))
            (λ report. Keeps-wrapping _ _ (update_report_status-Holds O ns n o L _))))

  generate_after-Holds :
      (b : NamespaceBudget) (first : Time) (existing : Result CostReport)
      → Keeps (Holds O ns n o) (generate_after O g b first existing)
  unfolding generate_after
  generate_after-Holds b first (ok report) = Keeps-pure _
  generate_after-Holds b first (err e) =
      Keeps-if (is_not_found e) _ _ (λ _. write_report-Holds b first _) (λ _. Keeps-throw _)

  -- A report leaves every Deployment as it is, whatever calls fail.
  pub generate-Holds : (b : NamespaceBudget) → Keeps (Holds O ns n o) (generate O g b)
  unfolding generate
  generate-Holds b = Keeps-bind _ _ (clock-Holds O ns n o L) (λ now.
      Keeps-bind _ _ (Keeps-attempt _ (get_report-Holds O ns n o L b.namespace _))
        (λ existing. generate_after-Holds b _ existing))
