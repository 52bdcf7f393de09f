-- ===== src/Examples/Reports.antt =====
-- The theorems on the events of a report and on notifications, at a Deployment of three replicas.
use namespace_cost_governor.Base.{some, [], ◌∷◌, ◌≡◌, ◌↔◌, refl, String, ◌>>=◌}
use namespace_cost_governor.Api.{SuspensionEvent}
use namespace_cost_governor.Api.Kube.{Deployment, annotation, annotate}
use namespace_cost_governor.Go.Strconv.{format_int}
use namespace_cost_governor.Outside.Laws.{In, deployment_at}
use namespace_cost_governor.Actions.ScaleDown.{
  scale_down, marked, is_scaled_down_by_operator, at_zero,
}
use namespace_cost_governor.Report.Events.{events_of, collect_suspension_events}
use namespace_cost_governor.Report.Events.Suspended.{
  Tells, collect_suspension_events_iff, scale_down-reported,
}
use namespace_cost_governor.Outside.Alike.{Alike}
use namespace_cost_governor.Controller.Enforce.Silent.{without_webhook}
use namespace_cost_governor.Controller.Reconcile.{reconcile}
use namespace_cost_governor.Controller.Reconcile.Unnotified.{reconcile-Alike}
use namespace_cost_governor.Examples.Reconciling.{reconciler}
use namespace_cost_governor.Examples.Memory.{memory}
use namespace_cost_governor.Examples.Memory.Lawful.{memory-IsLawful}
use namespace_cost_governor.Examples.Scaling.{api_workload, api, start, scaled}

abbrev event : SuspensionEvent
event = record {
  workload = "payments-api";
  scaled_down_at = "0";
  reason = "idle:cpu<threshold:30m";
}

collect_suspension_events_iff_example : In event (event ∷ []) ↔ (
    (d : Deployment) × (deployment_at memory (scaled []) "payments" "payments-api" ≡ some d)
    × Tells d event)
unfolding collect_suspension_events events_of annotation marked annotate format_int ◌>>=◌
collect_suspension_events_iff_example =
    collect_suspension_events_iff memory memory-IsLawful (scaled []) "payments" (event ∷ []) event
      refl

scale_down-reported_example :
    (at : String) × In
      (record { workload = "payments-api"; scaled_down_at = at; reason = "idle:cpu<threshold:30m" })
      (event ∷ [])
unfolding scale_down is_scaled_down_by_operator at_zero annotation format_int marked annotate
    collect_suspension_events events_of ◌>>=◌
scale_down-reported_example =
    scale_down-reported memory memory-IsLawful (start []) api_workload api (event ∷ []) refl refl
      refl refl refl

reconcile-Alike_example :
    Alike memory
      (reconcile memory reconciler "payments" "payments-budget")
      (reconcile memory (without_webhook reconciler) "payments" "payments-budget")
reconcile-Alike_example =
    reconcile-Alike memory memory-IsLawful reconciler "payments" "payments-budget"
