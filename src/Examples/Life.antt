-- ===== src/Examples/Life.antt =====
-- The theorems on the life of a Deployment, at a Deployment of three replicas.
use namespace_cost_governor.Base.{some, [], ◌≡◌, refl, arith}
use namespace_cost_governor.Base.Int.{pos}
use namespace_cost_governor.Go.Strconv.{format_int, parse_int32}
use namespace_cost_governor.Api.Kube.{Deployment, annotation, annotate}
use namespace_cost_governor.Outside.Laws.{deployment_at}
use namespace_cost_governor.Outside.Patch.{Same-refl}
use namespace_cost_governor.Actions.ScaleDown.{
  marked, is_scaled_down_by_operator, at_zero, original_replicas,
}
use namespace_cost_governor.Actions.Life.{Steps, marks, here, next, recorded_count, read_count}
use namespace_cost_governor.Actions.Life.Sound.{IsSound}
use namespace_cost_governor.Actions.Life.Kept.{Kept, Steps-Kept}
use namespace_cost_governor.Controller.Reconcile.{reconcile}
use namespace_cost_governor.Controller.Reconcile.Spared.{reconcile-spares}
use namespace_cost_governor.Idle.Exclusion.{is_excluded}
use namespace_cost_governor.Controller.Life.{reconcile-Steps}
use namespace_cost_governor.Cli.Restore.{restore_cmd}
use namespace_cost_governor.Cli.Restore.Life.{restore_cmd-Steps}
use namespace_cost_governor.History.{start, reconciled, restored, history-Kept, history-replicas}
use namespace_cost_governor.Examples.Memory.{memory}
use namespace_cost_governor.Examples.Memory.Terminal.{terminal, terminal-IsApart}
use namespace_cost_governor.Examples.Memory.Lawful.{memory-IsLawful}
use namespace_cost_governor.Examples.Scaling.{api, scaled_api, scaled}
use namespace_cost_governor.Examples.Reconciling.{budget, reconciler, with_budget, marked_world}

reconcile-Steps_example :
    (e : Deployment) × (deployment_at memory
        (reconcile memory reconciler "payments" "payments-budget" marked_world).1
        "payments"
        "payments-api"
      ≡ some e)
    × Steps scaled_api e
unfolding marked
reconcile-Steps_example =
    reconcile-Steps memory memory-IsLawful reconciler "payments" "payments-budget" "payments"
      "payments-api" scaled_api marked_world refl

restore_cmd-Steps_example :
    (e : Deployment) × (deployment_at memory
        (restore_cmd memory terminal "payments" (scaled [])).1
        "payments"
        "payments-api"
      ≡ some e)
    × Steps scaled_api e
unfolding marked
restore_cmd-Steps_example =
    restore_cmd-Steps memory memory-IsLawful terminal terminal-IsApart "payments" "payments"
      "payments-api" scaled_api (scaled []) refl

api-IsSound : IsSound api
unfolding is_scaled_down_by_operator annotation original_replicas
api-IsSound = record { count = (omega arith, omega arith); record_of = λ mark. cc mark }

scaled_api-IsSound : IsSound scaled_api
unfolding is_scaled_down_by_operator annotation original_replicas recorded_count read_count marked
    annotate format_int parse_int32
scaled_api-IsSound = record {
  count = (omega arith, omega arith);
  record_of = λ mark. (pos 3, refl, (omega arith, omega arith));
}

Steps-Kept_example : Kept api (marked "0" api)
unfolding is_scaled_down_by_operator annotation at_zero
Steps-Kept_example =
    Steps-Kept api (marked "0" api) api-IsSound
      (next here (marks "0" refl refl (Same-refl (marked "0" api))))

history-Kept_example :
    (e : Deployment) × (deployment_at memory
        (restore_cmd memory terminal "payments" (scaled [])).1
        "payments"
        "payments-api"
      ≡ some e)
    × Kept scaled_api e
unfolding marked
history-Kept_example =
    history-Kept memory terminal memory-IsLawful terminal-IsApart "payments" "payments-api"
      scaled_api (restored "payments" start) refl scaled_api-IsSound

history-replicas_example : original_replicas api ≡ original_replicas api
unfolding is_scaled_down_by_operator annotation is_excluded
history-replicas_example =
    history-replicas memory terminal memory-IsLawful terminal-IsApart "payments" "payments-api" api
      api (reconciled reconciler "payments" "payments-budget" start) refl api-IsSound refl
      (reconcile-spares memory memory-IsLawful reconciler "payments" "payments-budget" budget
        "payments" "payments-api" api with_budget refl refl refl refl)
      refl
