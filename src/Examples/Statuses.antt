-- ===== src/Examples/Statuses.antt =====
-- The theorems on the status, and on the names of pods.
use namespace_cost_governor.Base.{String, some, [], ◌∷◌, ◌≡◌, ◌≢◌, map, arith, ◌<>◌}
use namespace_cost_governor.Base.Int.{pos}
use namespace_cost_governor.Api.{NamespaceBudgetStatus, IdleWorkloadStatus}
use namespace_cost_governor.Api.Kube.{condition_false}
use namespace_cost_governor.Idle.{IdleWorkload}
use namespace_cost_governor.Idle.Names.{pod_to_deployment}
use namespace_cost_governor.Idle.Names.Suffix.{pod_to_deployment-suffixes}
use namespace_cost_governor.Controller.Conditions.{usage_warning, budget_exceeded, status_with}
use namespace_cost_governor.Controller.Conditions.Transitions.{
  find_condition, carried, status_with-conditions,
}
use namespace_cost_governor.Controller.IdleStatus.{to_idle_workload_status}
use namespace_cost_governor.Controller.IdleStatus.Since.{carried_since, to_idle_workload_status-map}

abbrev old_status : NamespaceBudgetStatus
old_status = record {
  phase = "OK";
  current_usage = record { cpu = ""; memory = "" };
  accumulated = record { core_hours = "12"; gib_hours = "2"; since = "0" };
  last_reconcile = pos 0;
  budget_percent = pos 60;
  idle_workloads = [];
  last_report_ref = "";
  conditions =
      record {
        kind = "UsageWarning";
        status = condition_false;
        reason = "BudgetThresholdReached";
        message = "Budget usage at 60%";
        last_transition_time = pos 7;
      }
      ∷ [];
}

status_with-conditions_example :
    (find_condition "UsageWarning" (status_with "Warning" (pos 85) (pos 9) old_status).conditions
      ≡ some (
          carried
            (find_condition "UsageWarning" old_status.conditions)
            (usage_warning (pos 85) (pos 9))))
    × (find_condition "BudgetExceeded"
          (status_with "Warning" (pos 85) (pos 9) old_status).conditions
        ≡ some (
            carried
              (find_condition "BudgetExceeded" old_status.conditions)
              (budget_exceeded (pos 85) (pos 9))))
    × ((kind : String)
        → kind ≢ "UsageWarning"
        → kind ≢ "BudgetExceeded"
        → find_condition kind (status_with "Warning" (pos 85) (pos 9) old_status).conditions
          ≡ find_condition kind old_status.conditions)
status_with-conditions_example = status_with-conditions "Warning" (pos 85) (pos 9) old_status

abbrev api_found : IdleWorkload
api_found = record { name = "payments-api"; namespace = "payments"; idle_since = pos 50 }

abbrev api_before : IdleWorkloadStatus
api_before = record { name = "payments-api"; namespace = "payments"; idle_since = pos 20 }

to_idle_workload_status-map_example :
    to_idle_workload_status (api_found ∷ []) (api_before ∷ [])
    ≡ map (carried_since (api_before ∷ [])) (api_found ∷ [])
to_idle_workload_status-map_example = to_idle_workload_status-map (api_found ∷ []) (api_before ∷ [])

pod_to_deployment-suffixes_example :
    pod_to_deployment ("payments-api" <> ("-" <> ("6d4f9b" <> ("-" <> "xkq2p")))) ≡ "payments-api"
pod_to_deployment-suffixes_example =
    pod_to_deployment-suffixes "payments-api" "6d4f9b" "xkq2p" (ground arith) (ground arith)
