-- ===== src/DeepCopy/Report.antt =====
-- api/v1alpha1/zz_generated.deepcopy.go, CostReport and what it holds.
pub mod Copies
use namespace_cost_governor.Base.{Option, none, some}
use namespace_cost_governor.Api.{
  Usage, IdleThreshold, Action, AccumulatedUsage, TotalCost, TopConsumer, IdleEvent,
  SuspensionEvent,
}
use namespace_cost_governor.DeepCopy.Structs.{
  Address, Target, ObjectMeta, Actions, Exclusion, NamespaceBudgetSpec, IdleWorkload,
  NamespaceBudgetStatus, NamespaceBudget, NamespaceBudgetList, CostReportSpec, CostReportStatus,
  CostReport, CostReportList,
}
use namespace_cost_governor.DeepCopy.Cells.{
  usage_kind, accumulated_usage_kind, action_kind, idle_threshold_kind, actions_kind,
  exclusion_kind, budget_spec_kind, idle_workload_kind, budget_status_kind, budget_kind,
  budget_list_kind, total_cost_kind, top_consumer_kind, idle_event_kind, suspension_event_kind,
  report_spec_kind, report_status_kind, report_kind, report_list_kind, label_selector_kind,
  time_kind, texts_kind, action_array_kind, exclusion_array_kind, idle_workload_array_kind,
  condition_array_kind, budget_array_kind, top_consumer_array_kind, idle_event_array_kind,
  suspension_event_array_kind, report_array_kind,
}
use namespace_cost_governor.DeepCopy.Allocating.{Allocating, pure, ◌>>=◌, copy_each, copy_ref}
use namespace_cost_governor.DeepCopy.Foreign.{Foreign}
use namespace_cost_governor.DeepCopy.Plain.{
  usage_deep_copy_into, accumulated_usage_deep_copy_into, action_deep_copy_into,
  idle_threshold_deep_copy_into, total_cost_deep_copy_into, top_consumer_deep_copy_into,
  idle_event_deep_copy_into, suspension_event_deep_copy_into, cost_report_spec_deep_copy_into,
}

module _ (foreign : Foreign) where
  unfoldable pub cost_report_status_deep_copy_into :
      CostReportStatus Address → Allocating (CostReportStatus Address)
  unfolding ◌>>=◌ copy_ref copy_each
  cost_report_status_deep_copy_into status = do
    top_consumers ← copy_ref pure top_consumer_array_kind status.top_consumers
    idle_events ← copy_ref pure idle_event_array_kind status.idle_events
    suspended_events ← copy_ref pure suspension_event_array_kind status.suspended_events
    conditions ←
        copy_ref (copy_each foreign.condition_deep_copy_into) condition_array_kind status.conditions
    pure (record status {
      top_consumers = top_consumers;
      idle_events = idle_events;
      suspended_events = suspended_events;
      conditions = conditions;
    })

  unfoldable pub cost_report_status_deep_copy :
      Address (CostReportStatus Address) → Allocating (Address (CostReportStatus Address))
  unfolding cost_report_status_deep_copy_into copy_ref
  cost_report_status_deep_copy = copy_ref cost_report_status_deep_copy_into report_status_kind

  unfoldable pub cost_report_deep_copy_into : CostReport Address → Allocating (CostReport Address)
  unfolding ◌>>=◌ cost_report_status_deep_copy_into
  cost_report_deep_copy_into report = do
    object_meta ← foreign.object_meta_deep_copy_into report.object_meta
    status ← cost_report_status_deep_copy_into report.status
    pure (record report { object_meta = object_meta; status = status })

  unfoldable pub cost_report_deep_copy :
      Address (CostReport Address) → Allocating (Address (CostReport Address))
  unfolding cost_report_deep_copy_into copy_ref
  cost_report_deep_copy = copy_ref cost_report_deep_copy_into report_kind

  unfoldable pub cost_report_list_deep_copy_into :
      CostReportList Address → Allocating (CostReportList Address)
  unfolding ◌>>=◌ copy_ref copy_each cost_report_deep_copy_into
  cost_report_list_deep_copy_into list = do
    list_meta ← foreign.list_meta_deep_copy_into list.list_meta
    items ← copy_ref (copy_each cost_report_deep_copy_into) report_array_kind list.items
    pure (record list { list_meta = list_meta; items = items })

  unfoldable pub cost_report_list_deep_copy :
      Address (CostReportList Address) → Allocating (Address (CostReportList Address))
  unfolding cost_report_list_deep_copy_into copy_ref
  cost_report_list_deep_copy = copy_ref cost_report_list_deep_copy_into report_list_kind
