-- ===== src/DeepCopy/Budget.antt =====
-- api/v1alpha1/zz_generated.deepcopy.go, NamespaceBudget and what it holds. Each `deep_copy_into`
-- returns what it writes into `out`.
pub mod Spec
pub mod Status
pub mod Copies
use namespace_cost_governor.Base.{Option, none, some}
use namespace_cost_governor.Api.{
  Usage, IdleThreshold, Action, AccumulatedUsage, TotalCost, TopConsumer, IdleEvent,
  SuspensionEvent,
}
use namespace_cost_governor.DeepCopy.Structs.{
  Address, Target, ObjectMeta, Actions, Exclusion, NamespaceBudgetSpec, IdleWorkload,
  NamespaceBudgetStatus, NamespaceBudget, NamespaceBudgetList, CostReportSpec, CostReportStatus,
  CostReport, CostReportList,
}
use namespace_cost_governor.DeepCopy.Cells.{
  usage_kind, accumulated_usage_kind, action_kind, idle_threshold_kind, actions_kind,
  exclusion_kind, budget_spec_kind, idle_workload_kind, budget_status_kind, budget_kind,
  budget_list_kind, total_cost_kind, top_consumer_kind, idle_event_kind, suspension_event_kind,
  report_spec_kind, report_status_kind, report_kind, report_list_kind, label_selector_kind,
  time_kind, texts_kind, action_array_kind, exclusion_array_kind, idle_workload_array_kind,
  condition_array_kind, budget_array_kind, top_consumer_array_kind, idle_event_array_kind,
  suspension_event_array_kind, report_array_kind,
}
use namespace_cost_governor.DeepCopy.Allocating.{Allocating, pure, ◌>>=◌, copy_each, copy_ref}
use namespace_cost_governor.DeepCopy.Foreign.{Foreign}
use namespace_cost_governor.DeepCopy.Plain.{
  usage_deep_copy_into, accumulated_usage_deep_copy_into, action_deep_copy_into,
  idle_threshold_deep_copy_into, total_cost_deep_copy_into, top_consumer_deep_copy_into,
  idle_event_deep_copy_into, suspension_event_deep_copy_into, cost_report_spec_deep_copy_into,
}

unfoldable pub actions_deep_copy_into : Actions Address → Allocating (Actions Address)
unfolding ◌>>=◌ copy_ref
actions_deep_copy_into actions = do
  on_warning ← copy_ref pure action_array_kind actions.on_warning
  on_exceeded ← copy_ref pure action_array_kind actions.on_exceeded
  on_hard_limit ← copy_ref pure action_array_kind actions.on_hard_limit
  pure (record actions {
    on_warning = on_warning;
    on_exceeded = on_exceeded;
    on_hard_limit = on_hard_limit;
  })

unfoldable pub actions_deep_copy :
    Address (Actions Address) → Allocating (Address (Actions Address))
unfolding actions_deep_copy_into copy_ref
actions_deep_copy = copy_ref actions_deep_copy_into actions_kind

module _ (foreign : Foreign) where
  unfoldable pub exclusion_deep_copy_into : Exclusion Address → Allocating (Exclusion Address)
  unfolding ◌>>=◌ copy_ref
  exclusion_deep_copy_into exclusion = do
    selector ←
        copy_ref foreign.label_selector_deep_copy_into label_selector_kind exclusion.label_selector
    pure (record exclusion { label_selector = selector })

  unfoldable pub exclusion_deep_copy :
      Address (Exclusion Address) → Allocating (Address (Exclusion Address))
  unfolding exclusion_deep_copy_into copy_ref
  exclusion_deep_copy = copy_ref exclusion_deep_copy_into exclusion_kind

  unfoldable pub namespace_budget_spec_deep_copy_into :
      NamespaceBudgetSpec Address → Allocating (NamespaceBudgetSpec Address)
  unfolding ◌>>=◌ copy_ref copy_each actions_deep_copy_into exclusion_deep_copy_into
  namespace_budget_spec_deep_copy_into spec = do
    actions ← actions_deep_copy_into spec.actions
    exclusions ← copy_ref (copy_each exclusion_deep_copy_into) exclusion_array_kind spec.exclusions
    pure (record spec { actions = actions; exclusions = exclusions })

  unfoldable pub namespace_budget_spec_deep_copy :
      Address (NamespaceBudgetSpec Address) → Allocating (Address (NamespaceBudgetSpec Address))
  unfolding namespace_budget_spec_deep_copy_into copy_ref
  namespace_budget_spec_deep_copy = copy_ref namespace_budget_spec_deep_copy_into budget_spec_kind

  unfoldable pub idle_workload_deep_copy_into : IdleWorkload → Allocating IdleWorkload
  unfolding ◌>>=◌
  idle_workload_deep_copy_into workload = do
    idle_since ← foreign.time_deep_copy_into workload.idle_since
    pure (record workload { idle_since = idle_since })

  unfoldable pub idle_workload_deep_copy : Address IdleWorkload → Allocating (Address IdleWorkload)
  unfolding idle_workload_deep_copy_into copy_ref
  idle_workload_deep_copy = copy_ref idle_workload_deep_copy_into idle_workload_kind

  unfoldable pub namespace_budget_status_deep_copy_into :
      NamespaceBudgetStatus Address → Allocating (NamespaceBudgetStatus Address)
  unfolding ◌>>=◌ copy_ref copy_each idle_workload_deep_copy_into
  namespace_budget_status_deep_copy_into status = do
    last_reconcile ← foreign.time_deep_copy_into status.last_reconcile
    idle_workloads ←
        copy_ref (copy_each idle_workload_deep_copy_into) idle_workload_array_kind
          status.idle_workloads
    conditions ←
        copy_ref (copy_each foreign.condition_deep_copy_into) condition_array_kind status.conditions
    pure (record status {
      last_reconcile = last_reconcile;
      idle_workloads = idle_workloads;
      conditions = conditions;
    })

  unfoldable pub namespace_budget_status_deep_copy :
      Address (NamespaceBudgetStatus Address) → Allocating (Address (NamespaceBudgetStatus Address))
  unfolding namespace_budget_status_deep_copy_into copy_ref
  namespace_budget_status_deep_copy =
      copy_ref namespace_budget_status_deep_copy_into budget_status_kind

  unfoldable pub namespace_budget_deep_copy_into :
      NamespaceBudget Address → Allocating (NamespaceBudget Address)
  unfolding ◌>>=◌ namespace_budget_spec_deep_copy_into namespace_budget_status_deep_copy_into
  namespace_budget_deep_copy_into budget = do
    object_meta ← foreign.object_meta_deep_copy_into budget.object_meta
    spec ← namespace_budget_spec_deep_copy_into budget.spec
    status ← namespace_budget_status_deep_copy_into budget.status
    pure (record budget { object_meta = object_meta; spec = spec; status = status })

  unfoldable pub namespace_budget_deep_copy :
      Address (NamespaceBudget Address) → Allocating (Address (NamespaceBudget Address))
  unfolding namespace_budget_deep_copy_into copy_ref
  namespace_budget_deep_copy = copy_ref namespace_budget_deep_copy_into budget_kind

  unfoldable pub namespace_budget_list_deep_copy_into :
      NamespaceBudgetList Address → Allocating (NamespaceBudgetList Address)
  unfolding ◌>>=◌ copy_ref copy_each namespace_budget_deep_copy_into
  namespace_budget_list_deep_copy_into list = do
    list_meta ← foreign.list_meta_deep_copy_into list.list_meta
    items ← copy_ref (copy_each namespace_budget_deep_copy_into) budget_array_kind list.items
    pure (record list { list_meta = list_meta; items = items })

  unfoldable pub namespace_budget_list_deep_copy :
      Address (NamespaceBudgetList Address) → Allocating (Address (NamespaceBudgetList Address))
  unfolding namespace_budget_list_deep_copy_into copy_ref
  namespace_budget_list_deep_copy = copy_ref namespace_budget_list_deep_copy_into budget_list_kind
