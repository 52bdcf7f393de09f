-- ===== src/DeepCopy/Heap.antt =====
-- The heap of a Go program, as far as api/v1alpha1/zz_generated.deepcopy.go uses it. A cell holds
-- what `new` allocates, a struct, or what `make` allocates, a whole array or map; a slice is the address of
-- its array, since none of the code takes a part of one.
use namespace_cost_governor.Base.{ℕ, String, Option, List}
use namespace_cost_governor.Go.Time.{Time}
use namespace_cost_governor.Base.Dict.{Dict}
use namespace_cost_governor.Base.Int.{ℤ}
use namespace_cost_governor.Api.Kube.{Condition}
use namespace_cost_governor.Api.{
  Usage, IdleThreshold, Action, AccumulatedUsage, TotalCost, TopConsumer, IdleEvent,
  SuspensionEvent,
}
use namespace_cost_governor.DeepCopy.Structs.{
  Address, Actions, Exclusion, NamespaceBudgetSpec, IdleWorkload, NamespaceBudgetStatus,
  NamespaceBudget, NamespaceBudgetList, CostReportSpec, CostReportStatus, CostReport,
  CostReportList, LabelSelector, LabelSelectorRequirement,
}

pub data Cell : Type 0 where
  usage : Usage → Cell
  accumulated_usage : AccumulatedUsage → Cell
  action : Action → Cell
  idle_threshold : IdleThreshold → Cell
  actions : Actions Address → Cell
  exclusion : Exclusion Address → Cell
  budget_spec : NamespaceBudgetSpec Address → Cell
  idle_workload : IdleWorkload → Cell
  budget_status : NamespaceBudgetStatus Address → Cell
  budget : NamespaceBudget Address → Cell
  budget_list : NamespaceBudgetList Address → Cell
  total_cost : TotalCost → Cell
  top_consumer : TopConsumer → Cell
  idle_event : IdleEvent → Cell
  suspension_event : SuspensionEvent → Cell
  report_spec : CostReportSpec → Cell
  report_status : CostReportStatus Address → Cell
  report : CostReport Address → Cell
  report_list : CostReportList Address → Cell
  label_selector : LabelSelector Address → Cell
  labels : Dict String → Cell
  requirement_array : List (LabelSelectorRequirement Address) → Cell
  count : ℤ → Cell
  time : Time → Cell
  texts : List String → Cell
  action_array : List Action → Cell
  exclusion_array : List (Exclusion Address) → Cell
  idle_workload_array : List IdleWorkload → Cell
  condition_array : List Condition → Cell
  budget_array : List (NamespaceBudget Address) → Cell
  top_consumer_array : List TopConsumer → Cell
  idle_event_array : List IdleEvent → Cell
  suspension_event_array : List SuspensionEvent → Cell
  report_array : List (CostReport Address) → Cell

-- `next` is the first address that was never allocated.
pub record Heap : Type 0 where
  pub next : ℕ
  pub cell : ℕ → Option Cell
