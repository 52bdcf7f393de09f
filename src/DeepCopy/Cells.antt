-- ===== src/DeepCopy/Cells.antt =====
-- The type of a cell: how a value of type `A` is put into one and found again.
use namespace_cost_governor.Base.{◌≡◌, refl, Option, none, some, List, String}
use namespace_cost_governor.Go.Time.{Time}
use namespace_cost_governor.Base.Dict.{Dict}
use namespace_cost_governor.Base.Int.{ℤ}
use namespace_cost_governor.Api.Kube.{Condition}
use namespace_cost_governor.Api.{
  Usage, IdleThreshold, Action, AccumulatedUsage, TotalCost, TopConsumer, IdleEvent,
  SuspensionEvent,
}
use namespace_cost_governor.DeepCopy.Structs.{
  Address, Actions, Exclusion, NamespaceBudgetSpec, IdleWorkload, NamespaceBudgetStatus,
  NamespaceBudget, NamespaceBudgetList, CostReportSpec, CostReportStatus, CostReport,
  CostReportList, LabelSelector, LabelSelectorRequirement,
}
use namespace_cost_governor.DeepCopy.Heap.{Cell}

pub record Kind (A : Type 0) : Type 0 where
  pub wrap : A → Cell
  pub unwrap : Cell → Option A
  pub unwrap-wrap : (x : A) → unwrap (wrap x) ≡ some x

abbrev usage_in : Cell → Option Usage
usage_in (Cell.usage x) = some x
usage_in _ = none

abbrev pub usage_kind : Kind Usage
usage_kind = record { wrap = Cell.usage; unwrap = usage_in; unwrap-wrap = λ x. refl }

abbrev accumulated_usage_in : Cell → Option AccumulatedUsage
accumulated_usage_in (Cell.accumulated_usage x) = some x
accumulated_usage_in _ = none

abbrev pub accumulated_usage_kind : Kind AccumulatedUsage
accumulated_usage_kind = record {
  wrap = Cell.accumulated_usage;
  unwrap = accumulated_usage_in;
  unwrap-wrap = λ x. refl;
}

abbrev action_in : Cell → Option Action
action_in (Cell.action x) = some x
action_in _ = none

abbrev pub action_kind : Kind Action
action_kind = record { wrap = Cell.action; unwrap = action_in; unwrap-wrap = λ x. refl }

abbrev idle_threshold_in : Cell → Option IdleThreshold
idle_threshold_in (Cell.idle_threshold x) = some x
idle_threshold_in _ = none

abbrev pub idle_threshold_kind : Kind IdleThreshold
idle_threshold_kind = record {
  wrap = Cell.idle_threshold;
  unwrap = idle_threshold_in;
  unwrap-wrap = λ x. refl;
}

abbrev actions_in : Cell → Option (Actions Address)
actions_in (Cell.actions x) = some x
actions_in _ = none

abbrev pub actions_kind : Kind (Actions Address)
actions_kind = record { wrap = Cell.actions; unwrap = actions_in; unwrap-wrap = λ x. refl }

abbrev exclusion_in : Cell → Option (Exclusion Address)
exclusion_in (Cell.exclusion x) = some x
exclusion_in _ = none

abbrev pub exclusion_kind : Kind (Exclusion Address)
exclusion_kind = record { wrap = Cell.exclusion; unwrap = exclusion_in; unwrap-wrap = λ x. refl }

abbrev budget_spec_in : Cell → Option (NamespaceBudgetSpec Address)
budget_spec_in (Cell.budget_spec x) = some x
budget_spec_in _ = none

abbrev pub budget_spec_kind : Kind (NamespaceBudgetSpec Address)
budget_spec_kind = record {
  wrap = Cell.budget_spec;
  unwrap = budget_spec_in;
  unwrap-wrap = λ x. refl;
}

abbrev idle_workload_in : Cell → Option IdleWorkload
idle_workload_in (Cell.idle_workload x) = some x
idle_workload_in _ = none

abbrev pub idle_workload_kind : Kind IdleWorkload
idle_workload_kind = record {
  wrap = Cell.idle_workload;
  unwrap = idle_workload_in;
  unwrap-wrap = λ x. refl;
}

abbrev budget_status_in : Cell → Option (NamespaceBudgetStatus Address)
budget_status_in (Cell.budget_status x) = some x
budget_status_in _ = none

abbrev pub budget_status_kind : Kind (NamespaceBudgetStatus Address)
budget_status_kind = record {
  wrap = Cell.budget_status;
  unwrap = budget_status_in;
  unwrap-wrap = λ x. refl;
}

abbrev budget_in : Cell → Option (NamespaceBudget Address)
budget_in (Cell.budget x) = some x
budget_in _ = none

abbrev pub budget_kind : Kind (NamespaceBudget Address)
budget_kind = record { wrap = Cell.budget; unwrap = budget_in; unwrap-wrap = λ x. refl }

abbrev budget_list_in : Cell → Option (NamespaceBudgetList Address)
budget_list_in (Cell.budget_list x) = some x
budget_list_in _ = none

abbrev pub budget_list_kind : Kind (NamespaceBudgetList Address)
budget_list_kind = record {
  wrap = Cell.budget_list;
  unwrap = budget_list_in;
  unwrap-wrap = λ x. refl;
}

abbrev total_cost_in : Cell → Option TotalCost
total_cost_in (Cell.total_cost x) = some x
total_cost_in _ = none

abbrev pub total_cost_kind : Kind TotalCost
total_cost_kind = record { wrap = Cell.total_cost; unwrap = total_cost_in; unwrap-wrap = λ x. refl }

abbrev top_consumer_in : Cell → Option TopConsumer
top_consumer_in (Cell.top_consumer x) = some x
top_consumer_in _ = none

abbrev pub top_consumer_kind : Kind TopConsumer
top_consumer_kind = record {
  wrap = Cell.top_consumer;
  unwrap = top_consumer_in;
  unwrap-wrap = λ x. refl;
}

abbrev idle_event_in : Cell → Option IdleEvent
idle_event_in (Cell.idle_event x) = some x
idle_event_in _ = none

abbrev pub idle_event_kind : Kind IdleEvent
idle_event_kind = record { wrap = Cell.idle_event; unwrap = idle_event_in; unwrap-wrap = λ x. refl }

abbrev suspension_event_in : Cell → Option SuspensionEvent
suspension_event_in (Cell.suspension_event x) = some x
suspension_event_in _ = none

abbrev pub suspension_event_kind : Kind SuspensionEvent
suspension_event_kind = record {
  wrap = Cell.suspension_event;
  unwrap = suspension_event_in;
  unwrap-wrap = λ x. refl;
}

abbrev report_spec_in : Cell → Option CostReportSpec
report_spec_in (Cell.report_spec x) = some x
report_spec_in _ = none

abbrev pub report_spec_kind : Kind CostReportSpec
report_spec_kind = record {
  wrap = Cell.report_spec;
  unwrap = report_spec_in;
  unwrap-wrap = λ x. refl;
}

abbrev report_status_in : Cell → Option (CostReportStatus Address)
report_status_in (Cell.report_status x) = some x
report_status_in _ = none

abbrev pub report_status_kind : Kind (CostReportStatus Address)
report_status_kind = record {
  wrap = Cell.report_status;
  unwrap = report_status_in;
  unwrap-wrap = λ x. refl;
}

abbrev report_in : Cell → Option (CostReport Address)
report_in (Cell.report x) = some x
report_in _ = none

abbrev pub report_kind : Kind (CostReport Address)
report_kind = record { wrap = Cell.report; unwrap = report_in; unwrap-wrap = λ x. refl }

abbrev report_list_in : Cell → Option (CostReportList Address)
report_list_in (Cell.report_list x) = some x
report_list_in _ = none

abbrev pub report_list_kind : Kind (CostReportList Address)
report_list_kind = record {
  wrap = Cell.report_list;
  unwrap = report_list_in;
  unwrap-wrap = λ x. refl;
}

abbrev label_selector_in : Cell → Option (LabelSelector Address)
label_selector_in (Cell.label_selector x) = some x
label_selector_in _ = none

abbrev pub label_selector_kind : Kind (LabelSelector Address)
label_selector_kind = record {
  wrap = Cell.label_selector;
  unwrap = label_selector_in;
  unwrap-wrap = λ x. refl;
}

abbrev labels_in : Cell → Option (Dict String)
labels_in (Cell.labels x) = some x
labels_in _ = none

abbrev pub labels_kind : Kind (Dict String)
labels_kind = record { wrap = Cell.labels; unwrap = labels_in; unwrap-wrap = λ x. refl }

abbrev requirement_array_in : Cell → Option (List (LabelSelectorRequirement Address))
requirement_array_in (Cell.requirement_array x) = some x
requirement_array_in _ = none

abbrev pub requirement_array_kind : Kind (List (LabelSelectorRequirement Address))
requirement_array_kind = record {
  wrap = Cell.requirement_array;
  unwrap = requirement_array_in;
  unwrap-wrap = λ x. refl;
}

abbrev count_in : Cell → Option ℤ
count_in (Cell.count x) = some x
count_in _ = none

abbrev pub count_kind : Kind ℤ
count_kind = record { wrap = Cell.count; unwrap = count_in; unwrap-wrap = λ x. refl }

abbrev time_in : Cell → Option Time
time_in (Cell.time x) = some x
time_in _ = none

abbrev pub time_kind : Kind Time
time_kind = record { wrap = Cell.time; unwrap = time_in; unwrap-wrap = λ x. refl }

abbrev texts_in : Cell → Option (List String)
texts_in (Cell.texts x) = some x
texts_in _ = none

abbrev pub texts_kind : Kind (List String)
texts_kind = record { wrap = Cell.texts; unwrap = texts_in; unwrap-wrap = λ x. refl }

abbrev action_array_in : Cell → Option (List Action)
action_array_in (Cell.action_array x) = some x
action_array_in _ = none

abbrev pub action_array_kind : Kind (List Action)
action_array_kind = record {
  wrap = Cell.action_array;
  unwrap = action_array_in;
  unwrap-wrap = λ x. refl;
}

abbrev exclusion_array_in : Cell → Option (List (Exclusion Address))
exclusion_array_in (Cell.exclusion_array x) = some x
exclusion_array_in _ = none

abbrev pub exclusion_array_kind : Kind (List (Exclusion Address))
exclusion_array_kind = record {
  wrap = Cell.exclusion_array;
  unwrap = exclusion_array_in;
  unwrap-wrap = λ x. refl;
}

abbrev idle_workload_array_in : Cell → Option (List IdleWorkload)
idle_workload_array_in (Cell.idle_workload_array x) = some x
idle_workload_array_in _ = none

abbrev pub idle_workload_array_kind : Kind (List IdleWorkload)
idle_workload_array_kind = record {
  wrap = Cell.idle_workload_array;
  unwrap = idle_workload_array_in;
  unwrap-wrap = λ x. refl;
}

abbrev condition_array_in : Cell → Option (List Condition)
condition_array_in (Cell.condition_array x) = some x
condition_array_in _ = none

abbrev pub condition_array_kind : Kind (List Condition)
condition_array_kind = record {
  wrap = Cell.condition_array;
  unwrap = condition_array_in;
  unwrap-wrap = λ x. refl;
}

abbrev budget_array_in : Cell → Option (List (NamespaceBudget Address))
budget_array_in (Cell.budget_array x) = some x
budget_array_in _ = none

abbrev pub budget_array_kind : Kind (List (NamespaceBudget Address))
budget_array_kind = record {
  wrap = Cell.budget_array;
  unwrap = budget_array_in;
  unwrap-wrap = λ x. refl;
}

abbrev top_consumer_array_in : Cell → Option (List TopConsumer)
top_consumer_array_in (Cell.top_consumer_array x) = some x
top_consumer_array_in _ = none

abbrev pub top_consumer_array_kind : Kind (List TopConsumer)
top_consumer_array_kind = record {
  wrap = Cell.top_consumer_array;
  unwrap = top_consumer_array_in;
  unwrap-wrap = λ x. refl;
}

abbrev idle_event_array_in : Cell → Option (List IdleEvent)
idle_event_array_in (Cell.idle_event_array x) = some x
idle_event_array_in _ = none

abbrev pub idle_event_array_kind : Kind (List IdleEvent)
idle_event_array_kind = record {
  wrap = Cell.idle_event_array;
  unwrap = idle_event_array_in;
  unwrap-wrap = λ x. refl;
}

abbrev suspension_event_array_in : Cell → Option (List SuspensionEvent)
suspension_event_array_in (Cell.suspension_event_array x) = some x
suspension_event_array_in _ = none

abbrev pub suspension_event_array_kind : Kind (List SuspensionEvent)
suspension_event_array_kind = record {
  wrap = Cell.suspension_event_array;
  unwrap = suspension_event_array_in;
  unwrap-wrap = λ x. refl;
}

abbrev report_array_in : Cell → Option (List (CostReport Address))
report_array_in (Cell.report_array x) = some x
report_array_in _ = none

abbrev pub report_array_kind : Kind (List (CostReport Address))
report_array_kind = record {
  wrap = Cell.report_array;
  unwrap = report_array_in;
  unwrap-wrap = λ x. refl;
}
