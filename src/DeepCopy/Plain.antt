-- ===== src/DeepCopy/Plain.antt =====
-- api/v1alpha1/zz_generated.deepcopy.go, the structs that hold no reference: `*out = *in` copies
-- them whole.
use namespace_cost_governor.Api.{
  Usage, IdleThreshold, Action, AccumulatedUsage, TotalCost, TopConsumer, IdleEvent,
  SuspensionEvent,
}
use namespace_cost_governor.DeepCopy.Structs.{Address, CostReportSpec}
use namespace_cost_governor.DeepCopy.Cells.{
  usage_kind, accumulated_usage_kind, action_kind, idle_threshold_kind, total_cost_kind,
  top_consumer_kind, idle_event_kind, suspension_event_kind, report_spec_kind,
}
use namespace_cost_governor.DeepCopy.Allocating.{Allocating, pure, copy_ref}

unfoldable pub usage_deep_copy_into : Usage → Allocating Usage
usage_deep_copy_into x = pure x

unfoldable pub usage_deep_copy : Address Usage → Allocating (Address Usage)
unfolding usage_deep_copy_into copy_ref
usage_deep_copy = copy_ref usage_deep_copy_into usage_kind

unfoldable pub accumulated_usage_deep_copy_into : AccumulatedUsage → Allocating AccumulatedUsage
accumulated_usage_deep_copy_into x = pure x

unfoldable pub accumulated_usage_deep_copy :
    Address AccumulatedUsage → Allocating (Address AccumulatedUsage)
unfolding accumulated_usage_deep_copy_into copy_ref
accumulated_usage_deep_copy = copy_ref accumulated_usage_deep_copy_into accumulated_usage_kind

unfoldable pub action_deep_copy_into : Action → Allocating Action
action_deep_copy_into x = pure x

unfoldable pub action_deep_copy : Address Action → Allocating (Address Action)
unfolding action_deep_copy_into copy_ref
action_deep_copy = copy_ref action_deep_copy_into action_kind

unfoldable pub idle_threshold_deep_copy_into : IdleThreshold → Allocating IdleThreshold
idle_threshold_deep_copy_into x = pure x

unfoldable pub idle_threshold_deep_copy : Address IdleThreshold → Allocating (Address IdleThreshold)
unfolding idle_threshold_deep_copy_into copy_ref
idle_threshold_deep_copy = copy_ref idle_threshold_deep_copy_into idle_threshold_kind

unfoldable pub total_cost_deep_copy_into : TotalCost → Allocating TotalCost
total_cost_deep_copy_into x = pure x

unfoldable pub total_cost_deep_copy : Address TotalCost → Allocating (Address TotalCost)
unfolding total_cost_deep_copy_into copy_ref
total_cost_deep_copy = copy_ref total_cost_deep_copy_into total_cost_kind

unfoldable pub top_consumer_deep_copy_into : TopConsumer → Allocating TopConsumer
top_consumer_deep_copy_into x = pure x

unfoldable pub top_consumer_deep_copy : Address TopConsumer → Allocating (Address TopConsumer)
unfolding top_consumer_deep_copy_into copy_ref
top_consumer_deep_copy = copy_ref top_consumer_deep_copy_into top_consumer_kind

unfoldable pub idle_event_deep_copy_into : IdleEvent → Allocating IdleEvent
idle_event_deep_copy_into x = pure x

unfoldable pub idle_event_deep_copy : Address IdleEvent → Allocating (Address IdleEvent)
unfolding idle_event_deep_copy_into copy_ref
idle_event_deep_copy = copy_ref idle_event_deep_copy_into idle_event_kind

unfoldable pub suspension_event_deep_copy_into : SuspensionEvent → Allocating SuspensionEvent
suspension_event_deep_copy_into x = pure x

unfoldable pub suspension_event_deep_copy :
    Address SuspensionEvent → Allocating (Address SuspensionEvent)
unfolding suspension_event_deep_copy_into copy_ref
suspension_event_deep_copy = copy_ref suspension_event_deep_copy_into suspension_event_kind

unfoldable pub cost_report_spec_deep_copy_into : CostReportSpec → Allocating CostReportSpec
cost_report_spec_deep_copy_into x = pure x

unfoldable pub cost_report_spec_deep_copy :
    Address CostReportSpec → Allocating (Address CostReportSpec)
unfolding cost_report_spec_deep_copy_into copy_ref
cost_report_spec_deep_copy = copy_ref cost_report_spec_deep_copy_into report_spec_kind
