-- ===== src/DeepCopy/Values.antt =====
-- The values that the structs in memory stand for.
use namespace_cost_governor.Api.{}
use namespace_cost_governor.DeepCopy.Structs.{
  Address, Target, ObjectMeta, Actions, Exclusion, NamespaceBudgetSpec, NamespaceBudgetStatus,
  NamespaceBudget, NamespaceBudgetList, CostReportStatus, CostReport, CostReportList, ListMeta,
  LabelSelector, LabelSelectorRequirement,
}
use namespace_cost_governor.DeepCopy.Cells.{
  label_selector_kind, labels_kind, requirement_array_kind, count_kind, time_kind, texts_kind,
  action_array_kind, exclusion_array_kind, idle_workload_array_kind, condition_array_kind,
  budget_array_kind, top_consumer_array_kind, idle_event_array_kind, suspension_event_array_kind,
  report_array_kind,
}
use namespace_cost_governor.DeepCopy.Reading.{Reading, pure, ◌>>=◌, read_each, read_ref}

unfoldable pub read_object_meta : ObjectMeta Address → Reading (ObjectMeta Target)
unfolding ◌>>=◌ read_ref read_each
read_object_meta x = do
  finalizers ← read_ref pure texts_kind x.finalizers
  deletion_timestamp ← read_ref pure time_kind x.deletion_timestamp
  pure (record {
    name = x.name;
    namespace = x.namespace;
    finalizers = finalizers;
    deletion_timestamp = deletion_timestamp;
  })

unfoldable pub read_list_meta : ListMeta Address → Reading (ListMeta Target)
unfolding ◌>>=◌ read_ref
read_list_meta x = do
  remaining_item_count ← read_ref pure count_kind x.remaining_item_count
  pure (record {
    resource_version = x.resource_version;
    remaining_item_count = remaining_item_count;
  })

unfoldable pub read_requirement :
    LabelSelectorRequirement Address → Reading (LabelSelectorRequirement Target)
unfolding ◌>>=◌ read_ref
read_requirement x = do
  values ← read_ref pure texts_kind x.values
  pure (record { key = x.key; operator = x.operator; values = values })

unfoldable pub read_label_selector : LabelSelector Address → Reading (LabelSelector Target)
unfolding ◌>>=◌ read_ref read_each read_requirement
read_label_selector x = do
  match_labels ← read_ref pure labels_kind x.match_labels
  match_expressions ←
      read_ref (read_each read_requirement) requirement_array_kind x.match_expressions
  pure (record { match_labels = match_labels; match_expressions = match_expressions })

unfoldable pub read_actions : Actions Address → Reading (Actions Target)
unfolding ◌>>=◌ read_ref read_each
read_actions x = do
  on_warning ← read_ref pure action_array_kind x.on_warning
  on_exceeded ← read_ref pure action_array_kind x.on_exceeded
  on_hard_limit ← read_ref pure action_array_kind x.on_hard_limit
  pure
      (record { on_warning = on_warning; on_exceeded = on_exceeded; on_hard_limit = on_hard_limit })

unfoldable pub read_exclusion : Exclusion Address → Reading (Exclusion Target)
unfolding ◌>>=◌ read_ref read_each read_label_selector
read_exclusion x = do
  label_selector ← read_ref read_label_selector label_selector_kind x.label_selector
  pure (record { name = x.name; label_selector = label_selector })

unfoldable pub read_namespace_budget_spec :
    NamespaceBudgetSpec Address → Reading (NamespaceBudgetSpec Target)
unfolding ◌>>=◌ read_ref read_each read_actions read_exclusion
read_namespace_budget_spec x = do
  actions ← read_actions x.actions
  exclusions ← read_ref (read_each read_exclusion) exclusion_array_kind x.exclusions
  pure (record {
    monthly = x.monthly;
    idle_threshold = x.idle_threshold;
    actions = actions;
    exclusions = exclusions;
  })

unfoldable pub read_namespace_budget_status :
    NamespaceBudgetStatus Address → Reading (NamespaceBudgetStatus Target)
unfolding ◌>>=◌ read_ref read_each
read_namespace_budget_status x = do
  idle_workloads ← read_ref pure idle_workload_array_kind x.idle_workloads
  conditions ← read_ref pure condition_array_kind x.conditions
  pure (record {
    phase = x.phase;
    current_usage = x.current_usage;
    accumulated = x.accumulated;
    last_reconcile = x.last_reconcile;
    budget_percent = x.budget_percent;
    idle_workloads = idle_workloads;
    last_report_ref = x.last_report_ref;
    conditions = conditions;
  })

unfoldable pub read_namespace_budget : NamespaceBudget Address → Reading (NamespaceBudget Target)
unfolding ◌>>=◌ read_ref read_each read_object_meta read_namespace_budget_spec
    read_namespace_budget_status
read_namespace_budget x = do
  object_meta ← read_object_meta x.object_meta
  spec ← read_namespace_budget_spec x.spec
  status ← read_namespace_budget_status x.status
  pure (record { type_meta = x.type_meta; object_meta = object_meta; spec = spec; status = status })

unfoldable pub read_namespace_budget_list :
    NamespaceBudgetList Address → Reading (NamespaceBudgetList Target)
unfolding ◌>>=◌ read_ref read_each read_namespace_budget read_list_meta
read_namespace_budget_list x = do
  list_meta ← read_list_meta x.list_meta
  items ← read_ref (read_each read_namespace_budget) budget_array_kind x.items
  pure (record { type_meta = x.type_meta; list_meta = list_meta; items = items })

unfoldable pub read_cost_report_status :
    CostReportStatus Address → Reading (CostReportStatus Target)
unfolding ◌>>=◌ read_ref read_each
read_cost_report_status x = do
  top_consumers ← read_ref pure top_consumer_array_kind x.top_consumers
  idle_events ← read_ref pure idle_event_array_kind x.idle_events
  suspended_events ← read_ref pure suspension_event_array_kind x.suspended_events
  conditions ← read_ref pure condition_array_kind x.conditions
  pure (record {
    period = x.period;
    namespace = x.namespace;
    total_cost = x.total_cost;
    top_consumers = top_consumers;
    idle_events = idle_events;
    suspended_events = suspended_events;
    conditions = conditions;
  })

unfoldable pub read_cost_report : CostReport Address → Reading (CostReport Target)
unfolding ◌>>=◌ read_ref read_each read_object_meta read_cost_report_status
read_cost_report x = do
  object_meta ← read_object_meta x.object_meta
  status ← read_cost_report_status x.status
  pure (record {
    type_meta = x.type_meta;
    object_meta = object_meta;
    spec = x.spec;
    status = status;
  })

unfoldable pub read_cost_report_list : CostReportList Address → Reading (CostReportList Target)
unfolding ◌>>=◌ read_ref read_each read_cost_report read_list_meta
read_cost_report_list x = do
  list_meta ← read_list_meta x.list_meta
  items ← read_ref (read_each read_cost_report) report_array_kind x.items
  pure (record { type_meta = x.type_meta; list_meta = list_meta; items = items })
