-- ===== src/DeepCopy/Report/Copies.antt =====
-- The deep copies of a CostReport, of its status and of a list of them are new copies.
use namespace_cost_governor.Base.{refl}
use namespace_cost_governor.DeepCopy.Structs.{}
use namespace_cost_governor.DeepCopy.Cells.{
  condition_array_kind, top_consumer_array_kind, idle_event_array_kind, suspension_event_array_kind,
  report_array_kind,
}
use namespace_cost_governor.DeepCopy.Foreign.{Foreign}
use namespace_cost_governor.DeepCopy.Copied.{IsCopy}
use namespace_cost_governor.DeepCopy.Fields.{struct2-IsCopy, struct4-IsCopy}
use namespace_cost_governor.DeepCopy.Parts.{pure-IsCopy, copy_each-IsCopy, copy_ref-IsCopy}
use namespace_cost_governor.DeepCopy.Parts.{copy_each_plain-IsCopy}
use namespace_cost_governor.DeepCopy.Values.{
  read_cost_report_status, read_cost_report, read_cost_report_list,
}
use namespace_cost_governor.DeepCopy.Report.{
  cost_report_status_deep_copy_into, cost_report_deep_copy_into, cost_report_list_deep_copy_into,
}
use namespace_cost_governor.DeepCopy.Foreign.Laws.{IsLawful}

module _ (foreign : Foreign) (lawful : IsLawful foreign) where
  pub cost_report_status-IsCopy :
      IsCopy (cost_report_status_deep_copy_into foreign) read_cost_report_status
  unfolding cost_report_status_deep_copy_into read_cost_report_status
  cost_report_status-IsCopy =
      struct4-IsCopy (λ x. x.top_consumers) (λ x. x.idle_events) (λ x. x.suspended_events)
        (λ x. x.conditions)
        (λ x a0 a1 a2 a3. record x {
          top_consumers = a0;
          idle_events = a1;
          suspended_events = a2;
          conditions = a3;
        })
        (λ x b0 b1 b2 b3. record {
          period = x.period;
          namespace = x.namespace;
          total_cost = x.total_cost;
          top_consumers = b0;
          idle_events = b1;
          suspended_events = b2;
          conditions = b3;
        })
        (copy_ref-IsCopy pure-IsCopy top_consumer_array_kind)
        (copy_ref-IsCopy pure-IsCopy idle_event_array_kind)
        (copy_ref-IsCopy pure-IsCopy suspension_event_array_kind)
        (copy_ref-IsCopy (copy_each_plain-IsCopy lawful.condition) condition_array_kind)
        λ x a0 a1 a2 a3. refl

  pub cost_report-IsCopy : IsCopy (cost_report_deep_copy_into foreign) read_cost_report
  unfolding cost_report_deep_copy_into read_cost_report
  cost_report-IsCopy =
      struct2-IsCopy (λ x. x.object_meta) (λ x. x.status)
        (λ x a0 a1. record x { object_meta = a0; status = a1 })
        (λ x b0 b1. record {
          type_meta = x.type_meta;
          object_meta = b0;
          spec = x.spec;
          status = b1;
        })
        (lawful.object_meta) (cost_report_status-IsCopy) λ x a0 a1. refl

  pub cost_report_list-IsCopy :
      IsCopy (cost_report_list_deep_copy_into foreign) read_cost_report_list
  unfolding cost_report_list_deep_copy_into read_cost_report_list
  cost_report_list-IsCopy =
      struct2-IsCopy (λ x. x.list_meta) (λ x. x.items)
        (λ x a0 a1. record x { list_meta = a0; items = a1 })
        (λ x b0 b1. record { type_meta = x.type_meta; list_meta = b0; items = b1 }) lawful.list_meta
        (copy_ref-IsCopy (copy_each-IsCopy cost_report-IsCopy) report_array_kind) λ x a0 a1. refl
