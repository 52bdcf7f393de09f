-- ===== src/DeepCopy/Budget/Status.antt =====
-- The deep copies of a NamespaceBudgetStatus and of what it holds are new copies.
use namespace_cost_governor.Base.{refl}
use namespace_cost_governor.DeepCopy.Structs.{}
use namespace_cost_governor.DeepCopy.Cells.{idle_workload_array_kind, condition_array_kind}
use namespace_cost_governor.DeepCopy.Reading
use namespace_cost_governor.DeepCopy.Reading.{read_ref, read_each}
use namespace_cost_governor.DeepCopy.Foreign.{Foreign}
use namespace_cost_governor.DeepCopy.Stable.{IsStable-pure}
use namespace_cost_governor.DeepCopy.Copied.{IsCopy, Fresh-pure, Follows-pure}
use namespace_cost_governor.DeepCopy.Fields.{plain_then-IsCopy, struct2-IsCopy}
use namespace_cost_governor.DeepCopy.Parts.{Follows-IsCopy, copy_ref-IsCopy}
use namespace_cost_governor.DeepCopy.Parts.{copy_each_plain-IsCopy}
use namespace_cost_governor.DeepCopy.Values.{read_namespace_budget_status}
use namespace_cost_governor.DeepCopy.Budget.{
  idle_workload_deep_copy_into, namespace_budget_status_deep_copy_into,
}
use namespace_cost_governor.DeepCopy.Foreign.Laws.{IsLawful}

module _ (foreign : Foreign) (lawful : IsLawful foreign) where
  pub idle_workload-IsCopy : IsCopy (idle_workload_deep_copy_into foreign) Reading.pure
  unfolding idle_workload_deep_copy_into
  idle_workload-IsCopy = plain_then-IsCopy _ _ lawful.time (
      Follows-IsCopy _ _ IsStable-pure
        λ x h sound. Follows-pure h.next _ h x x sound (Fresh-pure x))

  pub namespace_budget_status-IsCopy :
      IsCopy (namespace_budget_status_deep_copy_into foreign) read_namespace_budget_status
  unfolding namespace_budget_status_deep_copy_into read_namespace_budget_status
  namespace_budget_status-IsCopy = plain_then-IsCopy _ _ lawful.time (
      struct2-IsCopy (λ x. x.idle_workloads) (λ x. x.conditions)
        (λ x a0 a1. record x { idle_workloads = a0; conditions = a1 })
        (λ x b0 b1. record {
          phase = x.phase;
          current_usage = x.current_usage;
          accumulated = x.accumulated;
          last_reconcile = x.last_reconcile;
          budget_percent = x.budget_percent;
          idle_workloads = b0;
          last_report_ref = x.last_report_ref;
          conditions = b1;
        })
        (copy_ref-IsCopy (copy_each_plain-IsCopy idle_workload-IsCopy) idle_workload_array_kind)
        (copy_ref-IsCopy (copy_each_plain-IsCopy lawful.condition) condition_array_kind)
        λ x a0 a1. refl)
