-- ===== src/DeepCopy/Budget/Copies.antt =====
-- The deep copies of a NamespaceBudget and of a list of them are new copies.
use namespace_cost_governor.Base.{refl}
use namespace_cost_governor.DeepCopy.Structs.{}
use namespace_cost_governor.DeepCopy.Cells.{budget_array_kind}
use namespace_cost_governor.DeepCopy.Foreign.{Foreign}
use namespace_cost_governor.DeepCopy.Copied.{IsCopy}
use namespace_cost_governor.DeepCopy.Fields.{struct2-IsCopy, struct3-IsCopy}
use namespace_cost_governor.DeepCopy.Parts.{copy_each-IsCopy, copy_ref-IsCopy}
use namespace_cost_governor.DeepCopy.Budget.Spec.{namespace_budget_spec-IsCopy}
use namespace_cost_governor.DeepCopy.Budget.Status.{namespace_budget_status-IsCopy}
use namespace_cost_governor.DeepCopy.Values.{read_namespace_budget, read_namespace_budget_list}
use namespace_cost_governor.DeepCopy.Budget.{
  namespace_budget_deep_copy_into, namespace_budget_list_deep_copy_into,
}
use namespace_cost_governor.DeepCopy.Foreign.Laws.{IsLawful}

module _ (foreign : Foreign) (lawful : IsLawful foreign) where
  pub namespace_budget-IsCopy :
      IsCopy (namespace_budget_deep_copy_into foreign) read_namespace_budget
  unfolding namespace_budget_deep_copy_into read_namespace_budget
  namespace_budget-IsCopy =
      struct3-IsCopy (λ x. x.object_meta) (λ x. x.spec) (λ x. x.status)
        (λ x a0 a1 a2. record x { object_meta = a0; spec = a1; status = a2 })
        (λ x b0 b1 b2. record { type_meta = x.type_meta; object_meta = b0; spec = b1; status = b2 })
        (lawful.object_meta) ((namespace_budget_spec-IsCopy foreign lawful))
        ((namespace_budget_status-IsCopy foreign lawful)) λ x a0 a1 a2. refl

  pub namespace_budget_list-IsCopy :
      IsCopy (namespace_budget_list_deep_copy_into foreign) read_namespace_budget_list
  unfolding namespace_budget_list_deep_copy_into read_namespace_budget_list
  namespace_budget_list-IsCopy =
      struct2-IsCopy (λ x. x.list_meta) (λ x. x.items)
        (λ x a0 a1. record x { list_meta = a0; items = a1 })
        (λ x b0 b1. record { type_meta = x.type_meta; list_meta = b0; items = b1 }) lawful.list_meta
        (copy_ref-IsCopy (copy_each-IsCopy namespace_budget-IsCopy) budget_array_kind)
        λ x a0 a1. refl
