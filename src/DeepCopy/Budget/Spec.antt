-- ===== src/DeepCopy/Budget/Spec.antt =====
-- The deep copies of a NamespaceBudgetSpec and of what it holds are new copies.
use namespace_cost_governor.Base.{refl}
use namespace_cost_governor.DeepCopy.Structs.{}
use namespace_cost_governor.DeepCopy.Cells.{
  label_selector_kind, action_array_kind, exclusion_array_kind,
}
use namespace_cost_governor.DeepCopy.Foreign.{Foreign}
use namespace_cost_governor.DeepCopy.Copied.{IsCopy}
use namespace_cost_governor.DeepCopy.Fields.{struct1-IsCopy, struct2-IsCopy, struct3-IsCopy}
use namespace_cost_governor.DeepCopy.Parts.{pure-IsCopy, copy_each-IsCopy, copy_ref-IsCopy}
use namespace_cost_governor.DeepCopy.Values.{
  read_actions, read_exclusion, read_namespace_budget_spec,
}
use namespace_cost_governor.DeepCopy.Budget.{
  actions_deep_copy_into, exclusion_deep_copy_into, namespace_budget_spec_deep_copy_into,
}
use namespace_cost_governor.DeepCopy.Foreign.Laws.{IsLawful}

pub actions-IsCopy : IsCopy actions_deep_copy_into read_actions
unfolding actions_deep_copy_into read_actions
actions-IsCopy =
    struct3-IsCopy (λ x. x.on_warning) (λ x. x.on_exceeded) (λ x. x.on_hard_limit)
      (λ x a0 a1 a2. record x { on_warning = a0; on_exceeded = a1; on_hard_limit = a2 })
      (λ x b0 b1 b2. record { on_warning = b0; on_exceeded = b1; on_hard_limit = b2 })
      (copy_ref-IsCopy pure-IsCopy action_array_kind)
      (copy_ref-IsCopy pure-IsCopy action_array_kind)
      (copy_ref-IsCopy pure-IsCopy action_array_kind) λ x a0 a1 a2. refl

module _ (foreign : Foreign) (lawful : IsLawful foreign) where
  pub exclusion-IsCopy : IsCopy (exclusion_deep_copy_into foreign) read_exclusion
  unfolding exclusion_deep_copy_into read_exclusion
  exclusion-IsCopy =
      struct1-IsCopy (λ x. x.label_selector) (λ x a0. record x { label_selector = a0 })
        (λ x b0. record { name = x.name; label_selector = b0 })
        (copy_ref-IsCopy lawful.label_selector label_selector_kind) λ x a0. refl

  pub namespace_budget_spec-IsCopy :
      IsCopy (namespace_budget_spec_deep_copy_into foreign) read_namespace_budget_spec
  unfolding namespace_budget_spec_deep_copy_into read_namespace_budget_spec
  namespace_budget_spec-IsCopy =
      struct2-IsCopy (λ x. x.actions) (λ x. x.exclusions)
        (λ x a0 a1. record x { actions = a0; exclusions = a1 })
        (λ x b0 b1. record {
          monthly = x.monthly;
          idle_threshold = x.idle_threshold;
          actions = b0;
          exclusions = b1;
        })
        (actions-IsCopy) (copy_ref-IsCopy (copy_each-IsCopy exclusion-IsCopy) exclusion_array_kind)
        λ x a0 a1. refl
