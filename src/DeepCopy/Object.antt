-- ===== src/DeepCopy/Object.antt =====
-- The root types as runtime.Object: `DeepCopyObject` of api/v1alpha1/zz_generated.deepcopy.go. An
-- interface is nil, or holds a pointer, which may be nil, with its type.
pub mod Typed
pub mod Separate
use namespace_cost_governor.Base.{ℕ, Bool, true, false, Option, none, some}
use namespace_cost_governor.DeepCopy.Structs.{
  Address, Target, NamespaceBudget, NamespaceBudgetList, CostReport, CostReportList,
}
use namespace_cost_governor.DeepCopy.Cells.{
  Kind, budget_kind, budget_list_kind, report_kind, report_list_kind,
}
use namespace_cost_governor.DeepCopy.Reading
use namespace_cost_governor.DeepCopy.Reading.{Reading, at}
use namespace_cost_governor.DeepCopy.Allocating.{Allocating, pure, ◌>>=◌}
use namespace_cost_governor.DeepCopy.Foreign.{Foreign}
use namespace_cost_governor.DeepCopy.Values.{
  read_namespace_budget, read_namespace_budget_list, read_cost_report, read_cost_report_list,
}
use namespace_cost_governor.DeepCopy.Budget.{
  namespace_budget_deep_copy, namespace_budget_list_deep_copy,
}
use namespace_cost_governor.DeepCopy.Report.{cost_report_deep_copy, cost_report_list_deep_copy}

-- A pointer in an interface, with its type.
pub data Object : Type 0 where
  namespace_budget : Address (NamespaceBudget Address) → Object
  namespace_budget_list : Address (NamespaceBudgetList Address) → Object
  cost_report : Address (CostReport Address) → Object
  cost_report_list : Address (CostReportList Address) → Object

-- `if c := in.DeepCopy(); c != nil { return c }; return nil`
unfoldable pub as_object : (Option ℕ → Object) → Option ℕ → Option Object
as_object wrap none = none
as_object wrap (some q) = some (wrap (some q))

module _ (foreign : Foreign) where
  unfoldable pub namespace_budget_deep_copy_object :
      Address (NamespaceBudget Address) → Allocating (Option Object)
  unfolding ◌>>=◌ namespace_budget_deep_copy as_object
  namespace_budget_deep_copy_object p = do
    c ← namespace_budget_deep_copy foreign p
    pure (as_object Object.namespace_budget c)

  unfoldable pub namespace_budget_list_deep_copy_object :
      Address (NamespaceBudgetList Address) → Allocating (Option Object)
  unfolding ◌>>=◌ namespace_budget_list_deep_copy as_object
  namespace_budget_list_deep_copy_object p = do
    c ← namespace_budget_list_deep_copy foreign p
    pure (as_object Object.namespace_budget_list c)

  unfoldable pub cost_report_deep_copy_object :
      Address (CostReport Address) → Allocating (Option Object)
  unfolding ◌>>=◌ cost_report_deep_copy as_object
  cost_report_deep_copy_object p = do
    c ← cost_report_deep_copy foreign p
    pure (as_object Object.cost_report c)

  unfoldable pub cost_report_list_deep_copy_object :
      Address (CostReportList Address) → Allocating (Option Object)
  unfolding ◌>>=◌ cost_report_list_deep_copy as_object
  cost_report_list_deep_copy_object p = do
    c ← cost_report_list_deep_copy foreign p
    pure (as_object Object.cost_report_list c)

  -- The call of the interface's method.
  unfoldable pub deep_copy_object : Object → Allocating (Option Object)
  unfolding namespace_budget_deep_copy_object namespace_budget_list_deep_copy_object
      cost_report_deep_copy_object cost_report_list_deep_copy_object
  deep_copy_object (Object.namespace_budget p) = namespace_budget_deep_copy_object p
  deep_copy_object (Object.namespace_budget_list p) = namespace_budget_list_deep_copy_object p
  deep_copy_object (Object.cost_report p) = cost_report_deep_copy_object p
  deep_copy_object (Object.cost_report_list p) = cost_report_list_deep_copy_object p

-- What an object in memory stands for.
pub data Contents : Type 0 where
  namespace_budget : NamespaceBudget Target → Contents
  namespace_budget_list : NamespaceBudgetList Target → Contents
  cost_report : CostReport Target → Contents
  cost_report_list : CostReportList Target → Contents

-- There is nothing behind a nil pointer.
unfoldable pub read_at :
    {A B : Type 0} → (A → Reading B) → (B → Contents) → Kind A → Address A → Reading Contents
unfolding Reading.◌>>=◌ at
read_at read wrap k none h = none
read_at read wrap k (some p) h =
    (Reading.◌>>=◌ (at k p) λ x. Reading.◌>>=◌ (read x) λ y. Reading.pure (wrap y)) h

unfoldable pub read_object : Object → Reading Contents
unfolding read_at
read_object (Object.namespace_budget p) =
    read_at read_namespace_budget Contents.namespace_budget budget_kind p
read_object (Object.namespace_budget_list p) =
    read_at read_namespace_budget_list Contents.namespace_budget_list budget_list_kind p
read_object (Object.cost_report p) = read_at read_cost_report Contents.cost_report report_kind p
read_object (Object.cost_report_list p) =
    read_at read_cost_report_list Contents.cost_report_list report_list_kind p
