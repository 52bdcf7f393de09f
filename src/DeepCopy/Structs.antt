-- ===== src/DeepCopy/Structs.antt =====
-- api/v1alpha1 (namespacebudget_types.go, costreport_types.go): the structs that hold slices or
-- pointers, as they lie in memory. `Ref A` is what a field holds for an `A` that stands behind a
-- slice, a map or a pointer: with `Address`, where it lies; with `Target`, what lies there. Both are `none`
-- at nil. The structs without references are those of Api.
use namespace_cost_governor.Base.{ℕ, String, Option, List}
use namespace_cost_governor.Base.Int.{ℤ}
use namespace_cost_governor.Go.Time.{Time}
use namespace_cost_governor.Base.Dict.{Dict}
use namespace_cost_governor.Api.Kube.{Condition}
use namespace_cost_governor.Api.{
  Usage, IdleThreshold, Action, AccumulatedUsage, TotalCost, TopConsumer, IdleEvent,
  SuspensionEvent,
}

abbrev pub Address : Type 0 → Type 0
Address A = Option ℕ

abbrev pub Target : Type 0 → Type 0
Target A = Option A

-- metav1.TypeMeta
pub record TypeMeta : Type 0 where
  pub kind : String
  pub api_version : String

-- metav1.ListMeta, of whose texts one stands for all
pub record ListMeta (Ref : Type 0 → Type 0) : Type 0 where
  pub resource_version : String
  pub remaining_item_count : Ref ℤ

-- metav1.LabelSelector: a map, and a slice of structs that hold a slice each
pub record LabelSelectorRequirement (Ref : Type 0 → Type 0) : Type 0 where
  pub key : String
  pub operator : String
  pub values : Ref (List String)

pub record LabelSelector (Ref : Type 0 → Type 0) : Type 0 where
  pub match_labels : Ref (Dict String)
  pub match_expressions : Ref (List (LabelSelectorRequirement Ref))

-- metav1.ObjectMeta: one text, one slice and one pointer of those that it has
pub record ObjectMeta (Ref : Type 0 → Type 0) : Type 0 where
  pub name : String
  pub namespace : String
  pub finalizers : Ref (List String)
  pub deletion_timestamp : Ref Time

pub record Actions (Ref : Type 0 → Type 0) : Type 0 where
  pub on_warning : Ref (List Action)
  pub on_exceeded : Ref (List Action)
  pub on_hard_limit : Ref (List Action)

pub record Exclusion (Ref : Type 0 → Type 0) : Type 0 where
  pub name : String
  pub label_selector : Ref (LabelSelector Ref)

pub record NamespaceBudgetSpec (Ref : Type 0 → Type 0) : Type 0 where
  pub monthly : Usage
  pub idle_threshold : IdleThreshold
  pub actions : Actions Ref
  pub exclusions : Ref (List (Exclusion Ref))

pub record IdleWorkload : Type 0 where
  pub name : String
  pub namespace : String
  pub idle_since : Time

pub record NamespaceBudgetStatus (Ref : Type 0 → Type 0) : Type 0 where
  pub phase : String
  pub current_usage : Usage
  pub accumulated : AccumulatedUsage
  pub last_reconcile : Time
  pub budget_percent : ℤ
  pub idle_workloads : Ref (List IdleWorkload)
  pub last_report_ref : String
  pub conditions : Ref (List Condition)

pub record NamespaceBudget (Ref : Type 0 → Type 0) : Type 0 where
  pub type_meta : TypeMeta
  pub object_meta : ObjectMeta Ref
  pub spec : NamespaceBudgetSpec Ref
  pub status : NamespaceBudgetStatus Ref

pub record NamespaceBudgetList (Ref : Type 0 → Type 0) : Type 0 where
  pub type_meta : TypeMeta
  pub list_meta : ListMeta Ref
  pub items : Ref (List (NamespaceBudget Ref))

pub record CostReportSpec : Type 0 where

pub record CostReportStatus (Ref : Type 0 → Type 0) : Type 0 where
  pub period : String
  pub namespace : String
  pub total_cost : TotalCost
  pub top_consumers : Ref (List TopConsumer)
  pub idle_events : Ref (List IdleEvent)
  pub suspended_events : Ref (List SuspensionEvent)
  pub conditions : Ref (List Condition)

pub record CostReport (Ref : Type 0 → Type 0) : Type 0 where
  pub type_meta : TypeMeta
  pub object_meta : ObjectMeta Ref
  pub spec : CostReportSpec
  pub status : CostReportStatus Ref

pub record CostReportList (Ref : Type 0 → Type 0) : Type 0 where
  pub type_meta : TypeMeta
  pub list_meta : ListMeta Ref
  pub items : Ref (List (CostReport Ref))
