-- ===== src/Api.antt =====
-- api/v1alpha1 (namespacebudget_types.go, costreport_types.go): the custom resources, and of the
-- Kubernetes objects the fields that the program reads or writes. An empty or unset string is "".
pub mod Kube
use namespace_cost_governor.Base.{ℕ, String, Bool, Option, List}
use namespace_cost_governor.Base.Int.{ℤ}
use namespace_cost_governor.Go.Time.{Time}
use namespace_cost_governor.Api.Kube.{LabelSelector, Condition}

pub record Usage : Type 0 where
  pub cpu : String
  pub memory : String

pub record IdleThreshold : Type 0 where
  pub cpu_percent : ℤ
  pub window : String

pub record Action : Type 0 where
  pub notify : String
  pub scale_down_idle : Bool
  pub suspend_all : Bool

pub record Actions : Type 0 where
  pub on_warning : List Action
  pub on_exceeded : List Action
  pub on_hard_limit : List Action

pub record Exclusion : Type 0 where
  pub name : String
  pub label_selector : Option LabelSelector

pub record NamespaceBudgetSpec : Type 0 where
  pub monthly : Usage
  pub idle_threshold : IdleThreshold
  pub actions : Actions
  pub exclusions : List Exclusion

-- `IdleWorkload` of the status.
pub record IdleWorkloadStatus : Type 0 where
  pub name : String
  pub namespace : String
  pub idle_since : Time

pub record AccumulatedUsage : Type 0 where
  pub core_hours : String
  pub gib_hours : String
  pub since : String

pub record NamespaceBudgetStatus : Type 0 where
  pub phase : String
  pub current_usage : Usage
  pub accumulated : AccumulatedUsage
  pub last_reconcile : Time
  pub budget_percent : ℤ
  pub idle_workloads : List IdleWorkloadStatus
  pub last_report_ref : String
  pub conditions : List Condition

-- Of the metadata: the name, the namespace, the finalizers and the deletion time (zero if unset).
pub record NamespaceBudget : Type 0 where
  pub name : String
  pub namespace : String
  pub finalizers : List String
  pub deletion_timestamp : Time
  pub spec : NamespaceBudgetSpec
  pub status : NamespaceBudgetStatus

pub record TotalCost : Type 0 where
  pub core_hours : String
  pub gib_hours : String
  pub estimated_usd : String

pub record TopConsumer : Type 0 where
  pub workload : String
  pub cpu_percent : ℤ
  pub memory_percent : ℤ
  pub estimated_usd : String

pub record IdleEvent : Type 0 where
  pub workload : String
  pub scaled_down_at : String
  pub estimated_saved : String

pub record SuspensionEvent : Type 0 where
  pub workload : String
  pub scaled_down_at : String
  pub reason : String

pub record CostReportStatus : Type 0 where
  pub period : String
  pub namespace : String
  pub total_cost : TotalCost
  pub top_consumers : List TopConsumer
  pub idle_events : List IdleEvent
  pub suspended_events : List SuspensionEvent
  pub conditions : List Condition

pub record CostReport : Type 0 where
  pub name : String
  pub namespace : String
  pub status : CostReportStatus
