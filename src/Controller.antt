-- ===== src/Controller.antt =====
-- internal/controller/namespacebudget_controller.go: the reconciler of NamespaceBudgets. Its pure
-- parts and its steps are in the modules below; `reconcile` composes them. Log lines are not
-- modelled.
pub mod Phase
pub mod Conditions
pub mod IdleStatus
pub mod Accounting
pub mod Month
pub mod Lifecycle
pub mod Enforce
pub mod Reconcile
pub mod Life
pub mod CostReports
use namespace_cost_governor.Base.{String, Bool}
use namespace_cost_governor.Go.Float.{Float64}
use namespace_cost_governor.Go.Time.{Duration}
use namespace_cost_governor.Metrics.Prometheus.{Client}

-- `NamespaceBudgetReconciler`, without the Kubernetes client, which is the argument `O`.
pub record Reconciler (F : Float64) : Type 0 where
  pub prometheus_client : Client
  pub slack_webhook_url : String
  pub cpu_price_per_core_hour : F.Carrier
  pub mem_price_per_gib_hour : F.Carrier

-- `ctrl.Result`
pub record ReconcileResult : Type 0 where
  pub requeue : Bool
  pub requeue_after : Duration

abbrev pub namespace_budget_finalizer : String
namespace_budget_finalizer = "cost.platform.io/cleanup"

abbrev pub phase_exceeded : String
phase_exceeded = "Exceeded"

abbrev pub phase_suspended : String
phase_suspended = "Suspended"
