-- ===== src/Controller/CostReports.antt =====
-- internal/controller/costreport_controller.go: the reconciler of CostReports, which does nothing.
use namespace_cost_governor.Base.{Exec, pure}
use namespace_cost_governor.Controller.{ReconcileResult}
use namespace_cost_governor.Controller.Lifecycle.{finished}

pub reconcile_report : {W : Type 0} → Exec W ReconcileResult
reconcile_report = pure finished
