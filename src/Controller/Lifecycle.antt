-- ===== src/Controller/Lifecycle.antt =====
-- Steps 2 and 3 of `Reconcile`: deletion with its `cleanup`, and the finalizer.
pub mod Cleanup
use namespace_cost_governor.Base.{
  String, ◌<>◌, Bool, true, false, List, [], ◌∷◌, if◌then◌else◌, Exec, pure, wrapping, ◌>>=◌, ◌>>◌,
}
use namespace_cost_governor.Base.Int.{pos}
use namespace_cost_governor.Go.Float.{Float64}
use namespace_cost_governor.Api.{NamespaceBudget}
use namespace_cost_governor.Api.Kube.{Deployment}
use namespace_cost_governor.Outside.{Outside}
use namespace_cost_governor.Actions.ScaleDown.{is_scaled_down_by_operator, restore}
use namespace_cost_governor.Controller.{ReconcileResult, namespace_budget_finalizer}

-- `ctrl.Result{}` and `ctrl.Result{Requeue: true}`
abbrev pub finished : ReconcileResult
finished = record { requeue = false; requeue_after = pos 0 }

abbrev pub requeue_now : ReconcileResult
requeue_now = record { requeue = true; requeue_after = pos 0 }

module _ {F : Float64} (O : Outside F) where
  -- The loop of `cleanup`: the first restore that fails ends it.
  unfoldable pub restore_each : String → List Deployment → Exec O.World Unit
  restore_each namespace [] = pure tt
  restore_each namespace (d ∷ deployments) =
      let rest = restore_each namespace deployments in
      if is_scaled_down_by_operator d
      then (do
        wrapping ("restoring Deployment " <> (d.name <> ": ")) (restore O namespace d.name)
        rest)
      else rest

  unfoldable pub cleanup : NamespaceBudget → Exec O.World Unit
  unfolding restore_each
  cleanup budget = do
    deployments ←
        wrapping "listing Deployments for NamespaceBudget cleanup: "
          (O.list_deployments budget.namespace)
    restore_each budget.namespace deployments

  unfoldable pub handle_deletion : NamespaceBudget → Exec O.World ReconcileResult
  unfolding cleanup
  handle_deletion budget =
      if O.contains_finalizer budget namespace_budget_finalizer
      then (do
        cleanup budget
        O.update_budget (O.remove_finalizer budget namespace_budget_finalizer)
        pure finished)
      else pure finished

  unfoldable pub register_finalizer : NamespaceBudget → Exec O.World ReconcileResult
  register_finalizer budget = do
    O.update_budget (O.add_finalizer budget namespace_budget_finalizer)
    pure requeue_now
