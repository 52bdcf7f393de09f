-- ===== src/Controller/Reconcile.antt =====
-- `Reconcile`, and the Prometheus queries of its step 4.
pub mod Spared
pub mod Failing
pub mod Requeued
pub mod Unnotified
use namespace_cost_governor.Base.{
  String, ◌<>◌, ◌==◌, not, Bool, true, false, List, if◌then◌else◌, Result, ok, err, Exec, pure,
  throw, attempt, ◌>>=◌, ◌>>◌,
}
use namespace_cost_governor.Base.Int.{ℤ}
use namespace_cost_governor.Go.Float.{Float64}
use namespace_cost_governor.Go.Time.{Time, is_zero, minute}
use namespace_cost_governor.Api.{NamespaceBudget}
use namespace_cost_governor.Metrics.{Sample}
use namespace_cost_governor.Metrics.Prometheus.{query_instant}
use namespace_cost_governor.Outside.{Outside, clock, is_not_found}
use namespace_cost_governor.Controller.{Reconciler, ReconcileResult, namespace_budget_finalizer}
use namespace_cost_governor.Controller.Phase.{determine_phase}
use namespace_cost_governor.Controller.Accounting.{accumulate, budget_percent}
use namespace_cost_governor.Controller.Month.{init_since, month_boundary}
use namespace_cost_governor.Controller.Lifecycle.{finished, handle_deletion, register_finalizer}
use namespace_cost_governor.Controller.Enforce.{enforce}

-- `ctrl.Result{RequeueAfter: time.Minute}`
abbrev pub in_a_minute : ReconcileResult
in_a_minute = record { requeue = false; requeue_after = minute }

module _ {F : Float64} (O : Outside F) (r : Reconciler F) where
  unfoldable pub cpu_query : String → String
  cpu_query namespace =
      "sum by (pod) (rate(container_cpu_usage_seconds_total{namespace=\""
      <> (namespace <> "\", container!=\"\"}[5m]))")

  unfoldable pub mem_query : String → String
  mem_query namespace =
      "sum by (pod) (container_memory_working_set_bytes{namespace=\""
      <> (namespace <> "\", container!=\"\"})")

  -- Steps 5 to 11, from the samples.
  unfoldable pub account_and_enforce :
      String
      → String
      → List (Sample F)
      → List (Sample F)
      → NamespaceBudget
      → Exec O.World ReconcileResult
  account_and_enforce namespace previous_phase cpu_samples mem_samples b = do
    now ← clock O
    let b1 = record b { status = accumulate F now cpu_samples mem_samples b.status }
    let percent = budget_percent F b1.spec.monthly b1.status
    enforce O r namespace previous_phase (determine_phase F percent) (F.to_int percent) b1
    pure in_a_minute

  -- A failed query ends the reconcile until the next minute.
  unfoldable pub with_memory :
      String
      → String
      → List (Sample F)
      → NamespaceBudget
      → Result (List (Sample F))
      → Exec O.World ReconcileResult
  unfolding account_and_enforce
  with_memory namespace previous_phase cpu_samples b (err e) = pure in_a_minute
  with_memory namespace previous_phase cpu_samples b (ok mem_samples) =
      account_and_enforce namespace previous_phase cpu_samples mem_samples b

  unfoldable pub with_cpu :
      String → String → NamespaceBudget → Result (List (Sample F)) → Exec O.World ReconcileResult
  unfolding ◌>>=◌ with_memory
  with_cpu namespace previous_phase b (err e) = pure in_a_minute
  with_cpu namespace previous_phase b (ok cpu_samples) = do
    mem ← attempt (query_instant O r.prometheus_client (mem_query namespace))
    with_memory namespace previous_phase cpu_samples b mem

  -- Steps 4 to 11
  unfoldable pub measure : String → String → NamespaceBudget → Exec O.World ReconcileResult
  measure namespace previous_phase b = do
    cpu ← attempt (query_instant O r.prometheus_client (cpu_query namespace))
    with_cpu namespace previous_phase b cpu

  -- Steps 2 to 11, after the month boundary.
  unfoldable pub dispatch : String → NamespaceBudget → Exec O.World ReconcileResult
  dispatch namespace b =
      if not (is_zero b.deletion_timestamp)
      then handle_deletion O b
      else if not (O.contains_finalizer b namespace_budget_finalizer)
      then register_finalizer O b
      else measure namespace b.status.phase b

  -- What `Reconcile` does with the budget that it fetched.
  unfoldable pub reconcile_budget : String → NamespaceBudget → Exec O.World ReconcileResult
  reconcile_budget namespace budget = do
    now ← clock O
    b ← month_boundary O r now (init_since O.calendar now budget)
    dispatch namespace b

  -- A budget that is not found has been deleted.
  unfoldable pub with_fetched : String → Result NamespaceBudget → Exec O.World ReconcileResult
  with_fetched namespace (err e) = if is_not_found e then pure finished else throw e
  with_fetched namespace (ok budget) = reconcile_budget namespace budget

  unfoldable pub reconcile : String → String → Exec O.World ReconcileResult
  reconcile namespace name = do
    fetched ← attempt (O.get_budget namespace name)
    with_fetched namespace fetched
