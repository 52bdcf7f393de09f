-- ===== src/Controller/Reconcile/Unnotified.antt =====
-- A reconcile with a webhook and one without.
use namespace_cost_governor.Base.{String, not, List, ◌≡◌, refl, Result, ok, err, attempt}
use namespace_cost_governor.Go.Float.{Float64}
use namespace_cost_governor.Go.Time.{Time, is_zero}
use namespace_cost_governor.Api.{NamespaceBudget}
use namespace_cost_governor.Metrics.{Sample}
use namespace_cost_governor.Metrics.Prometheus.{query_instant}
use namespace_cost_governor.Outside.{Outside, clock}
use namespace_cost_governor.Outside.Alike.{Alike, Alike-refl, Alike-bind, Alike-if, Alike-finish}
use namespace_cost_governor.Outside.Laws.{IsLawful}
use namespace_cost_governor.Controller.{Reconciler, namespace_budget_finalizer}
use namespace_cost_governor.Controller.Lifecycle.{handle_deletion, register_finalizer}
use namespace_cost_governor.Controller.Month.{init_since, month_boundary, maybe_generate_report}
use namespace_cost_governor.Controller.Enforce.Silent.{without_webhook}
use namespace_cost_governor.Controller.Enforce.Unnotified.{enforce-Alike}
use namespace_cost_governor.Controller.Reconcile.{
  cpu_query, mem_query, account_and_enforce, with_memory, with_cpu, measure, dispatch,
  reconcile_budget, with_fetched, reconcile,
}

module _ {F : Float64} (O : Outside F) (L : IsLawful O) (r : Reconciler F) where
  account_and_enforce-Alike :
      (namespace previous_phase : String) (cpu mem : List (Sample F)) (b : NamespaceBudget)
      → Alike O
          (account_and_enforce O r namespace previous_phase cpu mem b)
          (account_and_enforce O (without_webhook r) namespace previous_phase cpu mem b)
  unfolding account_and_enforce
  account_and_enforce-Alike namespace previous_phase cpu mem b =
      Alike-bind O (clock O) _ _ λ now. Alike-finish O _ _ _ (enforce-Alike O L r _ _ _ _ _)

  with_memory-Alike :
      (namespace previous_phase : String) (cpu : List (Sample F)) (b : NamespaceBudget)
      (mem : Result (List (Sample F)))
      → Alike O
          (with_memory O r namespace previous_phase cpu b mem)
          (with_memory O (without_webhook r) namespace previous_phase cpu b mem)
  unfolding with_memory
  with_memory-Alike namespace previous_phase cpu b (err e) = Alike-refl O _
  with_memory-Alike namespace previous_phase cpu b (ok mem) =
      account_and_enforce-Alike namespace previous_phase cpu mem b

  with_cpu-Alike :
      (namespace previous_phase : String) (b : NamespaceBudget) (cpu : Result (List (Sample F)))
      → Alike O
          (with_cpu O r namespace previous_phase b cpu)
          (with_cpu O (without_webhook r) namespace previous_phase b cpu)
  unfolding with_cpu without_webhook mem_query
  with_cpu-Alike namespace previous_phase b (err e) = Alike-refl O _
  with_cpu-Alike namespace previous_phase b (ok cpu) =
      Alike-bind O (attempt (query_instant O r.prometheus_client (mem_query O r namespace))) _ _
        λ mem. with_memory-Alike namespace previous_phase cpu b mem

  dispatch-Alike :
      (namespace : String) (b : NamespaceBudget)
      → Alike O (dispatch O r namespace b) (dispatch O (without_webhook r) namespace b)
  unfolding dispatch measure without_webhook cpu_query
  dispatch-Alike namespace b =
      Alike-if O (not (is_zero b.deletion_timestamp)) _ _ _ _ (Alike-refl O (handle_deletion O b)) (
        Alike-if O (not (O.contains_finalizer b namespace_budget_finalizer)) _ _ _ _
          (Alike-refl O (register_finalizer O b))
          (Alike-bind O (attempt (query_instant O r.prometheus_client (cpu_query O r namespace))) _
            _ λ cpu. with_cpu-Alike namespace b.status.phase b cpu))

  month_boundary-without_webhook :
      (now : Time) (b : NamespaceBudget)
      → month_boundary O (without_webhook r) now b ≡ month_boundary O r now b
  unfolding month_boundary without_webhook maybe_generate_report
  month_boundary-without_webhook now b = refl

  with_fetched-Alike :
      (namespace : String) (fetched : Result NamespaceBudget)
      → Alike O
          (with_fetched O r namespace fetched)
          (with_fetched O (without_webhook r) namespace fetched)
  unfolding with_fetched reconcile_budget
  with_fetched-Alike namespace (err e) = Alike-refl O _
  with_fetched-Alike namespace (ok budget) = Alike-bind O (clock O) _ _ λ now.
      rw (month_boundary-without_webhook now (init_since O.calendar now budget)) (
        Alike-bind O (month_boundary O r now (init_since O.calendar now budget)) _ _
          λ b. dispatch-Alike namespace b)

  -- The webhook decides on the notification alone: a reconcile returns what it returns without one,
  -- and leaves the same cluster, whether or not a notification is sent, and whether or not it
  -- arrives.
  pub reconcile-Alike :
      (namespace name : String)
      → Alike O (reconcile O r namespace name) (reconcile O (without_webhook r) namespace name)
  unfolding reconcile
  reconcile-Alike namespace name =
      Alike-bind O (attempt (O.get_budget namespace name)) _ _
        λ fetched. with_fetched-Alike namespace fetched
